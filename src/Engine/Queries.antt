-- ===== src/Engine/Queries.antt =====
-- The correlated operations of rsbtd/src/engine/mod.rs: which events answer them.
-- `PeerSnapshot::from_info` copies the fields of a peer and is left out: a peer stays a number.
use rsbtd.Base.{
  ℕ, Bool, true, false, List, [], ◌∷◌, ◌++◌, Option, none, some, ◌==◌, ltb, if◌then◌else◌,
  get_elem?,
}
use rsbtd.Events.{Text, Bytes, TrackerInfo, EventKind}
use rsbtd.Alerts.{Session}
use rsbtd.Errors.{
  Done, Result, ok, err, ◌>>=◌, EngineError, torrent, invalid, unspecified_error, delete_failed,
  save_failed, scrape_error, no_trackers, tracker_outside,
}
use rsbtd.Registry.{TorrentEntry}
use rsbtd.Correlate.{
  Received, Matcher, Wait, returned, Guard, dropped, Post, is_torrent, request, request_serialized,
}
use rsbtd.Engine.{live_handle}

unfoldable pub torrent_error : Option ℕ → EngineError
torrent_error (some e) = torrent e
torrent_error none = invalid unspecified_error

-- `if !is_torrent(e, uuid) { return None; }` and the match behind it.
abbrev pub of_torrent : {A : Type 0} → ℕ → (EventKind → Option (Result A)) → Matcher A
of_torrent uuid answer e = if is_torrent e uuid then answer e.kind else none

abbrev pub removal_answer : Bool → EventKind → Option (Result Done)
removal_answer false EventKind.torrent_removed = some (ok tt)
removal_answer true EventKind.torrent_deleted = some (ok tt)
removal_answer true (EventKind.torrent_delete_failed error) =
    some (err (invalid (delete_failed error)))
removal_answer _ _ = none

abbrev pub save_answer : EventKind → Option (Result Done)
save_answer EventKind.resume_data_saved = some (ok tt)
save_answer (EventKind.resume_data_failed message) = some (err (invalid (save_failed message)))
save_answer _ = none

abbrev pub trackers_answer : EventKind → Option (Result (List TrackerInfo))
trackers_answer (EventKind.trackers list) = some (ok list)
trackers_answer _ = none

abbrev pub peers_answer : EventKind → Option (Result (List ℕ))
peers_answer (EventKind.peers list) = some (ok list)
peers_answer _ = none

abbrev pub move_answer : EventKind → Option (Result Text)
move_answer (EventKind.storage_moved path) = some (ok path)
move_answer (EventKind.storage_moved_failed error) = some (err (torrent_error error))
move_answer _ = none

abbrev pub rename_answer : ℕ → EventKind → Option (Result Text)
rename_answer index (EventKind.file_renamed i new_name) =
    if i == index then some (ok new_name) else none
rename_answer index (EventKind.file_rename_failed i error) =
    if i == index then some (err (torrent_error error)) else none
rename_answer index _ = none

abbrev pub piece_answer : ℕ → EventKind → Option (Result Bytes)
piece_answer piece (EventKind.read_piece p bytes error) =
    if p == piece
    then elim error [ some e ↦ some (err (torrent_error (some e))) | none ↦ some (ok bytes) ]
    else none
piece_answer piece _ = none

abbrev pub same_text : Text → Text → Bool
same_text [] [] = true
same_text (a ∷ l) (b ∷ k) = let rest = same_text l k in if a == b then rest else false
same_text _ _ = false

abbrev pub for_us : Text → Option Text → Bool
for_us expected_url none = true
for_us expected_url (some url) = same_text url expected_url

-- `(tracker_url, complete, incomplete)`.
abbrev pub scrape_answer : Text → EventKind → Option (Result (Option Text × ℕ × ℕ))
scrape_answer expected_url (EventKind.scrape_reply tracker_url incomplete complete) =
    if for_us expected_url tracker_url then some (ok (tracker_url, complete, incomplete)) else none
scrape_answer expected_url (EventKind.scrape_failed tracker_url error_message) =
    if for_us expected_url tracker_url
    then some (err (invalid (scrape_error error_message)))
    else none
scrape_answer expected_url _ = none

abbrev pub progress_answer : EventKind → Option (Result (List ℕ))
progress_answer (EventKind.file_progress progress) = some (ok progress)
progress_answer _ = none

-- What a call meets: whether the shutdown token is set, and what the bus carries while the operation
-- is posted and behind that.
pub record Call : Type 0 where
  pub cancelled : Bool
  pub during : List Received
  pub later : List Received

-- `?` on the handle, and the request.
abbrev pub ask : {A : Type 0} → Result Session → Call → (Session → Post) → Matcher A → Bool × Wait A
ask (err e) c post matcher = (false, returned (err e) (c.during ++ c.later))
ask (ok s) c post matcher = request c.cancelled (post s) c.during c.later matcher

abbrev pub ask_serialized :
    {A : Type 0}
    → Result Session
    → Call
    → ℕ
    → (Session → Post)
    → Matcher A
    → Bool × (Option (Result A) × Guard)
ask_serialized (err e) c uuid post matcher = (false, (some (err e), dropped (c.during ++ c.later)))
ask_serialized (ok s) c uuid post matcher =
    request_serialized c.cancelled uuid (post s) c.during c.later matcher

unfoldable pub trackers : Option Session → TorrentEntry → Call → Bool × Wait (List TrackerInfo)
trackers running entry c =
    ask (live_handle running entry) c (λ s. ok tt) (of_torrent entry.uuid trackers_answer)

unfoldable pub peers : Option Session → TorrentEntry → Call → Bool × Wait (List ℕ)
peers running entry c =
    ask (live_handle running entry) c (λ s. ok tt) (of_torrent entry.uuid peers_answer)

unfoldable pub file_progress : Option Session → TorrentEntry → Call → Bool × Wait (List ℕ)
file_progress running entry c =
    ask (live_handle running entry) c (λ s. ok tt) (of_torrent entry.uuid progress_answer)

unfoldable pub read_piece : Option Session → TorrentEntry → ℕ → Call → Bool × Wait Bytes
read_piece running entry piece c =
    ask (live_handle running entry) c (λ s. ok tt) (of_torrent entry.uuid (piece_answer piece))

-- The lock is held when the handle is looked up.
unfoldable pub move_storage :
    Option Session → TorrentEntry → Call → Bool × (Option (Result Text) × Guard)
move_storage running entry c =
    ask_serialized (live_handle running entry) c entry.uuid (λ s. ok tt)
      (of_torrent entry.uuid move_answer)

-- `renames` is the answer of the handle's `rename_file`.
unfoldable pub rename_file :
    Option Session → TorrentEntry → ℕ → Post → Call → Bool × (Option (Result Text) × Guard)
rename_file running entry index renames c =
    ask_serialized (live_handle running entry) c entry.uuid (λ s. renames)
      (of_torrent entry.uuid (rename_answer index))

abbrev pub first_tracker : List TrackerInfo → Text → Result Text
first_tracker [] working = err (invalid no_trackers)
first_tracker (t ∷ ts) [] = ok t.url
first_tracker (t ∷ ts) (a ∷ working) = ok (a ∷ working)

unfoldable pub working_url : List TrackerInfo → Result Text → Result Text
working_url [] status = err (invalid no_trackers)
working_url (t ∷ ts) status = do working ← status; first_tracker (t ∷ ts) working

-- The target of a scrape; `status` is the current tracker by the torrent's status. The index is an
-- i32 by its bit pattern, so that -1 is 2^32 - 1 and the negative ones begin at 2^31.
unfoldable pub scrape_url : List TrackerInfo → ℕ → Result Text → Result Text
unfolding working_url
scrape_url list index status =
    if index == 4294967295
    then working_url list status
    else elim (if ltb index 2147483648 then get_elem? list index else none) [
      | some tracker ↦ ok tracker.url
      | none ↦ err (invalid (tracker_outside index))
    ]

-- `scrape_tracker` behind its query of the tracker list.
unfoldable pub scrape_tracker :
    Result (List TrackerInfo)
    → ℕ
    → Result Text
    → Option Session
    → TorrentEntry
    → Call
    → Bool × (Option (Result (Option Text × ℕ × ℕ)) × Guard)
scrape_tracker listed index status running entry c =
    elim (listed >>= (λ list. scrape_url list index status)) [
      | err e ↦ (false, (some (err e), dropped (c.during ++ c.later)))
      | ok url ↦
          ask_serialized (live_handle running entry) c entry.uuid (λ s. ok tt)
            (of_torrent entry.uuid (scrape_answer url))
    ]
