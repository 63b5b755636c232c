-- ===== src/Engine/Matching.antt =====
-- Which event answers which operation of rsbtd/src/engine/mod.rs, and which alert brings it
-- (rsbtd/src/engine/pump.rs).
use rsbtd.Base.{
  ℕ, suc, ◌≤◌, ◌≡◌, ◌⊎◌, refl, Bool, true, false, List, [], ◌∷◌, ◌++◌, Option, none, some, arith,
  is_some, ==_refl, length, get_elem?, ap, ◌∙◌, zero, ◌≢◌, inl, inr,
}
use rsbtd.Events.{Text, Bytes, TrackerInfo, Event, EventKind}
use rsbtd.Alerts.{Session, Alert, AlertHandle}
use rsbtd.Errors.{Result, ok, err, torrent, invalid, tracker_outside}
use rsbtd.Inflight.{Alive}
use rsbtd.Registry.{TorrentEntry}
use rsbtd.Correlate.{is_torrent, dropped}
use rsbtd.Pump.{Pump, handle_alert, report, publish, torrent_of}
use rsbtd.Engine.Queries.{
  of_torrent, removal_answer, save_answer, trackers_answer, peers_answer, move_answer,
  rename_answer, piece_answer, scrape_answer, progress_answer, torrent_error, scrape_url, same_text,
  scrape_tracker, Call,
}

-- The operations that wait on the bus, with what tells two of one kind apart: whether the removal
-- deletes the files, the index of the renamed file, the piece, the URL of the tracker.
pub data Operation : Type 0 where
  removal : Bool → Operation
  save : Operation
  trackers_query : Operation
  peers_query : Operation
  move : Operation
  renaming : ℕ → Operation
  piece_read : ℕ → Operation
  scrape : Text → Operation
  progress_query : Operation

-- Does the event answer the operation?
unfoldable pub takes : Operation → EventKind → Bool
takes (removal files) k = is_some (removal_answer files k)
takes save k = is_some (save_answer k)
takes trackers_query k = is_some (trackers_answer k)
takes peers_query k = is_some (peers_answer k)
takes move k = is_some (move_answer k)
takes (renaming index) k = is_some (rename_answer index k)
takes (piece_read piece) k = is_some (piece_answer piece k)
takes (scrape url) k = is_some (scrape_answer url k)
takes progress_query k = is_some (progress_answer k)

-- The operation that an event reports on, by the event's name and data. A reply of a tracker that is
-- not named may be one to any scrape.
unfoldable pub ReportsOn : EventKind → Operation → Type 0
ReportsOn EventKind.torrent_removed op = op ≡ removal false
ReportsOn EventKind.torrent_deleted op = op ≡ removal true
ReportsOn (EventKind.torrent_delete_failed error) op = op ≡ removal true
ReportsOn EventKind.resume_data_saved op = op ≡ save
ReportsOn (EventKind.resume_data_failed message) op = op ≡ save
ReportsOn (EventKind.trackers list) op = op ≡ trackers_query
ReportsOn (EventKind.peers list) op = op ≡ peers_query
ReportsOn (EventKind.storage_moved path) op = op ≡ move
ReportsOn (EventKind.storage_moved_failed error) op = op ≡ move
ReportsOn (EventKind.file_renamed index name) op = op ≡ renaming index
ReportsOn (EventKind.file_rename_failed index error) op = op ≡ renaming index
ReportsOn (EventKind.read_piece piece bytes error) op = op ≡ piece_read piece
ReportsOn (EventKind.scrape_reply none incomplete complete) op = (url : Text) × (op ≡ scrape url)
ReportsOn (EventKind.scrape_reply (some url) incomplete complete) op = op ≡ scrape url
ReportsOn (EventKind.scrape_failed none message) op = (url : Text) × (op ≡ scrape url)
ReportsOn (EventKind.scrape_failed (some url) message) op = op ≡ scrape url
ReportsOn (EventKind.file_progress progress) op = op ≡ progress_query
ReportsOn _ op = ⊥

same_text_sound : (a b : Text) → same_text a b ≡ true → a ≡ b
same_text_sound [] [] h = refl
same_text_sound [] (b ∷ k) h = cc
same_text_sound (a ∷ l) [] h = cc
same_text_sound (a ∷ l) (b ∷ k) h = ground (arith, same_text_sound l k)

-- An answer is only ever taken from an event of the torrent that was asked for.
pub of_torrent-own :
    {A : Type 0} (uuid : ℕ) (answer : EventKind → Option (Result A)) (e : Event) (r : Result A)
    → of_torrent uuid answer e ≡ some r
    → e.torrent ≡ some uuid
unfolding is_torrent
of_torrent-own uuid answer e r h = ground arith

-- The event that the pump publishes last.
abbrev pub last_event : List Event → Event → Event
last_event [] d = d
last_event (e ∷ es) d = last_event es e

last_event-publish : (es : List Event) (e d : Event) → last_event (es ++ (e ∷ [])) d ≡ e
last_event-publish [] e d = refl
last_event-publish (x ∷ es) e d = last_event-publish es e x

report-answer :
    {A : Type 0} (answer : EventKind → Option (Result A)) (kind : EventKind) (h : AlertHandle)
    (p : Pump) (d : Event) (uuid : ℕ) {r : Result A}
    → torrent_of p.registry (some h) ≡ some uuid
    → answer kind ≡ some r
    → Alive (λ q. of_torrent uuid answer (last_event q.events d) ≡ some r) (report (some h) kind p)
unfolding report publish is_torrent
report-answer answer kind h p d uuid k m =
    let e : Event = record { torrent = torrent_of p.registry (some h); kind = kind } in
    ap (of_torrent uuid answer) (last_event-publish p.events e d) ∙ ground (arith, ==_refl uuid)

-- The alerts that libtorrent posts for a query reach the caller: the event that the pump publishes
-- for such an alert of a known torrent answers the query of that torrent, with the alert's data. A
-- piece that could not be read is answered by its error.
pub replies-answer :
    (se : Session) (now : ℕ) (h : AlertHandle) (p : Pump) (d : Event) (uuid piece : ℕ)
    (list : List TrackerInfo) (numbers : List ℕ) (bytes : Bytes) (e : ℕ)
    → torrent_of p.registry (some h) ≡ some uuid
    → Alive
        (λ q. of_torrent uuid trackers_answer (last_event q.events d) ≡ some (ok list))
        (handle_alert se now (Alert.tracker_list (some h) list) p)
      × Alive
          (λ q. of_torrent uuid peers_answer (last_event q.events d) ≡ some (ok numbers))
          (handle_alert se now (Alert.peer_info (some h) numbers) p)
      × Alive
          (λ q. of_torrent uuid progress_answer (last_event q.events d) ≡ some (ok numbers))
          (handle_alert se now (Alert.file_progress (some h) numbers) p)
      × Alive
          (λ q. of_torrent uuid (piece_answer piece) (last_event q.events d) ≡ some (ok bytes))
          (handle_alert se now (Alert.read_piece (some h) piece bytes none) p)
      × Alive
          (λ q.
            of_torrent uuid (piece_answer piece) (last_event q.events d) ≡ some (err (torrent e)))
          (handle_alert se now (Alert.read_piece (some h) piece bytes (some e)) p)
unfolding handle_alert torrent_error
replies-answer se now h p d uuid piece list numbers bytes e k = (
  report-answer trackers_answer (EventKind.trackers list) h p d uuid k refl,
  report-answer peers_answer (EventKind.peers numbers) h p d uuid k refl,
  report-answer progress_answer (EventKind.file_progress numbers) h p d uuid k refl,
  report-answer (piece_answer piece) (EventKind.read_piece piece bytes none) h p d uuid k
      (ground (arith, ==_refl piece)),
  report-answer (piece_answer piece) (EventKind.read_piece piece bytes (some e)) h p d uuid k
      (ground (arith, ==_refl piece)),
)

get_elem?-outside : {A : Type 0} (xs : List A) (i : ℕ) → length xs ≤ i → get_elem? xs i ≡ none
get_elem?-outside [] i h = refl
get_elem?-outside (x ∷ xs) zero h = absurd (omega (arith, h))
get_elem?-outside (x ∷ xs) (suc i) h = get_elem?-outside xs i (omega (arith, h))

-- A tracker index that is not -1 and not of a tracker is refused before anything is posted or waited
-- for: negative, or not below the number of trackers.
pub scrape_tracker-outside :
    (list : List TrackerInfo) (index : ℕ) (status : Result Text) (running : Option Session)
    (entry : TorrentEntry) (c : Call)
    → index ≢ 4294967295
    → (length list ≤ index) ⊎ (2147483648 ≤ index)
    → scrape_tracker (ok list) index status running entry c
      ≡ (false, (some (err (invalid (tracker_outside index))), dropped (c.during ++ c.later)))
unfolding scrape_tracker scrape_url
scrape_tracker-outside list index status running entry c n (inl h) =
    ground (arith, get_elem?-outside list index h)
scrape_tracker-outside list index status running entry c n (inr h) = ground arith

-- A scrape is answered only by a reply of its own torrent that names the tracker it was sent to, or
-- none: the reply of another tracker's automatic scrape is passed over.
scrape_answer-own :
    (uuid complete incomplete : ℕ) (url named : Text) (e : Event)
    → of_torrent uuid (scrape_answer url) e ≡ some (ok (some named, complete, incomplete))
    → (e.torrent ≡ some uuid) × (named ≡ url)
unfolding is_torrent
scrape_answer-own uuid complete incomplete url named e h = ground (arith, same_text_sound named url)
