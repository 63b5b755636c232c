-- ===== src/Pump.antt =====
-- rsbtd/src/engine/pump.rs: the task that turns libtorrent's alerts into events, registry updates
-- and persist operations.
-- The session is libtorrent's: `Session` holds what it answers while one alert is handled. The
-- event bus and the posted saves are the lists of what was sent, the oldest first.
pub mod Accounting
pub mod Removal
pub mod Gone
pub mod Deletion
pub mod Retry
pub mod Quiet
mod Tests
use mathlib.Core.Option
use rsbtd.Base.{
  ℕ, zero, suc, ◌+◌, ◌-◌, get_elem?, swap_remove, ◌≡◌, Bool, true, false, ◌&&◌, ◌||◌, List, [], ◌∷◌,
  ◌++◌, Option, none, some, ◌==◌, if◌then◌else◌, is_some,
}
use rsbtd.Base.Set
use rsbtd.Alerts.{
  AlertHandle, Session, Serialized, Alert, resume_flush_disk_cache, resume_save_info_dict,
}
use rsbtd.Types.{InfoHash, overlaps}
use rsbtd.Events.{Event, EventKind, ResumeFailure}
use rsbtd.Inflight.{Process, alive, aborted, ◌>>=◌, inc, dec}
use rsbtd.Persist.{PersistOp, write_resume, delete_resume}
use rsbtd.Registry.{Registry, TorrentEntry, get_id, find, upsert, remove_by_token}

-- `BatchState`, with the shared objects that it borrows.
pub record Pump : Type 0 where
  pub registry : Registry
  pub inflight : ℕ
  pub dirty : List ℕ
  pub quiesce : Bool
  pub pending_deletes : List (InfoHash × ℕ)
  pub ops : List PersistOp
  pub events : List Event
  pub posted : List (ℕ × ℕ)

unfoldable pub publish : Option ℕ → EventKind → Pump → Pump
publish torrent kind p = record p {
  events = p.events ++ (record { torrent = torrent; kind = kind } ∷ []);
}

unfoldable pub push : PersistOp → Pump → Pump
push op p = record p { ops = p.ops ++ (op ∷ []) }

unfoldable pub release : Pump → Process Pump
release p = do n ← dec p.inflight; alive (record p { inflight = n })

-- The count is raised before the post; a refused post takes it back.
unfoldable pub post_save : Session → ℕ → ℕ → Pump → Process Pump
post_save se token flags p =
    let q : Pump = record p { inflight = inc p.inflight } in
    if se.saves token flags
    then alive (record q { posted = q.posted ++ ((token, flags) ∷ []) })
    else release q

unfoldable pub request_save : Session → ℕ → ℕ → Pump → Process Pump
request_save se uuid flags p = if p.quiesce then alive p else elim (find p.registry uuid) [
  | none ↦ alive p
  | some entry ↦ if se.has_token entry.token then post_save se entry.token flags p else alive p
]

-- The torrent of an alert; one that is not registered (yet) answers by its client data.
unfoldable pub torrent_of : Registry → Option AlertHandle → Option ℕ
torrent_of r none = none
torrent_of r (some h) =
    if h.id == 0
    then none
    else elim (get_id r h.id) [ some entry ↦ some entry.uuid | none ↦ h.client_data_uuid ]

-- `position` of the first entry whose hashes overlap.
unfoldable pub position : InfoHash → List (InfoHash × ℕ) → Option ℕ
position h [] = none
position h ((k, u) ∷ pending) =
    if overlaps k h
    then some 0
    else elim (position h pending) [ none ↦ none | some i ↦ some (suc i) ]

-- The torrent whose parked removal the hashes belong to; its entry is taken out.
unfoldable pub take_pending_delete : InfoHash → Pump → Pump × Option ℕ
take_pending_delete h p = elim (position h p.pending_deletes) [
  | none ↦ (p, none)
  | some i ↦ (
    record p { pending_deletes = swap_remove p.pending_deletes i },
    Option.map (λ e. e.1) (get_elem? p.pending_deletes i),
  )
]

-- The arms of `handle_alert` that do more than publish.
unfoldable pub on_add_torrent : Option ℕ → AlertHandle → ℕ → Pump → Pump
on_add_torrent (some e) h now p = p
on_add_torrent none h now p = elim h.client_data_token [
  | none ↦ p
  | some token ↦ elim h.client_data_uuid [
    | none ↦ p
    | some uuid ↦
        let (r, entry) = upsert p.registry h.id token uuid now in
        publish (some entry.uuid) EventKind.torrent_added (record p { registry = r })
  ]
]

unfoldable pub on_torrent_removed : ℕ → Pump → Pump
on_torrent_removed token p =
    let (r, removed) = remove_by_token p.registry token in
    let q : Pump = record p { registry = r } in
    elim removed [
      | none ↦ publish none EventKind.torrent_removed q
      | some entry ↦
          publish (some entry.uuid) EventKind.torrent_removed
            (push (delete_resume entry.uuid) (record q { dirty = Set.remove entry.uuid q.dirty }))
    ]

unfoldable pub on_torrent_finished : Session → Option ℕ → Pump → Process Pump
on_torrent_finished se none p = alive p
on_torrent_finished se (some uuid) p = do
  q ← request_save se uuid (resume_save_info_dict + resume_flush_disk_cache) p
  alive (publish (some uuid) EventKind.torrent_finished q)

-- A response of a torrent that is gone only gives its token back.
unfoldable pub on_save_resume_data : Option ℕ → Serialized → Pump → Process Pump
on_save_resume_data none data_ p = release p
on_save_resume_data (some uuid) data_ p =
    if is_some (find p.registry uuid)
    then elim data_ [
      | Serialized.bytes b ↦ alive (push (write_resume uuid b none) p)
      | Serialized.error e ↦ do
        q ← release p
        alive
            (publish (some uuid) (EventKind.resume_data_failed (ResumeFailure.not_serialized e)) q)
    ]
    else release p

unfoldable pub on_storage_moved : Session → Option ℕ → EventKind → Pump → Process Pump
on_storage_moved se none kind p = alive (publish none kind p)
on_storage_moved se (some uuid) kind p = do
  q ← request_save se uuid resume_save_info_dict p
  alive (publish (some uuid) kind q)

-- `raw.torrent_handle()` and its registry entry.
unfoldable pub on_metadata_received : Session → Option AlertHandle → Pump → Process Pump
on_metadata_received se none p = alive p
on_metadata_received se (some h) p = elim (get_id p.registry h.id) [
  | none ↦ alive p
  | some entry ↦ do
    q ← request_save se entry.uuid resume_save_info_dict p
    alive (publish (some entry.uuid) EventKind.metadata_received q)
]

-- The arms that only publish an event of the alert's torrent.
unfoldable pub report : Option AlertHandle → EventKind → Pump → Process Pump
report h kind p = alive (publish (torrent_of p.registry h) kind p)

unfoldable pub report_delete : InfoHash → EventKind → Pump → Process Pump
report_delete h kind p =
    let (q, torrent) = take_pending_delete h p in alive (publish torrent kind q)

unfoldable pub handle_alert : Session → ℕ → Alert → Pump → Process Pump
handle_alert se now (Alert.add_torrent e h) p = alive (on_add_torrent e h now p)
handle_alert se now (Alert.torrent_removed token) p = alive (on_torrent_removed token p)
handle_alert se now (Alert.torrent_finished h) p =
    on_torrent_finished se (torrent_of p.registry h) p
handle_alert se now (Alert.save_resume_data h b) p =
    on_save_resume_data (torrent_of p.registry h) b p
handle_alert se now (Alert.save_resume_data_failed h e) p = do
  q ← release p
  report h (EventKind.resume_data_failed (ResumeFailure.not_generated e)) q
handle_alert se now (Alert.state_update s) p = alive (publish none (EventKind.state_update s) p)
handle_alert se now (Alert.state_changed h s s') p = report h (EventKind.state_changed s s') p
handle_alert se now (Alert.torrent_error h e f) p = report h (EventKind.torrent_error e f) p
handle_alert se now (Alert.metadata_failed h e) p = report h (EventKind.metadata_failed e) p
handle_alert se now (Alert.file_renamed h i n) p = report h (EventKind.file_renamed i n) p
handle_alert se now (Alert.file_rename_failed h i e) p =
    report h (EventKind.file_rename_failed i e) p
handle_alert se now (Alert.storage_moved h path) p =
    on_storage_moved se (torrent_of p.registry h) (EventKind.storage_moved path) p
handle_alert se now (Alert.storage_moved_failed h e) p =
    report h (EventKind.storage_moved_failed e) p
handle_alert se now (Alert.read_piece h i d e) p = report h (EventKind.read_piece i d e) p
handle_alert se now (Alert.tracker_list h l) p = report h (EventKind.trackers l) p
handle_alert se now (Alert.peer_info h l) p = report h (EventKind.peers l) p
handle_alert se now (Alert.file_progress h l) p = report h (EventKind.file_progress l) p
handle_alert se now (Alert.scrape_reply h url i c) p = report h (EventKind.scrape_reply url i c) p
handle_alert se now (Alert.scrape_failed h url m) p = report h (EventKind.scrape_failed url m) p
handle_alert se now (Alert.torrent_deleted h) p = report_delete h EventKind.torrent_deleted p
handle_alert se now (Alert.torrent_delete_failed h e) p =
    report_delete h (EventKind.torrent_delete_failed e) p
handle_alert se now Alert.alerts_dropped p = aborted
handle_alert se now (Alert.session_error e) p = alive (publish none (EventKind.session_error e) p)
handle_alert se now (Alert.metadata_received h) p = on_metadata_received se h p
handle_alert se now Alert.other p = alive p

-- One batch: each alert comes with what the session answers and with the time.
unfoldable pub handle_batch : List (Session × ℕ × Alert) → Pump → Process Pump
handle_batch [] p = alive p
handle_batch ((se, now, a) ∷ alerts) p = do q ← handle_alert se now a p; handle_batch alerts q
