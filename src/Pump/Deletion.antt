-- ===== src/Pump/Deletion.antt =====
-- Behind the deletion of a resume file rsbtd/src/engine/pump.rs queues no write of that file.
use rsbtd.Base.{
  ℕ, ◌≤◌, ◌≡◌, refl, Bool, true, false, List, [], ◌∷◌, ◌++◌, Option, none, some, arith, ◌∙◌, subst,
  ==_refl,
}
use rsbtd.Inflight.{Alive, Alive-value}
use rsbtd.Events.{EventKind}
use rsbtd.Persist.{delete_resume}
use rsbtd.Registry.{TorrentEntry, find, find_by_token}
use rsbtd.Registry.Invariant.{Inv}
use rsbtd.Alerts.{AlertHandle, Session, Alert}
use rsbtd.Pump.{
  Pump, torrent_of, publish, release, on_torrent_removed, report, handle_alert, handle_batch,
}
use rsbtd.Pump.Accounting.{Balanced, NoneDropped, all_responses, handle_batch-Runs}
use rsbtd.Pump.Removal.{on_torrent_removed_lem}
use rsbtd.Pump.Gone.{
  Later, Gone, Later-refl, Gone-bind, kept, publish-Gone, release-Gone, on_torrent_removed-Gone,
  on_save_resume_data-Gone, on_metadata_received-Gone, on_torrent_finished-Gone,
  on_storage_moved-Gone, report_delete-Gone,
}

-- Does the alert register a torrent?
abbrev pub adds : Alert → Bool
adds (Alert.add_torrent e h) = true
adds _ = false

abbrev pub NoneAdded : List (Session × ℕ × Alert) → Type 0
NoneAdded [] = Unit
NoneAdded ((se, now, a) ∷ alerts) = (adds a ≡ false) × NoneAdded alerts

report-Gone :
    (u : ℕ) (h : Option AlertHandle) (k : EventKind) (p : Pump)
    → find p.registry u ≡ none
    → Gone u p (report h k p)
unfolding report
report-Gone u h k p n = publish-Gone u (torrent_of p.registry h) k p n

handle_alert-Gone :
    (se : Session) (now u : ℕ) (a : Alert) (p : Pump)
    → adds a ≡ false
    → find p.registry u ≡ none
    → Gone u p (handle_alert se now a p)
unfolding handle_alert
handle_alert-Gone se now u (Alert.add_torrent e h) p b n = absurd (cc b)
handle_alert-Gone se now u (Alert.torrent_removed t) p b n = on_torrent_removed-Gone u t p n
handle_alert-Gone se now u (Alert.torrent_finished h) p b n = on_torrent_finished-Gone se u _ p n
handle_alert-Gone se now u (Alert.save_resume_data h d) p b n = on_save_resume_data-Gone u _ d p n
handle_alert-Gone se now u (Alert.save_resume_data_failed h e) p b n =
    Gone-bind u p (release p) _ (release-Gone u p n) (λ q m. report-Gone u h _ q m)
handle_alert-Gone se now u Alert.alerts_dropped p b n = tt
handle_alert-Gone se now u (Alert.torrent_deleted h) p b n = report_delete-Gone u h _ p n
handle_alert-Gone se now u (Alert.torrent_delete_failed h e) p b n = report_delete-Gone u h _ p n
handle_alert-Gone se now u (Alert.metadata_received h) p b n = on_metadata_received-Gone se u h p n
handle_alert-Gone se now u (Alert.storage_moved h path) p b n = on_storage_moved-Gone se u _ _ p n
handle_alert-Gone se now u _ p b n = unfold report publish in (n, Later-refl u p.ops)

handle_batch-Gone :
    (u : ℕ) (alerts : List (Session × ℕ × Alert)) (p : Pump)
    → NoneAdded alerts
    → find p.registry u ≡ none
    → Gone u p (handle_batch alerts p)
unfolding handle_batch
handle_batch-Gone u [] p b n = kept u p p refl refl n
handle_batch-Gone u ((se, now, a) ∷ alerts) p (b, bs) n =
    Gone-bind u p (handle_alert se now a p) (handle_batch alerts)
      (handle_alert-Gone se now u a p b n) (λ q m. handle_batch-Gone u alerts q bs m)

-- Behind the removal alert of a registered torrent, no further alerts of the batch bring its resume file
-- back: its deletion is queued, no write of this torrent is queued behind it, be there save
-- answers of it among the alerts or not, and the torrent stays unregistered. This is for a batch that
-- adds no torrent and drops no alerts, and a count that covers the saves it answers.
pub deletion_is_last :
    (se : Session) (now token : ℕ) (e : TorrentEntry) (alerts : List (Session × ℕ × Alert))
    (p : Pump)
    → Inv p.registry
    → find_by_token p.registry token ≡ some e
    → NoneAdded alerts
    → NoneDropped alerts
    → all_responses alerts ≤ p.inflight
    → Alive
        (λ q.
          (find q.registry e.uuid ≡ none)
          × Later e.uuid (p.ops ++ (delete_resume e.uuid ∷ [])) q.ops)
        (handle_batch ((se, now, Alert.torrent_removed token) ∷ alerts) p)
unfolding handle_batch handle_alert
deletion_is_last se now token e alerts p v f b d i =
    let g = on_torrent_removed_lem token e p v f in
    let q = on_torrent_removed token p in
    let n : find q.registry e.uuid ≡ none = g.unregistered.by_uuid e.uuid ∙ rw (==_refl e.uuid) in
    let (t, h, b') =
      Alive-value (λ t. Balanced q t (all_responses alerts)) (handle_batch alerts q)
        (handle_batch-Runs alerts q d (omega (arith, g.count))) in
    let (m, l) = subst (Gone e.uuid q) h (handle_batch-Gone e.uuid alerts q b n) in
    rw h (m, subst (λ ops. Later e.uuid ops t.ops) g.deletes l)
