-- ===== src/Pump/Accounting.antt =====
-- The in-flight count of rsbtd/src/engine/pump.rs against the saves that were posted and the
-- writes that were queued.
use rsbtd.Base.{
  ℕ, ◌+◌, ◌≤◌, ◌≡◌, ◌≢◌, refl, ap, inl, inr, List, [], ◌∷◌, ◌++◌, Option, none, some, arith,
  Option-cases, length, length-append,
}
use rsbtd.Inflight.{Alive, >>=-Alive, Alive-map, Process, alive, ◌>>=◌, inc, dec}
use rsbtd.Events.{EventKind}
use rsbtd.Persist.{PersistOp, write_resume, delete_resume}
use rsbtd.Persist.Queue.{tokens}
use rsbtd.Registry.{find, get_id, remove_by_token}
use rsbtd.Alerts.{AlertHandle, Session, Serialized, Alert, resume_save_info_dict}
use rsbtd.Types.{InfoHash}
use rsbtd.Pump.{
  Pump, publish, push, release, post_save, request_save, take_pending_delete, on_add_torrent,
  on_torrent_removed, on_torrent_finished, on_save_resume_data, on_storage_moved,
  on_metadata_received, report, report_delete, handle_alert, handle_batch,
}

abbrev pub writes : List PersistOp → ℕ
writes [] = 0
writes (op ∷ ops) = tokens op + writes ops

pub writes-append : (xs ys : List PersistOp) → writes (xs ++ ys) ≡ writes xs + writes ys
writes-append [] ys = omega arith
writes-append (x ∷ xs) ys = omega (arith, writes-append xs ys)

-- The saves that an alert answers.
abbrev pub responses : Alert → ℕ
responses (Alert.save_resume_data h b) = 1
responses (Alert.save_resume_data_failed h e) = 1
responses _ = 0

-- From `p` to `q` the count grew by the posted saves, and shrank by the `r` answers that did not
-- become a queued write.
abbrev pub Balanced : Pump → Pump → ℕ → Type 0
Balanced p q r =
    (q.inflight + r + length p.posted + writes p.ops ≡ p.inflight + length q.posted + writes q.ops)
    × (length p.posted ≤ length q.posted)
    × (writes p.ops ≤ writes q.ops)

-- A run that stays alive and is balanced.
abbrev pub Runs : Process Pump → Pump → ℕ → Type 0
Runs m p r = Alive (λ q. Balanced p q r) m

release-Runs : (p : Pump) → 1 ≤ p.inflight → Runs (release p) p 1
unfolding release dec
release-Runs p h = ground arith

post_save-Runs : (se : Session) (token flags : ℕ) (p : Pump) → Runs (post_save se token flags p) p 0
unfolding post_save release inc dec
post_save-Runs se token flags p = ground (arith, length-append {0} p.posted ((token, flags) ∷ []))

pub request_save-Runs :
    (se : Session) (u flags : ℕ) (p : Pump) → Runs (request_save se u flags p) p 0
unfolding request_save
request_save-Runs se u flags p = elim (Option-cases (find p.registry u)) [
  | inl n ↦ ground (arith, n)
  | inr (x, f) ↦ ground (arith, f, post_save-Runs se x.token flags p)
]

-- A step that keeps count, log and queue, or only adds a delete, is balanced.
abbrev Steady : Pump → Pump → Type 0
Steady p q = (q.inflight ≡ p.inflight) × (q.posted ≡ p.posted) × (writes q.ops ≡ writes p.ops)

Steady-Balanced : (p q : Pump) → Steady p q → Balanced p q 0
Steady-Balanced p q (i, s, w) = omega (arith, ap (length {0}) s)

on_add_torrent-Steady :
    (e : Option ℕ) (h : AlertHandle) (now : ℕ) (p : Pump) → Steady p (on_add_torrent e h now p)
unfolding on_add_torrent publish
on_add_torrent-Steady e h now p = ground arith

on_torrent_removed-Steady : (token : ℕ) (p : Pump) → Steady p (on_torrent_removed token p)
unfolding on_torrent_removed publish push
on_torrent_removed-Steady token p = elim (Option-cases (remove_by_token p.registry token).1) [
  | inl n ↦ ground (arith, n)
  | inr (x, f) ↦ ground (arith, f, writes-append p.ops (delete_resume x.uuid ∷ []))
]

-- A request followed by a publication.
requests-Runs :
    (se : Session) (u flags : ℕ) (t : Option ℕ) (k : EventKind) (p : Pump)
    → Runs (request_save se u flags p >>= λ q. alive (publish t k q)) p 0
unfolding publish
requests-Runs se u flags t k p =
    >>=-Alive (λ q. Balanced p q 0) (λ q. Balanced p q 0) (request_save se u flags p)
      (λ q. alive (publish t k q)) (request_save-Runs se u flags p) (λ q h. h)

on_save_resume_data-Runs :
    (t : Option ℕ) (b : Serialized) (p : Pump)
    → 1 ≤ p.inflight
    → Runs (on_save_resume_data t b p) p 1
unfolding on_save_resume_data push release dec publish
on_save_resume_data-Runs none b p h = ground arith
on_save_resume_data-Runs (some u) (Serialized.bytes b) p h =
    ground (arith, writes-append p.ops (write_resume u b none ∷ []))
on_save_resume_data-Runs (some u) (Serialized.error e) p h = ground arith

on_metadata_received-Runs :
    (se : Session) (h : Option AlertHandle) (p : Pump) → Runs (on_metadata_received se h p) p 0
unfolding on_metadata_received
on_metadata_received-Runs se none p = omega arith
on_metadata_received-Runs se (some h) p = elim (Option-cases (get_id p.registry h.id)) [
  | inl n ↦ ground (arith, n)
  | inr (x, f) ↦
      rw (f, on_metadata_received)
        (requests-Runs se x.uuid resume_save_info_dict (some x.uuid) EventKind.metadata_received p)
]

report_delete-Runs : (h : InfoHash) (k : EventKind) (p : Pump) → Runs (report_delete h k p) p 0
unfolding report_delete take_pending_delete publish
report_delete-Runs h k p = ground arith

report-Runs : (h : Option AlertHandle) (k : EventKind) (p : Pump) → Runs (report h k p) p 0
unfolding report publish
report-Runs h k p = omega arith

on_torrent_finished-Runs :
    (se : Session) (t : Option ℕ) (p : Pump) → Runs (on_torrent_finished se t p) p 0
unfolding on_torrent_finished
on_torrent_finished-Runs se none p = omega arith
on_torrent_finished-Runs se (some u) p = requests-Runs se u _ _ _ p

on_storage_moved-Runs :
    (se : Session) (t : Option ℕ) (k : EventKind) (p : Pump) → Runs (on_storage_moved se t k p) p 0
unfolding on_storage_moved publish
on_storage_moved-Runs se none k p = omega arith
on_storage_moved-Runs se (some u) k p = requests-Runs se u _ _ _ p

-- Every alert but a report of dropped alerts is handled without an abort, if the count covers the
-- save that the alert answers.
pub handle_alert-Runs :
    (se : Session) (now : ℕ) (a : Alert) (p : Pump)
    → a ≢ Alert.alerts_dropped
    → responses a ≤ p.inflight
    → Runs (handle_alert se now a p) p (responses a)
unfolding handle_alert
handle_alert-Runs se now (Alert.add_torrent e h) p d i =
    Steady-Balanced p (on_add_torrent e h now p) (on_add_torrent-Steady e h now p)
handle_alert-Runs se now (Alert.torrent_removed t) p d i =
    Steady-Balanced p (on_torrent_removed t p) (on_torrent_removed-Steady t p)
handle_alert-Runs se now (Alert.torrent_finished h) p d i = on_torrent_finished-Runs se _ p
handle_alert-Runs se now (Alert.save_resume_data h b) p d i = on_save_resume_data-Runs _ b p i
handle_alert-Runs se now (Alert.save_resume_data_failed h e) p d i =
    >>=-Alive (λ q. Balanced p q 1) (λ q. Balanced p q 1) (release p) (report h _)
      (release-Runs p i) (λ q b. unfold report publish in b)
handle_alert-Runs se now Alert.alerts_dropped p d i = absurd (d refl)
handle_alert-Runs se now (Alert.torrent_deleted h) p d i = report_delete-Runs h _ p
handle_alert-Runs se now (Alert.torrent_delete_failed h e) p d i = report_delete-Runs h _ p
handle_alert-Runs se now (Alert.metadata_received h) p d i = on_metadata_received-Runs se h p
handle_alert-Runs se now (Alert.storage_moved h path) p d i = on_storage_moved-Runs se _ _ p
handle_alert-Runs se now (Alert.state_update s) p d i = unfold publish in omega arith
handle_alert-Runs se now (Alert.session_error e) p d i = unfold publish in omega arith
handle_alert-Runs se now _ p d i = unfold report publish in omega arith

abbrev pub all_responses : List (Session × ℕ × Alert) → ℕ
all_responses [] = 0
all_responses ((se, now, a) ∷ alerts) = responses a + all_responses alerts

abbrev pub NoneDropped : List (Session × ℕ × Alert) → Type 0
NoneDropped [] = Unit
NoneDropped ((se, now, a) ∷ alerts) = (a ≢ Alert.alerts_dropped) × NoneDropped alerts

Balanced-trans : (p q t : Pump) (r k : ℕ) → Balanced p q r → Balanced q t k → Balanced p t (r + k)
Balanced-trans p q t r k b c = omega arith

-- A batch without dropped alerts never underflows a count that covers the saves it answers. The
-- count then grew by the saves that were posted, and shrank by the answers that did not become a
-- queued resume write; no post and no queued write is forgotten.
pub handle_batch-Runs :
    (alerts : List (Session × ℕ × Alert)) (p : Pump)
    → NoneDropped alerts
    → all_responses alerts ≤ p.inflight
    → Alive
        (λ q.
          (q.inflight + all_responses alerts + length p.posted + writes p.ops
            ≡ p.inflight + length q.posted + writes q.ops)
          × (length p.posted ≤ length q.posted)
          × (writes p.ops ≤ writes q.ops))
        (handle_batch alerts p)
unfolding handle_batch
handle_batch-Runs [] p d i = omega arith
handle_batch-Runs ((se, now, a) ∷ alerts) p (d, ds) i =
    >>=-Alive (λ q. Balanced p q (responses a))
      (λ q. Balanced p q (responses a + all_responses alerts)) (handle_alert se now a p)
      (handle_batch alerts) (handle_alert-Runs se now a p d (omega arith))
      (λ q b.
        Alive-map (λ t. Balanced q t (all_responses alerts))
          (λ t. Balanced p t (responses a + all_responses alerts)) (handle_batch alerts q)
          (handle_batch-Runs alerts q ds (omega arith))
          (λ t c. Balanced-trans p q t (responses a) (all_responses alerts) b c))
