-- ===== src/Engine/Settings.antt =====
-- `apply_settings`, `set_ip_filter` and `persist_session_state` of rsbtd/src/engine/mod.rs: a change of
-- the session that is rolled back unless it is durable.
-- The session's own state is of a type `S`; what rbtorrent does with it are the parameters. The lock
-- `session_state_lock` is held throughout, so that nothing else changes the state between the steps.
use rsbtd.Base.{ℕ, Bool, true, false, List, [], ◌∷◌, Option, none, some, ◌==◌, if◌then◌else◌}
use rsbtd.Events.{Bytes}
use rsbtd.Errors.{Done, Result, ok, err, shutting_down, io}
use rsbtd.Inflight.{Process, alive, ◌>>=◌}
use rsbtd.Persist.{Persister, process, write_session_state, Blocking}

-- A delta of the settings: the two that the daemon owns, and the others by one number.
pub record SettingsPack : Type 0 where
  pub alert_mask : Option ℕ
  pub alert_queue_size : Option ℕ
  pub others : ℕ

-- `ALERT_QUEUE_SIZE`.
abbrev pub engine_queue_size : ℕ
engine_queue_size = 2147483647

abbrev pub override : Option ℕ → ℕ → Option ℕ
override none own = none
override (some v) own = some own

unfoldable pub keep_own : ℕ → SettingsPack → SettingsPack
keep_own mask pack = record pack {
  alert_mask = override pack.alert_mask mask;
  alert_queue_size = override pack.alert_queue_size engine_queue_size;
}

-- What a oneshot channel yields; the one behind a dropped operation yields nothing.
abbrev pub ack_of : ℕ → List (ℕ × Bool) → Option Bool
ack_of k [] = none
ack_of k ((j, result) ∷ acks) = let rest = ack_of k acks in if j == k then some result else rest

abbrev pub durable : Option Bool → Result Done
durable (some true) = ok tt
durable (some false) = err io
durable none = err shutting_down

-- How the persister meets one operation: its channel is closed, it drops the operation, or it takes it
-- with this end of the blocking task.
pub data Scheduled : Type 0 where
  closed : Scheduled
  lost : Scheduled
  taken : Blocking → Scheduled

-- `k` is the number of the new oneshot channel.
unfoldable pub persist_session_state :
    ℕ → Bytes → Scheduled → Persister → Process (Persister × Result Done)
persist_session_state k bytes closed p = alive (p, err shutting_down)
persist_session_state k bytes lost p = alive (p, err shutting_down)
persist_session_state k bytes (taken b) p = do
  q ← process (write_session_state bytes (some k)) b p
  alive (q, durable (ack_of k q.acks))

module _ {S C : Type 0} (apply : C → S → Result S) (current : S → Result C)
    (save_state : S → Result Bytes) where
  -- The session behind the attempt to restore the previous values.
  abbrev pub rolled_back : S → Result S → S
  rolled_back t (ok u) = u
  rolled_back t (err e) = t

  abbrev pub conclude : C → S → Persister × Result Done → S × Persister × Result Done
  conclude previous t (p, ok u) = (t, p, ok u)
  conclude previous t (p, err e) = (rolled_back t (apply previous t), p, err e)

  abbrev pub save_and_persist :
      ℕ → Scheduled → Result Bytes → Persister → Process (Persister × Result Done)
  save_and_persist k how (ok bytes) p = persist_session_state k bytes how p
  save_and_persist k how (err e) p = alive (p, err e)

  -- The session is there: the previous values, the change, the state file, the roll-back.
  abbrev pub change_from :
      ℕ → Scheduled → S → Persister → Result C → Result S → Process (S × Persister × Result Done)
  change_from k how s p (err e) applied = alive (s, p, err e)
  change_from k how s p (ok previous) (err e) = alive (s, p, err e)
  change_from k how s p (ok previous) (ok t) = do
    r ← save_and_persist k how (save_state t) p
    alive (conclude previous t r)

  unfoldable pub change_session :
      ℕ → Scheduled → C → Bool → S → Persister → Process (S × Persister × Result Done)
  change_session k how change running s p =
      if running
      then change_from k how s p (current s) (apply change s)
      else alive (s, p, err shutting_down)

module _ {S : Type 0} (apply : SettingsPack → S → Result S) (settings : S → Result SettingsPack)
    (save_state : S → Result Bytes) where
  unfoldable pub apply_settings :
      ℕ
      → ℕ
      → Scheduled
      → SettingsPack
      → Bool
      → S
      → Persister
      → Process (S × Persister × Result Done)
  apply_settings mask k how pack running s p =
      change_session apply settings save_state k how (keep_own mask pack) running s p

module _ {S F : Type 0} (set : F → S → Result S) (get : S → Result F)
    (save_state : S → Result Bytes) where
  unfoldable pub set_ip_filter :
      ℕ → Scheduled → F → Bool → S → Persister → Process (S × Persister × Result Done)
  set_ip_filter k how filter running s p =
      change_session set get save_state k how filter running s p
