-- ===== src/Pump/Tests.antt =====
-- Runs of the alert pump of pump.rs, and its theorems at them.
use rsbtd.Pump.Gone.{Later}
use rsbtd.Pump.Deletion.{deletion_is_last}
use rsbtd.Base.{◌++◌, ℕ, ◌+◌, ◌≤◌, ◌≡◌, refl, true, false, List, [], ◌∷◌, none, some, arith, length}
use rsbtd.Inflight.{Alive}
use rsbtd.Persist.{delete_resume}
use rsbtd.Registry.{
  Registry, TorrentEntry, new, upsert, find, find_by_token, get_id, resolve, register,
}
use rsbtd.Registry.Invariant.{Inv, new-Inv, upsert-Inv}
use rsbtd.Base.Map.{get, insert}
use rsbtd.Alerts.{AlertHandle, Session, Serialized, Alert}
use rsbtd.Types.{zeros, InfoHash}
use rsbtd.Pump.{Pump, handle_batch}
use rsbtd.Pump.Accounting.{writes, handle_batch-Runs, NoneDropped}
use rsbtd.Pump.Retry.{Retried, on_retry, on_retry-Retried}

abbrev seed : TorrentEntry
seed = record { id = 7; token = 100; uuid = 1; added_at = 0 }

abbrev known : Registry
known = (upsert new 7 100 1 0).0

known-Inv : Inv known
known-Inv =
    upsert-Inv new 7 100 1 0
      (λ h. (unfold find new get in refl, unfold find_by_token resolve new get in refl)) new-Inv

known-find : find_by_token known 100 ≡ some seed
unfolding upsert new get_id resolve get register insert find_by_token
known-find = refl

abbrev willing : Session
willing = record { has_token = λ t. true; saves = λ t f. true }

abbrev handle : AlertHandle
handle = record { id = 7; client_data_token = some 100; client_data_uuid = some 1 }

abbrev idle : Pump
idle = record {
  registry = known;
  inflight = 1;
  dirty = 1 ∷ [];
  quiesce = false;
  pending_deletes = [];
  ops = [];
  events = [];
  posted = [];
}

abbrev batch : List (Session × ℕ × Alert)
batch =
    (willing, 5, Alert.torrent_finished (some handle))
    ∷ (willing, 5, Alert.save_resume_data (some handle) (Serialized.bytes (3 ∷ [])))
    ∷ []

batch-NoneDropped : NoneDropped batch
batch-NoneDropped = (λ e. cc, (λ e. cc, tt))

handle_batch-Runs_example :
    Alive
      (λ q.
        (q.inflight + 1 + 0 + 0 ≡ 1 + length q.posted + writes q.ops)
        × (0 ≤ length q.posted)
        × (0 ≤ writes q.ops))
      (handle_batch batch idle)
handle_batch-Runs_example = handle_batch-Runs batch idle batch-NoneDropped (omega arith)

-- A finish alert and a save answer of the torrent come behind its removal.
deletion_is_last_example :
    Alive
      (λ q. (find q.registry 1 ≡ none) × Later 1 ([] ++ (delete_resume 1 ∷ [])) q.ops)
      (handle_batch ((willing, 5, Alert.torrent_removed 100) ∷ batch) idle)
deletion_is_last_example =
    deletion_is_last willing 5 100 seed batch idle known-Inv known-find (refl, (refl, tt))
      batch-NoneDropped (omega arith)

on_retry-Retried_example : Alive (λ q. Retried idle q 9) (on_retry willing 9 idle)
on_retry-Retried_example = on_retry-Retried willing 9 idle

abbrev v2_only : InfoHash
v2_only = record { v1 = none; v2 = some (record { digest = 5 ∷ zeros 31 }) }

abbrev hybrid : InfoHash
hybrid = record {
  v1 = some (record { digest = 4 ∷ zeros 19 });
  v2 = some (record { digest = 5 ∷ zeros 31 });
}

abbrev deleting : Pump
deleting = record idle { pending_deletes = (v2_only, 1) ∷ [] }
