-- ===== src/Pump/Removal.antt =====
-- What rsbtd/src/engine/pump.rs does when a torrent is removed or its files are deleted.
use mathlib.Core.List.{Perm}
use rsbtd.Base.{
  ℕ, suc, ◌≡◌, refl, ◌⊎◌, inl, inr, true, false, List, [], ◌∷◌, ◌++◌, none, some, Bool-cases, All,
  get_elem?,
}
use rsbtd.Base.Set
use rsbtd.Base.Set.{contains-remove_self}
use rsbtd.Base.Swap.{swap_remove-perm}
use rsbtd.Events.{EventKind}
use rsbtd.Persist.{delete_resume}
use rsbtd.Registry.{TorrentEntry, find_by_token}
use rsbtd.Registry.Invariant.{Inv}
use rsbtd.Registry.Removal.{Without, remove_by_token-Without}
use rsbtd.Types.{InfoHash, overlaps}
use rsbtd.Pump.{Pump, publish, push, position, take_pending_delete, on_torrent_removed}

-- `q` is `p` without the torrent `e`: it is gone from the registry and from the dirty marks, the
-- deletion of its resume file is queued last, and the removal is published last.
pub record Removed (e : TorrentEntry) (p q : Pump) : Type 0 where
  pub unregistered : Without p.registry e q.registry
  pub clean : Set.contains e.uuid q.dirty ≡ false
  pub deletes : q.ops ≡ p.ops ++ (delete_resume e.uuid ∷ [])
  pub told :
      q.events
      ≡ p.events ++ (record { torrent = some e.uuid; kind = EventKind.torrent_removed } ∷ [])
  pub count : q.inflight ≡ p.inflight

-- The removal alert of a registered torrent takes it out of the three indexes and leaves the other
-- torrents there, clears its dirty mark, queues the deletion of its resume file and publishes one
-- `TorrentRemoved` of it; the in-flight count stays.
pub on_torrent_removed_lem :
    (token : ℕ) (e : TorrentEntry) (p : Pump)
    → Inv p.registry
    → find_by_token p.registry token ≡ some e
    → Removed e p (on_torrent_removed token p)
unfolding on_torrent_removed publish push
on_torrent_removed_lem token e p v h =
    let (r, w) = remove_by_token-Without p.registry e token v h in
    rw (r, on_torrent_removed)
      (record {
        unregistered = w;
        clean = contains-remove_self e.uuid p.dirty;
        deletes = refl;
        told = refl;
        count = refl;
      })

position_cases :
    (h : InfoHash) (pending : List (InfoHash × ℕ))
    → ((i : ℕ) × (k : InfoHash) × (u : ℕ) × (position h pending ≡ some i)
        × (get_elem? pending i ≡ some (k, u))
        × (overlaps k h ≡ true))
      ⊎ ((position h pending ≡ none) × All (λ e. overlaps e.0 h ≡ false) pending)
unfolding position
position_cases h [] = inr (refl, tt)
position_cases h ((k, u) ∷ pending) = elim (Bool-cases (overlaps k h)) [
  | inl e ↦ inl (0, k, u, rw e, refl, e)
  | inr e ↦ elim (position_cases h pending) [
    | inl (i, k', u', a, b, c) ↦ inl (suc i, k', u', rw (e, a, position), b, c)
    | inr (a, b) ↦ inr (rw (e, a, position), (e, b))
  ]
]

-- The parked removal that a deletion alert answers to: its hashes overlap the alert's, its uuid is
-- the one reported, and exactly that entry leaves the list. If none overlaps, nothing is reported
-- and nothing leaves.
pub take_pending_delete_lem :
    (h : InfoHash) (p : Pump)
    → let (q, torrent) = take_pending_delete h p in
      ((k : InfoHash) × (u : ℕ) × (torrent ≡ some u)
        × (overlaps k h ≡ true)
        × Perm p.pending_deletes ((k, u) ∷ q.pending_deletes))
      ⊎ ((torrent ≡ none) × (q ≡ p) × All (λ e. overlaps e.0 h ≡ false) p.pending_deletes)
unfolding take_pending_delete
take_pending_delete_lem h p = elim (position_cases h p.pending_deletes) [
  | inl (i, k, u, a, b, c) ↦ inl (
    k,
    u,
    rw (a, take_pending_delete) (rw b),
    c,
    rw (a, take_pending_delete) (swap_remove-perm p.pending_deletes i (k, u) b),
  )
  | inr (a, b) ↦ rw (a, take_pending_delete) (inr (refl, refl, b))
]
