-- ===== src/Jobs/Listing.antt =====
-- The order of `list` of the job manager (rsbtd/src/engine/jobs.rs).
use mathlib.Core.List.{Permᴰ}
use mathlib.Core.List.Permᴰ.{nil, cons, swap, trans}
use mathlib.Core.List.Permᴰ
use rsbtd.Base.{ℕ, refl, ◌≤◌, Bool, List, [], ◌∷◌, arith, leb, if-cases, All}
use rsbtd.Jobs.{JobSnapshot, JobManager, prune, insert_sorted, sort_by_id, snapshots, list_jobs}

-- Each id is at most those behind it.
abbrev pub Ascending : List JobSnapshot → Type 0
Ascending [] = Unit
Ascending (s ∷ ss) = All (λ t. s.id ≤ t.id) ss × Ascending ss

insert_sorted-All :
    (n : ℕ) (s : JobSnapshot) (ts : List JobSnapshot)
    → n ≤ s.id
    → All (λ t. n ≤ t.id) ts
    → All (λ t. n ≤ t.id) (insert_sorted s ts)
unfolding insert_sorted
insert_sorted-All n s [] h k = (h, tt)
insert_sorted-All n s (t ∷ ts) h (k, ks) =
    if-cases (All (λ (t : JobSnapshot). n ≤ t.id)) (leb s.id t.id) (λ e. (h, (k, ks)))
      (λ e. (k, insert_sorted-All n s ts h ks))

All-le : (n j : ℕ) (ts : List JobSnapshot) → n ≤ j → All (λ t. j ≤ t.id) ts → All (λ t. n ≤ t.id) ts
All-le n j [] h k = tt
All-le n j (t ∷ ts) h (k, hs) = (omega arith, All-le n j ts h hs)

insert_sorted-Ascending :
    (s : JobSnapshot) (ts : List JobSnapshot) → Ascending ts → Ascending (insert_sorted s ts)
unfolding insert_sorted
insert_sorted-Ascending s [] h = (tt, tt)
insert_sorted-Ascending s (t ∷ ts) (k, hs) =
    if-cases Ascending (leb s.id t.id)
      (λ e. ((ground arith, All-le s.id t.id ts (ground arith) k), (k, hs)))
      (λ e. (insert_sorted-All t.id s ts (ground arith) k, insert_sorted-Ascending s ts hs))

insert_sorted-Permᴰ :
    (s : JobSnapshot) (ts : List JobSnapshot) → Permᴰ (insert_sorted s ts) (s ∷ ts)
unfolding insert_sorted
insert_sorted-Permᴰ s [] = Permᴰ.refl (s ∷ [])
insert_sorted-Permᴰ s (t ∷ ts) =
    if-cases (λ (l : List JobSnapshot). Permᴰ l (s ∷ t ∷ ts)) (leb s.id t.id)
      (λ e. Permᴰ.refl (s ∷ t ∷ ts))
      (λ e. trans (cons refl (insert_sorted-Permᴰ s ts)) (swap refl refl))

sort_by_id-Ascending : (ss : List JobSnapshot) → Ascending (sort_by_id ss)
unfolding sort_by_id
sort_by_id-Ascending [] = tt
sort_by_id-Ascending (s ∷ ss) = insert_sorted-Ascending s (sort_by_id ss) (sort_by_id-Ascending ss)

sort_by_id-Permᴰ : (ss : List JobSnapshot) → Permᴰ (sort_by_id ss) ss
unfolding sort_by_id
sort_by_id-Permᴰ [] = nil
sort_by_id-Permᴰ (s ∷ ss) =
    trans (insert_sorted-Permᴰ s (sort_by_id ss)) (cons refl (sort_by_id-Permᴰ ss))

-- `list_jobs` shows the jobs that `prune` leaves, each once, in the order of their ids.
pub list_jobs-Sorted :
    (now : ℕ) (done : ℕ → Bool) (m : JobManager)
    → Ascending (list_jobs now done m).1
      × Permᴰ (list_jobs now done m).1 (snapshots (prune now done m.jobs))
unfolding list_jobs
list_jobs-Sorted now done m = (
  sort_by_id-Ascending (snapshots (prune now done m.jobs)),
  sort_by_id-Permᴰ (snapshots (prune now done m.jobs)),
)
