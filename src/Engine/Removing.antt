-- ===== src/Engine/Removing.antt =====
-- `remove_torrent` of rsbtd/src/engine/mod.rs and its list of pending deletes, which the pump reads.
use rsbtd.Base.{
  ℕ, suc, ◌≡◌, refl, ap, ◌∙◌, Bool, true, false, List, [], ◌∷◌, ◌++◌, Option, none, some, arith,
  ◌==◌, if◌then◌else◌, length, swap_remove, set, init_of, last_of, ==_refl,
}
use rsbtd.Alerts.{Session}
use rsbtd.Types.{InfoHash}
use rsbtd.Errors.{Done, ok, err, not_found}
use rsbtd.Registry.{Registry, TorrentEntry, find}
use rsbtd.Correlate.{Wait, returned, request}
use rsbtd.Engine.{live_handle}
use rsbtd.Engine.Queries.{Call, of_torrent, removal_answer}

-- `position(|(_, u)| *u == uuid)`.
unfoldable pub parked_at : ℕ → List (InfoHash × ℕ) → Option ℕ
parked_at uuid [] = none
parked_at uuid ((h, u) ∷ pending) =
    if u == uuid
    then some 0
    else elim (parked_at uuid pending) [ none ↦ none | some i ↦ some (suc i) ]

abbrev pub park : Bool → InfoHash → ℕ → List (InfoHash × ℕ) → List (InfoHash × ℕ)
park false h uuid pending = pending
park true h uuid pending = pending ++ ((h, uuid) ∷ [])

unfoldable pub take_parked : List (InfoHash × ℕ) → Option ℕ → List (InfoHash × ℕ)
take_parked pending none = pending
take_parked pending (some i) = swap_remove pending i

abbrev pub unpark : Bool → ℕ → List (InfoHash × ℕ) → List (InfoHash × ℕ)
unpark false uuid pending = pending
unpark true uuid pending = take_parked pending (parked_at uuid pending)

-- `meanwhile` is what the pump makes of the list while the request waits; `hash` are the handle's
-- info-hashes.
unfoldable pub remove_torrent :
    Registry
    → Option Session
    → ℕ
    → Bool
    → InfoHash
    → Call
    → (List (InfoHash × ℕ) → List (InfoHash × ℕ))
    → List (InfoHash × ℕ)
    → List (InfoHash × ℕ) × (Bool × Wait Done)
remove_torrent r running uuid delete_files hash c meanwhile pending = elim (find r uuid) [
  | none ↦ (pending, (false, returned (err not_found) (c.during ++ c.later)))
  | some entry ↦ elim (live_handle running entry) [
    | err e ↦ (pending, (false, returned (err e) (c.during ++ c.later)))
    | ok s ↦ (
      unpark delete_files entry.uuid (meanwhile (park delete_files hash entry.uuid pending)),
      request c.cancelled (ok tt) c.during c.later
          (of_torrent entry.uuid (removal_answer delete_files)),
    )
  ]
]

module _ {A : Type 0} where
  init_of-append : (y x : A) (ys : List A) → init_of y (ys ++ (x ∷ [])) ≡ y ∷ ys
  init_of-append y x [] = refl
  init_of-append y x (z ∷ ys) = ap (λ l. y ∷ l) (init_of-append z x ys)

  set-outside : (xs : List A) (v : A) → set xs (length xs) v ≡ xs
  set-outside [] v = refl
  set-outside (x ∷ xs) v = ap (λ l. x ∷ l) (set-outside xs v)

  swap_remove-append : (xs : List A) (x : A) → swap_remove (xs ++ (x ∷ [])) (length xs) ≡ xs
  swap_remove-append [] x = refl
  swap_remove-append (y ∷ ys) x =
      let last = last_of y (ys ++ (x ∷ [])) in
      ap (λ l. set l (suc (length ys)) last) (init_of-append y x ys) ∙ set-outside (y ∷ ys) last

parked_at-append :
    (uuid : ℕ) (h : InfoHash) (pending : List (InfoHash × ℕ))
    → parked_at uuid pending ≡ none
    → parked_at uuid (pending ++ ((h, uuid) ∷ [])) ≡ some (length pending)
unfolding parked_at
parked_at-append uuid h [] n = ground (arith, ==_refl uuid)
parked_at-append uuid h ((k, u) ∷ pending) n = ground (arith, parked_at-append uuid h pending)

unpark-park :
    (b : Bool) (uuid : ℕ) (h : InfoHash) (pending : List (InfoHash × ℕ))
    → parked_at uuid pending ≡ none
    → unpark b uuid (park b h uuid pending) ≡ pending
unfolding take_parked
unpark-park false uuid h pending n = refl
unpark-park true uuid h pending n =
    ap (take_parked (pending ++ ((h, uuid) ∷ []))) (parked_at-append uuid h pending n)
    ∙ swap_remove-append pending (h, uuid)

unpark-none :
    (b : Bool) (uuid : ℕ) (pending : List (InfoHash × ℕ))
    → parked_at uuid pending ≡ none
    → unpark b uuid pending ≡ pending
unfolding take_parked
unpark-none false uuid pending n = refl
unpark-none true uuid pending n = ap (take_parked pending) n

-- Nothing lingers in the list of pending deletes: a removal leaves it as it was, on every path, if the
-- torrent's files were not being deleted already. This is for both cases of what the pump does while
-- it waits: the deletion alert never comes, or the alert takes this removal's entry out again.
pub remove_torrent-pending :
    (r : Registry) (running : Option Session) (entry : TorrentEntry) (delete_files : Bool)
    (hash : InfoHash) (c : Call) (pending : List (InfoHash × ℕ))
    → find r entry.uuid ≡ some entry
    → parked_at entry.uuid pending ≡ none
    → ((remove_torrent r running entry.uuid delete_files hash c (λ l. l) pending).0 ≡ pending)
      × ((remove_torrent r running entry.uuid delete_files hash c (λ l. pending) pending).0
          ≡ pending)
unfolding remove_torrent
remove_torrent-pending r running entry delete_files hash c pending f n = ground (
  arith,
  unpark-park delete_files entry.uuid hash pending n,
  unpark-none delete_files entry.uuid pending n,
)
