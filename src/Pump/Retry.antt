-- ===== src/Pump/Retry.antt =====
-- The retry tick of rsbtd/src/engine/pump.rs: saves whose last write failed are requested again.
use rsbtd.Base.{
  suc_==_zero, zero, suc, ◌+◌, ◌≤◌, refl, ◌∙◌, inl, inr, arith, length, length-append, Option-cases,
  Bool-cases, ℕ, ◌-◌, ◌≡◌, List, [], ◌∷◌, ◌++◌, none, some, ◌==◌, if◌then◌else◌,
}
use rsbtd.Base.Set
use rsbtd.Inflight.{Process, alive, ◌>>=◌, inc, dec, Alive, >>=-Alive, Alive-map, if-Alive}
use rsbtd.Registry.{find}
use rsbtd.Alerts.{Session, resume_save_info_dict}
use rsbtd.Pump.{Pump, release}

-- What one round of the retry loop decides: go on with this budget, or stop.
pub data Round : Type 0 where
  on_with : ℕ → Pump → Round
  stop : Pump → Round

-- The post of a retry; a refused one takes its token back and clears the mark.
unfoldable pub post_retry : Session → ℕ → ℕ → Pump → Process Pump
post_retry se uuid token p =
    let q : Pump = record p { inflight = inc p.inflight } in
    if se.saves token resume_save_info_dict
    then alive (record q { posted = q.posted ++ ((token, resume_save_info_dict) ∷ []) })
    else do t ← release q; alive (record t { dirty = Set.remove uuid t.dirty })

unfoldable pub retry_one : Session → ℕ → ℕ → Pump → Process Round
retry_one se uuid budget p = elim (find p.registry uuid) [
  | none ↦ alive (on_with budget (record p { dirty = Set.remove uuid p.dirty }))
  | some entry ↦
      if se.has_token entry.token
      then (if budget == 0
          then alive (stop p)
          else (do q ← post_retry se uuid entry.token p; alive (on_with (budget - 1) q)))
      else alive (on_with budget (record p { dirty = Set.remove uuid p.dirty }))
]

unfoldable pub retry_loop : Session → List ℕ → ℕ → Pump → Process Pump
retry_loop se [] budget p = alive p
retry_loop se (uuid ∷ uuids) budget p = do
  round ← retry_one se uuid budget p
  elim round [ stop q ↦ alive q | on_with left q ↦ retry_loop se uuids left q ]

-- The retry tick, run only while some torrent is dirty; `capacity` is the free room of the persist
-- queue.
unfoldable pub on_retry : Session → ℕ → Pump → Process Pump
on_retry se capacity p = if p.quiesce then alive p else retry_loop se p.dirty capacity p

-- From `p` to `q` the count grew by exactly the posts, of which there are at most `n`, each with
-- the flags of a full save; nothing else of the shared state but the dirty marks has changed.
pub record Retried (p q : Pump) (n : ℕ) : Type 0 where
  pub count : q.inflight + length p.posted ≡ p.inflight + length q.posted
  pub bounded : length q.posted ≤ length p.posted + n
  pub ops : q.ops ≡ p.ops
  pub events : q.events ≡ p.events
  pub registry : q.registry ≡ p.registry

Retried-trans : (p q t : Pump) (n m : ℕ) → Retried p q n → Retried q t m → Retried p t (n + m)
Retried-trans p q t n m a b = record {
  count = omega (arith, a.count, b.count);
  bounded = omega (arith, a.bounded, b.bounded);
  ops = b.ops ∙ a.ops;
  events = b.events ∙ a.events;
  registry = b.registry ∙ a.registry;
}

post_retry-Retried :
    (se : Session) (uuid token : ℕ) (p : Pump)
    → Alive (λ q. Retried p q 1) (post_retry se uuid token p)
unfolding post_retry release inc dec
post_retry-Retried se uuid token p =
    ground (arith, length-append {0} p.posted ((token, resume_save_info_dict) ∷ []))

-- What a round leaves, with the budget that it used.
abbrev AfterRound : Pump → ℕ → Round → Type 0
AfterRound p budget (on_with left q) = (left ≤ budget) × Retried p q (budget - left)
AfterRound p budget (stop q) = Retried p q 0

unmark-Retried :
    (uuid n : ℕ) (p : Pump) → Retried p (record p { dirty = Set.remove uuid p.dirty }) n
unmark-Retried uuid n p = record {
  count = refl;
  bounded = omega arith;
  ops = refl;
  events = refl;
  registry = refl;
}

retry_found :
    (se : Session) (uuid token budget : ℕ) (p : Pump)
    → Alive (AfterRound p budget) (
        if budget == 0
        then alive (stop p)
        else post_retry se uuid token p >>= λ q. alive (on_with (budget - 1) q))
retry_found se uuid token zero p = record {
  count = refl;
  bounded = omega arith;
  ops = refl;
  events = refl;
  registry = refl;
}
retry_found se uuid token (suc n) p = rw (suc_==_zero n) (
    >>=-Alive (λ q. Retried p q 1) (AfterRound p (suc n)) (post_retry se uuid token p)
      (λ q. alive (on_with (suc n - 1) q)) (post_retry-Retried se uuid token p)
      (λ q r. (
        omega arith,
        record {
          count = r.count;
          bounded = omega (arith, r.bounded);
          ops = r.ops;
          events = r.events;
          registry = r.registry;
        },
      )))

retry_one-AfterRound :
    (se : Session) (uuid budget : ℕ) (p : Pump)
    → Alive (AfterRound p budget) (retry_one se uuid budget p)
unfolding retry_one
retry_one-AfterRound se uuid budget p = elim (Option-cases (find p.registry uuid)) [
  | inl n ↦ rw (n, retry_one) (omega arith, unmark-Retried uuid (budget - budget) p)
  | inr (x, f) ↦ elim (Bool-cases (se.has_token x.token)) [
    | inl h ↦ rw (f, retry_one) (rw h (retry_found se uuid x.token budget p))
    | inr h ↦ rw (f, retry_one) (rw h (omega arith, unmark-Retried uuid (budget - budget) p))
  ]
]

Retried-weaken : (p q : Pump) (n m : ℕ) → n ≤ m → Retried p q n → Retried p q m
Retried-weaken p q n m h r = record {
  count = r.count;
  bounded = omega (arith, r.bounded);
  ops = r.ops;
  events = r.events;
  registry = r.registry;
}

after_round :
    (se : Session) (uuids : List ℕ) (budget : ℕ) (p : Pump) (round : Round)
    → ((left : ℕ) (q : Pump) → Alive (λ t. Retried q t left) (retry_loop se uuids left q))
    → AfterRound p budget round
    → Alive
        (λ t. Retried p t budget)
        (elim round [ stop q ↦ alive q | on_with left q ↦ retry_loop se uuids left q ])
after_round se uuids budget p (stop q) loop r = Retried-weaken p q 0 budget (omega arith) r
after_round se uuids budget p (on_with left q) loop (l, r) =
    Alive-map (λ t. Retried q t left) (λ t. Retried p t budget) (retry_loop se uuids left q)
      (loop left q)
      (λ t s.
        Retried-weaken p t (budget - left + left) budget (omega arith)
          (Retried-trans p q t (budget - left) left r s))

retry_loop-Retried :
    (se : Session) (uuids : List ℕ) (budget : ℕ) (p : Pump)
    → Alive (λ q. Retried p q budget) (retry_loop se uuids budget p)
unfolding retry_loop
retry_loop-Retried se [] budget p = record {
  count = refl;
  bounded = omega arith;
  ops = refl;
  events = refl;
  registry = refl;
}
retry_loop-Retried se (uuid ∷ uuids) budget p =
    >>=-Alive (AfterRound p budget) (λ q. Retried p q budget) (retry_one se uuid budget p) _
      (retry_one-AfterRound se uuid budget p)
      (λ round. after_round se uuids budget p round (retry_loop-Retried se uuids))

-- A retry tick never aborts, and it posts at most as many saves as the persist queue has room for.
-- The in-flight count grows by exactly the posts that libtorrent took; operations, events and
-- registry stay as they are.
pub on_retry-Retried :
    (se : Session) (capacity : ℕ) (p : Pump)
    → Alive (λ q. Retried p q capacity) (on_retry se capacity p)
unfolding on_retry
on_retry-Retried se capacity p =
    if-Alive (λ q. Retried p q capacity) p.quiesce (alive p) (retry_loop se p.dirty capacity p)
      (record { count = refl; bounded = omega arith; ops = refl; events = refl; registry = refl })
      (retry_loop-Retried se p.dirty capacity p)
