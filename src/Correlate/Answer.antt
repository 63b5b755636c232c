-- ===== src/Correlate/Answer.antt =====
-- What a request of correlate.rs answers.
use rsbtd.Base.{
  ◌≡◌, refl, ◌⊎◌, inl, inr, true, false, List, [], ◌∷◌, ◌++◌, none, some, All, ap, subst,
  Option-cases, Bool,
}
use rsbtd.Events.{Event}
use rsbtd.Errors.{Result, ok, err, timeout, shutting_down}
use rsbtd.Correlate.{
  Received, event, lagged, closed, elapsed, shutdown, Matcher, Post, Wait, pending, returned, wait,
  request,
}

module _ {A : Type 0} where
  -- A yield that the wait passes over.
  abbrev pub Neutral : Matcher A → Received → Type 0
  Neutral matcher (event e) = matcher e ≡ none
  Neutral matcher (lagged n) = Unit
  Neutral matcher closed = ⊥
  Neutral matcher elapsed = ⊥
  Neutral matcher shutdown = ⊥

  -- A yield that ends the wait, with its result.
  abbrev pub Decides : Matcher A → Received → Result A → Type 0
  Decides matcher (event e) r = matcher e ≡ some r
  Decides matcher (lagged n) r = ⊥
  Decides matcher closed r = r ≡ err shutting_down
  Decides matcher elapsed r = r ≡ err timeout
  Decides matcher shutdown r = r ≡ err shutting_down

  -- A wait goes on over all neutral yields, and ends at the first other one with its result, behind
  -- which nothing has been taken from the receiver.
  abbrev pub Waited : Matcher A → List Received → Wait A → Type 0
  Waited matcher rs w =
      (All (Neutral matcher) rs × (w ≡ pending))
      ⊎ ((before : List Received) × (x : Received) × (after : List Received) × (r : Result A) × (rs
            ≡ (before ++ x ∷ after))
          × All (Neutral matcher) before
          × Decides matcher x r
          × (w ≡ returned r after))

  Waited-skip :
      (matcher : Matcher A) (x : Received) (rs : List Received) (w : Wait A)
      → Neutral matcher x
      → Waited matcher rs w
      → Waited matcher (x ∷ rs) w
  Waited-skip matcher x rs w n (inl (a, p)) = inl ((n, a), p)
  Waited-skip matcher x rs w n (inr (b, y, c, r, e, a, d, q)) =
      inr (x ∷ b, y, c, r, ap (λ l. x ∷ l) e, (n, a), d, q)

  wait-event_skip :
      (matcher : Matcher A) (e : Event) (rs : List Received)
      → matcher e ≡ none
      → wait matcher rs ≡ wait matcher (event e ∷ rs)
  unfolding wait
  wait-event_skip matcher e rs h = cc

  wait-event_take :
      (matcher : Matcher A) (e : Event) (rs : List Received) (r : Result A)
      → matcher e ≡ some r
      → returned r rs ≡ wait matcher (event e ∷ rs)
  unfolding wait
  wait-event_take matcher e rs r h = cc

  wait-Waited : (matcher : Matcher A) (rs : List Received) → Waited matcher rs (wait matcher rs)
  unfolding wait
  wait-Waited matcher [] = inl (tt, refl)
  wait-Waited matcher (event e ∷ rs) = elim (Option-cases (matcher e)) [
    | inl n ↦
        subst (λ w. Waited matcher (event e ∷ rs) w) (wait-event_skip matcher e rs n)
          (Waited-skip matcher (event e) rs (wait matcher rs) n (wait-Waited matcher rs))
    | inr (r, f) ↦
        subst (λ w. Waited matcher (event e ∷ rs) w) (wait-event_take matcher e rs r f)
          (inr ([], event e, rs, r, refl, tt, f, refl))
  ]
  wait-Waited matcher (lagged n ∷ rs) =
      Waited-skip matcher (lagged n) rs (wait matcher rs) tt (wait-Waited matcher rs)
  wait-Waited matcher (closed ∷ rs) = inr ([], closed, rs, err shutting_down, refl, tt, refl, refl)
  wait-Waited matcher (elapsed ∷ rs) = inr ([], elapsed, rs, err timeout, refl, tt, refl, refl)
  wait-Waited matcher (shutdown ∷ rs) =
      inr ([], shutdown, rs, err shutting_down, refl, tt, refl, refl)

  -- How a request goes that meets `rs` from its subscription on.
  abbrev pub Requested : Bool → Post → List Received → Matcher A → Bool × Wait A → Type 0
  Requested true post rs matcher (posted, w) =
      (posted ≡ false) × (w ≡ returned (err shutting_down) rs)
  Requested false (err e) rs matcher (posted, w) = (posted ≡ true) × (w ≡ returned (err e) rs)
  Requested false (ok u) rs matcher (posted, w) = (posted ≡ true) × Waited matcher rs w

  -- A request made behind the shutdown posts nothing and is refused; one whose post fails returns
  -- that error and waits for nothing. Any other goes on over events that do not match and over lag,
  -- and ends at the first matching event, deadline, shutdown or closed bus, with its result. An
  -- answer that comes while the post still runs is not missed.
  pub request-Waited :
      (cancelled : Bool) (post : Post) (during later : List Received) (matcher : Matcher A)
      → Requested cancelled post
          (during ++ later)
          matcher
          (request cancelled post during later matcher)
  unfolding request
  request-Waited true post during later matcher = (refl, refl)
  request-Waited false (err e) during later matcher = (refl, refl)
  request-Waited false (ok u) during later matcher = (refl, wait-Waited matcher (during ++ later))
