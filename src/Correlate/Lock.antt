-- ===== src/Correlate/Lock.antt =====
-- When a serialized request of correlate.rs gives its lock back.
use rsbtd.Base.{
  ℕ, ◌≡◌, refl, ap, Bool, append-nil, true, false, ◌&&◌, List, [], ◌∷◌, ◌++◌, none, some, All,
  arith, if◌then◌else◌,
}
use rsbtd.Events.{Event}
use rsbtd.Errors.{Result, ok, err, timeout}
use rsbtd.Correlate.{
  Received, event, lagged, closed, elapsed, shutdown, Matcher, Guard, held, dropped, is_torrent,
  is_removed, drain, serve, request_serialized,
}

-- Whether the deadline is among the yields.
abbrev pub times_out : List Received → Bool
times_out [] = false
times_out (elapsed ∷ rs) = true
times_out (_ ∷ rs) = times_out rs

module _ {A : Type 0} where
  -- A yield that neither answers the request nor removes its torrent; the deadline may be one.
  abbrev pub Quiet : Matcher A → ℕ → Received → Type 0
  Quiet matcher torrent (event e) =
      (matcher e ≡ none) × ((is_torrent e torrent && is_removed e.kind) ≡ false)
  Quiet matcher torrent (lagged n) = ⊥
  Quiet matcher torrent closed = ⊥
  Quiet matcher torrent elapsed = Unit
  Quiet matcher torrent shutdown = ⊥

  drain-Quiet :
      (matcher : Matcher A) (torrent : ℕ) (before after : List Received)
      → All (Quiet matcher torrent) before
      → drain matcher torrent (before ++ after) ≡ drain matcher torrent after
  unfolding drain
  drain-Quiet matcher torrent [] after h = refl
  drain-Quiet matcher torrent (event e ∷ rs) after (q, h) =
      ground (arith, drain-Quiet matcher torrent rs after h)
  drain-Quiet matcher torrent (elapsed ∷ rs) after (q, h) = drain-Quiet matcher torrent rs after h
  drain-Quiet matcher torrent (lagged n ∷ rs) after (q, h) = absurd q
  drain-Quiet matcher torrent (closed ∷ rs) after (q, h) = absurd q
  drain-Quiet matcher torrent (shutdown ∷ rs) after (q, h) = absurd q

  serve-Quiet :
      (matcher : Matcher A) (torrent : ℕ) (before after : List Received)
      → All (Quiet matcher torrent) before
      → serve matcher torrent (before ++ after) ≡ (
          if times_out before
          then (some (err timeout), drain matcher torrent after)
          else serve matcher torrent after)
  unfolding serve
  serve-Quiet matcher torrent [] after h = refl
  serve-Quiet matcher torrent (event e ∷ rs) after (q, h) =
      ground (arith, serve-Quiet matcher torrent rs after h)
  serve-Quiet matcher torrent (elapsed ∷ rs) after (q, h) =
      ap (λ (g : Guard). (some (err timeout), g)) (drain-Quiet matcher torrent rs after h)
  serve-Quiet matcher torrent (lagged n ∷ rs) after (q, h) = absurd q
  serve-Quiet matcher torrent (closed ∷ rs) after (q, h) = absurd q
  serve-Quiet matcher torrent (shutdown ∷ rs) after (q, h) = absurd q

  -- The lock of a posted request is given back exactly behind the event that answers it, so that no
  -- later holder can take that event for its own answer: whether the request still waits, and then
  -- it returns the answer, or has timed out before, and then it has returned `timeout`. Between the
  -- post and the answer the receiver must not lag, the bus must not close, the engine must not shut
  -- down and the torrent must not be removed.
  pub answer_releases :
      (matcher : Matcher A) (torrent : ℕ) (during later before after : List Received) (e : Event)
      (r : Result A)
      → (during ++ later) ≡ (before ++ event e ∷ after)
      → All (Quiet matcher torrent) before
      → matcher e ≡ some r
      → request_serialized false torrent (ok tt) during later matcher
        ≡ (true, ((if times_out before then some (err timeout) else some r), dropped after))
  unfolding request_serialized serve drain
  answer_releases matcher torrent during later before after e r h q m =
      ground (
        arith,
        ap (serve matcher torrent) h,
        serve-Quiet matcher torrent before (event e ∷ after) q,
      )

  -- A yield before the deadline that the request passes over: an event that does not answer it, or a
  -- lag, in which its answer may have been lost.
  abbrev pub Unanswered : Matcher A → Received → Type 0
  Unanswered matcher (event e) = matcher e ≡ none
  Unanswered matcher (lagged n) = Unit
  Unanswered matcher closed = ⊥
  Unanswered matcher elapsed = ⊥
  Unanswered matcher shutdown = ⊥

  serve-Unanswered :
      (matcher : Matcher A) (torrent : ℕ) (before after : List Received)
      → All (Unanswered matcher) before
      → serve matcher torrent (before ++ elapsed ∷ after)
        ≡ (some (err timeout), drain matcher torrent after)
  unfolding serve
  serve-Unanswered matcher torrent [] after h = refl
  serve-Unanswered matcher torrent (event e ∷ rs) after (q, h) =
      ground (arith, serve-Unanswered matcher torrent rs after h)
  serve-Unanswered matcher torrent (lagged n ∷ rs) after (q, h) =
      serve-Unanswered matcher torrent rs after h
  serve-Unanswered matcher torrent (closed ∷ rs) after (q, h) = absurd q
  serve-Unanswered matcher torrent (elapsed ∷ rs) after (q, h) = absurd q
  serve-Unanswered matcher torrent (shutdown ∷ rs) after (q, h) = absurd q

  -- A posted request that has seen no answer by its deadline, so also one whose answer was lost in a lag of its
  -- receiver at any time before, returns `timeout`, and its lock stays held over any further events
  -- that do not match. This is for a bus that neither closes nor is shut down; behind the deadline the
  -- torrent must not be removed and the receiver must not lag again. So a lost answer is waited for
  -- without end.
  pub lost_answer-held :
      (matcher : Matcher A) (torrent : ℕ) (during later before after : List Received)
      → (during ++ later) ≡ (before ++ elapsed ∷ after)
      → All (Unanswered matcher) before
      → All (Quiet matcher torrent) after
      → request_serialized false torrent (ok tt) during later matcher
        ≡ (true, (some (err timeout), held))
  unfolding request_serialized serve drain
  lost_answer-held matcher torrent during later before after h q p = ground (
    arith,
    ap (serve matcher torrent) h,
    serve-Unanswered matcher torrent before after q,
    drain-Quiet matcher torrent after [] p,
    ap (drain matcher torrent) (append-nil after),
  )
