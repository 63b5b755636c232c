-- ===== src/Correlate.antt =====
-- rsbtd/src/engine/correlate.rs: requests that wait for their answer on the event bus.
-- A wait is a function of what its receiver yields, in order; the deadline and the shutdown token
-- yield as well, at any place, since `select!` prefers neither. Where the list ends the request
-- still waits.
pub mod Answer
pub mod Lock
mod Tests
use rsbtd.Base.{
  ℕ, Bool, true, false, ◌&&◌, List, [], ◌∷◌, ◌++◌, Option, none, some, ◌==◌, if◌then◌else◌, is_some,
}
use rsbtd.Events.{Event, EventKind}
use rsbtd.Errors.{Done, Result, ok, err, EngineError, timeout, shutting_down}

pub data Received : Type 0 where
  event : Event → Received
  lagged : ℕ → Received
  closed : Received
  elapsed : Received
  shutdown : Received

abbrev pub Matcher : Type 0 → Type 0
Matcher A = Event → Option (Result A)

pub data Wait (A : Type 0) : Type 0 where
  pending : Wait A
  -- The result, and what the receiver would yield next.
  returned : Result A → List Received → Wait A

unfoldable pub is_torrent : Event → ℕ → Bool
is_torrent e uuid = elim e.torrent [ none ↦ false | some u ↦ u == uuid ]

abbrev pub is_removed : EventKind → Bool
is_removed EventKind.torrent_removed = true
is_removed _ = false

-- The guard of the operation's lock: still held, or dropped with these yields to come.
pub data Guard : Type 0 where
  held : Guard
  dropped : List Received → Guard

-- What posting the operation returns.
abbrev pub Post : Type 0
Post = Result Done

module _ {A : Type 0} where
  unfoldable pub wait : Matcher A → List Received → Wait A
  wait matcher [] = pending
  wait matcher (event e ∷ rs) = elim (matcher e) [
    | none ↦ wait matcher rs
    | some result ↦ returned result rs
  ]
  wait matcher (lagged n ∷ rs) = wait matcher rs
  wait matcher (closed ∷ rs) = returned (err shutting_down) rs
  wait matcher (elapsed ∷ rs) = returned (err timeout) rs
  wait matcher (shutdown ∷ rs) = returned (err shutting_down) rs

  -- `during` is what the bus carries while `post` runs, `later` what it carries behind it; the
  -- Boolean says whether `post` was called.
  unfoldable pub request : Bool → Post → List Received → List Received → Matcher A → Bool × Wait A
  request cancelled post during later matcher =
      if cancelled then (false, returned (err shutting_down) (during ++ later)) else (
        true,
        elim post [
          | ok u ↦ wait matcher (during ++ later)
          | err e ↦ returned (err e) (during ++ later)
        ],
      )

  -- The task that inherits the guard of a request that timed out. It has no deadline.
  unfoldable pub drain : Matcher A → ℕ → List Received → Guard
  drain matcher torrent [] = held
  drain matcher torrent (event e ∷ rs) =
      let rest = drain matcher torrent rs in
      if is_some (matcher e)
      then dropped rs
      else if is_torrent e torrent && is_removed e.kind
      then dropped rs
      else rest
  drain matcher torrent (lagged n ∷ rs) = dropped rs
  drain matcher torrent (closed ∷ rs) = dropped rs
  drain matcher torrent (elapsed ∷ rs) = drain matcher torrent rs
  drain matcher torrent (shutdown ∷ rs) = dropped rs

  -- The loop of `request_serialized`; `none` while it waits.
  unfoldable pub serve : Matcher A → ℕ → List Received → Option (Result A) × Guard
  serve matcher torrent [] = (none, held)
  serve matcher torrent (event e ∷ rs) = elim (matcher e) [
    | none ↦ serve matcher torrent rs
    | some result ↦ (some result, dropped rs)
  ]
  serve matcher torrent (lagged n ∷ rs) = serve matcher torrent rs
  serve matcher torrent (closed ∷ rs) = (some (err shutting_down), dropped rs)
  serve matcher torrent (elapsed ∷ rs) = (some (err timeout), drain matcher torrent rs)
  serve matcher torrent (shutdown ∷ rs) = (some (err shutting_down), dropped rs)

  unfoldable pub request_serialized :
      Bool
      → ℕ
      → Post
      → List Received
      → List Received
      → Matcher A
      → Bool × (Option (Result A) × Guard)
  request_serialized cancelled torrent post during later matcher =
      if cancelled then (false, (some (err shutting_down), dropped (during ++ later))) else (
        true,
        elim post [
          | ok u ↦ serve matcher torrent (during ++ later)
          | err e ↦ (some (err e), dropped (during ++ later))
        ],
      )
