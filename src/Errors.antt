-- ===== src/Errors.antt =====
-- `EngineError` of rsbtd/src/engine/mod.rs and the results of fallible operations.
-- An error of rbtorrent is a number, and one of the file system is not told apart from another; an invalid request is known by the form
-- of its text and what it quotes.
use rsbtd.Base.{ℕ, Option}
use rsbtd.Events.{Text, ResumeFailure}

pub data InvalidRequest : Type 0 where
  delete_failed : Option ℕ → InvalidRequest
  save_failed : ResumeFailure → InvalidRequest
  scrape_error : Text → InvalidRequest
  no_trackers : InvalidRequest
  tracker_outside : ℕ → InvalidRequest
  unspecified_error : InvalidRequest

pub data EngineError : Type 0 where
  torrent : ℕ → EngineError
  not_found : EngineError
  timeout : EngineError
  shutting_down : EngineError
  invalid : InvalidRequest → EngineError
  io : EngineError

pub data Result {ℓ} (A : Type ℓ) : Type ℓ where
  ok : A → Result A
  err : EngineError → Result A

-- `()`.
abbrev pub Done : Type 0
Done = Unit

-- `?`.
infixl 5 ◌>>=◌
abbrev pub ◌>>=◌ {ℓ κ} : {A : Type ℓ} {B : Type κ} → Result A → (A → Result B) → Result B
ok a >>= f = f a
err e >>= f = err e
