-- ===== src/Pump/Quiet.antt =====
-- The drain-only mode of rsbtd/src/engine/pump.rs: while quiescing the pump posts no save.
use rsbtd.Base.{◌≡◌, true}
use rsbtd.Inflight.{Process, alive, aborted}
use rsbtd.Pump.{Pump}

-- `q` still quiesces and has posted no more than `p`; the process may have aborted.
abbrev Quiet : Pump → Process Pump → Type 0
Quiet p (alive q) = (q.quiesce ≡ true) × (q.posted ≡ p.posted)
Quiet p aborted = Unit
