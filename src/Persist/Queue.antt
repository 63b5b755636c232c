-- ===== src/Persist/Queue.antt =====
-- What the persister task of persist.rs has done behind a whole queue of operations.
use rsbtd.Base.{
  ℕ, zero, suc, ◌+◌, ◌≡◌, ◌≢◌, refl, inl, inr, ap, subst, sym, ◌∙◌, Bool, true, false, List, [],
  ◌∷◌, Option, none, some, arith, ◌==◌, ==_iff, if◌then◌else◌, Bool-cases, All,
}
use rsbtd.Base.Set
use rsbtd.Events.{Bytes}
use rsbtd.Inflight.{alive, aborted, dec, >>=-alive}
use rsbtd.Persist.{
  session_state, resume_file, Faults, PersistOp, write_resume, delete_resume, write_session_state,
  Blocking, returned, panicked, Persister, blocking_write, send_ack, process, run_persister, put,
  release,
}
use rsbtd.Persist.Atomic.{put_self, put-ne}
use rsbtd.Persist.Operation.{
  after, process-write_resume, disk-after, dirty-after, blocking_write-frame, blocking_write-Kept,
  process-write_resume_outcome, blocking_write-success, settle-inflight,
}

-- The tokens in flight that an operation gives back: one for a resume write.
abbrev pub tokens : PersistOp → ℕ
tokens (write_resume u b ack) = 1
tokens (delete_resume u) = 0
tokens (write_session_state b ack) = 0

abbrev pub all_tokens : List (PersistOp × Blocking) → ℕ
all_tokens [] = 0
all_tokens ((op, bl) ∷ ops) = tokens op + all_tokens ops

send_ack-inflight :
    (k : Option ℕ) (r : Bool) (s : Persister) → (send_ack k r s).inflight ≡ s.inflight
unfolding send_ack
send_ack-inflight none r s = refl
send_ack-inflight (some k) r s = refl

pub process-alive :
    (op : PersistOp) (bl : Blocking) (s : Persister) (rest : ℕ)
    → s.inflight ≡ tokens op + rest
    → (t : Persister) × (process op bl s ≡ alive t) × (t.inflight ≡ rest)
process-alive (write_resume u b ack) bl s rest h =
    let (t, p, q, o) = process-write_resume_outcome u b ack bl s rest (omega arith) in (t, p, q)
process-alive (delete_resume u) (panicked d) s rest h =
    (record s { disk = d }, unfold process in refl, omega arith)
process-alive (delete_resume u) (returned f) s rest h = (
  if f.unlinks then record s { disk = put (resume_file u) none s.disk } else s,
  unfold process in refl,
  ground arith,
)
process-alive (write_session_state b ack) bl s rest h =
    let w = blocking_write session_state b bl s in
    (
      send_ack ack w.1 w.0,
      unfold process in refl,
      omega (
        arith,
        send_ack-inflight ack w.1 w.0,
        (blocking_write-Kept session_state b bl s).inflight,
      ),
    )

-- With a token for each resume write the queue is worked off without an abort, and exactly those
-- tokens are given back, whatever the disk does.
pub run_persister-alive :
    (ops : List (PersistOp × Blocking)) (s : Persister) (rest : ℕ)
    → s.inflight ≡ all_tokens ops + rest
    → (t : Persister) × (run_persister ops s ≡ alive t) × (t.inflight ≡ rest)
unfolding run_persister
run_persister-alive [] s rest h = (s, refl, omega arith)
run_persister-alive ((op, bl) ∷ ops) s rest h =
    let (s', p, q) = process-alive op bl s (all_tokens ops + rest) (omega arith) in
    let (t, r, e) = run_persister-alive ops s' rest q in (t, rw p r, e)

-- What a torrent's file holds behind an operation that does what it says.
abbrev pub contents : ℕ → PersistOp → Option Bytes → Option Bytes
contents u (write_resume v b ack) c = if v == u then some b else c
contents u (delete_resume v) c = if v == u then none else c
contents u (write_session_state b ack) c = c

abbrev pub contents_all : ℕ → List (PersistOp × Blocking) → Option Bytes → Option Bytes
contents_all u [] c = c
contents_all u ((op, bl) ∷ ops) c = contents_all u ops (contents u op c)

-- No blocking task panics and no unlink of a resume file fails. Writes may fail in any way.
abbrev pub IsHealthy : PersistOp × Blocking → Type 0
IsHealthy (op, panicked d) = ⊥
IsHealthy (write_resume u b ack, returned f) = Unit
IsHealthy (delete_resume u, returned f) = f.unlinks ≡ true
IsHealthy (write_session_state b ack, returned f) = Unit

-- A torrent that is not dirty has the content on disk.
abbrev pub Holds : ℕ → Option Bytes → Persister → Type 0
Holds u c s = Set.contains u s.dirty ≡ false → s.disk (resume_file u) ≡ c

resume_file-ne : (u v : ℕ) → (v == u) ≡ false → resume_file u ≢ resume_file v
resume_file-ne u v h e = ground arith

alive_injective : {s t : Persister} → alive s ≡ alive t → s ≡ t
alive_injective h = cc

after-Holds :
    (v : ℕ) (b : Bytes) (ack : Option ℕ) (f : Faults) (s : Persister) (n u : ℕ) (c : Option Bytes)
    → Holds u c s
    → Holds u
        (if v == u then some b else c)
        (after v ack n (blocking_write (resume_file v) b (returned f) s))
after-Holds v b ack f s n u c k clean =
    let w = blocking_write (resume_file v) b (returned f) s in
    elim (Bool-cases (v == u)) [
      | inl e ↦ rw (disk-after v ack n w) (
          ground (
            arith,
            dirty-after v u ack n w,
            blocking_write-success v b (returned f) s,
            ap resume_file ((==_iff v u).0 e),
          ))
      | inr e ↦ rw (disk-after v ack n w) (
          ground (
            arith,
            dirty-after v u ack n w,
            blocking_write-frame (resume_file v) u b f s (resume_file-ne u v e),
            (blocking_write-Kept (resume_file v) b (returned f) s).dirty,
          ))
    ]

write_resume-aborted :
    (v : ℕ) (b : Bytes) (ack : Option ℕ) (bl : Blocking) (s : Persister)
    → s.inflight ≡ 0
    → process (write_resume v b ack) bl s ≡ aborted
unfolding process release dec
write_resume-aborted v b ack bl s h =
    let (s', r) = blocking_write (resume_file v) b bl s in
    rw (settle-inflight v r s' ∙ (blocking_write-Kept (resume_file v) b bl s).inflight ∙ h, dec)

write_resume-Holds :
    (v : ℕ) (b : Bytes) (ack : Option ℕ) (f : Faults) (s t : Persister) (u : ℕ) (c : Option Bytes)
    (m : ℕ)
    → s.inflight ≡ m
    → process (write_resume v b ack) (returned f) s ≡ alive t
    → Holds u c s
    → Holds u (if v == u then some b else c) t
write_resume-Holds v b ack f s t u c zero e p k =
    let a = write_resume-aborted v b ack (returned f) s e in cc
write_resume-Holds v b ack f s t u c (suc n) e p k =
    subst (Holds u (if v == u then some b else c))
      (alive_injective (sym (process-write_resume v b ack (returned f) s n e) ∙ p))
      (after-Holds v b ack f s n u c k)

delete_resume-Holds :
    (v : ℕ) (f : Faults) (s t : Persister) (u : ℕ) (c : Option Bytes)
    → f.unlinks ≡ true
    → process (delete_resume v) (returned f) s ≡ alive t
    → Holds u c s
    → Holds u (if v == u then none else c) t
unfolding process
delete_resume-Holds v f s t u c h p k clean = elim (Bool-cases (v == u)) [
  | inl e ↦ ground (arith, put_self (resume_file v) none s.disk, ap resume_file ((==_iff v u).0 e))
  | inr e ↦ ground (
    arith,
    put-ne (resume_file v) (resume_file u) none s.disk (λ x. resume_file-ne u v e (sym x)),
  )
]

session_state-Holds :
    (b : Bytes) (ack : Option ℕ) (f : Faults) (s t : Persister) (u : ℕ) (c : Option Bytes)
    → process (write_session_state b ack) (returned f) s ≡ alive t
    → Holds u c s
    → Holds u c t
unfolding process send_ack
session_state-Holds b none f s t u c p k clean = ground (
  arith,
  blocking_write-frame session_state u b f s (λ e. cc),
  (blocking_write-Kept session_state b (returned f) s).dirty,
)
session_state-Holds b (some a) f s t u c p k clean = ground (
  arith,
  blocking_write-frame session_state u b f s (λ e. cc),
  (blocking_write-Kept session_state b (returned f) s).dirty,
)

process-Holds :
    (op : PersistOp) (bl : Blocking) (s t : Persister) (u : ℕ) (c : Option Bytes)
    → IsHealthy (op, bl)
    → process op bl s ≡ alive t
    → Holds u c s
    → Holds u (contents u op c) t
process-Holds (write_resume v b ack) (returned f) s t u c h p k =
    write_resume-Holds v b ack f s t u c s.inflight refl p k
process-Holds (delete_resume v) (returned f) s t u c h p k = delete_resume-Holds v f s t u c h p k
process-Holds (write_session_state b ack) (returned f) s t u c h p k =
    session_state-Holds b ack f s t u c p k
process-Holds op (panicked d) s t u c h p k = absurd h

-- Behind any queue whose writes may fail but whose tasks do not panic and whose unlinks succeed, a
-- torrent that is not marked dirty has on disk what the last write or delete of it asked for: the
-- bytes of the write, or no file behind a delete. So no delete is overtaken by an earlier write.
pub run_persister-contents :
    (ops : List (PersistOp × Blocking)) (s t : Persister) (u : ℕ) (c : Option Bytes)
    → All IsHealthy ops
    → run_persister ops s ≡ alive t
    → (Set.contains u s.dirty ≡ false → s.disk (resume_file u) ≡ c)
    → Set.contains u t.dirty ≡ false
    → t.disk (resume_file u) ≡ contents_all u ops c
unfolding run_persister
run_persister-contents [] s t u c h p k = subst (Holds u c) (alive_injective p) k
run_persister-contents ((op, bl) ∷ ops) s t u c (h, hs) p k =
    let (s', e, q) = >>=-alive (process op bl s) (run_persister ops) p in
    run_persister-contents ops s' t u (contents u op c) hs q (process-Holds op bl s s' u c h e k)
