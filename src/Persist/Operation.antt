-- ===== src/Persist/Operation.antt =====
-- What one operation of the persister task of persist.rs does.
use rsbtd.Base.{
  ℕ, suc, ◌≡◌, ◌≢◌, refl, ◌⊎◌, inl, inr, ◌∙◌, Bool, true, false, [], ◌∷◌, ◌++◌, Option, none, some,
  arith, not, ◌==◌, if◌then◌else◌,
}
use rsbtd.Base.Set
use rsbtd.Base.Set.{contains-insert, contains-remove, contains-insert_self, contains-remove_self}
use rsbtd.Events.{Bytes, resume_data_saved, resume_data_failed, not_written}
use rsbtd.Inflight.{alive, dec}
use rsbtd.Persist.{
  FilePath, session_state, resume_file, Faults, write_resume, Blocking, returned, panicked,
  Persister, blocking_write, send_ack, settle, release, process,
}
use rsbtd.Persist.Atomic.{write_atomic_result}

-- Success of a resume write: the bytes are in the torrent's file, the torrent is not dirty, and a
-- `ResumeDataSaved` is published.
pub record Saved (u : ℕ) (b : Bytes) (ack : Option ℕ) (s t : Persister) : Type 0 where
  pub on_disk : t.disk (resume_file u) ≡ some b
  pub clean : Set.contains u t.dirty ≡ false
  pub published :
      t.events ≡ s.events ++ (record { torrent = some u; kind = resume_data_saved } ∷ [])
  pub acked : t.acks ≡ (send_ack ack true s).acks

-- Failure of it: the torrent is dirty and a `ResumeDataFailed` is published.
pub record Unsaved (u : ℕ) (ack : Option ℕ) (s t : Persister) : Type 0 where
  pub marked : Set.contains u t.dirty ≡ true
  pub published :
      t.events
      ≡ s.events ++ (record { torrent = some u; kind = resume_data_failed not_written } ∷ [])
  pub acked : t.acks ≡ (send_ack ack false s).acks

-- The persister behind a resume write with the given result.
abbrev pub after : ℕ → Option ℕ → ℕ → Persister × Bool → Persister
after u ack n (s', result) = send_ack ack result (record (settle u result s') { inflight = n })

pub settle-inflight : (u : ℕ) (r : Bool) (s : Persister) → (settle u r s).inflight ≡ s.inflight
unfolding settle
settle-inflight u true s = refl
settle-inflight u false s = refl

-- What a blocking write leaves alone.
pub record Kept (s t : Persister) : Type 0 where
  pub inflight : t.inflight ≡ s.inflight
  pub dirty : t.dirty ≡ s.dirty
  pub events : t.events ≡ s.events
  pub acks : t.acks ≡ s.acks

pub blocking_write-Kept :
    (p : FilePath) (b : Bytes) (bl : Blocking) (s : Persister) → Kept s (blocking_write p b bl s).0
unfolding blocking_write
blocking_write-Kept p b (panicked d) s = ground arith
blocking_write-Kept p b (returned f) s = ground arith

release-alive :
    (s : Persister) (n : ℕ) → s.inflight ≡ suc n → release s ≡ alive (record s { inflight = n })
unfolding release dec
release-alive s n h = rw (h, dec)

after-inflight :
    (u : ℕ) (ack : Option ℕ) (n : ℕ) (w : Persister × Bool) → (after u ack n w).inflight ≡ n
unfolding send_ack
after-inflight u none n w = refl
after-inflight u (some k) n w = refl

pub process-write_resume :
    (u : ℕ) (b : Bytes) (ack : Option ℕ) (bl : Blocking) (s : Persister) (n : ℕ)
    → s.inflight ≡ suc n
    → process (write_resume u b ack) bl s
      ≡ alive (after u ack n (blocking_write (resume_file u) b bl s))
unfolding process
process-write_resume u b ack bl s n h =
    let (s', r) = blocking_write (resume_file u) b bl s in
    rw (
      release-alive (settle u r s') n
        (settle-inflight u r s' ∙ (blocking_write-Kept (resume_file u) b bl s).inflight ∙ h))

settle_lem :
    (u n : ℕ) (b : Bytes) (ack : Option ℕ) (r : Bool) (s s' : Persister)
    → Kept s s'
    → (r ≡ true → s'.disk (resume_file u) ≡ some b)
    → Saved u b ack s (after u ack n (s', r)) ⊎ Unsaved u ack s (after u ack n (s', r))
unfolding settle send_ack
settle_lem u n b none true s s' k d = inl (ground (arith, d refl, contains-remove_self u s'.dirty))
settle_lem u n b (some a) true s s' k d =
    inl (ground (arith, d refl, contains-remove_self u s'.dirty))
settle_lem u n b none false s s' k d = inr (ground (arith, contains-insert_self u s'.dirty))
settle_lem u n b (some a) false s s' k d = inr (ground (arith, contains-insert_self u s'.dirty))

-- A blocking write that reports success has put the bytes at the path.
pub blocking_write-success :
    (u : ℕ) (b : Bytes) (bl : Blocking) (s : Persister)
    → (blocking_write (resume_file u) b bl s).1 ≡ true
    → (blocking_write (resume_file u) b bl s).0.disk (resume_file u) ≡ some b
unfolding blocking_write
blocking_write-success u b (panicked d) s h = cc
blocking_write-success u b (returned f) s h = ground (
  arith,
  write_atomic_result (resume_file u) s.pid s.tmp_seq b f s.disk session_state (λ e. cc) (λ e. cc),
)

-- A resume write that has a token in flight takes exactly that token, and either saves the record
-- or marks the torrent dirty; the acknowledgement and the event say which.
pub process-write_resume_outcome :
    (u : ℕ) (b : Bytes) (ack : Option ℕ) (bl : Blocking) (s : Persister) (n : ℕ)
    → s.inflight ≡ suc n
    → (t : Persister) × (process (write_resume u b ack) bl s ≡ alive t)
      × (t.inflight ≡ n)
      × (Saved u b ack s t ⊎ Unsaved u ack s t)
process-write_resume_outcome u b ack bl s n h = (
  after u ack n (blocking_write (resume_file u) b bl s),
  process-write_resume u b ack bl s n h,
  after-inflight u ack n _,
  settle_lem u n b ack (blocking_write (resume_file u) b bl s).1 s _
      (blocking_write-Kept (resume_file u) b bl s) (blocking_write-success u b bl s),
)

pub disk-after :
    (u : ℕ) (ack : Option ℕ) (n : ℕ) (w : Persister × Bool) → (after u ack n w).disk ≡ w.0.disk
unfolding send_ack settle
disk-after u none n (s, true) = refl
disk-after u none n (s, false) = refl
disk-after u (some k) n (s, true) = refl
disk-after u (some k) n (s, false) = refl

pub dirty-after :
    (u v : ℕ) (ack : Option ℕ) (n : ℕ) (w : Persister × Bool)
    → Set.contains v (after u ack n w).dirty
      ≡ (if u == v then not w.1 else Set.contains v w.0.dirty)
unfolding send_ack settle
dirty-after u v none n (s, true) = ground (arith, contains-remove u v s.dirty)
dirty-after u v none n (s, false) = ground (arith, contains-insert u v s.dirty)
dirty-after u v (some k) n (s, true) = ground (arith, contains-remove u v s.dirty)
dirty-after u v (some k) n (s, false) = ground (arith, contains-insert u v s.dirty)

-- A write that returns changes no other torrent's file.
pub blocking_write-frame :
    (p : FilePath) (u : ℕ) (b : Bytes) (f : Faults) (s : Persister)
    → resume_file u ≢ p
    → (blocking_write p b (returned f) s).0.disk (resume_file u) ≡ s.disk (resume_file u)
unfolding blocking_write
blocking_write-frame p u b f s h =
    (write_atomic_result p s.pid s.tmp_seq b f s.disk (resume_file u) h (λ e. cc)).0
