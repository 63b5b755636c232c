-- ===== src/Persist/Atomic.antt =====
-- What `write_atomic` of persist.rs guarantees at each moment and at its end.
use rsbtd.Base.{
  ℕ, suc, ◌≡◌, ◌≢◌, ◌⊎◌, ap, true, false, inl, inr, List, [], ◌∷◌, Option, none, some, arith, All,
}
use rsbtd.Events.{Bytes}
use rsbtd.Persist.{
  FilePath, session_state, resume_file, tmp, stray, corrupt, Disk, put, Moment, mark, Faults,
  write_atomic,
}

pub put_self : (p : FilePath) (c : Option Bytes) (d : Disk) → put p c d p ≡ c
unfolding put
put_self p c d = ground arith

pub put-ne : (p q : FilePath) (c : Option Bytes) (d : Disk) → p ≢ q → put p c d q ≡ d q
unfolding put
put-ne p q c d h = ground arith

-- The `.tmp` suffixes of a path.
abbrev suffixes : FilePath → ℕ
suffixes session_state = 0
suffixes (resume_file u) = 0
suffixes (stray n) = 0
suffixes (corrupt p) = suffixes p
suffixes (tmp p pid n) = suc (suffixes p)

pub tmp-ne : (p : FilePath) (pid n : ℕ) → tmp p pid n ≢ p
tmp-ne p pid n h = absurd (omega (arith, ap suffixes h))

-- What a file may hold behind a crash, given the moments so far: since names reach the medium at any
-- time, what it held at one of these moments, or anything if that was not yet on the medium.
abbrev pub Survives : List Moment → FilePath → Option Bytes → Type 0
Survives [] path c = ⊥
Survives (m ∷ ms) path c = ((c ≡ m.disk path) ⊎ (m.volatile path ≡ true)) ⊎ Survives ms path c

-- A moment at which the target is on the medium, with its old content or all of the new bytes.
abbrev Intact : FilePath → Option Bytes → Bytes → Moment → Type 0
Intact path old bytes m =
    (m.volatile path ≡ false) × ((m.disk path ≡ old) ⊎ (m.disk path ≡ some bytes))

write_atomic-Intact :
    (path : FilePath) (pid n : ℕ) (bytes : Bytes) (f : Faults) (d : Disk)
    → All (Intact path (d path) bytes) (write_atomic path (tmp path pid n) bytes f d).seen
unfolding write_atomic put mark
write_atomic-Intact path pid n bytes f d = ground (arith, tmp-ne path pid n)

Intact-Survives :
    (path : FilePath) (old c : Option Bytes) (bytes : Bytes) (ms : List Moment)
    → All (Intact path old bytes) ms
    → Survives ms path c
    → (c ≡ old) ⊎ (c ≡ some bytes)
Intact-Survives path old c bytes [] h s = absurd s
Intact-Survives path old c bytes (m ∷ ms) ((v, h), hs) (inl s) = ground arith
Intact-Survives path old c bytes (m ∷ ms) (h, hs) (inr s) = Intact-Survives path old c bytes ms hs s

-- Whenever a write is cut off by a crash, the target then holds its old content or all of the new bytes,
-- if the old content was on the medium before. A crash may leave of a file what it held at any moment
-- of the write so far, and anything at all of one that was written and not yet synced.
pub write_atomic-atomic :
    (path : FilePath) (pid n : ℕ) (bytes : Bytes) (f : Faults) (d : Disk) (c : Option Bytes)
    → Survives (write_atomic path (tmp path pid n) bytes f d).seen path c
    → (c ≡ d path) ⊎ (c ≡ some bytes)
write_atomic-atomic path pid n bytes f d c s =
    Intact-Survives path (d path) c bytes (write_atomic path (tmp path pid n) bytes f d).seen
      (write_atomic-Intact path pid n bytes f d) s

-- A write that reports success has put the bytes in the target and left no temporary file; one that
-- reports failure has not touched the target. No file but the target and the temporary one changes.
pub write_atomic_result :
    (path : FilePath) (pid n : ℕ) (bytes : Bytes) (f : Faults) (d : Disk) (q : FilePath)
    → q ≢ path
    → q ≢ tmp path pid n
    → let w = write_atomic path (tmp path pid n) bytes f d in
      (w.disk q ≡ d q)
      × (((w.ok ≡ true) × (w.disk path ≡ some bytes) × (w.disk (tmp path pid n) ≡ none))
          ⊎ ((w.ok ≡ false) × (w.disk path ≡ d path)))
unfolding write_atomic put
write_atomic_result path pid n bytes f d q nq nt = ground (arith, tmp-ne path pid n)
