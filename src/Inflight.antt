-- ===== src/Inflight.antt =====
-- `Inflight` of rsbtd/src/engine/mod.rs, the count of resume saves in flight, and the abort of the
-- process on a fatal error, which ends every computation that meets it.
use rsbtd.Base.{ℕ, zero, suc, ◌≡◌, refl, Bool, true, false, if◌then◌else◌}

-- `aborted` is `fatal`: the process is gone.
pub data Process {ℓ} (A : Type ℓ) : Type ℓ where
  alive : A → Process A
  aborted : Process A

infixl 5 ◌>>=◌
abbrev pub ◌>>=◌ {ℓ κ} : {A : Type ℓ} {B : Type κ} → Process A → (A → Process B) → Process B
alive a >>= f = f a
aborted >>= f = aborted

unfoldable pub inc : ℕ → ℕ
inc count = suc count

-- `checked_sub(1)`, and `fatal` where it fails.
unfoldable pub dec : ℕ → Process ℕ
dec zero = aborted
dec (suc count) = alive count

-- Inversion of a chain that stayed alive.
pub >>=-alive {ℓ κ} :
    {A : Type ℓ} {B : Type κ} (m : Process A) (f : A → Process B) {b : B}
    → (m >>= f) ≡ alive b
    → (a : A) × (m ≡ alive a) × (f a ≡ alive b)
>>=-alive (alive a) f h = (a, refl, h)
>>=-alive aborted f h = cc

-- The computation stays alive and its result satisfies `P`.
abbrev pub Alive {ℓ} : {A : Type ℓ} → (A → Type 0) → Process A → Type 0
Alive P (alive a) = P a
Alive P aborted = ⊥

pub >>=-Alive {ℓ κ} :
    {A : Type ℓ} {B : Type κ} (P : A → Type 0) (Q : B → Type 0) (m : Process A) (f : A → Process B)
    → Alive P m
    → ((a : A) → P a → Alive Q (f a))
    → Alive Q (m >>= f)
>>=-Alive P Q (alive a) f h k = k a h
>>=-Alive P Q aborted f h k = absurd h

pub Alive-map {ℓ} :
    {A : Type ℓ} (P Q : A → Type 0) (m : Process A) → Alive P m → ((a : A) → P a → Q a) → Alive Q m
Alive-map P Q (alive a) h k = k a h
Alive-map P Q aborted h k = absurd h

-- A computation that stays alive has a value that satisfies the predicate.
pub Alive-value {ℓ} :
    {A : Type ℓ} (P : A → Type 0) (m : Process A) → Alive P m → (a : A) × (m ≡ alive a) × P a
Alive-value P (alive a) h = (a, refl, h)
Alive-value P aborted h = absurd h

pub if-Alive {ℓ} :
    {A : Type ℓ} (P : A → Type 0) (b : Bool) (m k : Process A)
    → Alive P m
    → Alive P k
    → Alive P (if b then m else k)
if-Alive P true m k h g = h
if-Alive P false m k h g = g
