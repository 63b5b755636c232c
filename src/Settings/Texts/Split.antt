-- ===== src/Settings/Texts/Split.antt =====
-- `split`, `join`, `split_once`, `rsplit_once` and `trim_end_matches` on texts, and how they undo each other.
use rsbtd.Base.{
  ℕ, ◌≡◌, ◌≢◌, refl, ap, Bool, true, false, List, [], ◌∷◌, ◌++◌, Option, none, some, ◌==◌,
  if◌then◌else◌, arith, All,
}
use rsbtd.Events.{Text}

-- The first part takes one more character.
abbrev grow : ℕ → List Text → List Text
grow c [] = (c ∷ []) ∷ []
grow c (p ∷ ps) = (c ∷ p) ∷ ps

unfoldable pub split : ℕ → Text → List Text
split sep [] = [] ∷ []
split sep (c ∷ s) = let rest = split sep s in if c == sep then [] ∷ rest else grow c rest

unfoldable pub join : ℕ → List Text → Text
join sep [] = []
join sep (p ∷ []) = p
join sep (p ∷ q ∷ ps) = p ++ sep ∷ join sep (q ∷ ps)

abbrev pub Lacks : ℕ → Text → Type 0
Lacks sep = All (λ c. c ≢ sep)

pub split-part :
    (sep : ℕ) (p rest : Text) → Lacks sep p → split sep (p ++ sep ∷ rest) ≡ p ∷ split sep rest
unfolding split
split-part sep [] rest lacks = ground arith
split-part sep (c ∷ p) rest lacks = ground (arith, split-part sep p rest lacks.1)

pub split-alone : (sep : ℕ) (p : Text) → Lacks sep p → split sep p ≡ p ∷ []
unfolding split
split-alone sep [] lacks = refl
split-alone sep (c ∷ p) lacks = ground (arith, split-alone sep p lacks.1)

-- Splitting a join of at least one part gives the parts back, if none holds the separator.
pub split-join :
    (sep : ℕ) (p : Text) (ps : List Text)
    → All (Lacks sep) (p ∷ ps)
    → split sep (join sep (p ∷ ps)) ≡ p ∷ ps
unfolding join
split-join sep p [] lacks = split-alone sep p lacks.0
split-join sep p (q ∷ ps) lacks =
    rw (split-part sep p (join sep (q ∷ ps)) lacks.0)
      (ap (λ qs. p ∷ qs) (split-join sep q ps lacks.1))

-- At the first separator.
unfoldable pub before : ℕ → Text → Text
before sep [] = []
before sep (c ∷ s) = let rest = before sep s in if c == sep then [] else c ∷ rest

abbrev later : ℕ → Bool → Text → Option (Text × Text) → Option (Text × Text)
later c here s (some (a, b)) = some (c ∷ a, b)
later c true s none = some ([], s)
later c false s none = none

unfoldable pub rsplit_once : ℕ → Text → Option (Text × Text)
rsplit_once sep [] = none
rsplit_once sep (c ∷ s) = later c (c == sep) s (rsplit_once sep s)

pub rsplit_once-none : (sep : ℕ) (b : Text) → Lacks sep b → rsplit_once sep b ≡ none
unfolding rsplit_once
rsplit_once-none sep [] lacks = refl
rsplit_once-none sep (c ∷ b) lacks = ground (arith, rsplit_once-none sep b lacks.1)

pub rsplit_once_at :
    (sep : ℕ) (a b : Text) → Lacks sep b → rsplit_once sep (a ++ sep ∷ b) ≡ some (a, b)
unfolding rsplit_once
rsplit_once_at sep [] b lacks = ground (arith, rsplit_once-none sep b lacks)
rsplit_once_at sep (c ∷ a) b lacks = ground (arith, rsplit_once_at sep a b lacks)

abbrev trimmed : Bool → ℕ → Text → Text
trimmed true c [] = []
trimmed false c [] = c ∷ []
trimmed drop c (d ∷ s) = c ∷ d ∷ s

unfoldable pub trim_end : (ℕ → Bool) → Text → Text
trim_end p [] = []
trim_end p (c ∷ s) = trimmed (p c) c (trim_end p s)

abbrev Every : (ℕ → Bool) → Bool → Text → Type 0
Every p b = All (λ c. p c ≡ b)

trim_end-all : (p : ℕ → Bool) (s : Text) → Every p true s → trim_end p s ≡ []
unfolding trim_end
trim_end-all p [] h = refl
trim_end-all p (c ∷ s) h = cc (h.0, trim_end-all p s h.1)

-- What is trimmed off behind a text without such characters.
pub trim_end-append :
    (p : ℕ → Bool) (a s : Text) → Every p false a → Every p true s → trim_end p (a ++ s) ≡ a
unfolding trim_end
trim_end-append p [] s ha hs = trim_end-all p s hs
trim_end-append p (c ∷ []) s ha hs = cc (ha.0, trim_end-all p s hs)
trim_end-append p (c ∷ d ∷ a) s ha hs = cc (trim_end-append p (d ∷ a) s ha.1 hs)

-- `&s[t.len()..]` for a prefix `t`.
unfoldable pub behind : Text → Text → Text
behind [] s = s
behind (c ∷ t) [] = []
behind (c ∷ t) (d ∷ s) = behind t s

pub behind-append : (t s : Text) → behind t (t ++ s) ≡ s
unfolding behind
behind-append [] s = refl
behind-append (c ∷ t) s = behind-append t s
