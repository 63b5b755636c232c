-- ===== src/Api/Hosts.antt =====
-- The bare form of a host (rsbtd/src/api/settings/structured.rs, `write_i2p`), told by its text alone.
use rsbtd.Base.{ℕ, ◌≡◌, ◌⊎◌, inl, inr, arith, ==_refl, [], ◌∷◌, ◌++◌, some, Option-cases, ap}
use rsbtd.Events.{Text}
use rsbtd.Settings.Texts.{strip_prefix, strip_suffix}
use rsbtd.Settings.Tokens.{bracketed}
use rsbtd.Api.I2p.{bare_hostname}

-- The host is `h` in brackets, or it is `h`, which is no text in brackets.
abbrev pub IsBareOf : Text → Text → Type 0
IsBareOf host h =
    (host ≡ b'[' ∷ h ++ (b']' ∷ []))
    ⊎ ((host ≡ h) × ((inner : Text) → ¬ (host ≡ b'[' ∷ inner ++ (b']' ∷ []))))

strip_suffix-append : (p : ℕ) (s : Text) → strip_suffix p (s ++ (p ∷ [])) ≡ some s
unfolding strip_suffix
strip_suffix-append p [] = ground (arith, ==_refl p)
strip_suffix-append p (c ∷ []) = ground (arith, ==_refl p)
strip_suffix-append p (c ∷ d ∷ s) = ground (arith, strip_suffix-append p (d ∷ s))

strip_suffix_sound :
    (p : ℕ) (s inner : Text) → strip_suffix p s ≡ some inner → s ≡ inner ++ (p ∷ [])
unfolding strip_suffix
strip_suffix_sound p [] inner h = absurd (cc h)
strip_suffix_sound p (c ∷ []) inner h = ground (arith, h)
strip_suffix_sound p (c ∷ d ∷ s) inner h = elim (Option-cases (strip_suffix p (d ∷ s))) [
  | inl n ↦ ground (arith, h)
  | inr (t, e) ↦ ground (arith, h, strip_suffix_sound p (d ∷ s) t e)
]

bracketed_sound : (s inner : Text) → bracketed s ≡ some inner → s ≡ b'[' ∷ inner ++ (b']' ∷ [])
unfolding bracketed strip_prefix
bracketed_sound [] inner h = absurd (cc h)
bracketed_sound (c ∷ s) inner h = ground (arith, h, strip_suffix_sound b']' s inner)

bracketed-brackets : (inner : Text) → bracketed (b'[' ∷ inner ++ (b']' ∷ [])) ≡ some inner
unfolding bracketed strip_prefix
bracketed-brackets inner = strip_suffix-append b']' inner

pub bare_hostname_lem : (host h : Text) → IsBareOf host h → bare_hostname host ≡ h
unfolding bare_hostname
bare_hostname_lem host h (inl e) = ground (arith, e, bracketed-brackets h, ap bracketed e)
bare_hostname_lem host h (inr (e, n)) = elim (Option-cases (bracketed host)) [
  | inl k ↦ ground (arith, e, k)
  | inr (inner, k) ↦ absurd (n inner (bracketed_sound host inner k))
]
