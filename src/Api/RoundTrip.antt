-- ===== src/Api/RoundTrip.antt =====
-- What is written by the settings input is what is read from the effective pack: the groups of
-- rsbtd/src/api/settings/structured.rs, with the delta applied to any effective pack.
pub mod Modes
pub mod Ports
pub mod Proxy
pub mod I2p
pub mod Entries
pub mod Lists
use rsbtd.Base.{◌≡◌, refl, sym}
use rsbtd.Settings.Pack.{Result, ok, err, ◌>>=◌, map_err}

pub bind-ok :
    {E A B : Type 0} (r : Result E A) (f : A → Result E B) (b : B)
    → (r >>= f) ≡ ok b
    → (a : A) × (r ≡ ok a) × (f a ≡ ok b)
bind-ok (ok a) f b h = (a, refl, h)
bind-ok (err e) f b h = absurd (cc h)

pub map_err-ok :
    {E F A : Type 0} (f : E → F) (r : Result E A) (a : A) → map_err f r ≡ ok a → r ≡ ok a
map_err-ok f (ok b) a h = cc h
map_err-ok f (err e) a h = absurd (cc h)

pub ok-injective : {E A : Type 0} (a b : A) → ◌≡◌ {A = Result E A} (ok a) (ok b) → a ≡ b
ok-injective a b h = cc h
