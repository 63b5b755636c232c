-- ===== src/Api/Catalog/RoundTrip.antt =====
-- The scalar settings of the catalog, written and read back.
use rsbtd.Base.{◌≡◌, refl, true, map}
use rsbtd.Settings.Pack.{SettingsPack, ok, merge}
use rsbtd.Settings.Table.{lt_setting}
use rsbtd.Api.Scalar.{ScalarSettings, ScalarSettingsInput, read_scalars, write_scalars}
use rsbtd.Api.Scalar.Kept.{AllFit, overlay, slot, apart, write_scalars-read}
use rsbtd.Api.Catalog.{catalog}
use rsbtd.Api.Catalog.Keys.{catalog-Wired}

catalog-apart : apart (map slot catalog) ≡ true
unfolding lt_setting
catalog-apart = refl

-- If a write of the scalar fields succeeds for values that their Rust types can hold, then each of
-- them that is given reads as its value from the effective pack with the delta applied, and each
-- other one reads as it did with the delta before the write.
pub catalog-read :
    (input : ScalarSettingsInput catalog) (delta d effective : SettingsPack)
    (before : ScalarSettings catalog)
    → AllFit catalog input
    → write_scalars catalog input delta ≡ ok d
    → read_scalars catalog (merge effective delta) ≡ ok before
    → read_scalars catalog (merge effective d) ≡ ok (overlay catalog input before)
catalog-read input delta d effective before =
    write_scalars-read catalog catalog-Wired input delta d effective before catalog-apart
