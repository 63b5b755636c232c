-- ===== src/Api/Groups/Scalars.antt =====
-- The scalar settings as one group, with its laws.
use rsbtd.Base.{map}
use rsbtd.Api.Scalar.{ScalarSettings, ScalarSettingsInput, read_scalars, write_scalars}
use rsbtd.Api.Scalar.Kept
use rsbtd.Api.Scalar.Kept.{SameAt, member, slot, writes-SameAt, reads-SameAt}
use rsbtd.Api.Catalog.{catalog}
use rsbtd.Api.Catalog.Keys.{catalog-Wired}
use rsbtd.Api.Catalog.RoundTrip.{catalog-read}
use rsbtd.Api.Groups.{Group, Lawful}

abbrev pub scalars : Group
scalars = record {
  Input = ScalarSettingsInput catalog;
  Value = ScalarSettings catalog;
  keys = map slot catalog;
  read = read_scalars catalog;
  write = write_scalars catalog;
  Fits = Kept.AllFit catalog;
  given = Kept.overlay catalog;
}

pub scalars-Lawful : Lawful scalars
scalars-Lawful = record {
  frame = λ x p q j other h. writes-SameAt catalog catalog-Wired x p q j other h;
  local = λ p q effective same. reads-SameAt catalog catalog-Wired p q effective same;
  back = λ x p q effective own fits h known. catalog-read x p q effective own fits h known;
}
