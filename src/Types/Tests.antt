-- ===== src/Types/Tests.antt =====
-- Runs of the conversions of rbtorrent/src/types.rs at concrete values.
use rsbtd.Base.{◌≡◌, refl, some, none, false, true, ◌∷◌, []}
use rsbtd.Types.{
  zeros, InfoHash, from_v1, from_v2, overlaps, same_bytes, PieceBitfield, get_bit, count_ones,
  iter_bits, bits_from,
}

abbrev hybrid : InfoHash
hybrid = record {
  v1 = some (record { digest = 7 ∷ zeros 19 });
  v2 = some (record { digest = 9 ∷ zeros 31 });
}

-- A magnet link of version 2 that later turns out to be a hybrid.
abbrev magnet : InfoHash
magnet = from_v2 (record { digest = 9 ∷ zeros 31 })

magnet-overlaps : overlaps magnet hybrid ≡ true
unfolding overlaps same_bytes
magnet-overlaps = refl

plain-overlaps : overlaps (from_v1 (record { digest = 7 ∷ zeros 19 })) magnet ≡ false
unfolding overlaps same_bytes
plain-overlaps = refl

-- Ten pieces, of which the first and the last are there.
abbrev ends : PieceBitfield
ends = record { bytes = 128 ∷ 64 ∷ []; bits = 10 }

ends_last : get_bit ends 9 ≡ some true
unfolding get_bit
ends_last = refl

ends_behind : get_bit ends 10 ≡ none
unfolding get_bit
ends_behind = refl

ends_count : count_ones ends ≡ 2
unfolding count_ones iter_bits bits_from
ends_count = refl
