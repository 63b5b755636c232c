-- ===== src/Types/Laws.antt =====
-- The conversions of rbtorrent/src/types.rs undo each other, and the three views of a bitfield agree.
use rsbtd.Base.{
  ℕ, zero, suc, ◌+◌, ◌/◌, ◌≤◌, ◌<◌, ◌≡◌, refl, arith, Bool, true, List, [], ◌∷◌, none, some, length,
  get_elem?,
}
use rsbtd.Events.{Bytes}
use rsbtd.Types.{
  zeros, same_bytes, sha1_is_all_zeros, sha256_is_all_zeros, CtInfoHash, info_hash_from_ct,
  info_hash_to_ct, PieceBitfield, bit_at, get_bit, bits_from, iter_bits, count_true, count_ones,
  SocketAddr, socket_addr_to_ct, socket_addr_from_ct, ip_addr_from_ct,
}

same_bytes_sound : (a b : Bytes) → same_bytes a b ≡ true → a ≡ b
unfolding same_bytes
same_bytes_sound [] [] h = refl
same_bytes_sound [] (y ∷ b) h = absurd (cc h)
same_bytes_sound (x ∷ a) [] h = absurd (cc h)
same_bytes_sound (x ∷ a) (y ∷ b) h = ground (arith, h, same_bytes_sound a b (ground (arith, h)))

-- An info-hash pair of the shim is kept by the conversion to the optional halves and back.
to_ct-from_ct : (h : CtInfoHash) → info_hash_to_ct (info_hash_from_ct h) ≡ h
unfolding info_hash_to_ct info_hash_from_ct sha1_is_all_zeros sha256_is_all_zeros
to_ct-from_ct h =
    ground (arith, same_bytes_sound h.v1_data (zeros 20), same_bytes_sound h.v2_data (zeros 32))

-- A socket address is kept by the conversion to the shim's struct and back, but for the flow information of
-- an IPv6 address, which becomes 0.
abbrev pub without_flowinfo : SocketAddr → SocketAddr
without_flowinfo (SocketAddr.v4 a b c d port) = SocketAddr.v4 a b c d port
without_flowinfo (SocketAddr.v6 octets port flowinfo scope_id) =
    SocketAddr.v6 octets port 0 scope_id

from_ct-to_ct : (a : SocketAddr) → socket_addr_from_ct (socket_addr_to_ct a) ≡ without_flowinfo a
unfolding socket_addr_from_ct socket_addr_to_ct ip_addr_from_ct
from_ct-to_ct (SocketAddr.v4 a b c d port) = refl
from_ct-to_ct (SocketAddr.v6 octets port flowinfo scope_id) = refl

plus_zero : (i : ℕ) → i + 0 ≡ i
plus_zero i = omega arith

plus_suc : (i k : ℕ) → i + suc k ≡ suc i + k
plus_suc i k = omega arith

bits_from-get :
    (bytes : Bytes) (i n k : ℕ)
    → k < n
    → get_elem? (bits_from bytes i n) k ≡ some (bit_at bytes (i + k))
unfolding bits_from
bits_from-get bytes i zero k h = absurd (omega arith)
bits_from-get bytes i (suc n) zero h = rw (plus_zero i) refl
bits_from-get bytes i (suc n) (suc k) h =
    rw (bits_from-get bytes (suc i) n k (omega arith), plus_suc i k) refl

bits_from-end : (bytes : Bytes) (i n k : ℕ) → n ≤ k → get_elem? (bits_from bytes i n) k ≡ none
unfolding bits_from
bits_from-end bytes i zero k h = refl
bits_from-end bytes i (suc n) zero h = absurd (omega arith)
bits_from-end bytes i (suc n) (suc k) h = bits_from-end bytes (suc i) n k (omega arith)

get_bit-iter_bits :
    (field : PieceBitfield) (index : ℕ) → get_bit field index ≡ get_elem? (iter_bits field) index
unfolding get_bit iter_bits
get_bit-iter_bits field index = ground (
  arith,
  bits_from-get field.bytes 0 field.bits index,
  bits_from-end field.bytes 0 field.bits index,
)

bits_from-length : (bytes : Bytes) (i n : ℕ) → length (bits_from bytes i n) ≡ n
unfolding bits_from
bits_from-length bytes i zero = refl
bits_from-length bytes i (suc n) = omega (arith, bits_from-length bytes (suc i) n)

count_true_bound : (bs : List Bool) → count_true bs ≤ length bs
count_true_bound [] = omega arith
count_true_bound (b ∷ bs) = ground (arith, count_true_bound bs)

-- No more bits are set than there are.
count_ones_bound : (field : PieceBitfield) → count_ones field ≤ field.bits
unfolding count_ones iter_bits
count_ones_bound field = omega (
  arith,
  count_true_bound (bits_from field.bytes 0 field.bits),
  bits_from-length field.bytes 0 field.bits,
)

-- The bytes that `from_raw` takes for the bits hold every bit: no index is out of bounds.
bit_in_bytes :
    (bits index : ℕ) (bytes : Bytes)
    → length bytes ≡ (bits + 7) / 8
    → index < bits
    → index / 8 < length bytes
bit_in_bytes bits index bytes h k = omega arith
