-- ===== src/Types.antt =====
-- rbtorrent/src/types.rs: hashes, info-hash pairs, piece bitfields and socket addresses, with
-- their conversions from and to the structs of the C shim.
-- An array of bytes is a list of numbers. An IPv4 address is its four octets.
pub mod Laws
mod Tests
use rsbtd.Base.{
  ℕ, zero, suc, ◌+◌, ◌-◌, ◌*◌, ◌/◌, ◌%◌, ◌^◌, Bool, true, false, not, ◌&&◌, ◌||◌, List, [], ◌∷◌,
  ◌++◌, map, Option, none, some, length, get_elem?, leb, ◌==◌, if◌then◌else◌, is_some,
}
use rsbtd.Events.{Bytes}

abbrev pub zeros : ℕ → Bytes
zeros zero = []
zeros (suc n) = 0 ∷ zeros n

-- `==` of arrays.
unfoldable pub same_bytes : Bytes → Bytes → Bool
same_bytes [] [] = true
same_bytes [] (b ∷ bs) = false
same_bytes (a ∷ as_) [] = false
same_bytes (a ∷ as_) (b ∷ bs) = a == b && same_bytes as_ bs

pub record Sha1Hash : Type 0 where
  pub digest : Bytes

pub record Sha256Hash : Type 0 where
  pub digest : Bytes

unfoldable pub sha1_is_all_zeros : Sha1Hash → Bool
sha1_is_all_zeros h = same_bytes h.digest (zeros 20)

unfoldable pub sha256_is_all_zeros : Sha256Hash → Bool
sha256_is_all_zeros h = same_bytes h.digest (zeros 32)

pub record InfoHash : Type 0 where
  pub v1 : Option Sha1Hash
  pub v2 : Option Sha256Hash

abbrev pub from_v1 : Sha1Hash → InfoHash
from_v1 h = record { v1 = some h; v2 = none }

abbrev pub from_v2 : Sha256Hash → InfoHash
from_v2 h = record { v1 = none; v2 = some h }

abbrev same_v1 : Option Sha1Hash → Option Sha1Hash → Bool
same_v1 none o = false
same_v1 (some a) none = false
same_v1 (some a) (some b) = same_bytes a.digest b.digest

abbrev same_v2 : Option Sha256Hash → Option Sha256Hash → Bool
same_v2 none o = false
same_v2 (some a) none = false
same_v2 (some a) (some b) = same_bytes a.digest b.digest

unfoldable pub overlaps : InfoHash → InfoHash → Bool
overlaps h other = same_v1 h.v1 other.v1 || same_v2 h.v2 other.v2

pub record CtInfoHash : Type 0 where
  pub v1_data : Bytes
  pub v2_data : Bytes

-- A half that is all zeros is absent.
unfoldable pub info_hash_from_ct : CtInfoHash → InfoHash
info_hash_from_ct h = record {
  v1 =
      if sha1_is_all_zeros (record { digest = h.v1_data })
      then none
      else some (record { digest = h.v1_data });
  v2 =
      if sha256_is_all_zeros (record { digest = h.v2_data })
      then none
      else some (record { digest = h.v2_data });
}

abbrev pub v1_or_zeros : Option Sha1Hash → Bytes
v1_or_zeros none = zeros 20
v1_or_zeros (some h) = h.digest

abbrev pub v2_or_zeros : Option Sha256Hash → Bytes
v2_or_zeros none = zeros 32
v2_or_zeros (some h) = h.digest

unfoldable pub info_hash_to_ct : InfoHash → CtInfoHash
info_hash_to_ct h = record { v1_data = v1_or_zeros h.v1; v2_data = v2_or_zeros h.v2 }

-- `bits` bits in `bytes`, the first one the highest of the first byte.
pub record PieceBitfield : Type 0 where
  pub bytes : Bytes
  pub bits : ℕ

-- `byte & (0x80 >> place) != 0`; a byte that is not there would be a panic.
abbrev pub bit_of : ℕ → Option ℕ → Bool
bit_of place none = false
bit_of place (some byte) = byte / 2 ^ (7 - place) % 2 == 1

abbrev pub bit_at : Bytes → ℕ → Bool
bit_at bytes index = bit_of (index % 8) (get_elem? bytes (index / 8))

unfoldable pub get_bit : PieceBitfield → ℕ → Option Bool
get_bit field index = if leb field.bits index then none else some (bit_at field.bytes index)

-- The bits from `i` on, `n` of them.
unfoldable pub bits_from : Bytes → ℕ → ℕ → List Bool
bits_from bytes i zero = []
bits_from bytes i (suc n) = bit_at bytes i ∷ bits_from bytes (suc i) n

unfoldable pub iter_bits : PieceBitfield → List Bool
iter_bits field = bits_from field.bytes 0 field.bits

abbrev pub count_true : List Bool → ℕ
count_true [] = 0
count_true (b ∷ bs) = let rest = count_true bs in if b then 1 + rest else rest

unfoldable pub count_ones : PieceBitfield → ℕ
count_ones field = count_true (iter_bits field)

pub data SocketAddr : Type 0 where
  v4 : ℕ → ℕ → ℕ → ℕ → ℕ → SocketAddr
  v6 : Bytes → ℕ → ℕ → ℕ → SocketAddr

pub record CtEndpoint : Type 0 where
  pub addr : Bytes
  pub scope_id : ℕ
  pub port : ℕ
  pub is_v6 : ℕ

-- The flow information of an IPv6 address has no place in the struct.
unfoldable pub socket_addr_to_ct : SocketAddr → CtEndpoint
socket_addr_to_ct (v4 a b c d port) = record {
  addr = a ∷ b ∷ c ∷ d ∷ zeros 12;
  scope_id = 0;
  port = port;
  is_v6 = 0;
}
socket_addr_to_ct (v6 octets port flowinfo scope_id) = record {
  addr = octets;
  scope_id = scope_id;
  port = port;
  is_v6 = 1;
}

pub data IpAddr : Type 0 where
  ip4 : ℕ → ℕ → ℕ → ℕ → IpAddr
  ip6 : Bytes → IpAddr

abbrev byte_or_zero : Option ℕ → ℕ
byte_or_zero none = 0
byte_or_zero (some b) = b

abbrev pub first_four : Bytes → IpAddr
first_four addr =
    ip4 (byte_or_zero (get_elem? addr 0)) (byte_or_zero (get_elem? addr 1))
      (byte_or_zero (get_elem? addr 2)) (byte_or_zero (get_elem? addr 3))

unfoldable pub ip_addr_from_ct : CtEndpoint → IpAddr
ip_addr_from_ct ep = if not (ep.is_v6 == 0) then ip6 ep.addr else first_four ep.addr

-- `SocketAddr::new`.
abbrev with_port : IpAddr → ℕ → SocketAddr
with_port (ip4 a b c d) port = v4 a b c d port
with_port (ip6 octets) port = v6 octets port 0 0

unfoldable pub socket_addr_from_ct : CtEndpoint → SocketAddr
socket_addr_from_ct ep =
    if not (ep.is_v6 == 0)
    then v6 ep.addr ep.port 0 ep.scope_id
    else with_port (ip_addr_from_ct ep) ep.port

-- Does the pair have a digest of nothing but zeros? The struct of the shim cannot hold one.
abbrev pub zero_v1 : Option Sha1Hash → Bool
zero_v1 none = false
zero_v1 (some h) = sha1_is_all_zeros h

abbrev pub zero_v2 : Option Sha256Hash → Bool
zero_v2 none = false
zero_v2 (some h) = sha256_is_all_zeros h

unfoldable pub has_zero_half : InfoHash → Bool
has_zero_half h = zero_v1 h.v1 || zero_v2 h.v2
