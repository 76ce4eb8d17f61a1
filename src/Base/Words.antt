-- ===== src/Base/Words.antt =====
-- Fixed-width arithmetic and bytes, and the byte order of the network.
use Prim.Native.Nat.{ℕ, ◌+◌, ◌-◌, ◌*◌, ◌/◌, ◌%◌, ◌<◌}
use mathlib.Core.Path.{◌≡◌}
use mathlib.Core.List.{List, [], ◌∷◌}
use mathlib.Core.Option.{Option, none, some}
use native.Mathlib.Omega.{arith}
use gekkota.Base.Tests.{ltb, if◌then◌else◌}

abbrev pub u8 : ℕ → ℕ
u8 n = n % 256

abbrev pub u16 : ℕ → ℕ
u16 n = n % 65536

abbrev pub u32 : ℕ → ℕ
u32 n = n % 4294967296

-- a - b on a uint32_t and on a uint16_t; `-` on ℕ stops at 0, so the modulus goes first.
abbrev pub sub32 : ℕ → ℕ → ℕ
sub32 a b = (a + 4294967296 - b % 4294967296) % 4294967296

abbrev pub sub16 : ℕ → ℕ → ℕ
sub16 a b = (a + 65536 - b % 65536) % 65536

-- What `htons`, `htonl`, `ntohs` and `ntohl` of the C library do: each pair is inverse on words.
pub record NetOrder : Type 0 where
  pub hton16 : ℕ → ℕ
  pub ntoh16 : ℕ → ℕ
  pub hton32 : ℕ → ℕ
  pub ntoh32 : ℕ → ℕ
  pub hton16-lt : (x : ℕ) → x < 65536 → hton16 x < 65536
  pub hton32-lt : (x : ℕ) → x < 4294967296 → hton32 x < 4294967296
  pub ntoh16-hton16 : (x : ℕ) → x < 65536 → ntoh16 (hton16 x) ≡ x
  pub ntoh32-hton32 : (x : ℕ) → x < 4294967296 → ntoh32 (hton32 x) ≡ x

-- The four bytes of a 32-bit word in the memory of a little-endian machine.
abbrev pub store32 : ℕ → List ℕ
store32 x = x % 256 ∷ x / 256 % 256 ∷ x / 65536 % 256 ∷ x / 16777216 % 256 ∷ []

-- The 32-bit word in the first four bytes, if there are as many.
abbrev pub load32 : List ℕ → Option ℕ
load32 (a ∷ b ∷ c ∷ d ∷ rest) = some (a + b * 256 + c * 65536 + d * 16777216)
load32 _ = none

-- Swapping bytes, as the four functions do on such a machine.
abbrev pub swap16 : ℕ → ℕ
swap16 x = x % 256 * 256 + x / 256 % 256

abbrev pub swap32 : ℕ → ℕ
swap32 x = x % 256 * 16777216 + x / 256 % 256 * 65536 + x / 65536 % 256 * 256 + x / 16777216 % 256

pub swap16-lt : (x : ℕ) → x < 65536 → swap16 x < 65536
swap16-lt x h = omega arith

pub swap32-lt : (x : ℕ) → x < 4294967296 → swap32 x < 4294967296
swap32-lt x h = omega arith

pub swap16-swap16 : (x : ℕ) → x < 65536 → swap16 (swap16 x) ≡ x
swap16-swap16 x h = omega arith

pub swap32-swap32 : (x : ℕ) → x < 4294967296 → swap32 (swap32 x) ≡ x
swap32-swap32 x h = omega arith

-- The byte order of a little-endian machine meets what is assumed of the four functions.
abbrev pub little_endian : NetOrder
little_endian = record {
  hton16 = swap16;
  ntoh16 = swap16;
  hton32 = swap32;
  ntoh32 = swap32;
  hton16-lt = swap16-lt;
  hton32-lt = swap32-lt;
  ntoh16-hton16 = swap16-swap16;
  ntoh32-hton32 = swap32-swap32;
}

-- An int32_t; `minus n` is -n.
pub data Int32 : Type 0 where
  plus : ℕ → Int32
  minus : ℕ → Int32

-- The conversion of a uint32_t to it.
unfoldable pub to_int32 : ℕ → Int32
to_int32 n = if ltb n 2147483648 then plus n else minus (4294967296 - n)
