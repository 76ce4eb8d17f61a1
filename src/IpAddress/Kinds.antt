-- ===== src/IpAddress/Kinds.antt =====
-- The kinds of an address, and its text: the functions `gekkota_ipaddress_is_*` and
-- `gekkota_ipaddress_to_string` (src/gekkota/gekkota_ipaddress.c).
use gekkota.Base.{
  ℕ, ◌/◌, List, [], ◌∷◌, Option, none, some, Bool, Result, ok, err, null_argument, null_buffer,
  zero_length_buffer, operation_not_supported, buffer_overflow,
}
use gekkota.Base.{get_or, take, same_list, ltb, ◌==◌, if◌then◌else◌}
use gekkota.Buffer.{Buffer}
use gekkota.IpAddress.{Address, Family, is_inet}

-- The tests of the system's headers on an address of the family inet6.
pub record Platform : Type 0 where
  pub is_v4_compatible : List ℕ → Bool
  pub is_v4_mapped : List ℕ → Bool
  pub is_multicast6 : List ℕ → Bool
  pub is_loopback6 : List ℕ → Bool
  pub is_unspecified6 : List ℕ → Bool

-- A test for the addresses of one family.
only_inet6 : (List ℕ → Bool) → Address → Result Bool
only_inet6 test a = if is_inet a.family then err operation_not_supported else ok (test a.bytes)

-- `IN_IS_ADDR_MULTICAST`, `IN_IS_ADDR_LOOPBACK` and `IN_IS_ADDR_UNSPECIFIED` on the first word.
abbrev pub is_multicast4 : List ℕ → Bool
is_multicast4 bytes = get_or bytes 0 0 / 16 == 14

abbrev pub is_loopback4 : List ℕ → Bool
is_loopback4 bytes = same_list (take 4 bytes) (127 ∷ 0 ∷ 0 ∷ 1 ∷ [])

abbrev pub is_unspecified4 : List ℕ → Bool
is_unspecified4 bytes = same_list (take 4 bytes) (0 ∷ 0 ∷ 0 ∷ 0 ∷ [])

abbrev pub is_broadcast4 : List ℕ → Bool
is_broadcast4 bytes = same_list (take 4 bytes) (255 ∷ 255 ∷ 255 ∷ 255 ∷ [])

module _ (p : Platform) where
  unfoldable pub is_ipv4_compatible : Option Address → Result Bool
  unfolding only_inet6
  is_ipv4_compatible none = err null_argument
  is_ipv4_compatible (some a) = only_inet6 p.is_v4_compatible a

  unfoldable pub is_ipv4_mapped : Option Address → Result Bool
  unfolding only_inet6
  is_ipv4_mapped none = err null_argument
  is_ipv4_mapped (some a) = only_inet6 p.is_v4_mapped a

  unfoldable pub is_multicast : Option Address → Result Bool
  is_multicast none = err null_argument
  is_multicast (some a) =
      ok (if is_inet a.family then is_multicast4 a.bytes else p.is_multicast6 a.bytes)

  unfoldable pub is_loopback : Option Address → Result Bool
  is_loopback none = err null_argument
  is_loopback (some a) =
      ok (if is_inet a.family then is_loopback4 a.bytes else p.is_loopback6 a.bytes)

  unfoldable pub is_unspecified : Option Address → Result Bool
  is_unspecified none = err null_argument
  is_unspecified (some a) =
      ok (if is_inet a.family then is_unspecified4 a.bytes else p.is_unspecified6 a.bytes)

unfoldable pub is_broadcast : Option Address → Result Bool
is_broadcast none = err null_argument
is_broadcast (some a) =
    if is_inet a.family then ok (is_broadcast4 a.bytes) else err operation_not_supported

-- `INET_ADDRSTRLEN` and `INET6_ADDRSTRLEN`.
abbrev pub text_length : Family → ℕ
text_length Family.inet = 16
text_length Family.inet6 = 46

-- `gekkota_ipaddress_to_string`; `format` says whether the system writes the text, and what.
unfoldable pub to_string :
    (format : Family → List ℕ → Result (List ℕ))
    → Option Address
    → Option Buffer
    → Result (List ℕ × ℕ)
to_string format none b = err null_argument
to_string format (some a) none = err null_argument
to_string format (some a) (some b) = elim b.block [
  | none ↦ err null_buffer
  | some k ↦
      if b.len == 0
      then err zero_length_buffer
      else if ltb b.len (text_length a.family)
      then err buffer_overflow
      else elim (format a.family a.bytes) [
        | ok text ↦ ok (text, text_length a.family)
        | err e ↦ err e
      ]
]
