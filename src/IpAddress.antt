-- ===== src/IpAddress.antt =====
-- src/gekkota/gekkota_ipaddress.c on a little-endian machine. A `GekkotaIPAddress *` is an
-- `Option Address`, with `none` for NULL; a function returns the object that it leaves behind and
-- its result. Where two pointers come in, a Boolean says whether they are the same. The block of a
-- buffer that is read has at least as many bytes as the buffer's length.
pub mod Kinds
pub mod Laws
mod Tests
use gekkota.Base.{Int32, plus, to_int32}
use gekkota.Base.{
  ℕ, ◌+◌, ◌-◌, ◌*◌, ◌/◌, ◌%◌, List, [], ◌∷◌, ◌++◌, Option, none, some, Bool, true, false, Result,
  ok, err, NetOrder, null_argument, null_buffer, zero_length_buffer, argument_not_valid,
  out_of_memory, operation_not_supported, buffer_overflow,
}
use gekkota.Base.{
  u32, sub32, store32, load32, get_or, take, drop, length, replicate, same_list, ltb, ◌==◌, ◌&&◌,
  ◌||◌, not, if◌then◌else◌,
}
use gekkota.Buffer.{Buffer, Block}

pub data Family : Type 0 where
  inet inet6 : Family

abbrev pub is_inet : Family → Bool
is_inet Family.inet = true
is_inet Family.inet6 = false

abbrev pub same_family : Family → Family → Bool
same_family Family.inet f = is_inet f
same_family Family.inet6 f = not (is_inet f)

-- The sixteen bytes of the union.
pub record Address : Type 0 where
  pub bytes : List ℕ
  pub family : Family
  pub scope_id : ℕ
  pub reference_count : ℕ

-- The length of an address of a family.
abbrev pub family_length : Family → ℕ
family_length Family.inet = 4
family_length Family.inet6 = 16

allocated : Bool → Address → Result Address
allocated true a = ok a
allocated false a = err out_of_memory

-- A new address of a family with the first bytes of a block; the others are cleared.
abbrev pub made_of : Family → List ℕ → Address
made_of f bytes = record {
  bytes = take (family_length f) bytes ++ replicate (16 - family_length f) 0;
  family = f;
  scope_id = 0;
  reference_count = 1;
}

-- `alloc` says whether the allocation succeeds.
module _ (alloc : Bool) where
  of_block : (len : ℕ) → Option Block → Result Address
  unfolding allocated
  of_block len none = err null_buffer
  of_block len (some b) =
      if len == 0
      then err zero_length_buffer
      else if len == 16
      then allocated alloc (made_of Family.inet6 b.bytes)
      else if len == 4
      then allocated alloc (made_of Family.inet b.bytes)
      else err argument_not_valid

  -- `gekkota_ipaddress_new_2`.
  unfoldable pub new_2 : Option Buffer → Result Address
  unfolding of_block allocated
  new_2 none = allocated alloc (made_of Family.inet (0 ∷ 0 ∷ 0 ∷ 0 ∷ []))
  new_2 (some b) = of_block b.len b.block

module _ (o : NetOrder) where
  abbrev flipped32 : List ℕ → List ℕ
  flipped32 (a ∷ b ∷ c ∷ d ∷ rest) =
      store32 (o.hton32 (a + b * 256 + c * 65536 + d * 16777216)) ++ rest
  flipped32 rest = rest

  -- The words of 16 bits one after the other.
  abbrev flipped16 : List ℕ → List ℕ
  flipped16 (a ∷ b ∷ rest) =
      let w = o.hton16 (a + b * 256) in w % 256 ∷ w / 256 % 256 ∷ flipped16 rest
  flipped16 rest = rest

  in_network_order : Option Buffer → Result Address → Result Address
  in_network_order b (err e) = err e
  in_network_order none (ok a) = ok a
  in_network_order (some b) (ok a) =
      ok (record a { bytes = if is_inet a.family then flipped32 a.bytes else flipped16 a.bytes })

  -- `gekkota_ipaddress_new_1`.
  unfoldable pub new_1 : (alloc : Bool) → Option Buffer → Result Address
  unfolding in_network_order new_2
  new_1 alloc b = in_network_order b (new_2 alloc b)

  by_family : (alloc : Bool) → Result (List ℕ) → Result (List ℕ) → Result Address
  unfolding new_2
  by_family alloc (ok bytes) six =
      new_2 alloc (some (record { block = some (record { address = 0; bytes = bytes }); len = 4 }))
  by_family alloc (err e) (ok bytes) =
      new_2 alloc (some (record { block = some (record { address = 0; bytes = bytes }); len = 16 }))
  by_family alloc (err e) (err f) = err f

  -- `gekkota_ipaddress_new`; `parse` is the system's reading of a text as an address of a family.
  unfoldable pub new :
      {Text : Type 0}
      → (parse : Family → Text → Result (List ℕ)) → (alloc : Bool) → Option Text
      → Result Address
  unfolding by_family new_1
  new parse alloc none = new_1 alloc none
  new parse alloc (some t) = by_family alloc (parse Family.inet t) (parse Family.inet6 t)

-- `gekkota_ipaddress_copy`.
abbrev pub copied : Address → Address → Address
copied a v = record a { bytes = take 16 v.bytes; family = v.family; scope_id = v.scope_id }

unfoldable pub copy :
    (same : Bool) → Option Address → Option Address → Option Address × Result (Unit {0})
copy same none v = (none, err null_argument)
copy same (some a) none = (some a, err null_argument)
copy true (some a) (some v) = (some a, ok tt)
copy false (some a) (some v) = (some (copied a v), ok tt)

-- The address that `gekkota_ipaddress_new_0` returns: the one it was given, or a new one.
pub data Reference : Type 0 where
  shared : Reference
  separate : Address → Reference

unfoldable pub new_0 :
    (alloc : Bool) → Option Address → (deep : Bool) → Option Address × Result Reference
new_0 alloc none deep = (none, err null_argument)
new_0 true (some a) true = (some a, ok (separate (record (copied a a) { reference_count = 1 })))
new_0 false (some a) true = (some a, err out_of_memory)
new_0 alloc (some a) false =
    (some (record a { reference_count = u32 (a.reference_count + 1) }), ok shared)

-- The address that is left, and the result: 0, or the references that are left.
unfoldable pub destroy : Option Address → Option Address × Result Int32
unfolding to_int32
destroy none = (none, err null_argument)
destroy (some a) =
    let n = sub32 a.reference_count 1 in
    if n == 0
    then (none, ok (plus 0))
    else (some (record a { reference_count = n }), ok (to_int32 n))

unfoldable pub get_family : Option Address → Result Family
get_family none = err null_argument
get_family (some a) = ok a.family

unfoldable pub equals : (same : Bool) → Option Address → Option Address → Bool
equals true a v = true
equals false none v = false
equals false (some a) none = false
equals false (some a) (some v) =
    same_family a.family v.family && (a.scope_id == v.scope_id) && same_list a.bytes v.bytes

-- The bytes of the union, of which the second number are the address.
unfoldable pub get_bytes : Option Address → Result (List ℕ × ℕ)
get_bytes none = err null_argument
get_bytes (some a) = ok (a.bytes, family_length a.family)

module _ (o : NetOrder) where
  unfoldable pub get_scope_id : Option Address → Result ℕ
  get_scope_id none = err null_argument
  get_scope_id (some a) =
      if is_inet a.family then err operation_not_supported else ok (o.ntoh32 a.scope_id)

  unfoldable pub set_scope_id : Option Address → (scope_id : ℕ) → Option Address × Result (Unit {0})
  set_scope_id none scope_id = (none, err null_argument)
  set_scope_id (some a) scope_id =
      if is_inet a.family
      then (some a, err operation_not_supported)
      else (some (record a { scope_id = o.hton32 scope_id }), ok tt)
