-- ===== src/Packet.antt =====
-- src/gekkota/gekkota_packet.c. A `GekkotaPacket *` is an `Option Object`, with `none` for NULL; a
-- function returns the object that it leaves behind and its result. Where two pointers come in, a
-- Boolean says whether they are the same.
pub mod Laws
mod Tests
use gekkota.Base.{
  ℕ, ◌+◌, List, [], Option, none, some, Bool, true, false, Result, ok, err, u32, sub32,
}
use gekkota.Base.{null_argument, null_buffer, zero_length_buffer, argument_not_valid, out_of_memory}
use gekkota.Base.{Int32, plus, to_int32, take, ◌==◌, ◌&&◌, if◌then◌else◌}
use gekkota.Buffer
use gekkota.Buffer.{Buffer, Block, Allocator}

pub record Object : Type 0 where
  pub buffer : Buffer
  pub flags : ℕ
  pub reference_count : ℕ

-- The bytes that the packet holds.
unfoldable pub block_bytes : Option Block → (len : ℕ) → List ℕ
block_bytes none len = []
block_bytes (some b) len = take len b.bytes

-- What `&packet->data` is before it is allocated.
abbrev pub no_data : Buffer
no_data = record { block = none; len = 0 }

abbrev pub data_or_none : Option Buffer → Buffer
data_or_none none = no_data
data_or_none (some b) = b

module _ (m : Allocator) (alloc : Bool) where
  filled : Option Buffer × Result (Unit {0}) → Result Object
  filled (b, ok t) = ok (record { buffer = data_or_none b; flags = 0; reference_count = 1 })
  filled (b, err e) = err e

  -- `gekkota_packet_new`; `alloc` says whether the allocation of the packet itself succeeds.
  unfoldable pub new : (size : ℕ) → Result Object
  unfolding filled Buffer.malloc
  new size =
      if size == 0
      then err argument_not_valid
      else if alloc
      then filled (Buffer.malloc m (some no_data) size false)
      else err out_of_memory

  with_flags : (flags : ℕ) → Result Object → Result Object
  with_flags flags (ok p) = ok (record p { flags = flags })
  with_flags flags (err e) = err e

  -- `gekkota_packet_new_1`.
  unfoldable pub new_1 : (size flags : ℕ) → Result Object
  unfolding with_flags new
  new_1 size flags = with_flags flags (new size)

  copied_into : Buffer → Result Object → Result Object
  unfolding Buffer.copy
  copied_into v (ok p) =
      ok (record p { buffer = data_or_none (Buffer.copy (some p.buffer) (some v)).0 })
  copied_into v (err e) = err e

  with_copy : (buffer : Buffer) → (flags : ℕ) → Option Block → Result Object
  unfolding new with_flags copied_into
  with_copy buffer flags none = err null_buffer
  with_copy buffer flags (some b) =
      if buffer.len == 0
      then err zero_length_buffer
      else with_flags flags (copied_into buffer (new buffer.len))

  -- `gekkota_packet_new_2`, which does not look at the result of `gekkota_buffer_copy`.
  unfoldable pub new_2 : Option Buffer → (flags : ℕ) → Result Object
  unfolding with_copy
  new_2 none flags = err null_argument
  new_2 (some buffer) flags = with_copy buffer flags buffer.block

-- `gekkota_packet_copy`.
copy_result :
    Object → (value_flags : ℕ) → Option Buffer × Result (Unit {0}) → Object × Result (Unit {0})
copy_result p flags (b, ok t) = (record p { buffer = data_or_none b; flags = flags }, ok tt)
copy_result p flags (b, err e) = (record p { buffer = data_or_none b }, err e)

unfoldable pub copy :
    (same : Bool) → Option Object → Option Object → Option Object × Result (Unit {0})
unfolding copy_result Buffer.copy
copy same none v = (none, err null_argument)
copy same (some p) none = (some p, err null_argument)
copy same (some p) (some v) =
    if same
    then (some p, ok tt)
    else (let r = copy_result p v.flags (Buffer.copy (some p.buffer) (some v.buffer)) in
        (some r.0, r.1))

-- The packet that `gekkota_packet_new_0` returns: the one it was given, or a new one.
pub data Reference : Type 0 where
  shared : Reference
  separate : Object → Reference

module _ (m : Allocator) (alloc : Bool) where
  deep_copy : Object → Result Object → Result Reference
  unfolding copy
  deep_copy p (err e) = err e
  deep_copy p (ok q) = elim ((copy false (some q) (some p)).0) [
    | none ↦ ok (separate q)
    | some q' ↦ ok (separate q')
  ]

  unfoldable pub new_0 : Option Object → (deep : Bool) → Option Object × Result Reference
  unfolding deep_copy new
  new_0 none deep = (none, err null_argument)
  new_0 (some p) true = (some p, deep_copy p (new m alloc p.buffer.len))
  new_0 (some p) false =
      (some (record p { reference_count = u32 (p.reference_count + 1) }), ok shared)

-- The packet that is left, and the result: 0, or the references that are left, as an int32_t.
unfoldable pub destroy : Option Object → Option Object × Result Int32
unfolding to_int32
destroy none = (none, err null_argument)
destroy (some p) =
    let n = sub32 p.reference_count 1 in
    if n == 0
    then (none, ok (plus 0))
    else (some (record p { reference_count = n }), ok (to_int32 n))

resized : Object → Option Buffer × Result (Unit {0}) → Object × Result (Unit {0})
resized p (b, r) = (record p { buffer = data_or_none b }, r)

unfoldable pub resize : Allocator → Option Object → (size : ℕ) → Option Object × Result (Unit {0})
unfolding resized Buffer.resize
resize m none size = (none, err null_argument)
resize m (some p) size =
    let r = resized p (Buffer.resize m (some p.buffer) size false) in (some r.0, r.1)

unfoldable pub equals : (same : Bool) → Option Object → Option Object → Bool
unfolding Buffer.equals
equals true p q = true
equals false none q = false
equals false (some p) none = false
equals false (some p) (some q) =
    (p.flags == q.flags) && Buffer.equals (some p.buffer) (some q.buffer)

unfoldable pub get_data : Option Object → Result Buffer
get_data none = err null_argument
get_data (some p) = ok p.buffer

unfoldable pub set_data : Option Object → Option Buffer → Option Object × Result (Unit {0})
unfolding resized Buffer.copy
set_data none buffer = (none, err null_argument)
set_data (some p) buffer = let r = resized p (Buffer.copy (some p.buffer) buffer) in (some r.0, r.1)

unfoldable pub get_flags : Option Object → Result ℕ
get_flags none = err null_argument
get_flags (some p) = ok p.flags

unfoldable pub set_flags : Option Object → (flags : ℕ) → Option Object × Result (Unit {0})
set_flags none flags = (none, err null_argument)
set_flags (some p) flags = (some (record p { flags = flags }), ok tt)

unfoldable pub get_size : Option Object → Result ℕ
get_size none = err null_argument
get_size (some p) = ok p.buffer.len
