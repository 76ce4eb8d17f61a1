-- ===== src/Packet/Laws.antt =====
-- What the functions of src/gekkota/gekkota_packet.c do, over all their branches.
use gekkota.Base.{
  ℕ, ◌+◌, ◌<◌, ◌≤◌, ◌≡◌, ◌≢◌, refl, ap, arith, some, Bool, true, false, ok, u32, sub32,
}
use gekkota.Base.{
  Int32, plus, minus, to_int32, ◌==◌, ltb, ltb→lt, ltb_false→le, Bool-cases, inl, inr,
}
use gekkota.Buffer
use gekkota.Buffer.{Buffer, Block, Allocator}
use gekkota.Packet
use gekkota.Packet.{Object, shared}

-- What a uint32_t is as an int32_t.
unfoldable pub IsInt32 : ℕ → Int32 → Type 0
IsInt32 n (plus k) = (k ≡ n) × (n < 2147483648)
IsInt32 n (minus k) = (n + k ≡ 4294967296) × (2147483648 ≤ n)

to_int32-IsInt32 : (n : ℕ) → n < 4294967296 → IsInt32 n (to_int32 n)
unfolding to_int32 IsInt32
to_int32-IsInt32 n small = elim (Bool-cases (ltb n 2147483648)) [
  | inl e ↦ rw (e) (refl, ltb→lt _ _ e)
  | inr e ↦ rw (e) (omega (arith, ltb_false→le _ _ e), ltb_false→le _ _ e)
]

-- Taking a reference to a packet with less than 2^32 - 1 references and giving it back leaves the
-- packet as it was, when it had one; the result is the number of its references as an int32_t: that
-- number if it is below 2^31, and 2^32 below it otherwise.
pub destroy-new_0 :
    (m : Allocator) (alloc : Bool) (p : Object)
    → 0 < p.reference_count
    → p.reference_count < 4294967295
    → (Packet.new_0 m alloc (some p) false
        ≡ (some (record p { reference_count = p.reference_count + 1 }), ok shared))
      × (Packet.destroy (Packet.new_0 m alloc (some p) false).0
          ≡ (some p, ok (to_int32 p.reference_count)))
      × IsInt32 p.reference_count (to_int32 p.reference_count)
unfolding Packet.new_0 Packet.destroy
destroy-new_0 m alloc p h k =
    let up : u32 (p.reference_count + 1) ≡ p.reference_count + 1 = omega arith in
    let down : sub32 (u32 (p.reference_count + 1)) 1 ≡ p.reference_count = omega arith in
    let referred : (p.reference_count == 0) ≡ false = ground arith in
    (
      ap (λ n. (some (record p { reference_count = n }), ok shared)) up,
      simp (down, referred) refl,
      to_int32-IsInt32 p.reference_count (omega arith),
    )

-- When the allocations succeed, the packet made of a buffer of at least one byte has the buffer's
-- length, the flags, one reference, and the bytes of the block that was allocated for it, not those
-- of the buffer.
pub new_2-fresh :
    (m : Allocator) (b fresh : Block) (n flags : ℕ)
    → n ≢ 0
    → m.alloc n false ≡ ok fresh
    → Packet.new_2 m true (some (record { block = some b; len = n })) flags
      ≡ ok (record {
        buffer = record { block = some fresh; len = n };
        flags = flags;
        reference_count = 1;
      })
unfolding Packet.new_2 Packet.new Buffer.malloc Buffer.copy Buffer.copy_block
new_2-fresh m b fresh n flags some_bytes allocated =
    let long : (n == 0) ≡ false = ground arith in simp (long, allocated) refl
