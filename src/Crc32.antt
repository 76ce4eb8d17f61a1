-- ===== src/Crc32.antt =====
-- src/gekkota/gekkota_crc32.c: the checksum of the bytes of several buffers.
mod Tests
use gekkota.Base.{
  ℕ, zero, suc, ◌+◌, ◌-◌, ◌*◌, ◌/◌, ◌^◌, ◌≡◌, refl, sym, ap, ◌∙◌, List, [], ◌∷◌, ◌++◌, NetOrder,
  bit_or, bit_xor,
}
use gekkota.Base.{u32, leb, if◌then◌else◌}

abbrev polynomial : ℕ
polynomial = 0x04C1_1DB7

abbrev initial : ℕ
initial = 0xFFFF_FFFF

-- The inner loop that fills the table.
unfoldable shifted : (rounds : ℕ) → (crc : ℕ) → ℕ
shifted zero crc = crc
shifted (suc n) crc =
    shifted n (if leb 0x8000_0000 crc then bit_xor (u32 (crc * 2)) polynomial else u32 (crc * 2))

-- `lookupTable[byte]`.
unfoldable entry : (byte : ℕ) → ℕ
unfolding shifted
entry byte = shifted 8 (byte * 2 ^ 24)

-- The loop over the bytes of a buffer.
unfoldable pub add_bytes : (crc : ℕ) → List ℕ → ℕ
unfolding entry
add_bytes crc [] = crc
add_bytes crc (b ∷ bytes) =
    add_bytes (bit_xor (bit_or (u32 (crc * 256)) b) (entry (crc / 2 ^ 24))) bytes

unfoldable pub add_buffers : (crc : ℕ) → List (List ℕ) → ℕ
unfolding add_bytes
add_buffers crc [] = crc
add_buffers crc (b ∷ bs) = add_buffers (add_bytes crc b) bs

-- `_gekkota_crc32_calculate` on the bytes of the buffers.
unfoldable pub calculate : NetOrder → List (List ℕ) → ℕ
unfolding add_buffers
calculate o bs = o.hton32 (0xFFFF_FFFF - add_buffers initial bs)

-- The bytes of the buffers one after the other.
abbrev pub joined : List (List ℕ) → List ℕ
joined [] = []
joined (b ∷ bs) = b ++ joined bs

add_bytes-append :
    (crc : ℕ) (xs ys : List ℕ) → add_bytes crc (xs ++ ys) ≡ add_bytes (add_bytes crc xs) ys
unfolding add_bytes
add_bytes-append crc [] ys = refl
add_bytes-append crc (x ∷ xs) ys =
    add_bytes-append (bit_xor (bit_or (u32 (crc * 256)) x) (entry (crc / 2 ^ 24))) xs ys

add_buffers-joined : (crc : ℕ) (bs : List (List ℕ)) → add_buffers crc bs ≡ add_bytes crc (joined bs)
unfolding add_buffers add_bytes
add_buffers-joined crc [] = refl
add_buffers-joined crc (b ∷ bs) =
    add_buffers-joined (add_bytes crc b) bs ∙ sym (add_bytes-append crc b (joined bs))

-- The checksum depends on the bytes only, not on how they are spread over buffers: that of several
-- buffers, as a host sends a datagram, is that of one buffer with all bytes, as a host receives it.
pub calculate-joined :
    (o : NetOrder) (bs : List (List ℕ)) → calculate o bs ≡ calculate o (joined bs ∷ [])
unfolding calculate add_buffers
calculate-joined o bs = ap (λ n. o.hton32 (0xFFFF_FFFF - n)) (add_buffers-joined initial bs)
