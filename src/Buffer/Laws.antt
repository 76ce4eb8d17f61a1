-- ===== src/Buffer/Laws.antt =====
-- What the functions of src/gekkota/gekkota_buffer.c do, over all their branches.
use gekkota.Base.{ℕ, ◌≡◌, ◌≢◌, ◌↔◌, refl, Option, none, some, arith}
use gekkota.Base.{true, ok}
use gekkota.Base.{take, same_list→eq}
use gekkota.Base.{same_list_refl}
use gekkota.Buffer.{Block, Buffer, copy, copy_block, equals}

-- A block overwritten by no bytes is the block.
copy_block-unchanged :
    (b : Buffer) (to : Block) (v : Buffer) (from : Block)
    → b.block ≡ some to
    → (copy_block b to v from).0 ≡ b
unfolding copy_block
copy_block-unchanged b to v from h = ground arith

-- Whatever it is given, `gekkota_buffer_copy` leaves the destination as it was: the test
-- `buffer->length == 0 || value->length` lets only empty values through.
pub copy-unchanged : (b v : Option Buffer) → (copy b v).0 ≡ b
unfolding copy
copy-unchanged none v = refl
copy-unchanged (some b) none = refl
copy-unchanged (some b) (some v) = ground arith

-- The results of `gekkota_buffer_copy` on two buffers that are no NULL: it succeeds exactly when
-- both have data, the destination has a length and the value has none.
pub copy_ok_iff :
    (b v : Buffer)
    → ((copy (some b) (some v)).1 ≡ ok tt)
      ↔ ((b.block ≢ none) × (v.block ≢ none) × (b.len ≢ 0) × (v.len ≡ 0))
unfolding copy
copy_ok_iff b v = (ground arith, ground arith)

-- Two buffers in blocks of different addresses are equal exactly when they have the same length
-- and the same bytes up to it.
pub equals_iff :
    (a b : Block) (n k : ℕ)
    → a.address ≢ b.address
    → (equals
          (some (record { block = some a; len = n }))
          (some (record { block = some b; len = k }))
        ≡ true)
      ↔ ((n ≡ k) × (take n a.bytes ≡ take n b.bytes))
unfolding equals
equals_iff a b n k far = (
  λ h. ground (arith, same_list→eq (take n a.bytes) (take n b.bytes)),
  λ h. ground (arith, same_list_refl (take n a.bytes)),
)
