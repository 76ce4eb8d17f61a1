-- ===== src/Lzf/Tests.antt =====
-- Runs of the compressor, and its theorems at concrete sources.
use gekkota.Base.{ℕ, zero, suc, ◌+◌, ◌/◌, ◌%◌, ◌^◌, ◌<◌, ◌≤◌, ◌≡◌, refl, ap, sym, ◌∙◌, arith}
use gekkota.Base.{List, [], ◌∷◌, some, Bool, done, fault, Result, ok, length}
use gekkota.Base.{get_elem?, little_endian, replicate}
use gekkota.Buffer.{Block, Allocator}
use gekkota.Lzf.Buffers.{put, copy}
use gekkota.Lzf.Deflate.{deflate_data, deflate_stream, deflate_loop, deflate_step, add_literal}
use gekkota.Lzf.Deflate.{add_reference, hash_index, put_reference, flush, matches, same_from}
use gekkota.Lzf.Deflate.{match_length, max_length, match_loop, next, first, update}
use gekkota.Lzf.Inflate.{inflate_loop, inflate_step, next_byte, copy_reference, long_length}
use gekkota.Lzf.Inflate.{copy_literal}
use gekkota.Lzf.Inflate.{inflate_data}
use gekkota.Lzf.RoundTrip.{inflate-deflate}
use gekkota.Lzf.Api.{Lzf, lzf_deflate, lzf_inflate}
use gekkota.Lzf.Session.{in_block, no_data, lzf_inflate-lzf_deflate}
use gekkota.Lzf.Overflow.{HasNoRepeat, lzf_deflate-overflow}

-- A machine that takes shift counts modulo 32.
abbrev shr32 : ℕ → ℕ → ℕ
shr32 x n = x / 2 ^ (n % 32)

abbrev four_times : List ℕ
four_times = 1 ∷ 2 ∷ 3 ∷ 4 ∷ 1 ∷ 2 ∷ 3 ∷ 4 ∷ 1 ∷ 2 ∷ 3 ∷ 4 ∷ 1 ∷ 2 ∷ 3 ∷ 4 ∷ []

deflate_run :
    deflate_data shr32 13 25 four_times little_endian
    ≡ done (4 ∷ 1 ∷ 2 ∷ 3 ∷ 4 ∷ 1 ∷ 224 ∷ 0 ∷ 3 ∷ 1 ∷ 3 ∷ 4 ∷ 0 ∷ 0 ∷ 0 ∷ 16 ∷ 0 ∷ 0 ∷ 0 ∷ 0 ∷ [])
unfolding deflate_data deflate_stream deflate_loop deflate_step add_literal add_reference hash_index
    put_reference flush matches same_from match_length max_length match_loop next first update put
    copy
deflate_run = refl

-- A reference to a byte before the first one is outside of the output.
inflate_fault : inflate_data 16 (32 ∷ 9 ∷ []) ≡ fault
unfolding inflate_data inflate_loop inflate_step next_byte copy_reference long_length
inflate_fault = refl

-- Given more room than the source has, the loop takes the trailer for data, here for literal runs
-- of one byte each.
inflate_trailer :
    (inflate_data 3 (2 ∷ 7 ∷ 8 ∷ 9 ∷ 0 ∷ 0 ∷ 0 ∷ 3 ∷ 0 ∷ 0 ∷ 0 ∷ 0 ∷ []) ≡ done (7 ∷ 8 ∷ 9 ∷ []))
    × (inflate_data 5 (2 ∷ 7 ∷ 8 ∷ 9 ∷ 0 ∷ 0 ∷ 0 ∷ 3 ∷ 0 ∷ 0 ∷ 0 ∷ 0 ∷ [])
        ≡ done (7 ∷ 8 ∷ 9 ∷ 0 ∷ 3 ∷ []))
unfolding inflate_data inflate_loop inflate_step next_byte copy_literal put
inflate_trailer = (refl, refl)

inflate-deflate_example :
    (out : List ℕ) × (deflate_data shr32 13 25 four_times little_endian ≡ done out)
    × (length out ≤ 25)
    × (inflate_data 16 out ≡ done four_times)
inflate-deflate_example =
    inflate-deflate shr32 13 25 little_endian four_times (omega arith) (omega arith) (omega arith)

-- Fresh blocks of zeros.
abbrev fresh : ℕ → Bool → Result Block
fresh n initialize = ok (record { address = 4096; bytes = replicate n 0 })

abbrev zeros : Allocator
zeros = record { alloc = fresh; realloc = λ b n initialize. fresh n initialize }

abbrev fast : Lzf
fast = record { compression_level = 13; table_length = 32768; ref_count = 1 }

abbrev source : Block
source = record { address = 64; bytes = four_times }

lzf_inflate-lzf_deflate_example :
    (d : Block) × (k : ℕ) × (lzf_deflate zeros shr32 little_endian fast
        (some (in_block source))
        (some no_data)
      ≡ done (some (record { block = some d; len = 29 }), ok k))
    × (lzf_inflate zeros shr32 little_endian fast
          (some (record { block = some d; len = k }))
          (some no_data)
        ≡ done (some (in_block (record { address = 4096; bytes = four_times })), ok 16))
lzf_inflate-lzf_deflate_example =
    lzf_inflate-lzf_deflate zeros shr32 little_endian fast source
      (record { address = 4096; bytes = replicate 29 0 })
      (record { address = 4096; bytes = replicate 16 0 }) (omega arith) (omega arith) refl refl refl

-- The bytes from `k` on, each one more than the one before.
abbrev up_from : ℕ → ℕ → List ℕ
up_from k zero = []
up_from k (suc n) = k ∷ up_from (suc k) n

get_elem?-up_from : (k n i : ℕ) → i < n → get_elem? (up_from k n) i ≡ some (k + i)
get_elem?-up_from k zero i h = elim h [ ]
get_elem?-up_from k (suc n) zero h = ap some (omega arith)
get_elem?-up_from k (suc n) (suc i) h =
    get_elem?-up_from (suc k) n i (omega arith) ∙ ap some (omega arith)

length-up_from : (k n : ℕ) → length (up_from k n) ≡ n
length-up_from k zero = refl
length-up_from k (suc n) = ap suc (length-up_from (suc k) n)

up_from-HasNoRepeat : (n : ℕ) → HasNoRepeat (up_from 0 n)
up_from-HasNoRepeat n r i below inside same =
    let fits : i + 4 < n = omega (arith, length-up_from 0 n) in
    let e : some (0 + r) ≡ some (0 + i) =
      sym (get_elem?-up_from 0 n r (omega arith))
      ∙ same r i 0 (omega arith) (omega arith) (omega arith)
      ∙ get_elem?-up_from 0 n i (omega arith) in
    ground arith

abbrev rising : Block
rising = record { address = 64; bytes = up_from 0 161 }

lzf_deflate-overflow_example :
    lzf_deflate zeros shr32 little_endian fast (some (in_block rising)) (some no_data) ≡ fault
lzf_deflate-overflow_example =
    lzf_deflate-overflow zeros shr32 little_endian fast rising
      (record { address = 4096; bytes = replicate 174 0 }) (up_from-HasNoRepeat 161) (omega arith)
      (omega arith) refl
