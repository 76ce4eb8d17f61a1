-- ===== src/Buffer/Tests.antt =====
-- The theorems about buffers at concrete buffers.
use gekkota.Base.{ℕ, ◌≡◌, ◌≢◌, ◌↔◌, arith, [], ◌∷◌, some, none, true, ok, take}
use gekkota.Buffer.{Block, Buffer, copy, equals}
use gekkota.Buffer.Laws.{copy_ok_iff, equals_iff}

abbrev low : Block
low = record { address = 16; bytes = 1 ∷ 2 ∷ 3 ∷ [] }

abbrev high : Block
high = record { address = 32; bytes = 1 ∷ 2 ∷ 9 ∷ [] }

abbrev low_len : ℕ
low_len = 3

abbrev high_len : ℕ
high_len = 2

abbrev of : Block → ℕ → Buffer
of b n = record { block = some b; len = n }

copy_ok_iff_example :
    ((copy (some (of low 3)) (some (of high 2))).1 ≡ ok tt)
    ↔ ((some low ≢ none) × (some high ≢ none) × (low_len ≢ 0) × (high_len ≡ 0))
copy_ok_iff_example = copy_ok_iff (of low 3) (of high 2)

equals_iff_example :
    (equals (some (of low 2)) (some (of high 2)) ≡ true)
    ↔ ((high_len ≡ high_len) × (take 2 low.bytes ≡ take 2 high.bytes))
equals_iff_example = equals_iff low high 2 2 (omega arith)
