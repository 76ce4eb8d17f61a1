-- ===== src/Lzf/Format.antt =====
-- The format of a compressed stream, described without the code: a sequence of literal runs and
-- of references, each of which adds bytes to the data that the stream stands for.
use gekkota.Base.{ℕ, zero, suc, ◌+◌, ◌-◌, ◌*◌, ◌/◌, ◌%◌, ◌<◌, ◌≤◌, ◌≡◌, List, [], ◌∷◌, ◌++◌}
use gekkota.Base.{some, length, length-append, get_elem?, arith, if◌then◌else◌, ltb}

-- The bytes of a reference to `offset` + 1 bytes before, of length `len`.
abbrev pub reference_bytes : ℕ → ℕ → List ℕ
reference_bytes offset len =
    if ltb len 9
    then (offset / 256 + (len - 2) * 32) ∷ offset % 256 ∷ []
    else (offset / 256 + 224) ∷ (len - 9) ∷ offset % 256 ∷ []

-- `after` is `before` with `n` bytes more, each the byte at an index that starts at `reference`
-- and moves along, so that a reference may read bytes that it has itself written.
pub data Extends : ℕ → ℕ → List ℕ → List ℕ → Type 0 where
  stop : {reference : ℕ} {before : List ℕ} → Extends zero reference before before
  more :
      {n reference x : ℕ} {before after : List ℕ}
      → get_elem? before reference ≡ some x
      → Extends n (reference + 1) (before ++ (x ∷ [])) after
      → Extends (suc n) reference before after

-- `bytes` is a stream of `rounds` pieces that stands for `text`.
pub data Stream : ℕ → List ℕ → List ℕ → Type 0 where
  nil : Stream zero [] []
  literal :
      {rounds : ℕ} {bytes text : List ℕ}
      → Stream rounds bytes text
      → (run : List ℕ) → 1 ≤ length run
      → length run ≤ 32
      → Stream (suc rounds) (bytes ++ ((length run - 1) ∷ run)) (text ++ run)
  reference :
      {rounds : ℕ} {bytes text text' : List ℕ}
      → Stream rounds bytes text
      → (offset len : ℕ) → offset < 8192
      → offset < length text
      → 3 ≤ len
      → len ≤ 264
      → Extends len (length text - (offset + 1)) text text'
      → Stream (suc rounds) (bytes ++ reference_bytes offset len) text'

pub length-Extends :
    {n reference : ℕ} {before after : List ℕ}
    → Extends n reference before after
    → length after ≡ length before + n
length-Extends stop = omega arith
length-Extends (more {x = x} {before = before} e h) =
    omega (arith, length-Extends h, length-append before (x ∷ []))

pub length-reference_bytes : (offset len : ℕ) → 2 ≤ length (reference_bytes offset len)
length-reference_bytes offset len = ground arith

-- A reference is never longer than what it stands for, and saves a byte.
pub reference_bytes_bound :
    (offset len : ℕ)
    → 3 ≤ len
    → (length (reference_bytes offset len) ≤ 3) × (length (reference_bytes offset len) + 1 ≤ len)
reference_bytes_bound offset len h = ground arith

-- A stream has at least one byte for each of its pieces.
pub rounds-le-Stream :
    {rounds : ℕ} {bytes text : List ℕ} → Stream rounds bytes text → rounds ≤ length bytes
rounds-le-Stream nil = omega arith
rounds-le-Stream (literal {bytes = bytes} h run p q) =
    omega (arith, rounds-le-Stream h, length-append bytes ((length run - 1) ∷ run))
rounds-le-Stream (reference {bytes = bytes} h offset len p q r s e) = omega (
  arith,
  rounds-le-Stream h,
  length-append bytes (reference_bytes offset len),
  length-reference_bytes offset len,
)

pub length-Stream_pos :
    {rounds : ℕ} {bytes text : List ℕ}
    → Stream rounds bytes text
    → 1 ≤ length text
    → 1 ≤ length bytes
length-Stream_pos nil h = elim h [ ]
length-Stream_pos (literal {bytes = bytes} s run p q) h =
    omega (arith, length-append bytes ((length run - 1) ∷ run))
length-Stream_pos (reference {bytes = bytes} s offset len p q r t e) h =
    omega
      (arith, length-append bytes (reference_bytes offset len), length-reference_bytes offset len)
