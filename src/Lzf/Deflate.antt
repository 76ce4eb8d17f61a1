-- ===== src/Lzf/Deflate.antt =====
-- The loop of `gekkota_lzf_deflate` (src/gekkota/gekkota_lzf.c).
use gekkota.Base.{ℕ, zero, suc, ◌+◌, ◌-◌, ◌*◌, ◌/◌, ◌%◌, ◌^◌, List, [], ◌∷◌, ◌++◌}
use gekkota.Base.{Bool, true, false, ◌&&◌, Run, done, fault, stuck, ◌>>=◌, min, bit_xor}
use gekkota.Base.{length, ltb, leb, ◌==◌, if◌then◌else◌, u8, u32, sub32, store32, NetOrder}
use gekkota.Lzf.{max_literal, max_offset, max_reference, size_t_size}
use gekkota.Lzf.Buffers.{peek, put, copy}

-- The hash table, which `gekkota_lzf_index` only addresses inside.
abbrev pub Table : Type 0
Table = ℕ → ℕ

unfoldable pub update : Table → ℕ → ℕ → Table
update table k v a = if a == k then v else table a

-- `gekkota_lzf_first` and `gekkota_lzf_next`; the value is the bit pattern of an int32_t.
unfoldable pub first : List ℕ → ℕ → Run ℕ
first src i = do a ← peek src i; b ← peek src (i + 1); done (u32 (a * 256 + b))

unfoldable pub next : ℕ → List ℕ → ℕ → Run ℕ
next value src i = do c ← peek src (i + 2); done (u32 (value * 256 + c))

-- `do { length++; } while (length < maxLength && data[reference + length] == data[i + length])`,
-- with `rounds` = maxLength - length left: the length reached.
unfoldable pub match_loop : ℕ → List ℕ → ℕ → ℕ → ℕ → Run ℕ
match_loop zero src reference i len = done len
match_loop (suc rounds) src reference i len = do
  a ← peek src (reference + len)
  b ← peek src (i + len)
  let longer = match_loop rounds src reference i (len + 1)
  if a == b then longer else done len

-- The longest match allowed at `i`.
unfoldable pub max_length : List ℕ → ℕ → ℕ
max_length src i = min (length src - i - 2) max_reference

unfoldable pub match_length : List ℕ → ℕ → ℕ → Run ℕ
match_length src reference i = match_loop (max_length src i - 3) src reference i 3

-- The comparisons of the three bytes, which `&&` makes from the left until one fails.
unfoldable pub same_from : ℕ → List ℕ → ℕ → ℕ → Run Bool
same_from zero src reference i = done true
same_from (suc n) src reference i = do
  a ← peek src reference
  b ← peek src i
  let others = same_from n src (reference + 1) (i + 1)
  if a == b then others else done false

-- The condition of a match; `offset` is i - reference - 1, and may be -1.
unfoldable pub matches : List ℕ → ℕ → ℕ → Run Bool
matches src reference i =
    if ltb i (reference + 1 + max_offset) && (ltb (i + 4) (length src) && ltb 0 reference)
    then same_from 3 src reference i
    else done false

-- Write a run of `literal` bytes that ends before index `i`, behind its length.
unfoldable pub flush : ℕ → List ℕ → ℕ → ℕ → List ℕ → Run (List ℕ)
flush room src i literal out =
    if literal == 0
    then done out
    else put room (u8 (literal - 1)) out >>= copy room literal src (i - literal)

-- Write a reference of length `len` to `offset` + 1 bytes before.
unfoldable pub put_reference : ℕ → ℕ → ℕ → List ℕ → Run (List ℕ)
put_reference room offset len out = do
  out' ←
      if ltb (len - 2) 7
      then put room (u8 (offset / 256 + (len - 2) * 32)) out
      else put room (u8 (offset / 256 + 7 * 32)) out >>= put room (u8 (len - 2 - 7))
  put room (u8 offset) out'

-- The length of the source in the byte order of the network, stored as a size_t.
abbrev pub trailer : NetOrder → ℕ → List ℕ
trailer net n = store32 (net.hton32 (u32 n)) ++ (0 ∷ 0 ∷ 0 ∷ 0 ∷ [])

-- The local variables of `gekkota_lzf_deflate` between two rounds.
pub record Deflating : Type 0 where
  pub i : ℕ
  pub literal : ℕ
  pub value : ℕ
  pub table : Table
  pub out : List ℕ

-- `shr` is what the compiled code does on a shift by 32 or more, which C leaves undefined, and
-- `level` is the compression level.
module _ (shr : ℕ → ℕ → ℕ) (level : ℕ) where
  -- `gekkota_lzf_index`: the mask keeps the index below the length of the table.
  unfoldable pub hash_index : ℕ → ℕ
  hash_index value =
      shr (bit_xor value (u32 (value * 32))) (sub32 (sub32 24 level) (u32 (value * 5))) % 2 ^ level

  module _ (room : ℕ) (src : List ℕ) where
    -- A byte that is part of no reference.
    unfoldable pub add_literal : Deflating → Run Deflating
    add_literal s =
        if s.literal + 1 == max_literal
        then flush room src (s.i + 1) max_literal s.out
          >>= (λ out. done (record s { i = s.i + 1; literal = 0; out = out }))
        else done (record s { i = s.i + 1; literal = s.literal + 1 })

    -- A match with the bytes at `reference`: `i` moves behind it, and the table gets its end.
    unfoldable pub add_reference : ℕ → Deflating → Run Deflating
    add_reference reference s = do
      len ← match_length src reference s.i
      flushed ← flush room src s.i s.literal s.out
      out ← put_reference room (s.i - reference - 1) len flushed
      let j = s.i + len - 2
      value ← first src j
      value' ← next value src j
      value'' ← next value' src (j + 1)
      done (record {
        i = s.i + len;
        literal = 0;
        value = value'';
        table = update (update s.table (hash_index value') j) (hash_index value'') (j + 1);
        out = out;
      })

    -- A round of the loop that does not leave it.
    unfoldable pub deflate_step : Deflating → Run Deflating
    deflate_step s =
        if ltb (s.i + 2) (length src)
        then next s.value src s.i >>= (λ value.
          let reference = s.table (hash_index value) in
          let s' = record s { value = value; table = update s.table (hash_index value) s.i } in
          matches src reference s.i >>= λ hit.
          if hit then add_reference reference s' else add_literal s')
        else add_literal s

    unfoldable pub deflate_loop : ℕ → Deflating → Run Deflating
    deflate_loop zero s = stuck
    deflate_loop (suc fuel) s =
        let again = deflate_step s >>= deflate_loop fuel in
        if s.i == length src then done s else again

    -- The whole stream, without the trailer. A round moves `i` by one byte at least.
    unfoldable pub deflate_stream : Run (List ℕ)
    deflate_stream = do
      value ← first src 0
      s ←
          deflate_loop (suc (length src))
            (record { i = 0; literal = 0; value = value; table = λ k. 0; out = [] })
      flush room src s.i s.literal s.out

    -- With the length of the source behind the stream, stored as a size_t. On a source of 2^31 bytes
    -- or more, `i` overflows as an int32_t before it is its length, and so does `j` behind a stream
    -- of 2^31 bytes or more: both are faults.
    unfoldable pub deflate_data : NetOrder → Run (List ℕ)
    deflate_data net =
        if leb 2147483648 (length src)
        then fault
        else (deflate_stream >>= λ out.
            if leb 2147483648 (length out)
            then fault
            else if ltb room (length out + size_t_size)
            then fault
            else done (out ++ trailer net (length src)))
