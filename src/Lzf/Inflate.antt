-- ===== src/Lzf/Inflate.antt =====
-- The loop of `gekkota_lzf_inflate` (src/gekkota/gekkota_lzf.c). The index `i` only moves by
-- `sourceData[i++]`, so the source is the list of the bytes that are still to be read.
use gekkota.Base.{ℕ, zero, suc, ◌+◌, ◌-◌, ◌*◌, ◌/◌, ◌%◌, List, [], ◌∷◌}
use gekkota.Base.{not, ◌&&◌, ◌||◌, leb, Run, done, fault, stuck, ◌>>=◌, found}
use gekkota.Base.{length, get_elem?, is_empty, ltb, ◌==◌, if◌then◌else◌}
use gekkota.Lzf.Buffers.{put}

-- `sourceData[i++]`, with the bytes behind it.
unfoldable pub next_byte : List ℕ → Run (ℕ × List ℕ)
next_byte [] = fault
next_byte (x ∷ rest) = done (x, rest)

-- A literal run: `n` bytes go over from the source.
unfoldable pub copy_literal : ℕ → ℕ → List ℕ → List ℕ → Run (List ℕ × List ℕ)
copy_literal room zero rest out = done (rest, out)
copy_literal room (suc n) rest out = do
  (x, rest') ← next_byte rest
  out' ← put room x out
  copy_literal room n rest' out'

-- `inflatedData[j++] = inflatedData[reference++]`, `n` times.
unfoldable pub copy_back : ℕ → ℕ → ℕ → List ℕ → Run (List ℕ)
copy_back room zero reference out = done out
copy_back room (suc n) reference out = do
  x ← found (get_elem? out reference)
  out' ← put room x out
  copy_back room n (reference + 1) out'

-- `if (length == 7) length += sourceData[i++]`.
unfoldable pub long_length : ℕ → List ℕ → Run (ℕ × List ℕ)
long_length len rest =
    if len == 7 then next_byte rest >>= (λ p. done (len + p.0, p.1)) else done (len, rest)

-- A reference: `back` is how far behind `j` it starts; a negative index is a fault.
unfoldable pub copy_reference : ℕ → ℕ → List ℕ → List ℕ → Run (List ℕ × List ℕ)
copy_reference room value rest out = do
  (len, rest') ← long_length (value / 32) rest
  (low, rest'') ← next_byte rest'
  let back = value % 32 * 256 + 1 + low
  out' ← if ltb (length out) back then fault else copy_back room (2 + len) (length out - back) out
  done (rest'', out')

-- One round of the outer loop.
unfoldable pub inflate_step : ℕ → List ℕ → List ℕ → Run (List ℕ × List ℕ)
inflate_step room rest out = do
  (value, rest') ← next_byte rest
  if ltb value 32
      then copy_literal room (value + 1) rest' out
      else copy_reference room value rest' out

-- `do { ... } while (j < inflated->length && i < source->length)`.
unfoldable pub inflate_loop : ℕ → ℕ → List ℕ → List ℕ → Run (List ℕ)
inflate_loop room zero rest out = stuck
inflate_loop room (suc fuel) rest out = inflate_step room rest out >>= λ p.
    let again = inflate_loop room fuel p.0 p.1 in
    if ltb (length p.1) room && not (is_empty p.0) then again else done p.1

-- The bytes that the loop leaves in the output buffer. A round reads at least one byte, so one
-- round for each byte of the source, and one more, are enough. The lengths are below 2^32; one of
-- 2^31 or more is negative as an int32_t, and then the loop ends after its first round.
unfoldable pub inflate_data : ℕ → List ℕ → Run (List ℕ)
inflate_data room source =
    if leb 2147483648 room || leb 2147483648 (length source)
    then (inflate_step room source [] >>= λ p. done p.1)
    else inflate_loop room (suc (length source)) source []
