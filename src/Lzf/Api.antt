-- ===== src/Lzf/Api.antt =====
-- The functions of src/gekkota/gekkota_lzf.c around the two loops: the compressor object, the
-- lengths, and the tests on the buffers. A `GekkotaLZF *` is an `Option Lzf`.
use gekkota.Base.{ℕ, ◌+◌, ◌-◌, ◌*◌, ◌/◌, ◌^◌, List, Option, none, some, Bool, true, false}
use gekkota.Base.{
  Run, done, fault, ◌>>=◌, found, Result, ok, err, Error, null_argument, null_buffer,
}
use gekkota.Base.{zero_length_buffer, buffer_too_small, buffer_overflow, argument_not_valid}
use gekkota.Base.{
  is_some, length, take, drop, ltb, ◌==◌, ◌&&◌, ◌||◌, if◌then◌else◌, u32, load32, NetOrder,
}
use gekkota.Buffer.{Block, Buffer, Allocator, overwrite, malloc}
use gekkota.Lzf.{size_t_size}
use gekkota.Lzf.Deflate.{deflate_data}
use gekkota.Lzf.Inflate.{inflate_data}

pub record Lzf : Type 0 where
  pub compression_level : ℕ
  pub table_length : ℕ
  pub ref_count : ℕ

-- GEKKOTA_COMPRESSION_LEVEL_FASTEST to GEKKOTA_COMPRESSION_LEVEL_BEST.
abbrev pub level_not_valid : ℕ → Bool
level_not_valid level = ltb level 13 || ltb 18 level

-- sizeof(GekkotaLZF).
abbrev pub lzf_size : ℕ
lzf_size = 32

module _ (m : Allocator) where
  set_level : Lzf → ℕ → Result Block → Lzf × Result (Unit {0})
  set_level l level (ok table) =
      (record l { compression_level = level; table_length = 2 ^ level * 4 }, ok tt)
  set_level l level (err e) = (l, err e)

  -- `gekkota_lzf_set_compression_level`.
  unfoldable pub set_compression_level : Lzf → ℕ → Lzf × Result (Unit {0})
  unfolding set_level
  set_compression_level l level =
      if level_not_valid level
      then (l, err argument_not_valid)
      else if level == l.compression_level
      then (l, ok tt)
      else set_level l level (m.alloc (2 ^ level * 4) false)

  with_level : Lzf × Result (Unit {0}) → Result Lzf
  with_level (l, ok _) = ok (record l { ref_count = 1 })
  with_level (l, err e) = err e

  allocated : ℕ → Result Block → Result Lzf
  allocated level (ok block) = with_level (
      set_compression_level (record { compression_level = 0; table_length = 0; ref_count = 0 })
        level)
  allocated level (err e) = err e

  -- `gekkota_lzf_new_1`.
  unfoldable pub new_1 : ℕ → Result Lzf
  unfolding with_level allocated
  new_1 level =
      if level_not_valid level
      then err argument_not_valid
      else allocated level (m.alloc lzf_size true)

-- `gekkota_lzf_new_0`.
unfoldable pub new_0 : Lzf → Lzf
new_0 l = record l { ref_count = u32 (l.ref_count + 1) }

-- `gekkota_lzf_destroy`: `none` says that the object was given back.
unfoldable pub destroy : Lzf → Option Lzf
destroy l =
    let l' = record l { ref_count = u32 (l.ref_count + 4294967295) } in
    if l'.ref_count == 0 then none else some l'

-- A value that the C code returns as an int32_t, with -1 for an error, cast to a size_t.
abbrev pub to_size_t : Result ℕ → ℕ
to_size_t (err e) = 18446744073709551615
to_size_t (ok n) = if ltb n 2147483648 then n else 18446744069414584320 + n

module _ (net : NetOrder) where
  inflated_length : Buffer → Option Block → Run (Result ℕ)
  inflated_length b none = done (err null_buffer)
  inflated_length b (some block) =
      if b.len == 0
      then done (err zero_length_buffer)
      else if ltb b.len (size_t_size + 1)
      then done (err buffer_too_small)
      else found (load32 (drop (b.len - size_t_size) block.bytes)) >>= λ x. done (ok (net.ntoh32 x))

  -- `gekkota_lzf_get_inflated_length`, on a compressor that is not NULL.
  unfoldable pub get_inflated_length : Option Buffer → Run (Result ℕ)
  unfolding inflated_length
  get_inflated_length none = done (err null_argument)
  get_inflated_length (some b) = inflated_length b b.block

max_deflated_length : Buffer → Option Block → Result ℕ
max_deflated_length b none = err null_buffer
max_deflated_length b (some block) =
    if b.len == 0 then err zero_length_buffer else ok ((b.len * 1001 + 999) / 1000 + 12)

-- `gekkota_lzf_get_max_deflated_length`: ceil(length * 1.001 + 12.0), by integers. The double next
-- to 1.001 is below it, and the products of lengths under 2^31 are exact to far less than 1/1000,
-- so rounding moves none of them past a whole number.
unfoldable pub get_max_deflated_length : Option Buffer → Result ℕ
unfolding max_deflated_length
get_max_deflated_length none = err null_argument
get_max_deflated_length (some b) = max_deflated_length b b.block

-- The output buffer when the loop starts, with its block: the caller's, which has to have `need`
-- bytes, or a new one.
with_block : Buffer → Option Block → Buffer × Result Block
with_block b none = (b, err null_buffer)
with_block b (some block) = (b, ok block)

prepared : Buffer → Option Buffer × Result (Unit {0}) → Buffer × Result Block
prepared b (none, r) = (b, err null_argument)
prepared b (some b', ok _) = with_block b' b'.block
prepared b (some b', err x) = (b', err x)

prepare_block : Allocator → Error → Buffer → Option Block → ℕ → Buffer × Result Block
prepare_block m e b (some block) need = if ltb b.len need then (b, err e) else (b, ok block)
prepare_block m e b none need = prepared b (malloc m (some b) need false)

unfoldable pub prepare : Allocator → Error → Buffer → ℕ → Buffer × Result Block
unfolding with_block prepared prepare_block
prepare m e b need = prepare_block m e b b.block need

-- `data != NULL && length == 0`.
abbrev pub is_zero_length : Buffer → Bool
is_zero_length b = is_some b.block && b.len == 0

-- `source->data` behind the tests; reading through NULL is a fault.
abbrev pub bytes_of : Option Buffer → Run (List ℕ)
bytes_of none = fault
bytes_of (some b) = found b.block >>= λ block. done (take b.len block.bytes)

-- What a run of one of the loops leaves in the output buffer.
abbrev pub filled : Buffer → Block → List ℕ → Option Buffer
filled b block out = some (record b { block = some (overwrite out block) })

module _ (m : Allocator) (shr : ℕ → ℕ → ℕ) (net : NetOrder) (l : Lzf) where
  deflate_into : Option Buffer → Buffer × Result Block → Run (Option Buffer × Result ℕ)
  deflate_into source (d, err e) = done (some d, err e)
  deflate_into source (d, ok block) = do
    src ← bytes_of source
    out ← deflate_data shr l.compression_level d.len src net
    done (filled d block out, ok (length out))

  -- `gekkota_lzf_deflate`, on a compressor that is not NULL.
  unfoldable pub lzf_deflate : Option Buffer → Option Buffer → Run (Option Buffer × Result ℕ)
  unfolding deflate_into
  lzf_deflate source none = done (none, err null_argument)
  lzf_deflate source (some d) =
      if is_zero_length d
      then done (some d, err zero_length_buffer)
      else deflate_into source
          (prepare m buffer_too_small d (to_size_t (get_max_deflated_length source)))

  inflate_into : Option Buffer → Result ℕ → Buffer × Result Block → Run (Option Buffer × Result ℕ)
  inflate_into source r (d, err e) = done (some d, err e)
  inflate_into source r (d, ok block) = do
    src ← bytes_of source
    out ← inflate_data d.len src
    done (filled d block out, r)

  -- `gekkota_lzf_inflate`, on a compressor that is not NULL.
  unfoldable pub lzf_inflate : Option Buffer → Option Buffer → Run (Option Buffer × Result ℕ)
  unfolding inflate_into
  lzf_inflate source none = done (none, err null_argument)
  lzf_inflate source (some d) =
      if is_zero_length d
      then done (some d, err zero_length_buffer)
      else get_inflated_length net source >>= λ r.
          inflate_into source r (prepare m buffer_overflow d (to_size_t r))
