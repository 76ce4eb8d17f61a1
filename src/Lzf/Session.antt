-- ===== src/Lzf/Session.antt =====
-- `gekkota_lzf_deflate` and then `gekkota_lzf_inflate` (src/gekkota/gekkota_lzf.c), with all the
-- tests and allocations, on buffers without data, as `_gekkota_xudpclient_inflate` needs it.
use gekkota.Base.{ℕ, ◌+◌, ◌-◌, ◌*◌, ◌/◌, ◌<◌, ◌≤◌, ◌%◌, ◌≡◌, refl, ap, sym, ◌∙◌, arith, List, ◌++◌}
use gekkota.Base.{
  drop_all, append-nil, append_assoc, true, none, some, done, ok, false, ltb, lt→ltb,
}
use gekkota.Base.{le→ltb_false, ne→==_false, length, length-append, drop}
use gekkota.Base.{
  Error, buffer_too_small, buffer_overflow, take_all, drop-append, take-append_le, NetOrder, u32,
}
use gekkota.Buffer.{Block, Buffer, Allocator, malloc, overwrite}
use gekkota.Lzf.Deflate.{deflate_data, trailer}
use gekkota.Lzf.Format.{Stream, length-Stream_pos}
use gekkota.Lzf.Decode.{inflate_data-Stream}
use gekkota.Lzf.RoundTrip.{deflate_data_lem}
use gekkota.Lzf.Api.{
  Lzf, get_inflated_length, get_max_deflated_length, to_size_t, prepare, filled, is_zero_length,
}
use gekkota.Lzf.Api.{lzf_deflate, lzf_inflate}

abbrev pub no_data : Buffer
no_data = record { block = none; len = 0 }

abbrev pub in_block : Block → Buffer
in_block b = record { block = some b; len = length b.bytes }

four_bytes :
    (x : ℕ)
    → x < 4294967296
    → x % 256 + x / 256 % 256 * 256 + x / 65536 % 256 * 65536 + x / 16777216 % 256 * 16777216 ≡ x
four_bytes x h = omega arith

-- The trailer gives the length back.
pub get_inflated_length-trailer :
    (net : NetOrder) (stream bytes rest : List ℕ) (n address : ℕ)
    → n < 4294967296
    → 1 ≤ length stream
    → bytes ≡ stream ++ (trailer net n ++ rest)
    → get_inflated_length net (
        some (record {
          block = some (record { address = address; bytes = bytes });
          len = length stream + 8;
        }))
      ≡ done (ok n)
unfolding get_inflated_length
get_inflated_length-trailer net stream bytes rest n address small some_byte e =
    let whole : u32 n ≡ n = omega arith in
    let from : length stream + 8 - 8 ≡ length stream = omega arith in
    rw (
      ne→==_false (length stream + 8) 0 (λ h. omega arith),
      le→ltb_false (length stream + 8) 9 (omega arith),
      e,
      drop-append (length stream + 8 - 8) stream (trailer net n ++ rest) (omega arith),
      whole,
      four_bytes (net.hton32 n) (net.hton32-lt n small),
      net.ntoh32-hton32 n small,
    )

-- A buffer without data gets a block of the length that is needed.
pub prepare-none :
    (m : Allocator) (e : Error) (need : ℕ) (block : Block)
    → m.alloc need false ≡ ok block
    → prepare m e no_data need ≡ (record { block = some block; len = need }, ok block)
unfolding prepare malloc
prepare-none m e need block h = rw h

-- A buffer with the block of the length that is needed is taken as it is.
pub prepare-block :
    (m : Allocator) (e : Error) (need : ℕ) (block : Block)
    → prepare m e (record { block = some block; len = need }) need
      ≡ (record { block = some block; len = need }, ok block)
unfolding prepare
prepare-block m e need block = rw (le→ltb_false need need (omega arith)) refl

module _ (m : Allocator) (shr : ℕ → ℕ → ℕ) (net : NetOrder) (l : Lzf) (source first second : Block)
    (two : 2 ≤ length source.bytes) (short : length source.bytes ≤ 159)
    (second_length : length second.bytes ≡ length source.bytes) where
  abbrev pub room : ℕ
  room = (length source.bytes * 1001 + 999) / 1000 + 12

  pub need_lem : to_size_t (get_max_deflated_length (some (in_block source))) ≡ room
  unfolding get_max_deflated_length
  need_lem = ground arith

  -- The compressor on a buffer that is prepared to be the first block.
  pub deflated :
      (d : Buffer) (out : List ℕ)
      → is_zero_length d ≡ false
      → prepare m buffer_too_small d room ≡ (record { block = some first; len = room }, ok first)
      → deflate_data shr l.compression_level room source.bytes net ≡ done out
      → lzf_deflate m shr net l (some (in_block source)) (some d)
        ≡ done (filled (record { block = some first; len = room }) first out, ok (length out))
  unfolding lzf_deflate
  deflated d out long prepares h =
      rw (long, need_lem, prepares, take_all (length source.bytes) source.bytes refl, h)

  -- What a run of the decompressor reads, and what it returns, when the buffer is prepared to be
  -- the second block.
  pub inflated :
      (d : Buffer) (stream rest : List ℕ) (rounds address : ℕ)
      → Stream rounds stream source.bytes
      → length stream < 2147483640
      → is_zero_length d ≡ false
      → prepare m buffer_overflow d (length source.bytes)
        ≡ (record { block = some second; len = length source.bytes }, ok second)
      → lzf_inflate m shr net l
          (some (record {
            block = some (record {
              address = address;
              bytes = (stream ++ trailer net (length source.bytes)) ++ rest;
            });
            len = length stream + 8;
          }))
          (some d)
        ≡ done (some (in_block (record second { bytes = source.bytes })), ok (length source.bytes))
  unfolding lzf_inflate
  inflated d stream rest rounds address s signed long prepares =
      let n = length source.bytes in
      let word : (ltb n 2147483648) ≡ true = lt→ltb n 2147483648 (omega arith) in
      let some_byte : 1 ≤ length stream = length-Stream_pos s (omega arith) in
      let read =
        get_inflated_length-trailer net stream _ rest n address (omega arith) some_byte
          (append_assoc stream (trailer net n) rest) in
      let whole =
        take-append_le (length stream + 8) (stream ++ trailer net n) rest
          (sym (length-append stream (trailer net n))) in
      rw (
        long,
        read,
        word,
        prepares,
        whole,
        inflate_data-Stream n (trailer net n) s (omega arith) refl (omega arith)
            (omega (arith, length-append stream (trailer net n))),
        drop_all n second.bytes (omega arith),
        append-nil source.bytes,
      )

  -- Compressing a source of 2 to 159 bytes into an unallocated buffer succeeds, and so does
  -- decompressing the result into another; what is read back is the source, and the length
  -- returned is its length.
  pub lzf_inflate-lzf_deflate :
      m.alloc room false ≡ ok first
      → m.alloc (length source.bytes) false ≡ ok second
      → (d : Block) × (k : ℕ) × (lzf_deflate m shr net l (some (in_block source)) (some no_data)
          ≡ done (some (record { block = some d; len = room }), ok k))
        × (lzf_inflate m shr net l (some (record { block = some d; len = k })) (some no_data)
            ≡ done (
              some (in_block (record second { bytes = source.bytes })),
              ok (length source.bytes),
            ))
  lzf_inflate-lzf_deflate first_alloc second_alloc =
      let n = length source.bytes in
      let (stream, rounds, s, returns, small) =
        deflate_data_lem shr l.compression_level room source.bytes (omega arith) net two
          (omega arith) in
      let out = stream ++ trailer net n in
      let count : length out ≡ length stream + 8 = length-append stream (trailer net n) in
      (
        overwrite out first,
        length stream + 8,
        deflated no_data out refl (prepare-none m buffer_too_small room first first_alloc) returns
            ∙ ap (λ t. done (filled (record { block = some first; len = room }) first out, ok t))
                count,
        inflated no_data stream (drop (length out) first.bytes) rounds first.address s
            (omega (arith, small)) refl
            (prepare-none m buffer_overflow (length source.bytes) second second_alloc),
      )
