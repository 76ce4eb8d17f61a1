-- ===== src/Lzf/RoundTrip.antt =====
-- `inflate_data` undoes `deflate_data` (src/gekkota/gekkota_lzf.c), for every hash function.
use gekkota.Base.{ℕ, zero, suc, ◌+◌, ◌*◌, ◌/◌, ◌<◌, ◌≤◌, ◌≡◌, refl, arith}
use gekkota.Base.{List, [], ◌++◌, length, length-append, take_all}
use gekkota.Base.{Run, done, Bool-cases, inl, inr, le→ltb_false, lt→leb_false, ◌==◌}
use gekkota.Base.{==_true→eq, NetOrder}
use mathlib.Core.Path.{subst}
use gekkota.Lzf.Inflate.{inflate_data}
use gekkota.Lzf.Deflate.{trailer, Deflating, deflate_loop, deflate_stream, deflate_data}
use gekkota.Lzf.Encode.{Behind, IsOpen, flush-IsFlushed, first_lem}
use gekkota.Lzf.Steps.{deflate_step-IsStep}
use gekkota.Lzf.Format.{Stream, nil}
use gekkota.Lzf.Decode.{inflate_data-Stream}

-- The loop ended at the end of the source.
record IsEnd (src : List ℕ) (result : Run Deflating) : Type 0 where
  last : Deflating
  returns : result ≡ done last
  open' : IsOpen src last
  at_end : last.i ≡ length src

-- A stream that stands for the source.
pub record IsDeflated (src : List ℕ) (result : Run (List ℕ)) : Type 0 where
  pub out : List ℕ
  pub rounds : ℕ
  pub returns : result ≡ done out
  pub stream : Stream rounds out src
  pub small : 32 * length out ≤ 33 * length src + 31

module _ (shr : ℕ → ℕ → ℕ) (level room : ℕ) (src : List ℕ)
    (fits : length src + length src / 32 + 9 ≤ room) where
  deflate_loop-IsEnd :
      (fuel : ℕ) (s : Deflating)
      → IsOpen src s
      → Behind s.table s.i
      → length src < s.i + fuel
      → IsEnd src (deflate_loop shr level room src fuel s)
  unfolding deflate_loop
  deflate_loop-IsEnd zero s o behind h = absurd (omega (arith, o.i_le))
  deflate_loop-IsEnd (suc fuel) s o behind h = elim (Bool-cases (s.i == length src)) [
    | inl end ↦ rw end (record { last = s; returns = refl; open' = o; at_end = ==_true→eq _ _ end })
    | inr more ↦
        let inside : s.i < length src = ground (arith, o.i_le) in
        let step = deflate_step-IsStep shr level room src fits s o behind inside in
        rw (more, step.returns)
          (deflate_loop-IsEnd fuel step.after step.open' step.behind (omega (arith, step.moved)))
  ]

  -- With room for one byte in 32 more than the source has, and for the trailer, the compressor
  -- stays inside its buffers, ends, and writes a stream that stands for the source.
  pub deflate_stream-IsDeflated :
      2 ≤ length src → IsDeflated src (deflate_stream shr level room src)
  unfolding deflate_stream
  deflate_stream-IsDeflated two =
      let (v, e) = first_lem src 0 two in
      let start : Deflating = record { i = 0; literal = 0; value = v; table = λ k. 0; out = [] } in
      let open' : IsOpen src start = record {
        rounds = 0;
        stream = nil;
        literal_le = omega arith;
        literal_lt = omega arith;
        i_le = omega arith;
        small = omega arith;
      } in
      let end = deflate_loop-IsEnd (suc (length src)) start open' (λ k p. p) (omega arith) in
      let o = end.open' in
      let f =
        flush-IsFlushed room src end.last o
          (omega (arith, o.small, o.literal_le, o.i_le, o.literal_lt)) in
      record {
        out = f.out;
        rounds = f.rounds;
        returns = rw (e, end.returns, f.returns);
        stream = subst (Stream f.rounds f.out) (take_all end.last.i src end.at_end) f.stream;
        small = omega (arith, f.small, o.small, o.literal_le, o.i_le, o.literal_lt, end.at_end);
      }

  -- The trailer fits too.
  pub deflate_data_lem :
      (net : NetOrder)
      → 2 ≤ length src
      → length src + length src / 32 < 2147483647
      → (stream : List ℕ) × (rounds : ℕ) × Stream rounds stream src
        × (deflate_data shr level room src net ≡ done (stream ++ trailer net (length src)))
        × (32 * length stream ≤ 33 * length src + 31)
  unfolding deflate_data
  deflate_data_lem net two signed =
      let d = deflate_stream-IsDeflated two in
      (
        d.out,
        d.rounds,
        d.stream,
        rw
            (
              lt→leb_false 2147483648 (length src) (omega arith),
              d.returns,
              lt→leb_false 2147483648 (length d.out) (omega (arith, d.small)),
              le→ltb_false room (length d.out + 8) (omega (arith, d.small)),
            )
            refl,
        d.small,
      )

-- For every source of at least two bytes that, with a byte in 32 and nine bytes more, is shorter
-- than 2^31 bytes, every hash shift, level and byte order, and an output buffer with a byte in 32
-- and nine bytes more than the source: the compressor returns, at most a
-- byte in 32 and nine bytes longer, and the decompressor, given a buffer of the source's length,
-- returns the source.
pub inflate-deflate :
    (shr : ℕ → ℕ → ℕ) (level room : ℕ) (net : NetOrder) (src : List ℕ)
    → 2 ≤ length src
    → length src + length src / 32 + 9 < 2147483648
    → length src + length src / 32 + 9 ≤ room
    → (out : List ℕ) × (deflate_data shr level room src net ≡ done out)
      × (length out ≤ length src + length src / 32 + 9)
      × (inflate_data (length src) out ≡ done src)
inflate-deflate shr level room net src two signed fits =
    let (stream, rounds, s, returns, small) =
      deflate_data_lem shr level room src fits net two (omega arith) in
    (
      stream ++ trailer net (length src),
      returns,
      omega (arith, length-append stream (trailer net (length src))),
      inflate_data-Stream (length src) (trailer net (length src)) s (omega arith) refl (omega arith)
          (omega (arith, length-append stream (trailer net (length src)))),
    )
