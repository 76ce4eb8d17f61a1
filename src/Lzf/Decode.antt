-- ===== src/Lzf/Decode.antt =====
-- `inflate_data` reads every stream of the format back.
use gekkota.Base.{ℕ, suc, ◌+◌, ◌-◌, ◌*◌, ◌/◌, ◌%◌, ◌<◌, ◌≤◌, ◌≡◌, refl, ap, ◌∙◌, arith}
use gekkota.Base.{List, [], ◌∷◌, ◌++◌, append_assoc, append-nil, length, length-append}
use gekkota.Base.{
  Run, done, ltb, lt→ltb, le→ltb_false, ltb→lt, ltb_false→le, lt→leb_false, ◌&&◌, not, is_empty,
}
use gekkota.Base.{if◌then◌else◌, true, false, Bool-cases, inl, inr}
use native.Mathlib.Nat.{zero-add}
use gekkota.Lzf.Buffers.{put_lem}
use gekkota.Lzf.Inflate.{next_byte, copy_literal, copy_back, long_length, copy_reference}
use gekkota.Lzf.Inflate.{inflate_step, inflate_loop, inflate_data}
use gekkota.Lzf.Format.{Extends, stop, more, Stream, nil, literal, reference, reference_bytes}
use gekkota.Lzf.Format.{length-Extends, rounds-le-Stream}

copy_back_lem :
    (room : ℕ) {n reference : ℕ} {before after : List ℕ}
    → Extends n reference before after
    → length after ≤ room
    → copy_back room n reference before ≡ done after
unfolding copy_back
copy_back_lem room stop h = refl
copy_back_lem room (more {x = x} {before = before} e rest) h =
    rw
      (e, put_lem room x before (omega (arith, length-Extends rest, length-append before (x ∷ []))))
      (copy_back_lem room rest h)

copy_literal_lem :
    (room : ℕ) (run rest out : List ℕ)
    → length out + length run ≤ room
    → copy_literal room (length run) (run ++ rest) out ≡ done (rest, out ++ run)
unfolding copy_literal next_byte
copy_literal_lem room [] rest out h = rw append-nil
copy_literal_lem room (x ∷ run) rest out h = rw (put_lem room x out (omega arith)) (
    copy_literal_lem room run rest (out ++ (x ∷ [])) (omega (arith, length-append out (x ∷ [])))
    ∙ ap (λ t. done (rest, t)) (append_assoc out (x ∷ []) run))

step-literal :
    (room : ℕ) (run rest out : List ℕ)
    → 1 ≤ length run
    → length run ≤ 32
    → length out + length run ≤ room
    → inflate_step room (((length run - 1) ∷ run) ++ rest) out ≡ done (rest, out ++ run)
unfolding inflate_step next_byte
step-literal room run rest out p q h =
    let e : length run - 1 + 1 ≡ length run = omega arith in
    rw (lt→ltb (length run - 1) 32 (omega arith), e) (copy_literal_lem room run rest out h)

long_length_lem :
    (len : ℕ) (rest : List ℕ) → 9 ≤ len → long_length 7 ((len - 9) ∷ rest) ≡ done (len - 2, rest)
unfolding long_length next_byte
long_length_lem len rest h = ground arith

short_length_lem : (len : ℕ) (rest : List ℕ) → len < 7 → long_length len rest ≡ done (len, rest)
unfolding long_length
short_length_lem len rest h = ground arith

-- The part of a reference behind its length.
module _ (room : ℕ) (rest : List ℕ) (offset len : ℕ) {text text' : List ℕ} (small : offset < 8192)
    (inside : offset < length text) (long : 3 ≤ len) (short : len ≤ 264)
    (copied : Extends len (length text - (offset + 1)) text text')
    (fits : length text' ≤ room) where
  copy_reference_lem :
      (value : ℕ) (tail : List ℕ)
      → value % 32 ≡ offset / 256
      → long_length (value / 32) tail ≡ done (len - 2, offset % 256 ∷ rest)
      → copy_reference room value tail text ≡ done (rest, text')
  unfolding copy_reference next_byte
  copy_reference_lem value tail e read =
      let back : value % 32 * 256 + 1 + offset % 256 ≡ offset + 1 = omega arith in
      let count : 2 + (len - 2) ≡ len = omega arith in
      rw (
        read,
        back,
        count,
        le→ltb_false (length text) (offset + 1) (omega arith),
        copy_back_lem room copied fits,
      )

  short_reference :
      ltb len 9 ≡ true
      → inflate_step room (reference_bytes offset len ++ rest) text ≡ done (rest, text')
  unfolding inflate_step next_byte
  short_reference less =
      let v : ℕ = offset / 256 + (len - 2) * 32 in
      let q : v / 32 ≡ len - 2 = omega (arith, ltb→lt len 9 less) in
      let read : long_length (v / 32) (offset % 256 ∷ rest) ≡ done (len - 2, offset % 256 ∷ rest) =
        rw q (short_length_lem (len - 2) _ (omega (arith, ltb→lt len 9 less))) in
      rw (less, le→ltb_false v 32 (omega arith))
        (copy_reference_lem v (offset % 256 ∷ rest) (omega arith) read)

  long_reference :
      ltb len 9 ≡ false
      → inflate_step room (reference_bytes offset len ++ rest) text ≡ done (rest, text')
  unfolding inflate_step next_byte
  long_reference no_less =
      let v : ℕ = offset / 256 + 224 in
      let tail : List ℕ = (len - 9) ∷ offset % 256 ∷ rest in
      let q : v / 32 ≡ 7 = omega arith in
      let read : long_length (v / 32) tail ≡ done (len - 2, offset % 256 ∷ rest) =
        rw q (long_length_lem len _ (omega (arith, ltb_false→le len 9 no_less))) in
      rw (no_less, le→ltb_false v 32 (omega arith)) (copy_reference_lem v tail (omega arith) read)

  step-reference : inflate_step room (reference_bytes offset len ++ rest) text ≡ done (rest, text')
  step-reference = elim (Bool-cases (ltb len 9)) [
    | inl less ↦ short_reference less
    | inr no_less ↦ long_reference no_less
  ]

-- What the loop does after a round.
abbrev go_on : ℕ → ℕ → List ℕ → List ℕ → Run (List ℕ)
go_on room fuel rest out =
    if ltb (length out) room && not (is_empty rest)
    then inflate_loop room fuel rest out
    else done out

inflate_loop-suc :
    (room fuel : ℕ) (bytes out : List ℕ) {rest out' : List ℕ}
    → inflate_step room bytes out ≡ done (rest, out')
    → inflate_loop room (suc fuel) bytes out ≡ go_on room fuel rest out'
unfolding inflate_loop
inflate_loop-suc room fuel bytes out e = rw e

go_on-next :
    (room fuel : ℕ) (rest out : List ℕ)
    → is_empty rest ≡ false
    → length out < room
    → go_on room fuel rest out ≡ inflate_loop room fuel rest out
go_on-next room fuel rest out e h = rw (lt→ltb _ _ h, e)

go_on-full :
    (room fuel : ℕ) (rest out : List ℕ) → length out ≡ room → go_on room fuel rest out ≡ done out
go_on-full room fuel rest out h = rw (le→ltb_false (length out) room (omega arith))

not_empty : (offset len : ℕ) (rest : List ℕ) → is_empty (reference_bytes offset len ++ rest) ≡ false
not_empty offset len rest = ground arith

literal_fits :
    (text run : List ℕ) {room : ℕ} → length (text ++ run) ≤ room → length text + length run ≤ room
literal_fits text run h = omega (arith, length-append text run)

literal_before :
    (text run : List ℕ) {room : ℕ}
    → length (text ++ run) ≤ room
    → 1 ≤ length run
    → length text < room
literal_before text run h p = omega (arith, length-append text run)

-- Reading a stream, with `fuel` rounds left for what stands behind it.
inflate_loop-Stream :
    (room fuel total : ℕ) {rounds : ℕ} {bytes text : List ℕ} (rest : List ℕ)
    → Stream rounds bytes text
    → total ≡ rounds + fuel
    → is_empty rest ≡ false
    → length text < room
    → inflate_loop room total (bytes ++ rest) [] ≡ inflate_loop room fuel rest text
inflate_loop-Stream room fuel total rest nil e more' h = rw e (rw zero-add)
inflate_loop-Stream room fuel total rest (literal {bytes = bytes} {text = text} s run p q) e more'
      h =
    let tok : List ℕ = (length run - 1) ∷ run in
    let fits : length (text ++ run) ≤ room = omega arith in
    ap (λ t. inflate_loop room total t []) (append_assoc bytes tok rest)
    ∙ inflate_loop-Stream room (suc fuel) total (tok ++ rest) s (omega arith) refl
        (literal_before text run fits p)
    ∙ inflate_loop-suc room fuel (tok ++ rest) text
        (step-literal room run rest text p q (literal_fits text run fits))
    ∙ go_on-next room fuel rest (text ++ run) more' h
inflate_loop-Stream room fuel total {text = text'} rest
      (reference {bytes = bytes} {text = text} s offset len a b c d copied) e more' h =
    let tok : List ℕ = reference_bytes offset len in
    ap (λ t. inflate_loop room total t []) (append_assoc bytes tok rest)
    ∙ inflate_loop-Stream room (suc fuel) total (tok ++ rest) s (omega arith)
        (not_empty offset len rest) (omega (arith, length-Extends copied))
    ∙ inflate_loop-suc room fuel (tok ++ rest) text
        (step-reference room rest offset len a b c d copied (omega arith))
    ∙ go_on-next room fuel rest text' more' h

-- The last piece of a stream fills the output buffer.
last_piece :
    (room : ℕ) {rounds : ℕ} {bytes text : List ℕ} (tok rest text' : List ℕ)
    → Stream rounds bytes text
    → is_empty (tok ++ rest) ≡ false
    → length text < room
    → inflate_step room (tok ++ rest) text ≡ done (rest, text')
    → length text' ≡ room
    → room < 2147483648
    → length ((bytes ++ tok) ++ rest) < 2147483648
    → inflate_data room ((bytes ++ tok) ++ rest) ≡ done text'
unfolding inflate_data
last_piece room {rounds} {bytes} {text} tok rest text' s some_left before step full signed signed' =
    let total : ℕ = suc (length ((bytes ++ tok) ++ rest)) in
    let left : ℕ = total - rounds - 1 in
    let fuel : total ≡ rounds + suc left =
      omega
        (arith, rounds-le-Stream s, length-append (bytes ++ tok) rest, length-append bytes tok) in
    rw
      (
        lt→leb_false 2147483648 room signed,
        lt→leb_false 2147483648 (length ((bytes ++ tok) ++ rest)) signed',
      )
      refl
    ∙ ap (λ t. inflate_loop room total t []) (append_assoc bytes tok rest)
    ∙ inflate_loop-Stream room (suc left) total (tok ++ rest) s fuel some_left before
    ∙ inflate_loop-suc room left (tok ++ rest) text step
    ∙ go_on-full room left rest text' full

-- A stream that fills the output buffer is read whole, whatever stands behind it, where both
-- lengths are those of an int32_t.
pub inflate_data-Stream :
    (room : ℕ) {rounds : ℕ} {bytes text : List ℕ} (rest : List ℕ)
    → Stream rounds bytes text
    → 0 < length text
    → length text ≡ room
    → room < 2147483648
    → length (bytes ++ rest) < 2147483648
    → inflate_data room (bytes ++ rest) ≡ done text
inflate_data-Stream room rest nil p e signed signed' = elim p [ ]
inflate_data-Stream room rest (literal {text = text} s run a b) p e signed signed' =
    let fits : length (text ++ run) ≤ room = omega arith in
    last_piece room ((length run - 1) ∷ run) rest (text ++ run) s refl
      (literal_before text run fits a)
      (step-literal room run rest text a b (literal_fits text run fits)) e signed signed'
inflate_data-Stream room {text = text'} rest (reference {text = text} s offset len a b c d copied) p
      e signed signed' =
    last_piece room (reference_bytes offset len) rest text' s (not_empty offset len rest)
      (omega (arith, length-Extends copied))
      (step-reference room rest offset len a b c d copied (omega arith)) e signed signed'
