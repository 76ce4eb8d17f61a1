-- ===== src/Lzf/Copies.antt =====
-- What the inner loops of `gekkota_lzf_deflate` (src/gekkota/gekkota_lzf.c) write and find.
use gekkota.Base.{ℕ, zero, suc, ◌+◌, ◌-◌, ◌*◌, ◌/◌, ◌%◌, ◌<◌, ◌≤◌, ◌≡◌, refl, sym, ap, ◌∙◌, arith}
use gekkota.Base.{List, [], ◌∷◌, ◌++◌, append_assoc, append-nil, length, length-append}
use gekkota.Base.{get_or, get_elem?-eq-get_or, take, take-suc, drop}
use gekkota.Base.{done, true, false, Bool-cases, inl, inr, ltb}
use gekkota.Base.{lt→ltb, le→ltb_false, ltb→lt, ltb_false→le, ne→==_false}
use gekkota.Lzf.Buffers.{put_lem, peek_lem, copy}
use gekkota.Lzf.Deflate.{flush, put_reference}
use gekkota.Lzf.Format.{reference_bytes}

-- `n` bytes from index `k` on.
abbrev slice : ℕ → ℕ → List ℕ → List ℕ
slice n k src = take n (drop k src)

slice-suc :
    (n k : ℕ) (src : List ℕ)
    → k < length src
    → slice (suc n) k src ≡ get_or src k 0 ∷ slice n (suc k) src
slice-suc n zero [] h = elim h [ ]
slice-suc n zero (x ∷ src) h = refl
slice-suc n (suc k) [] h = elim h [ ]
slice-suc n (suc k) (x ∷ src) h = slice-suc n k src (omega arith)

length-slice : (n k : ℕ) (src : List ℕ) → k + n ≤ length src → length (slice n k src) ≡ n
length-slice zero k src h = refl
length-slice (suc n) k src h =
    rw (slice-suc n k src (omega arith)) (ap suc (length-slice n (suc k) src (omega arith)))

take-slice :
    (n k m : ℕ) (src : List ℕ)
    → m ≡ k + n
    → m ≤ length src
    → take k src ++ slice n k src ≡ take m src
take-slice zero k m src e h = rw (append-nil) (ap (λ t. take t src) (omega arith))
take-slice (suc n) k m src e h =
    let x = get_or src k 0 in
    let here = get_elem?-eq-get_or src k 0 (omega arith) in
    rw (slice-suc n k src (omega arith)) (
      sym (append_assoc (take k src) (x ∷ []) (slice n (suc k) src))
      ∙ ap (λ t. t ++ slice n (suc k) src) (take-suc k src here)
      ∙ take-slice n (suc k) m src (omega arith) h)

pub copy_lem :
    (room n : ℕ) (src : List ℕ) (k : ℕ) (out : List ℕ)
    → k + n ≤ length src
    → length out + n ≤ room
    → copy room n src k out ≡ done (out ++ slice n k src)
unfolding copy
copy_lem room zero src k out h fits = rw append-nil
copy_lem room (suc n) src k out h fits =
    let x = get_or src k 0 in
    rw
      (
        peek_lem src k (omega arith),
        put_lem room x out (omega arith),
        slice-suc n k src (omega arith),
      )
      (ap (λ t. copy room n src t (out ++ (x ∷ []))) (omega arith)
        ∙ copy_lem room n src (suc k) (out ++ (x ∷ [])) (omega arith)
            (omega (arith, length-append out (x ∷ [])))
        ∙ ap done (append_assoc out (x ∷ []) (slice n (suc k) src)))

-- `flush` writes the run of `n` bytes before index `i`, behind a byte for its length.
pub flush_lem :
    (room : ℕ) (src : List ℕ) (i n start : ℕ) (out : List ℕ)
    → 1 ≤ n
    → n ≤ 32
    → start + n ≡ i
    → i ≤ length src
    → length out + n < room
    → (run : List ℕ) × (length run ≡ n)
      × (take start src ++ run ≡ take i src)
      × (flush room src i n out ≡ done (out ++ ((length run - 1) ∷ run)))
unfolding flush
flush_lem room src i n start out p q h k fits =
    let run = slice n start src in
    let len : length run ≡ n = length-slice n start src (omega arith) in
    let tag : (n - 1) % 256 ≡ n - 1 = omega arith in
    let from : i - n ≡ start = omega arith in
    (
      run,
      len,
      take-slice n start i src (omega arith) k,
      rw
          (
            ne→==_false n 0 (λ e. omega arith),
            tag,
            put_lem room (n - 1) out (omega arith),
            from,
            len,
          )
          (copy_lem room n src start (out ++ ((n - 1) ∷ [])) (omega arith)
              (omega (arith, length-append out ((n - 1) ∷ [])))
            ∙ ap done (append_assoc out ((n - 1) ∷ []) run)),
    )

pub flush-zero :
    (room : ℕ) (src : List ℕ) (i : ℕ) (out : List ℕ) → flush room src i 0 out ≡ done out
unfolding flush
flush-zero room src i out = refl

module _ (room offset len : ℕ) (out : List ℕ) (small : offset < 8192) (long : 3 ≤ len)
    (short : len ≤ 264) (fits : length out + 3 ≤ room) where
  put_short :
      ltb len 9 ≡ true
      → put_reference room offset len out ≡ done (out ++ reference_bytes offset len)
  unfolding put_reference
  put_short less =
      let tag = offset / 256 + (len - 2) * 32 in
      let below : len < 9 = ltb→lt len 9 less in
      let whole : tag % 256 ≡ tag = omega arith in
      rw
        (
          less,
          lt→ltb (len - 2) 7 (omega arith),
          whole,
          put_lem room tag out (omega arith),
          put_lem room (offset % 256) (out ++ (tag ∷ []))
              (omega (arith, length-append out (tag ∷ []))),
        )
        (ap done (append_assoc out (tag ∷ []) (offset % 256 ∷ [])))

  put_long :
      ltb len 9 ≡ false
      → put_reference room offset len out ≡ done (out ++ reference_bytes offset len)
  unfolding put_reference
  put_long no_less =
      let tag = offset / 256 + 224 in
      let above : 9 ≤ len = ltb_false→le len 9 no_less in
      let whole : (offset / 256 + 7 * 32) % 256 ≡ tag = omega arith in
      let extra : (len - 2 - 7) % 256 ≡ len - 9 = omega arith in
      let out' = out ++ (tag ∷ []) in
      let out'' = out' ++ ((len - 9) ∷ []) in
      let grown = length-append out (tag ∷ []) in
      rw
        (
          no_less,
          le→ltb_false (len - 2) 7 (omega arith),
          whole,
          put_lem room tag out (omega arith),
          extra,
          put_lem room (len - 9) out' (omega (arith, grown)),
          put_lem room (offset % 256) out''
              (omega (arith, grown, length-append out' ((len - 9) ∷ []))),
        )
        (ap done (
          append_assoc out' ((len - 9) ∷ []) (offset % 256 ∷ [])
          ∙ append_assoc out (tag ∷ []) ((len - 9) ∷ offset % 256 ∷ [])))

  -- A reference is written in the format, in at most three bytes.
  pub put_reference_lem :
      put_reference room offset len out ≡ done (out ++ reference_bytes offset len)
  put_reference_lem = elim (Bool-cases (ltb len 9)) [
    | inl less ↦ put_short less
    | inr no_less ↦ put_long no_less
  ]
