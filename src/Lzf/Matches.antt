-- ===== src/Lzf/Matches.antt =====
-- What the search for a match in `gekkota_lzf_deflate` (src/gekkota/gekkota_lzf.c) finds.
use gekkota.Base.{ℕ, zero, suc, ◌+◌, ◌-◌, ◌<◌, ◌≤◌, ◌≡◌, refl, sym, ap, ◌∙◌, arith, min}
use gekkota.Base.{List, length}
use gekkota.Base.{get_elem?, get_or, get_elem?-eq-get_or, get_elem?-take, take, take-suc, some}
use gekkota.Base.{Run, done, Bool, true, false, Bool-cases, inl, inr, ltb, ◌==◌, ==_true→eq}
use gekkota.Base.{◌&&◌}
use gekkota.Lzf.Buffers.{peek_lem}
use gekkota.Lzf.Deflate.{match_loop, max_length, match_length, same_from, matches}
use gekkota.Lzf.Format.{Extends, stop, more}
use native.Mathlib.Decide.{dec_lt}

-- The `len` bytes at `r` and at `i` are the same.
abbrev pub Same : List ℕ → ℕ → ℕ → ℕ → Type 0
Same src r i len = (p q t : ℕ) → p ≡ r + t → q ≡ i + t → t < len → get_elem? src p ≡ get_elem? src q

pub Extends-of_Same :
    (src : List ℕ) (len r i m : ℕ)
    → m ≡ i + len
    → r < i
    → m ≤ length src
    → Same src r i len
    → Extends len r (take i src) (take m src)
Extends-of_Same src zero r i m e h fits same = let q : i ≡ m = omega arith in rw q stop
Extends-of_Same src (suc len) r i m e h fits same =
    let x = get_or src i 0 in
    let here : get_elem? src i ≡ some x = get_elem?-eq-get_or src i 0 (omega arith) in
    let there : get_elem? (take i src) r ≡ some x =
      get_elem?-take i src r h ∙ same r i 0 (omega arith) (omega arith) (omega arith) ∙ here in
    more there (
      rw (take-suc i src here) (
        Extends-of_Same src len (r + 1) (suc i) m (omega arith) (omega arith) fits
          λ p q t e f g. same p q (suc t) (omega arith) (omega arith) (omega arith)))

-- What a scan of two stretches of the source finds, up to `most` bytes.
pub record IsMatch (src : List ℕ) (r i least most : ℕ) (result : Run ℕ) : Type 0 where
  pub len : ℕ
  pub returns : result ≡ done len
  pub long : least ≤ len
  pub short : len ≤ most
  pub same :
      (p q t : ℕ) → p ≡ r + t → q ≡ i + t → least ≤ t → t < len → get_elem? src p ≡ get_elem? src q

same_byte :
    (src : List ℕ) (m n p q : ℕ)
    → m < length src
    → n < length src
    → (get_or src m 0 == get_or src n 0) ≡ true
    → p ≡ m
    → q ≡ n
    → get_elem? src p ≡ get_elem? src q
same_byte src m n p q hm hn same e f =
    rw (e, f)
      (get_elem?-eq-get_or src m 0 hm
        ∙ ap some (==_true→eq _ _ same)
        ∙ sym (get_elem?-eq-get_or src n 0 hn))

-- A match longer by one byte.
IsMatch-suc :
    (src : List ℕ) (r i least most : ℕ) {result : Run ℕ}
    → r < i
    → i + least < length src
    → (get_or src (r + least) 0 == get_or src (i + least) 0) ≡ true
    → IsMatch src r i (least + 1) most result
    → IsMatch src r i least most result
IsMatch-suc src r i least most h fits same rest = record {
  len = rest.len;
  returns = rest.returns;
  long = omega (arith, rest.long);
  short = rest.short;
  same = λ p q t e f a b. elim (dec_lt least t) [
    | yes above ↦ rest.same p q t e f (omega arith) b
    | no first ↦
        same_byte src (r + least) (i + least) p q (omega arith) fits same (omega arith)
          (omega arith)
  ];
}

nothing_more :
    (src : List ℕ) (r i least most : ℕ) → least ≤ most → IsMatch src r i least most (done least)
nothing_more src r i least most h = record {
  len = least;
  returns = refl;
  long = omega arith;
  short = h;
  same = λ p q t a b c d. absurd (omega arith);
}

match_loop-IsMatch :
    (rounds : ℕ) (src : List ℕ) (r i least most : ℕ)
    → r < i
    → most ≡ least + rounds
    → i + most ≤ length src
    → IsMatch src r i least most (match_loop rounds src r i least)
unfolding match_loop
match_loop-IsMatch zero src r i least most h e fits = nothing_more src r i least most (omega arith)
match_loop-IsMatch (suc rounds) src r i least most h e fits =
    let rest = match_loop-IsMatch rounds src r i (least + 1) most h (omega arith) fits in
    rw (peek_lem src (r + least) (omega arith), peek_lem src (i + least) (omega arith))
      (elim (Bool-cases (get_or src (r + least) 0 == get_or src (i + least) 0)) [
        | inl same ↦ rw same (IsMatch-suc src r i least most h (omega arith) same rest)
        | inr other ↦ rw other (nothing_more src r i least most (omega arith))
      ])

-- `same_from` reads inside, and `true` means that all the bytes are the same.
pub record IsTest (src : List ℕ) (n r i : ℕ) (result : Run Bool) : Type 0 where
  pub answer : Bool
  pub returns : result ≡ done answer
  pub sound :
      answer ≡ true
      → (p q t : ℕ) → p ≡ r + t
      → q ≡ i + t
      → t < n
      → get_elem? src p ≡ get_elem? src q

refused : (src : List ℕ) (n r i : ℕ) → IsTest src n r i (done false)
refused src n r i = record { answer = false; returns = refl; sound = λ h. cc }

IsTest-suc :
    (src : List ℕ) (n r i : ℕ) {result : Run Bool}
    → r < i
    → i < length src
    → (get_or src r 0 == get_or src i 0) ≡ true
    → IsTest src n (r + 1) (i + 1) result
    → IsTest src (suc n) r i result
IsTest-suc src n r i h fits same rest = record {
  answer = rest.answer;
  returns = rest.returns;
  sound = λ y p q t e f a. elim (dec_lt 0 t) [
    | yes above ↦ rest.sound y p q (t - 1) (omega arith) (omega arith) (omega arith)
    | no first ↦ same_byte src r i p q (omega arith) fits same (omega arith) (omega arith)
  ];
}

same_from-IsTest :
    (n : ℕ) (src : List ℕ) (r i : ℕ)
    → r < i
    → i + n ≤ length src
    → IsTest src n r i (same_from n src r i)
unfolding same_from
same_from-IsTest zero src r i h fits = record {
  answer = true;
  returns = refl;
  sound = λ y p q t e f a. elim a [ ];
}
same_from-IsTest (suc n) src r i h fits =
    let rest = same_from-IsTest n src (r + 1) (i + 1) (omega arith) (omega arith) in
    rw (peek_lem src r (omega arith), peek_lem src i (omega arith))
      (elim (Bool-cases (get_or src r 0 == get_or src i 0)) [
        | inl same ↦ rw same (IsTest-suc src n r i h (omega arith) same rest)
        | inr other ↦ rw other (refused src (suc n) r i)
      ])

pub record IsHit (src : List ℕ) (r i : ℕ) (result : Run Bool) : Type 0 where
  pub answer : Bool
  pub returns : result ≡ done answer
  pub positive : answer ≡ true → r < i
  pub near : answer ≡ true → i < r + 8193
  pub inside : answer ≡ true → i + 4 < length src
  pub sound :
      answer ≡ true
      → (p q t : ℕ) → p ≡ r + t
      → q ≡ i + t
      → t < 3
      → get_elem? src p ≡ get_elem? src q

guards :
    (r i n : ℕ)
    → (ltb i (r + 1 + 8192) && (ltb (i + 4) n && ltb 0 r)) ≡ true
    → (i < r + 8193) × (i + 4 < n) × (0 < r)
guards r i n h = ground arith

-- An index from the table is behind `i`, or 0, which stands for no entry.
pub matches-IsHit : (src : List ℕ) (r i : ℕ) → (0 < r → r < i) → IsHit src r i (matches src r i)
unfolding matches
matches-IsHit src r i behind =
    elim (Bool-cases (ltb i (r + 1 + 8192) && (ltb (i + 4) (length src) && ltb 0 r))) [
      | inl go ↦
          let (close, room, entry) = guards r i (length src) go in
          let test = same_from-IsTest 3 src r i (behind entry) (omega arith) in
          rw go (record {
            answer = test.answer;
            returns = test.returns;
            positive = λ y. behind entry;
            near = λ y. close;
            inside = λ y. room;
            sound = test.sound;
          })
      | inr no_go ↦ rw no_go (record {
        answer = false;
        returns = refl;
        positive = λ h. cc;
        near = λ h. cc;
        inside = λ h. cc;
        sound = λ h. cc;
      })
    ]

-- A hit is at least three bytes long, and stays two bytes away from the end of the source.
pub match_length-IsMatch :
    (src : List ℕ) (r i : ℕ)
    → r < i
    → i + 4 < length src
    → IsMatch src r i 3 (max_length src i) (match_length src r i)
unfolding match_length max_length
match_length-IsMatch src r i h fits =
    match_loop-IsMatch (min (length src - i - 2) 264 - 3) src r i 3 _ h (omega arith) (omega arith)

pub max_length_bounds :
    (src : List ℕ) (i : ℕ)
    → i + 4 < length src
    → (max_length src i ≤ 264) × (i + max_length src i + 2 ≤ length src)
unfolding max_length
max_length_bounds src i h = omega arith
