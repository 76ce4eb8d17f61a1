-- ===== src/Lzf/Encode.antt =====
-- The loop of `gekkota_lzf_deflate` (src/gekkota/gekkota_lzf.c) writes a stream of the format: the
-- invariant of the loop, and that its rounds keep it.
use gekkota.Base.{ℕ, suc, ◌+◌, ◌-◌, ◌*◌, ◌<◌, ◌≤◌, ◌≡◌, ap, ◌∙◌, arith, min}
use gekkota.Base.{List, ◌∷◌, ◌++◌, length, length-append, take, get_or}
use gekkota.Base.{Run, done, Bool-cases, inl, inr, ◌==◌, ==_true→eq}
use gekkota.Base.{u32}
use mathlib.Core.Path.{subst}
use gekkota.Lzf.Buffers.{peek_lem}
use gekkota.Lzf.Deflate.{Table, Deflating, update, first, next}
use gekkota.Lzf.Deflate.{flush}
use gekkota.Lzf.Copies.{flush_lem, flush-zero}
use gekkota.Lzf.Format.{Stream, literal}

-- The entries of a table lie before index `m`, but for 0, which stands for no entry.
abbrev pub Behind : Table → ℕ → Type 0
Behind table m = (k : ℕ) → 0 < table k → table k < m

pub Behind-update :
    (table : Table) (k v m m' : ℕ) → Behind table m → m ≤ m' → v < m' → Behind (update table k v) m'
unfolding update
Behind-update table k v m m' h e p a = ground (arith, h a)

-- What the loop has written stands for the source up to the pending literals, and is at most one
-- byte in 32 longer.
pub record IsOpen (src : List ℕ) (s : Deflating) : Type 0 where
  pub rounds : ℕ
  pub stream : Stream rounds s.out (take (s.i - s.literal) src)
  pub literal_le : s.literal ≤ s.i
  pub literal_lt : s.literal < 32
  pub i_le : s.i ≤ length src
  pub small : 32 * length s.out ≤ 33 * (s.i - s.literal)

-- The pending literals have been written.
pub record IsFlushed (room : ℕ) (src : List ℕ) (s : Deflating) : Type 0 where
  pub out : List ℕ
  pub rounds : ℕ
  pub stream : Stream rounds out (take s.i src)
  pub returns : flush room src s.i s.literal s.out ≡ done out
  pub small : length out ≤ length s.out + s.literal + min s.literal 1

-- A stream with one more run of literals.
pub add_run :
    {rounds : ℕ} {bytes text whole : List ℕ} (run : List ℕ)
    → Stream rounds bytes text
    → 1 ≤ length run
    → length run ≤ 32
    → text ++ run ≡ whole
    → Stream (suc rounds) (bytes ++ ((length run - 1) ∷ run)) whole
add_run {rounds} {bytes} run h p q e =
    subst (Stream (suc rounds) (bytes ++ ((length run - 1) ∷ run))) e (literal h run p q)

pub flush-IsFlushed :
    (room : ℕ) (src : List ℕ) (s : Deflating)
    → IsOpen src s
    → length s.out + s.literal < room
    → IsFlushed room src s
flush-IsFlushed room src s o fits = elim (Bool-cases (s.literal == 0)) [
  | inl none_left ↦
      let e : s.literal ≡ 0 = ==_true→eq _ _ none_left in
      let f : s.i - s.literal ≡ s.i = omega arith in
      record {
        out = s.out;
        rounds = o.rounds;
        stream = subst (λ t. Stream o.rounds s.out (take t src)) f o.stream;
        returns = ap (λ n. flush room src s.i n s.out) e ∙ flush-zero room src s.i s.out;
        small = omega arith;
      }
  | inr some_left ↦
      let pos : 1 ≤ s.literal = ground arith in
      let (run, len, whole, written) =
        flush_lem room src s.i s.literal (s.i - s.literal) s.out pos (omega (arith, o.literal_lt))
          (omega (arith, o.literal_le)) o.i_le fits in
      record {
        out = s.out ++ ((length run - 1) ∷ run);
        rounds = suc o.rounds;
        stream = add_run run o.stream (omega arith) (omega (arith, o.literal_lt)) whole;
        returns = written;
        small = omega (arith, length-append s.out ((length run - 1) ∷ run));
      }
]

pub first_lem : (src : List ℕ) (i : ℕ) → i + 1 < length src → (v : ℕ) × (first src i ≡ done v)
unfolding first
first_lem src i h = (
  u32 (get_or src i 0 * 256 + get_or src (i + 1) 0),
  rw (peek_lem src i (omega arith), peek_lem src (i + 1) (omega arith)),
)

pub next_lem :
    (value : ℕ) (src : List ℕ) (i : ℕ) → i + 2 < length src → (v : ℕ) × (next value src i ≡ done v)
unfolding next
next_lem value src i h =
    (u32 (value * 256 + get_or src (i + 2) 0), rw (peek_lem src (i + 2) (omega arith)))

-- What a round of the loop does to the state `s`.
pub record IsStep (src : List ℕ) (s : Deflating) (result : Run Deflating) : Type 0 where
  pub after : Deflating
  pub returns : result ≡ done after
  pub open' : IsOpen src after
  pub behind : Behind after.table after.i
  pub moved : s.i < after.i
