-- ===== src/Lzf/Steps.antt =====
-- Each round of the loop of `gekkota_lzf_deflate` (src/gekkota/gekkota_lzf.c) keeps its invariant.
use gekkota.Lzf.Encode.{Behind, Behind-update, IsOpen, flush-IsFlushed, add_run, IsStep}
use gekkota.Lzf.Encode.{first_lem, next_lem}
use gekkota.Base.{ℕ, suc, ◌+◌, ◌-◌, ◌/◌, ◌<◌, ◌≤◌, ◌≡◌, refl, ap, ◌∙◌, arith}
use gekkota.Base.{List, ◌∷◌, ◌++◌, length, length-append, length-take_le, take}
use gekkota.Base.{Run, ◌>>=◌, Bool, true, false, Bool-cases, inl, inr, ltb, ◌==◌}
use gekkota.Base.{if◌then◌else◌, ltb→lt}
use native.Mathlib.Decide.{dec_lt, ℕ_discrete}
use gekkota.Base.{◌≢◌}
use mathlib.Core.Path.{subst, subst₂}
use gekkota.Lzf.Deflate.{Deflating, update, max_length}
use gekkota.Lzf.Deflate.{hash_index, add_literal, add_reference, deflate_step}
use gekkota.Lzf.Copies.{flush_lem, put_reference_lem}
use gekkota.Lzf.Matches.{Same, Extends-of_Same, IsMatch, IsHit, matches-IsHit}
use gekkota.Lzf.Matches.{match_length-IsMatch, max_length_bounds}
use gekkota.Lzf.Format.{Extends, reference_bytes_bound, Stream, reference, reference_bytes}

module _ (shr : ℕ → ℕ → ℕ) (level room : ℕ) (src : List ℕ)
    (fits : length src + length src / 32 + 9 ≤ room) where
  -- The bytes written leave room for the run of literals that ends at `i`.
  room_left :
      (s : Deflating) → IsOpen src s → s.i < length src → length s.out + s.literal + 4 < room
  room_left s o inside = omega (arith, o.small, o.literal_le, o.literal_lt)

  full_run :
      (s : Deflating)
      → IsOpen src s
      → s.i < length src
      → Behind s.table (s.i + 1)
      → s.literal ≡ 31
      → IsStep src s (add_literal shr level room src s)
  unfolding add_literal
  full_run s o inside behind e =
      let (run, len, whole, written) =
        flush_lem room src (s.i + 1) 32 (s.i - s.literal) s.out (omega arith) (omega arith)
          (omega (arith, o.literal_le)) (omega arith) (omega (arith, room_left s o inside)) in
      let out = s.out ++ ((length run - 1) ∷ run) in
      let end_same : s.i + 1 ≡ s.i + 1 - 0 = omega arith in
      let full : (s.literal + 1 == 32) ≡ true = ground arith in
      record {
        after = record s { i = s.i + 1; literal = 0; out = out };
        returns = rw (full, written);
        open' = record {
          rounds = suc o.rounds;
          stream =
              add_run run o.stream (omega arith) (omega arith)
                (whole ∙ ap (λ t. take t src) end_same);
          literal_le = omega arith;
          literal_lt = omega arith;
          i_le = omega arith;
          small =
              omega (arith, o.small, o.literal_le, length-append s.out ((length run - 1) ∷ run));
        };
        behind = behind;
        moved = omega arith;
      }

  longer_run :
      (s : Deflating)
      → IsOpen src s
      → s.i < length src
      → Behind s.table (s.i + 1)
      → s.literal ≢ 31
      → IsStep src s (add_literal shr level room src s)
  unfolding add_literal
  longer_run s o inside behind e =
      let same : s.i - s.literal ≡ s.i + 1 - (s.literal + 1) = omega arith in
      let not_full : (s.literal + 1 == 32) ≡ false = ground arith in
      record {
        after = record s { i = s.i + 1; literal = s.literal + 1 };
        returns = rw not_full;
        open' = record {
          rounds = o.rounds;
          stream = subst (λ t. Stream o.rounds s.out (take t src)) same o.stream;
          literal_le = omega (arith, o.literal_le);
          literal_lt = omega (arith, o.literal_lt);
          i_le = omega arith;
          small = omega (arith, o.small);
        };
        behind = behind;
        moved = omega arith;
      }

  add_literal-IsStep :
      (s : Deflating)
      → IsOpen src s
      → s.i < length src
      → Behind s.table (s.i + 1)
      → IsStep src s (add_literal shr level room src s)
  add_literal-IsStep s o inside behind = elim (ℕ_discrete s.literal 31) [
    | yes e ↦ full_run s o inside behind e
    | no e ↦ longer_run s o inside behind e
  ]

  -- The bytes at a hit, all of them.
  IsMatch-Same :
      (r i : ℕ) {result : Run ℕ} {test : Run Bool}
      → (m : IsMatch src r i 3 (max_length src i) result) → (h : IsHit src r i test)
      → h.answer ≡ true
      → Same src r i m.len
  IsMatch-Same r i m h y p q t e f a = elim (dec_lt t 3) [
    | yes low ↦ h.sound y p q t e f low
    | no high ↦ m.same p q t e f (omega arith) a
  ]

  add_reference-IsStep :
      (s : Deflating) (r : ℕ) {test : Run Bool}
      → IsOpen src s
      → Behind s.table (s.i + 1)
      → (h : IsHit src r s.i test) → h.answer ≡ true
      → IsStep src s (add_reference shr level room src r s)
  unfolding add_reference
  add_reference-IsStep s r o behind h y =
      let below = h.positive y in
      let near = h.near y in
      let inside = h.inside y in
      let m = match_length-IsMatch src r s.i below inside in
      let (most, limit) = max_length_bounds src s.i inside in
      let left = room_left s o (omega arith) in
      let f = flush-IsFlushed room src s o (omega arith) in
      let len = m.len in
      let offset = s.i - r - 1 in
      let j = s.i + len - 2 in
      let written =
        put_reference_lem room offset len f.out (omega arith) m.long (omega (arith, m.short))
          (omega (arith, f.small)) in
      let before : length (take s.i src) ≡ s.i = length-take_le s.i src (omega arith) in
      let from : r ≡ length (take s.i src) - (offset + 1) = omega arith in
      let copied =
        Extends-of_Same src len r s.i (s.i + len) refl below (omega (arith, m.short))
          (IsMatch-Same r s.i m h y) in
      let a = first_lem src j (omega (arith, m.short, m.long)) in
      let b = next_lem a.0 src j (omega (arith, m.short, m.long)) in
      let c = next_lem b.0 src (j + 1) (omega (arith, m.short, m.long)) in
      let table = update s.table (hash_index shr level b.0) j in
      let end_same : s.i + len ≡ s.i + len - 0 = omega arith in
      record {
        after = record {
          i = s.i + len;
          literal = 0;
          value = c.0;
          table = update table (hash_index shr level c.0) (j + 1);
          out = f.out ++ reference_bytes offset len;
        };
        returns = rw (m.returns, f.returns, written, a.1, b.1, c.1);
        open' = record {
          rounds = suc f.rounds;
          stream =
              reference f.stream offset len (omega arith) (omega arith) m.long
                (omega (arith, m.short))
                (subst₂ (λ k t. Extends len k (take s.i src) (take t src)) from end_same copied);
          literal_le = omega arith;
          literal_lt = omega arith;
          i_le = omega (arith, m.short);
          small = omega (
            arith,
            f.small,
            o.small,
            o.literal_le,
            m.long,
            length-append f.out (reference_bytes offset len),
            reference_bytes_bound offset len,
          );
        };
        behind =
            Behind-update table (hash_index shr level c.0) (j + 1) (s.i + len) (s.i + len)
              (Behind-update s.table (hash_index shr level b.0) j (s.i + 1) (s.i + len) behind
                (omega (arith, m.long)) (omega (arith, m.long)))
              (omega arith) (omega (arith, m.long));
        moved = omega (arith, m.long);
      }

  -- A match, or a literal, behind the first part of the round.
  searched-IsStep :
      (s : Deflating) (r : ℕ) {test : Run Bool}
      → IsOpen src s
      → Behind s.table (s.i + 1)
      → s.i < length src
      → IsHit src r s.i test
      → IsStep src s (
          test >>= λ hit.
          if hit then add_reference shr level room src r s else add_literal shr level room src s)
  searched-IsStep s r o behind inside h = rw h.returns (elim (Bool-cases h.answer) [
    | inl y ↦ rw y (add_reference-IsStep s r o behind h y)
    | inr n ↦ rw n (add_literal-IsStep s o inside behind)
  ])

  pub deflate_step-IsStep :
      (s : Deflating)
      → IsOpen src s
      → Behind s.table s.i
      → s.i < length src
      → IsStep src s (deflate_step shr level room src s)
  unfolding deflate_step
  deflate_step-IsStep s o behind inside = elim (Bool-cases (ltb (s.i + 2) (length src))) [
    | inl more' ↦
        let (v, e) = next_lem s.value src s.i (ltb→lt _ _ more') in
        let k = hash_index shr level v in
        let s' : Deflating = record s { value = v; table = update s.table k s.i } in
        let o' : IsOpen src s' = record {
          rounds = o.rounds;
          stream = o.stream;
          literal_le = o.literal_le;
          literal_lt = o.literal_lt;
          i_le = o.i_le;
          small = o.small;
        } in
        let behind' =
          Behind-update s.table k s.i s.i (s.i + 1) behind (omega arith) (omega arith) in
        let hit = matches-IsHit src (s.table k) s.i (behind k) in
        let step = searched-IsStep s' (s.table k) o' behind' inside hit in
        rw (more', e)
          (record {
            after = step.after;
            returns = step.returns;
            open' = step.open';
            behind = step.behind;
            moved = step.moved;
          })
    | inr no_more ↦ rw no_more (add_literal-IsStep s o inside (λ k p. omega (arith, behind k p)))
  ]
