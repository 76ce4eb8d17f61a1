-- ===== src/Lzf/Overflow.antt =====
-- Sources that the compressor of src/gekkota/gekkota_lzf.c finds no match in, and what it would
-- have to write for them.
use gekkota.Base.{ℕ, zero, suc, ◌+◌, ◌-◌, ◌*◌, ◌/◌, ◌%◌, ◌<◌, ◌≤◌, ◌≡◌, ◌≢◌, refl, arith}
use gekkota.Base.{List, [], ◌∷◌, length, length-append, Run, done, ◌>>=◌}
use gekkota.Base.{
  >>=-eq-done, done-injective, >>=-ne-stuck, found-ne-stuck, Run-cases, stuck, fault, Bool, false,
  Bool-cases, inl, inr, ltb, ltb→lt, ◌==◌, ==_true→eq,
}
use gekkota.Base.{if◌then◌else◌, NetOrder, ltb_false→le, leb, take_all, some, ok}
use gekkota.Base.{buffer_too_small}
use native.Mathlib.Decide.{ℕ_discrete}
use gekkota.Buffer.{Block, Allocator}
use gekkota.Lzf.Api.{Lzf, lzf_deflate, to_size_t, get_max_deflated_length}
use gekkota.Lzf.Session.{no_data, in_block, prepare-none}
use mathlib.Core.Path.{subst}
use gekkota.Lzf.Buffers.{put, copy, peek}
use gekkota.Lzf.Deflate.{Deflating, deflate_step, deflate_loop, deflate_stream, deflate_data, flush}
use gekkota.Lzf.Deflate.{add_literal, add_reference, update, hash_index, first}
use gekkota.Lzf.Encode.{Behind, Behind-update, next_lem, first_lem}
use gekkota.Lzf.Matches.{Same, IsHit, matches-IsHit}

-- No three bytes in a row occur twice.
abbrev pub HasNoRepeat : List ℕ → Type 0
HasNoRepeat src = (r i : ℕ) → r < i → i + 4 < length src → ¬ (Same src r i 3)

put-length :
    (room x : ℕ) (out : List ℕ) {out' : List ℕ}
    → put room x out ≡ done out'
    → length out' ≡ length out + 1
unfolding put
put-length room x out h = ground (arith, length-append out (x ∷ []))

copy-length :
    (room n : ℕ) (src : List ℕ) (k : ℕ) (out : List ℕ) {out' : List ℕ}
    → copy room n src k out ≡ done out'
    → length out' ≡ length out + n
unfolding copy
copy-length room zero src k out h = ground arith
copy-length room (suc n) src k out h =
    let (x, e, h') = >>=-eq-done (peek src k) _ h in
    let (mid, f, h'') = >>=-eq-done (put room x out) _ h' in
    omega (arith, put-length room x out f, copy-length room n src (k + 1) mid h'')

flush-length :
    (room : ℕ) (src : List ℕ) (i n : ℕ) (out : List ℕ) {out' : List ℕ}
    → flush room src i n out ≡ done out'
    → (n ≡ 0 → length out' ≡ length out) × (n ≢ 0 → length out' ≡ length out + n + 1)
unfolding flush
flush-length room src i n out {out'} h = elim (Bool-cases (n == 0)) [
  | inl e ↦ ground arith
  | inr e ↦
      let h' = rw e at h in
      let (mid, f, g) = >>=-eq-done (put room _ out) _ h' in
      let total : length out' ≡ length out + n + 1 =
        omega (arith, put-length room _ out f, copy-length room n src (i - n) mid g) in
      (λ z. ground arith, λ z. total)
]

put-ne-stuck : (room x : ℕ) (out : List ℕ) → put room x out ≢ stuck
unfolding put
put-ne-stuck room x out h = ground arith

copy-ne-stuck : (room n : ℕ) (src : List ℕ) (k : ℕ) (out : List ℕ) → copy room n src k out ≢ stuck
unfolding copy
copy-ne-stuck room zero src k out h = cc
copy-ne-stuck room (suc n) src k out h =
    >>=-ne-stuck (peek src k) _ (found-ne-stuck _)
      (λ x e.
        >>=-ne-stuck (put room x out) _ (put-ne-stuck room x out)
          (λ mid f. copy-ne-stuck room n src (k + 1) mid))
      h

flush-ne-stuck : (room : ℕ) (src : List ℕ) (i n : ℕ) (out : List ℕ) → flush room src i n out ≢ stuck
unfolding flush
flush-ne-stuck room src i n out h = elim (Bool-cases (n == 0)) [
  | inl e ↦ cc (rw e at h)
  | inr e ↦
      >>=-ne-stuck (put room _ out) _ (put-ne-stuck room _ out)
        (λ mid f. copy-ne-stuck room n src (i - n) mid) (rw e at h)
]

-- Only literals so far.
record IsLiteral (s : Deflating) : Type 0 where
  pending : s.literal ≡ s.i % 32
  written : length s.out ≡ 33 * (s.i / 32)

module _ (shr : ℕ → ℕ → ℕ) (level room : ℕ) (src : List ℕ) (unique : HasNoRepeat src) where
  add_literal-IsLiteral :
      (s : Deflating) {s' : Deflating}
      → IsLiteral s
      → add_literal shr level room src s ≡ done s'
      → IsLiteral s' × (s'.i ≡ s.i + 1) × (s'.table ≡ s.table)
  unfolding add_literal
  add_literal-IsLiteral s {s'} o h = elim (Bool-cases (s.literal + 1 == 32)) [
    | inl e ↦
        let full : s.literal + 1 ≡ 32 = ==_true→eq _ _ e in
        let (out, f, g) = >>=-eq-done (flush room src (s.i + 1) 32 s.out) _ (rw e at h) in
        let size : length out ≡ length s.out + 32 + 1 =
          (flush-length room src (s.i + 1) 32 s.out f).1 (λ z. omega arith) in
        subst (λ t. IsLiteral t × (t.i ≡ s.i + 1) × (t.table ≡ s.table)) (done-injective g)
          (
            record {
              pending = omega (arith, o.pending);
              written = omega (arith, o.pending, o.written);
            },
            refl,
            refl,
          )
    | inr e ↦
        let more : s.literal + 1 ≢ 32 = ground arith in
        subst (λ t. IsLiteral t × (t.i ≡ s.i + 1) × (t.table ≡ s.table))
          (done-injective (rw e at h))
          (
            record {
              pending = omega (arith, o.pending);
              written = omega (arith, o.pending, o.written);
            },
            refl,
            refl,
          )
  ]

  -- No entry of the table leads to a match.
  no_match :
      (s : Deflating) (r : ℕ) {test : Run Bool} {s' : Deflating}
      → IsHit src r s.i test
      → (test >>= λ hit.
          if hit then add_reference shr level room src r s else add_literal shr level room src s)
        ≡ done s'
      → add_literal shr level room src s ≡ done s'
  no_match s r h e = elim (Bool-cases h.answer) [
    | inl y ↦ absurd (unique r s.i (h.positive y) (h.inside y) (h.sound y))
    | inr n ↦ rw (h.returns, n) at e
  ]

  step-IsLiteral :
      (s : Deflating) {s' : Deflating}
      → IsLiteral s
      → Behind s.table s.i
      → deflate_step shr level room src s ≡ done s'
      → IsLiteral s' × (s'.i ≡ s.i + 1) × Behind s'.table s'.i
  unfolding deflate_step
  step-IsLiteral s {s'} o behind h = elim (Bool-cases (ltb (s.i + 2) (length src))) [
    | inl more ↦
        let (v, e) = next_lem s.value src s.i (ltb→lt _ _ more) in
        let k = hash_index shr level v in
        let s1 : Deflating = record s { value = v; table = update s.table k s.i } in
        let o1 : IsLiteral s1 = record { pending = o.pending; written = o.written } in
        let hit = matches-IsHit src (s.table k) s.i (behind k) in
        let (o', moved, kept) =
          add_literal-IsLiteral s1 o1 (no_match s1 (s.table k) hit (rw (more, e) at h)) in
        (
          o',
          moved,
          rw (kept, moved)
              (Behind-update s.table k s.i s.i (s.i + 1) behind (omega arith) (omega arith)),
        )
    | inr no_more ↦
        let (o', moved, kept) = add_literal-IsLiteral s o (rw no_more at h) in
        (o', moved, rw (kept, moved) (λ k p. omega (arith, behind k p)))
  ]

  add_literal-ne-stuck : (s : Deflating) → add_literal shr level room src s ≢ stuck
  unfolding add_literal
  add_literal-ne-stuck s h = elim (Bool-cases (s.literal + 1 == 32)) [
    | inl e ↦
        >>=-ne-stuck (flush room src (s.i + 1) 32 s.out) _
          (flush-ne-stuck room src (s.i + 1) 32 s.out) (λ out f g. cc) (rw e at h)
    | inr e ↦ cc (rw e at h)
  ]

  step-ne-stuck : (s : Deflating) → Behind s.table s.i → deflate_step shr level room src s ≢ stuck
  unfolding deflate_step
  step-ne-stuck s behind h = elim (Bool-cases (ltb (s.i + 2) (length src))) [
    | inl more ↦
        let (v, e) = next_lem s.value src s.i (ltb→lt _ _ more) in
        let k = hash_index shr level v in
        let s1 : Deflating = record s { value = v; table = update s.table k s.i } in
        let hit = matches-IsHit src (s.table k) s.i (behind k) in
        elim (Bool-cases hit.answer) [
          | inl y ↦ unique (s.table k) s.i (hit.positive y) (hit.inside y) (hit.sound y)
          | inr n ↦ add_literal-ne-stuck s1 (rw (more, e, hit.returns, n) at h)
        ]
    | inr no_more ↦ add_literal-ne-stuck s (rw no_more at h)
  ]

  loop-ne-stuck :
      (fuel : ℕ) (s : Deflating)
      → IsLiteral s
      → Behind s.table s.i
      → s.i ≤ length src
      → length src < s.i + fuel
      → deflate_loop shr level room src fuel s ≢ stuck
  unfolding deflate_loop
  loop-ne-stuck zero s o behind low high h = absurd (omega arith)
  loop-ne-stuck (suc fuel) s o behind low high h = elim (Bool-cases (s.i == length src)) [
    | inl end ↦ cc (rw end at h)
    | inr more ↦
        >>=-ne-stuck (deflate_step shr level room src s) _ (step-ne-stuck s behind)
          (λ mid e.
            let (o', moved, behind') = step-IsLiteral s o behind e in
            loop-ne-stuck fuel mid o' behind' (ground arith) (omega arith))
          (rw more at h)
  ]

  data-ne-stuck : (net : NetOrder) → 2 ≤ length src → deflate_data shr level room src net ≢ stuck
  unfolding deflate_data deflate_stream
  data-ne-stuck net two h = elim (Bool-cases (leb 2147483648 (length src))) [
    | inl long ↦ cc (rw long at h)
    | inr signed ↦
        let (v, e) = first_lem src 0 two in
        let start : Deflating = record {
          i = 0;
          literal = 0;
          value = v;
          table = λ k. 0;
          out = [];
        } in
        let o : IsLiteral start = record { pending = omega arith; written = omega arith } in
        >>=-ne-stuck
          (deflate_loop shr level room src (suc (length src)) start >>= λ s.
            flush room src s.i s.literal s.out)
          _
          (>>=-ne-stuck (deflate_loop shr level room src (suc (length src)) start) _
            (loop-ne-stuck (suc (length src)) start o (λ k p. p) (omega arith) (omega arith))
            (λ last f. flush-ne-stuck room src last.i last.literal last.out))
          (λ stream f g. ground arith) (rw (signed, e) at h)
  ]

  loop-IsLiteral :
      (fuel : ℕ) (s : Deflating) {s' : Deflating}
      → IsLiteral s
      → Behind s.table s.i
      → deflate_loop shr level room src fuel s ≡ done s'
      → IsLiteral s' × (s'.i ≡ length src)
  unfolding deflate_loop
  loop-IsLiteral zero s o behind h = cc
  loop-IsLiteral (suc fuel) s {s'} o behind h = elim (Bool-cases (s.i == length src)) [
    | inl end ↦
        subst (λ t. IsLiteral t × (t.i ≡ length src)) (done-injective (rw end at h))
          (o, ==_true→eq _ _ end)
    | inr more ↦
        let (mid, e, rest) = >>=-eq-done (deflate_step shr level room src s) _ (rw more at h) in
        let (o', moved, behind') = step-IsLiteral s o behind e in
        loop-IsLiteral fuel mid o' behind' rest
  ]

  -- A stream with no reference has a byte more for every 32 bytes begun.
  stream-length :
      {out : List ℕ}
      → deflate_stream shr level room src ≡ done out
      → length out ≡ length src + (length src + 31) / 32
  unfolding deflate_stream
  stream-length {out} h =
      let (v, e, h') = >>=-eq-done (first src 0) _ h in
      let (last, f, h'') =
        >>=-eq-done (deflate_loop shr level room src (suc (length src)) _) _ h' in
      let start : Deflating = record { i = 0; literal = 0; value = v; table = λ k. 0; out = [] } in
      let o : IsLiteral start = record { pending = omega arith; written = omega arith } in
      let (o', at_end) = loop-IsLiteral (suc (length src)) start o (λ k p. p) f in
      let (whole, part) = flush-length room src last.i last.literal last.out h'' in
      elim (ℕ_discrete last.literal 0) [
        | yes z ↦ omega (arith, whole z, o'.pending, o'.written)
        | no z ↦ omega (arith, part z, o'.pending, o'.written)
      ]

  data-length :
      (net : NetOrder) {out : List ℕ}
      → deflate_data shr level room src net ≡ done out
      → length src + (length src + 31) / 32 + 8 ≤ room
  unfolding deflate_data
  data-length net {out} h = elim (Bool-cases (leb 2147483648 (length src))) [
    | inl long ↦ cc (rw long at h)
    | inr signed ↦
        let (stream, e, h') = >>=-eq-done (deflate_stream shr level room src) _ (rw signed at h) in
        elim (Bool-cases (leb 2147483648 (length stream))) [
          | inl over ↦ cc (rw over at h')
          | inr short ↦ elim (Bool-cases (ltb room (length stream + 8))) [
            | inl over ↦ cc (rw (short, over) at h')
            | inr fits ↦ omega (arith, stream-length e, ltb_false→le room (length stream + 8) fits)
          ]
        ]
  ]

-- On a source of 161 bytes or more, and less than 2000000000, in which no three bytes in a row
-- occur twice before its last two bytes, compressing into the buffer that the code allocates
-- writes outside of it, whatever the hash shift, the level and the byte order.
pub lzf_deflate-overflow :
    (m : Allocator) (shr : ℕ → ℕ → ℕ) (net : NetOrder) (l : Lzf) (source block : Block)
    → HasNoRepeat source.bytes
    → 161 ≤ length source.bytes
    → length source.bytes < 2000000000
    → m.alloc ((length source.bytes * 1001 + 999) / 1000 + 12) false ≡ ok block
    → lzf_deflate m shr net l (some (in_block source)) (some no_data) ≡ fault
unfolding lzf_deflate
lzf_deflate-overflow m shr net l source block unique long short allocated =
    let room = (length source.bytes * 1001 + 999) / 1000 + 12 in
    let need : to_size_t (get_max_deflated_length (some (in_block source))) ≡ room =
      unfold get_max_deflated_length in ground arith in
    let result = deflate_data shr l.compression_level room source.bytes net in
    let never = data-ne-stuck shr l.compression_level room source.bytes unique net (omega arith) in
    let faults : result ≡ fault = elim (Run-cases result never) [
      | inl (out, e) ↦
          absurd (omega (arith, data-length shr l.compression_level room source.bytes unique net e))
      | inr e ↦ e
    ] in
    rw (
      need,
      prepare-none m buffer_too_small room block allocated,
      take_all (length source.bytes) source.bytes refl,
      faults,
    )
