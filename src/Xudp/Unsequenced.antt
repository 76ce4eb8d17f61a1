-- ===== src/Xudp/Unsequenced.antt =====
-- The window of unsequenced groups, in `_gekkota_xudp_on_unsequenced_data_message`
-- (src/gekkota/gekkota_xudp.c).
use gekkota.Base.{
  ℕ, zero, suc, ◌+◌, ◌*◌, ◌/◌, ◌%◌, ◌<◌, ◌≡◌, refl, sym, ap, arith, List, [], ◌∷◌, Option, none,
  some, Bool, true,
}
use gekkota.Base.{
  false, Bool-cases, inl, inr, sub16, get_or, set, replicate, length, ltb, leb, ◌&&◌, ◌||◌,
}
use gekkota.Base.{if◌then◌else◌}
use gekkota.Xudp.Types.{is_set, bit_set, is_set-bit_set}

-- `group % GEKKOTA_XUDP_CLIENT_UNSEQUENCED_WINDOW_SIZE`, where the constant is `4 * 32` without
-- parentheses.
abbrev pub group_index : (group : ℕ) → ℕ
group_index group = group % 4 * 32

abbrev pub is_new_window : (first group : ℕ) → Bool
is_new_window first group = leb (first + 128) group || leb 61440 first && ltb group 4096

-- The bit of a group in the window of four words.
abbrev pub is_marked : List ℕ → (group : ℕ) → Bool
is_marked window group = is_set (get_or window (group_index group / 32) 0) (group_index group % 32)

abbrev pub mark : List ℕ → (group : ℕ) → List ℕ
mark window group =
    set window (group_index group / 32)
      (bit_set (get_or window (group_index group / 32) 0) (group_index group % 32))

-- The first group of the window and the window after a group that is new; `none` for one that the
-- code takes as received before.
unfoldable pub accept : (first : ℕ) → List ℕ → (group : ℕ) → Option (ℕ × List ℕ)
accept first window group =
    if is_new_window first group
    then some (sub16 group (group_index group), mark (replicate 4 0) group)
    else if ltb group first || is_marked window group
    then none
    else some (first, mark window group)

get_or-set : (xs : List ℕ) (i v : ℕ) → i < length xs → get_or (set xs i v) i 0 ≡ v
get_or-set [] i v h = absurd (omega arith)
get_or-set (x ∷ xs) zero v h = refl
get_or-set (x ∷ xs) (suc i) v h = get_or-set xs i v (omega arith)

mark-is_marked :
    (window : List ℕ) (group other : ℕ)
    → length window ≡ 4
    → other % 4 ≡ group % 4
    → is_marked (mark window group) other ≡ true
mark-is_marked window group other long same =
    let word : group_index other / 32 ≡ group_index group / 32 = omega arith in
    let bit : group_index other % 32 ≡ 0 = omega arith in
    let own : group_index group % 32 ≡ 0 = omega arith in
    let short : group_index group / 32 < length window = omega arith in
    rw (word, bit, own, get_or-set window (group_index group / 32) _ short)
      (is_set-bit_set (get_or window (group_index group / 32) 0))

or_true : (a : Bool) → (a || true) ≡ true
or_true true = refl
or_true false = refl

-- A window that accepts leaves a window with the group's mark.
accept-mark :
    (first first' : ℕ) (window window' : List ℕ) (group : ℕ)
    → length window ≡ 4
    → accept first window group ≡ some (first', window')
    → (w : List ℕ) × (length w ≡ 4) × (window' ≡ mark w group)
unfolding accept
accept-mark first first' window window' group long h =
    elim (Bool-cases (is_new_window first group)) [
      | inl e ↦ (replicate 4 0, refl, sym (same_window (rw (e) at h)))
      | inr e ↦ elim (Bool-cases (ltb group first || is_marked window group)) [
        | inl k ↦ absurd (none_ne (rw (e, k) at h))
        | inr k ↦ (window, long, sym (same_window (rw (e, k) at h)))
      ]
    ]
  where
    none_ne : {A : Type 0} {a : A} → none ≡ some a → ⊥
    none_ne q = cc

    some_injective : {A : Type 0} {a b : A} → some a ≡ some b → a ≡ b
    some_injective q = cc

    same_window : {p q : ℕ × List ℕ} → some p ≡ some q → p.1 ≡ q.1
    same_window q = ap (λ t. t.1) (some_injective q)

-- After a group was accepted, every group of the same remainder by 4 that does not start a new
-- window is refused, also when it is another group.
pub accept-collides :
    (first first' : ℕ) (window window' : List ℕ) (group other : ℕ)
    → length window ≡ 4
    → accept first window group ≡ some (first', window')
    → other % 4 ≡ group % 4
    → is_new_window first' other ≡ false
    → accept first' window' other ≡ none
unfolding accept
accept-collides first first' window window' group other long h same reach =
    let (w, four, e) = accept-mark first first' window window' group long h in
    rw (reach, e, mark-is_marked w group other four same, or_true (ltb other first')) refl
