-- ===== src/Memory/Laws.antt =====
-- What the functions of src/gekkota/gekkota_memory.c do to the pool.
use gekkota.Base.{
  ℕ, ◌+◌, ◌-◌, ◌<◌, ◌≤◌, ◌≡◌, refl, ap, arith, List, [], ◌∷◌, ◌++◌, Option, Bool, true, false,
}
use gekkota.Base.{
  none, some, fault, ◌≢◌, ◌⊎◌, ◌↔◌, ◌&&◌, leb, lt→leb_false, ltb→lt, ltb_false→le, ==_true→eq,
}
use gekkota.Base.{Bool-cases, inl, inr, ok, done, ◌==◌, ltb}
use gekkota.Memory
use gekkota.Memory.{Pool}

has-append : (b : ℕ) (xs : List ℕ) → Memory.has b (xs ++ (b ∷ [])) ≡ true
unfolding Memory.has
has-append b [] = ground arith
has-append b (x ∷ xs) = elim (Bool-cases (x == b)) [
  | inl e ↦ rw (e) refl
  | inr e ↦ rw (e) (has-append b xs)
]

without-append :
    (b : ℕ) (xs : List ℕ) → Memory.has b xs ≡ false → Memory.without b (xs ++ (b ∷ [])) ≡ xs
unfolding Memory.has Memory.without
without-append b [] h = let own : (b == b) ≡ true = ground arith in rw (own) refl
without-append b (x ∷ xs) h = elim (Bool-cases (x == b)) [
  | inl e ↦ absurd (true_ne (rw (e) at h))
  | inr e ↦ rw (e) (ap (λ t. x ∷ t) (without-append b xs (rw (e) at h)))
]
  where
    true_ne : true ≡ false → ⊥
    true_ne k = cc

initialized : (p : Pool) → 0 < p.memory → Memory.is_initialized p ≡ true
unfolding Memory.is_initialized
initialized p h = ground arith

-- In a pool that is initialised and has a free block, which is inside and not allocated, memory of
-- no more than the size of a block is the first free block's, behind its node; giving it back
-- leaves the pool as it was, but for the order of its free blocks: the block is now the last one.
pub free-alloc :
    (malloc : Option ℕ) (is_start : ℕ → Bool) (size : ℕ) (initialize : Bool) (p : Pool) (b : ℕ)
    (bs : List ℕ)
    → 0 < p.memory
    → 0 < size
    → size ≤ p.block_size
    → p.free_blocks ≡ b ∷ bs
    → Memory.has b p.allocated_blocks ≡ false
    → Memory.is_inside p (b + 16) ≡ true
    → (q : Pool) × (Memory.alloc malloc size initialize p ≡ done (q, ok (b + 16)))
      × (Memory.free is_start (b + 16) q ≡ done (record p { free_blocks = bs ++ (b ∷ []) }))
unfolding Memory.alloc Memory.from_pool Memory.free Memory.give_back Memory.is_initialized
    Memory.is_inside
free-alloc malloc is_start size initialize p b bs ready some_bytes fits free fresh inside =
    let open_pool : (p.memory == 0) ≡ false = ground arith in
    let long : ltb size 1 ≡ false = ground arith in
    let short : ltb p.block_size size ≡ false = ground arith in
    let not_null : (b + 16 == 0) ≡ false = ground arith in
    let back : b + 16 - 16 ≡ b = omega arith in
    (
      record p { free_blocks = bs; allocated_blocks = p.allocated_blocks ++ (b ∷ []) },
      simp (open_pool, long, short, free) refl,
      simp
          (
            open_pool,
            not_null,
            inside,
            back,
            has-append b p.allocated_blocks,
            without-append b p.allocated_blocks fresh,
          )
          refl,
    )

-- Memory that comes from `malloc` is cleared beyond its end.
from_heap-cleared :
    (p : Pool) (malloc : Option ℕ) (size : ℕ) → Memory.from_heap p true malloc size ≡ fault
unfolding Memory.from_heap Memory.clear
from_heap-cleared p none size = refl
from_heap-cleared p (some a) size =
    rw (lt→leb_false (a + 16 + size) (a + size) (omega arith), and_false (leb a (a + 16))) refl
  where
    and_false : (b : Bool) → (b && false) ≡ false
    and_false true = refl
    and_false false = refl

from_heap-whole :
    (p : Pool) (malloc : Option ℕ) (size : ℕ) → Memory.from_heap p false malloc size ≢ fault
unfolding Memory.from_heap
from_heap-whole p malloc size h = cc

-- Whether `from_heap` is a fault.
from_heap-fault_iff :
    (p : Pool) (initialize : Bool) (malloc : Option ℕ) (size : ℕ)
    → (Memory.from_heap p initialize malloc size ≡ fault) ↔ (initialize ≡ true)
from_heap-fault_iff p true malloc size = ((λ h. refl), λ h. from_heap-cleared p malloc size)
from_heap-fault_iff p false malloc size = ((λ h. absurd (from_heap-whole p malloc size h)), λ h. cc)

-- Whatever `malloc` returns, an allocation is a fault exactly when the pool is initialised, the
-- memory has at least one byte and is to be cleared, and it does not come from a block of the pool:
-- it is larger than a block, or no block is free.
pub alloc-fault_iff :
    (malloc : Option ℕ) (size : ℕ) (initialize : Bool) (p : Pool)
    → (Memory.alloc malloc size initialize p ≡ fault) ↔ (
        (0 < p.memory)
        × (0 < size)
        × (initialize ≡ true)
        × ((p.block_size < size) ⊎ (p.free_blocks ≡ [])))
unfolding Memory.alloc Memory.from_pool Memory.is_initialized
alloc-fault_iff malloc size initialize p = elim (Bool-cases (p.memory == 0)) [
  | inl e ↦
      let closed : p.memory ≡ 0 = ==_true→eq _ _ e in
      rw (e) ((λ h. cc), λ h. absurd (omega (arith, h.0)))
  | inr e ↦ elim (Bool-cases (ltb size 1)) [
    | inl k ↦ rw (e, k) ((λ h. cc), λ h. absurd (omega (arith, h.1, ltb→lt _ _ k)))
    | inr k ↦
        let ready : 0 < p.memory = ground arith in
        let some_byte : 0 < size = omega (arith, ltb_false→le _ _ k) in
        elim (Bool-cases (ltb p.block_size size)) [
          | inl l ↦
              let (to, from) = from_heap-fault_iff p initialize malloc size in
              rw (e, k, l) ((λ h. (ready, some_byte, to h, inl (ltb→lt _ _ l))), λ h. from h.2)
          | inr l ↦ rw (e, k, l) (in_pool ready some_byte (ltb_false→le _ _ l) p.free_blocks)
        ]
  ]
]
  where
    in_pool :
        0 < p.memory
        → 0 < size
        → size ≤ p.block_size
        → (bs : List ℕ)
        → (Memory.from_pool p initialize malloc size bs ≡ fault) ↔ (
            (0 < p.memory) × (0 < size) × (initialize ≡ true) × ((p.block_size < size) ⊎ (bs ≡ [])))
    in_pool ready some_byte short [] =
        let (to, from) = from_heap-fault_iff p initialize malloc size in
        ((λ h. (ready, some_byte, to h, inr refl)), λ h. from h.2)
    in_pool ready some_byte short (b ∷ bs) =
        ((λ h. cc), λ h. elim h.3 [ inl large ↦ absurd (omega arith) | inr none_left ↦ cc ])
