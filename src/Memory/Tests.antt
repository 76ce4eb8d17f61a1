-- ===== src/Memory/Tests.antt =====
-- The theorems on the pool at concrete inputs.
use gekkota.Base.{◌≡◌, refl, arith, [], ◌∷◌, none, some, true, false, ok, done, fault, ◌==◌}
use gekkota.Base.{◌<◌, ◌⊎◌, ◌↔◌}
use gekkota.Memory
use gekkota.Memory.{Pool}
use gekkota.Memory.Laws.{free-alloc, alloc-fault_iff}

-- Two blocks of 32 bytes at 1000.
abbrev pool : Pool
pool = record {
  memory = 1000;
  block_size = 32;
  block_count = 2;
  free_blocks = 1000 ∷ 1048 ∷ [];
  allocated_blocks = [];
}

inside : Memory.is_inside pool 1016 ≡ true
unfolding Memory.is_inside
inside = refl

is_none : Memory.has 1000 [] ≡ false
unfolding Memory.has
is_none = refl

free-alloc_example :
    (q : Pool) × (Memory.alloc none 8 true pool ≡ done (q, ok 1016))
    × (Memory.free (λ a. false) 1016 q ≡ done (record pool { free_blocks = 1048 ∷ 1000 ∷ [] }))
free-alloc_example =
    free-alloc none (λ a. false) 8 true pool 1000 (1048 ∷ []) (omega arith) (omega arith)
      (omega arith) refl is_none inside

-- Clearing memory that is too large for a block goes beyond its end, and it cannot be given back.
oversized :
    (Memory.alloc (some 5000) 64 true pool ≡ fault)
    × (Memory.alloc (some 5000) 64 false pool ≡ done (pool, ok 5016))
    × (Memory.free (λ a. a == 5000) 5016 pool ≡ fault)
unfolding Memory.alloc Memory.from_heap Memory.clear Memory.or_null Memory.free
    Memory.is_initialized Memory.is_inside
oversized = (refl, refl, refl)

alloc-fault_iff_example :
    (Memory.alloc none 64 true pool ≡ fault)
    ↔ ((0 < 1000) × (0 < 64) × (true ≡ true) × ((32 < 64) ⊎ (pool.free_blocks ≡ [])))
alloc-fault_iff_example = alloc-fault_iff none 64 true pool
