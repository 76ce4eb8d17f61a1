-- ===== src/Memory.antt =====
-- src/gekkota/gekkota_memory.c: a pool of blocks of one size. A block is its address, that of the
-- list node in front of its memory; the lists of blocks are lists of addresses. What the C library's
-- `malloc` and `realloc` return is an argument, `none` for NULL.
pub mod Laws
mod Tests
use gekkota.Base.{
  ℕ, zero, suc, ◌+◌, ◌*◌, ◌-◌, List, [], ◌∷◌, ◌++◌, Option, none, some, Bool, true, false, Result,
  ok, err,
}
use gekkota.Base.{
  Error, null_argument, argument_not_valid, out_of_memory, memory_already_initialized,
  memory_not_initialized,
}
use gekkota.Base.{Run, done, fault, ◌>>=◌, ltb, leb, ◌==◌, ◌&&◌, ◌||◌, not, if◌then◌else◌, is_empty}

-- `fastHeap`; its memory is at 0, which is NULL, before it is initialised.
pub record Pool : Type 0 where
  pub memory : ℕ
  pub block_size : ℕ
  pub block_count : ℕ
  pub free_blocks : List ℕ
  pub allocated_blocks : List ℕ

-- `sizeof(GekkotaListNode)`.
abbrev pub node_size : ℕ
node_size = 16

unfoldable pub is_initialized : Pool → Bool
is_initialized p = not (p.memory == 0)

-- The blocks from the one of a number on; one whose memory does not happen to have NULL links is
-- refused by `gekkota_list_add`.
unfoldable pub blocks_from : (dirty : ℕ → Bool) → (memory block_size : ℕ) → (count i : ℕ) → List ℕ
blocks_from dirty memory block_size zero i = []
blocks_from dirty memory block_size (suc count) i =
    let rest = blocks_from dirty memory block_size count (suc i) in
    let block = memory + i * (block_size + node_size) in if dirty block then rest else block ∷ rest

or_default : (default n : ℕ) → ℕ
or_default default n = if ltb 0 n then n else default

unfoldable pub initialize :
    (dirty : ℕ → Bool)
    → (malloc : Option ℕ) → (block_size block_count : ℕ) → Pool
    → Pool × Result (Unit {0})
unfolding is_initialized or_default blocks_from
initialize dirty malloc block_size block_count p =
    let size = or_default 256 block_size in
    let count = or_default 100 block_count in
    if is_initialized p then (p, err memory_already_initialized) else elim malloc [
      | none ↦ (record p { memory = 0; block_size = size; block_count = count }, err out_of_memory)
      | some a ↦ (
        record {
          memory = a;
          block_size = size;
          block_count = count;
          free_blocks = blocks_from dirty a size count 0;
          allocated_blocks = [];
        },
        ok tt,
      )
    ]

unfoldable pub uninitialize : Pool → Pool × Result (Unit {0})
unfolding is_initialized
uninitialize p =
    if is_initialized p
    then (
      record {
        memory = 0;
        block_size = 0;
        block_count = 0;
        free_blocks = [];
        allocated_blocks = [];
      },
      ok tt,
    )
    else (p, err memory_not_initialized)

unfoldable pub get_block_size : Pool → Result ℕ
unfolding is_initialized
get_block_size p = if is_initialized p then ok p.block_size else err memory_not_initialized

unfoldable pub get_block_count : Pool → Result ℕ
unfolding is_initialized
get_block_count p = if is_initialized p then ok p.block_count else err memory_not_initialized

-- `memset` of `size` bytes from an address on, inside the block that `malloc` returned, of which
-- `from` is the first address and `size` the length too; there is no block if it returned NULL.
unfoldable pub clear : (block : Option ℕ) → (size address : ℕ) → Run (Unit {0})
clear none size address = fault
clear (some from) size address =
    if leb from address && leb (address + size) (from + size) then done tt else fault

unfoldable pub or_null : Option ℕ → ℕ
or_null none = 0
or_null (some a) = a

-- What `malloc` returned is moved by the size of a node.
unfoldable pub from_heap :
    Pool → (initialize : Bool) → (malloc : Option ℕ) → (size : ℕ) → Run (Pool × Result ℕ)
unfolding clear or_null
from_heap p initialize malloc size =
    let address = or_null malloc + node_size in
    if initialize
    then (clear malloc size address >>= λ t. done (p, ok address))
    else done (p, ok address)

-- `malloc` is asked for the size that the caller wants.
unfoldable pub from_pool :
    Pool → (initialize : Bool) → (malloc : Option ℕ) → (size : ℕ) → List ℕ → Run (Pool × Result ℕ)
unfolding from_heap
from_pool p initialize malloc size [] = from_heap p initialize malloc size
from_pool p initialize malloc size (b ∷ bs) = done (
  record p { free_blocks = bs; allocated_blocks = p.allocated_blocks ++ (b ∷ []) },
  ok (b + node_size),
)

unfoldable pub alloc :
    (malloc : Option ℕ) → (size : ℕ) → (initialize : Bool) → Pool → Run (Pool × Result ℕ)
unfolding is_initialized from_pool from_heap
alloc malloc size initialize p =
    if not (is_initialized p)
    then done (p, err memory_not_initialized)
    else if ltb size 1
    then done (p, err argument_not_valid)
    else if ltb p.block_size size
    then from_heap p initialize malloc size
    else from_pool p initialize malloc size p.free_blocks

-- Whether the memory is in the pool.
unfoldable pub is_inside : Pool → (memory : ℕ) → Bool
is_inside p memory =
    ltb p.memory memory && ltb memory (p.memory + p.block_count * (p.block_size + node_size))

unfoldable pub without : ℕ → List ℕ → List ℕ
without b [] = []
without b (x ∷ xs) = let rest = without b xs in if x == b then xs else x ∷ rest

unfoldable pub has : ℕ → List ℕ → Bool
has b [] = false
has b (x ∷ xs) = let rest = has b xs in (x == b) || rest

-- `gekkota_list_remove` and `gekkota_list_add`: the block goes to the end of the free ones, from
-- whatever list it is in. A node of no list is a fault.
unfoldable pub give_back : (block : ℕ) → Pool → Run Pool
unfolding has without
give_back b p =
    if has b p.allocated_blocks
    then done (record p {
      allocated_blocks = without b p.allocated_blocks;
      free_blocks = p.free_blocks ++ (b ∷ []);
    })
    else if has b p.free_blocks
    then done (record p { free_blocks = without b p.free_blocks ++ (b ∷ []) })
    else fault

-- `is_start` says whether the C library's `malloc` returned an address; giving back another one is
-- a fault.
unfoldable pub free : (is_start : ℕ → Bool) → (memory : ℕ) → Pool → Run Pool
unfolding is_initialized is_inside give_back
free is_start memory p =
    if not (is_initialized p) || (memory == 0)
    then done p
    else if is_inside p memory
    then give_back (memory - node_size) p
    else if is_start memory
    then done p
    else fault

-- `memset` of what `malloc` or `realloc` returned.
cleared : (initialize : Bool) → (size : ℕ) → Pool → Option ℕ → Run (Pool × Result ℕ)
unfolding clear or_null
cleared true size p block = clear block size (or_null block) >>= λ t. done (p, ok (or_null block))
cleared false size p none = done (p, err out_of_memory)
cleared false size p (some a) = done (p, ok a)

unfoldable pub realloc :
    (is_start : ℕ → Bool)
    → (malloc reallocated : Option ℕ) → (memory size : ℕ) → (initialize : Bool) → Pool
    → Run (Pool × Result ℕ)
unfolding is_initialized is_inside give_back cleared
realloc is_start malloc reallocated memory size initialize p =
    if not (is_initialized p)
    then done (p, err memory_not_initialized)
    else if memory == 0
    then done (p, err null_argument)
    else if ltb size 1
    then done (p, err argument_not_valid)
    else if is_inside p memory
    then if ltb p.block_size size
      then (give_back (memory - node_size) p >>= λ q. cleared initialize size q malloc)
      else done (p, ok memory)
    else if is_start memory
    then cleared initialize size p reallocated
    else fault
