-- ===== src/Buffer.antt =====
-- src/gekkota/gekkota_buffer.c. A memory block is its address and its bytes; a `GekkotaBuffer *`
-- is an `Option Buffer`, with `none` for NULL. A function returns the buffer that it leaves behind
-- and its result.
pub mod Laws
mod Tests
use gekkota.Base.{ℕ, List, [], ◌∷◌, ◌++◌, Option, none, some, Bool, true, false, Result, ok, err}
use gekkota.Base.{Error, null_argument, null_buffer, zero_length_buffer, buffer_overflow, length}
use gekkota.Base.{take, drop, replicate, ltb, ◌==◌, ◌||◌, not, if◌then◌else◌, same_list}

pub record Block : Type 0 where
  pub address : ℕ
  pub bytes : List ℕ

pub record Buffer : Type 0 where
  pub block : Option Block
  pub len : ℕ

-- What `gekkota_memory_alloc` and `gekkota_memory_realloc` return.
pub record Allocator : Type 0 where
  pub alloc : ℕ → Bool → Result Block
  pub realloc : Option Block → ℕ → Bool → Result Block

-- The first bytes of a block overwritten.
abbrev pub overwrite : List ℕ → Block → Block
overwrite bytes b = record b { bytes = bytes ++ drop (length bytes) b.bytes }

module _ (m : Allocator) where
  -- `buffer->data` is NULL after a failed allocation, and the length is as before.
  malloc_into : Buffer → ℕ → Result Block → Buffer × Result (Unit {0})
  malloc_into b size (ok block) = (record { block = some block; len = size }, ok tt)
  malloc_into b size (err e) = (record b { block = none }, err e)

  unfoldable pub malloc : Option Buffer → ℕ → Bool → Option Buffer × Result (Unit {0})
  unfolding malloc_into
  malloc none size initialize = (none, err null_argument)
  malloc (some b) size initialize =
      let r = malloc_into b size (m.alloc size initialize) in (some r.0, r.1)

  resize_into : Buffer → ℕ → Result Block → Buffer × Result (Unit {0})
  resize_into b size (ok block) = (record { block = some block; len = size }, ok tt)
  resize_into b size (err e) = (b, err e)

  unfoldable pub resize : Option Buffer → ℕ → Bool → Option Buffer × Result (Unit {0})
  unfolding resize_into
  resize none size initialize = (none, err null_argument)
  resize (some b) size initialize =
      let r = resize_into b size (m.realloc b.block size initialize) in (some r.0, r.1)

-- `gekkota_buffer_free`; giving the block back is left to the allocator.
unfoldable pub free : Option Buffer → Option Buffer × Result (Unit {0})
free none = (none, err null_argument)
free (some b) = (some (record { block = none; len = 0 }), ok tt)

-- The part of `gekkota_buffer_copy` behind the tests for NULL.
unfoldable pub copy_block : Buffer → Block → Buffer → Block → Buffer × Result (Unit {0})
copy_block b to v from =
    if (b.len == 0) || not (v.len == 0)
    then (b, err zero_length_buffer)
    else if ltb b.len v.len
    then (b, err buffer_overflow)
    else (record b { block = some (overwrite (take v.len from.bytes) to) }, ok tt)

copy_data : Buffer → Option Block → Buffer → Option Block → Buffer × Result (Unit {0})
copy_data b (some to) v (some from) = copy_block b to v from
copy_data b to v from = (b, err null_buffer)

unfoldable pub copy : Option Buffer → Option Buffer → Option Buffer × Result (Unit {0})
unfolding copy_data copy_block
copy none v = (none, err null_argument)
copy (some b) none = (some b, err null_argument)
copy (some b) (some v) = let r = copy_data b b.block v v.block in (some r.0, r.1)

-- `memcmp(a, b, n) == 0`.
unfoldable pub equal_bytes : ℕ → Block → Block → Bool
equal_bytes n a b = same_list (take n a.bytes) (take n b.bytes)

equals_data : Option Block → Option Block → ℕ → ℕ → Bool
unfolding equal_bytes
equals_data none none n k = true
equals_data none (some b) n k = false
equals_data (some a) none n k = false
equals_data (some a) (some b) n k =
    if a.address == b.address then true else if n == k then equal_bytes n a b else false

-- Two pointers to one buffer have the same block, so the first test of `gekkota_buffer_equals`
-- decides only that NULL equals NULL.
unfoldable pub equals : Option Buffer → Option Buffer → Bool
unfolding equals_data
equals none none = true
equals none (some v) = false
equals (some b) none = false
equals (some b) (some v) = equals_data b.block v.block b.len v.len

-- `memset` on NULL is left undefined by C.
clear_data : Option Block → ℕ → Option Block
clear_data none n = none
clear_data (some a) n = some (overwrite (replicate n 0) a)

unfoldable pub clear : Option Buffer → Option Buffer × Result (Unit {0})
unfolding clear_data
clear none = (none, err null_argument)
clear (some b) = (some (record b { block = clear_data b.block b.len }), ok tt)
