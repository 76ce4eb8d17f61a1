-- ===== src/Intrusive.antt =====
-- src/gekkota/gekkota_list.c and gekkota_list.h: lists whose nodes are in their elements. The store
-- has the links of all nodes by their addresses; the address 0 is NULL, and to follow it is a
-- fault. A list is the address of its sentinel.
pub mod Rings
pub mod Inserts
pub mod Removes
pub mod Counts
mod Tests
use gekkota.Base.{
  ℕ, zero, suc, ◌+◌, Bool, true, false, Result, ok, err, null_argument, operation_not_valid,
}
use gekkota.Base.{Run, done, fault, stuck, ◌>>=◌, ◌==◌, ◌||◌, not, if◌then◌else◌}

pub record Links : Type 0 where
  pub next : ℕ → ℕ
  pub previous : ℕ → ℕ

abbrev pub updated : (ℕ → ℕ) → (address value : ℕ) → ℕ → ℕ
updated f address value i = if i == address then value else f i

-- Assignments through a pointer.
abbrev pub set_next : Links → (address value : ℕ) → Run Links
set_next h address value =
    if address == 0 then fault else done (record h { next = updated h.next address value })

abbrev pub set_previous : Links → (address value : ℕ) → Run Links
set_previous h address value =
    if address == 0 then fault else done (record h { previous = updated h.previous address value })

-- The assignments of `gekkota_list_insert`, in order.
unfoldable pub link : Links → (iterator element : ℕ) → Run Links
link h iterator element = set_previous h element (h.previous iterator) >>= λ a.
    (set_next a element iterator >>= λ b.
    (set_next b (b.previous element) element >>= λ c. set_previous c iterator element))

-- The element on success.
unfoldable pub insert : Links → (iterator element : ℕ) → Run (Links × Result ℕ)
unfolding link
insert h iterator element =
    if (iterator == 0) || (element == 0)
    then done (h, err null_argument)
    else if not (h.previous element == 0) || not (h.next element == 0)
    then done (h, err operation_not_valid)
    else (link h iterator element >>= λ h'. done (h', ok element))

-- The assignments of `gekkota_list_remove`, in order.
unfoldable pub unlink : Links → (iterator : ℕ) → Run Links
unlink h iterator = set_next h (h.previous iterator) (h.next iterator) >>= λ a.
    (set_previous a (a.next iterator) (a.previous iterator) >>= λ b.
    (set_next b iterator 0 >>= λ c. set_previous c iterator 0))

unfoldable pub remove : Links → (iterator : ℕ) → Run (Links × Result ℕ)
unfolding unlink
remove h iterator =
    if iterator == 0
    then done (h, err null_argument)
    else (unlink h iterator >>= λ h'. done (h', ok iterator))

-- `gekkota_list_clear`.
unfoldable pub clear : Links → (list : ℕ) → Links
clear h list = record { next = updated h.next list list; previous = updated h.previous list list }

unfoldable pub add : Links → (list element : ℕ) → Run (Links × Result ℕ)
unfolding insert
add h list element = insert h list element

unfoldable pub list_is_empty : Links → (list : ℕ) → Bool
list_is_empty h list = h.next list == list

-- The loop of `gekkota_list_get_count`, on fuel.
unfoldable pub count_from : Links → (list : ℕ) → (fuel iterator count : ℕ) → Run ℕ
count_from h list zero iterator count = stuck
count_from h list (suc fuel) iterator count =
    let rest = count_from h list fuel (h.next iterator) (count + 1) in
    if iterator == list then done count else rest

unfoldable pub get_count : Links → (list fuel : ℕ) → Run (Result ℕ)
unfolding count_from
get_count h list fuel =
    if list == 0
    then done (err null_argument)
    else (count_from h list fuel (h.next list) 0 >>= λ n. done (ok n))
