-- ===== src/Intrusive/Counts.antt =====
-- `gekkota_list_get_count` (src/gekkota/gekkota_list.c) on rings.
use gekkota.Base.{ℕ, suc, ◌+◌, ◌≡◌, sym, ap, ◌∙◌, arith, List, [], ◌∷◌, length, ok, done, ◌>>=◌}
use gekkota.Base.{true, false, ◌==◌}
use gekkota.Intrusive.{Links, count_from, get_count, list_is_empty}
use gekkota.Intrusive.Rings.{IsFresh, AreDistinct, IsChain, IsRing}
use gekkota.Intrusive.Inserts.{ne→==_false}

count_from-IsChain :
    (h : Links) (s a : ℕ) (xs : List ℕ) (count : ℕ)
    → IsChain h a xs s
    → IsFresh s xs
    → count_from h s (suc (length xs)) (h.next a) count ≡ done (count + length xs)
unfolding count_from IsChain IsFresh
count_from-IsChain h s a [] count (n, q) fresh =
    let last : (h.next a == s) ≡ true = ground arith in
    let none_left : count ≡ count + 0 = omega arith in rw (last) (ap done none_left)
count_from-IsChain h s a (x ∷ xs) count (n, q, chain) (ne, fresh) =
    let more : (h.next a == s) ≡ false = ne→==_false (h.next a) s (λ same. ne (sym same ∙ n)) in
    let shifted : (count + 1) + length xs ≡ count + suc (length xs) = omega arith in
    rw (more) (
      ap (λ i. count_from h s (suc (length xs)) (h.next i) (count + 1)) n
      ∙ count_from-IsChain h s x xs (count + 1) chain fresh
      ∙ ap done shifted)

-- With fuel for one round more than a list has elements, counting them gives their number, and the
-- list is empty exactly when there are none.
pub get_count-length :
    (h : Links) (s : ℕ) (xs : List ℕ)
    → IsRing h s xs
    → (get_count h s (suc (length xs)) ≡ done (ok (length xs)))
      × (list_is_empty h s ≡ (length xs == 0))
unfolding get_count IsRing AreDistinct IsFresh list_is_empty IsChain
get_count-length h s xs (chain, ((zs, zero_fresh), (fresh, distinct))) =
    let there : (s == 0) ≡ false = ne→==_false s 0 (λ same. zs (sym same)) in
    let zero_plus : 0 + length xs ≡ length xs = omega arith in
    let counted : count_from h s (suc (length xs)) (h.next s) 0 ≡ done (length xs) =
      count_from-IsChain h s s xs 0 chain fresh ∙ ap done zero_plus in
    (rw (there) (ap (λ r. r >>= λ n. done (ok n)) counted), by_list xs chain fresh)
  where
    by_list : (xs : List ℕ) → IsChain h s xs s → IsFresh s xs → (h.next s == s) ≡ (length xs == 0)
    by_list [] (n, q) f = ground arith
    by_list (x ∷ xs) (n, q, c) (ne, f) = ground arith
