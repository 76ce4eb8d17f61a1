-- ===== src/Lzf/Buffers.antt =====
-- How the loops of src/gekkota/gekkota_lzf.c access their buffers. The output buffer of `room`
-- bytes is the list of the bytes written so far, since `deflatedData[j++] = x` and
-- `inflatedData[j++] = x` are the only writes: `j` is its length.
use gekkota.Base.{ℕ, zero, suc, ◌+◌, ◌<◌, ◌≡◌, List, [], ◌∷◌, ◌++◌}
use gekkota.Base.{Run, done, fault, ◌>>=◌, found, length, get_elem?, get_or, ltb, if◌then◌else◌}
use gekkota.Base.{lt→ltb, get_elem?-eq-get_or}

-- `data[k]`.
abbrev pub peek : List ℕ → ℕ → Run ℕ
peek data' k = found (get_elem? data' k)

-- `data[j++] = x`.
unfoldable pub put : ℕ → ℕ → List ℕ → Run (List ℕ)
put room x out = if ltb (length out) room then done (out ++ (x ∷ [])) else fault

-- `do { out[j++] = data[k++]; } while (--n != 0)`, for `n` rounds.
unfoldable pub copy : ℕ → ℕ → List ℕ → ℕ → List ℕ → Run (List ℕ)
copy room zero src k out = done out
copy room (suc n) src k out = do x ← peek src k; out' ← put room x out; copy room n src (k + 1) out'

pub put_lem :
    (room x : ℕ) (out : List ℕ) → length out < room → put room x out ≡ done (out ++ (x ∷ []))
unfolding put
put_lem room x out h = rw (lt→ltb _ _ h)

pub peek_lem : (src : List ℕ) (k : ℕ) → k < length src → peek src k ≡ done (get_or src k 0)
peek_lem src k h = rw (get_elem?-eq-get_or src k 0 h)
