-- ===== src/Xudp/Client/Compression.antt =====
-- The compression step of a client: `_gekkota_xudpclient_deflate`, `_inflate` and `_get_lzf`
-- (src/gekkota/gekkota_xudpclient.c). The compressors that clients share are a store, and a
-- client's `lzf` is a place in it or NULL.
use gekkota.Base.{
  ℕ, List, [], ◌∷◌, ◌++◌, Option, none, some, Bool, Result, ok, err, NetOrder, Run, done, ◌>>=◌,
  found,
}
use gekkota.Base.{get_elem?, set, length, ◌==◌, if◌then◌else◌}
use gekkota.Buffer.{Buffer, Allocator}
use gekkota.Lzf.Api.{
  Lzf, lzf_deflate, lzf_inflate, get_max_deflated_length, get_inflated_length, to_size_t,
}
use gekkota.Lzf.Api
use gekkota.Packet
use gekkota.Packet.{Object}

-- A client as far as compression goes: its level and its compressor.
pub record Compressing : Type 0 where
  pub compression_level : ℕ
  pub lzf : Option ℕ

-- The compressor of the first client that has one and is of the level.
unfoldable pub find_lzf : (level : ℕ) → List Compressing → Option ℕ
find_lzf level [] = none
find_lzf level (c ∷ cs) =
    let rest = find_lzf level cs in
    elim c.lzf [ none ↦ rest | some p ↦ if c.compression_level == level then some p else rest ]

abbrev added : List Lzf → Result Lzf → List Lzf × Result ℕ
added store (ok l) = (store ++ (l ∷ []), ok (length store))
added store (err e) = (store, err e)

get_found : Allocator → (level : ℕ) → List Lzf → Option ℕ → Run (List Lzf × Result ℕ)
unfolding Api.new_0 Api.new_1
get_found m level store none = done (added store (Api.new_1 m level))
get_found m level store (some p) =
    found (get_elem? store p) >>= λ l. done (set store p (Api.new_0 l), ok p)

-- The store with the compressor, which has one reference more or is new, and its place.
unfoldable pub get_lzf :
    Allocator → List Lzf → (clients : List Compressing) → (level : ℕ) → Run (List Lzf × Result ℕ)
unfolding get_found find_lzf
get_lzf m store clients level = get_found m level store (find_lzf level clients)

-- The compressor that the client has, or one for it.
unfoldable pub own_lzf :
    Allocator
    → List Lzf
    → (clients : List Compressing) → Compressing
    → Run (List Lzf × Compressing × Result Lzf)
unfolding get_lzf
own_lzf m store clients c = elim c.lzf [
  | some p ↦ found (get_elem? store p) >>= λ l. done (store, c, ok l)
  | none ↦ get_lzf m store clients c.compression_level >>= λ r. elim r.1 [
    | err e ↦ done (r.0, c, err e)
    | ok p ↦ found (get_elem? r.0 p) >>= λ l. done (r.0, record c { lzf = some p }, ok l)
  ]
]

module _ (m : Allocator) (alloc : Bool) (shr : ℕ → ℕ → ℕ) (net : NetOrder) (l : Lzf) where
  -- The packet's buffer and flags after the compressor; on failure it is destroyed.
  abbrev pub resulting :
      Object → (flags : ℕ) → (len : ℕ → ℕ → ℕ) → Option Buffer × Result ℕ → Result Object
  resulting q flags len (b, err e) = err e
  resulting q flags len (none, ok n) = ok (record q { flags = flags })
  resulting q flags len (some b, ok n) =
      ok (record q { buffer = record b { len = len n b.len }; flags = flags })

  unfoldable pub deflate_to : Object → Result Object → Run (Result Object)
  unfolding lzf_deflate
  deflate_to p (err e) = done (err e)
  deflate_to p (ok q) = lzf_deflate m shr net l (some p.buffer) (some q.buffer) >>= λ r.
      done (resulting q p.flags (λ n len. n) r)

  -- `_gekkota_xudpclient_deflate` behind the compressor: a new packet with the compressed bytes.
  unfoldable pub deflate : Object → Run (Result Object)
  unfolding deflate_to get_max_deflated_length Packet.new
  deflate p =
      deflate_to p (Packet.new m alloc (to_size_t (get_max_deflated_length (some p.buffer))))

  unfoldable pub inflate_to : Object → Result Object → Run (Result Object)
  unfolding lzf_inflate
  inflate_to p (err e) = done (err e)
  inflate_to p (ok q) = lzf_inflate m shr net l (some p.buffer) (some q.buffer) >>= λ r.
      done (resulting q q.flags (λ n len. len) r)

  -- `_gekkota_xudpclient_inflate`, likewise.
  unfoldable pub inflate : Object → Run (Result Object)
  unfolding inflate_to get_inflated_length Packet.new_1
  inflate p = get_inflated_length net (some p.buffer) >>= λ n.
      inflate_to p (Packet.new_1 m alloc (to_size_t n) p.flags)
