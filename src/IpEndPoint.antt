-- ===== src/IpEndPoint.antt =====
-- src/gekkota/gekkota_ipendpoint.c over a store of addresses: a `GekkotaIPAddress *` is a place in
-- the store, which holds none where an address was freed. A new address takes a new place. A
-- function returns the store and the end point that it leaves behind next to its result; a place
-- that holds no address is a fault.
pub mod Laws
mod Tests
use gekkota.Base.{Int32, plus, to_int32}
use gekkota.Base.{
  ℕ, ◌+◌, List, [], ◌∷◌, ◌++◌, Option, none, some, Bool, true, false, Result, ok, err, NetOrder,
  null_argument, out_of_memory, address_family_not_supported, Run, done, fault, ◌>>=◌, found,
}
use gekkota.Base.{
  u16, u32, sub32, get_elem?, set, length, take, replicate, ◌==◌, ◌&&◌, if◌then◌else◌,
}
use gekkota.IpAddress
use gekkota.IpAddress.{Address, Family, family_length, is_inet, made_of}

abbrev pub Store : Type 0
Store = List (Option Address)

pub record IpEndPoint : Type 0 where
  pub address : ℕ
  pub port : ℕ
  pub reference_count : ℕ

-- The address at a place.
abbrev pub address_at : Store → ℕ → Run Address
address_at s p = found (get_elem? s p) >>= found

-- `gekkota_ipaddress_new_0(address, FALSE)` and `gekkota_ipaddress_destroy` at a place.
unfoldable pub retain : Store → (place : ℕ) → Run Store
unfolding IpAddress.new_0
retain s p = address_at s p >>= λ a. done (set s p (IpAddress.new_0 true (some a) false).0)

unfoldable pub release : Store → (place : ℕ) → Run Store
unfolding IpAddress.destroy
release s p = address_at s p >>= λ a. done (set s p (IpAddress.destroy (some a)).0)

-- A new address behind the others, and its place.
unfoldable pub placed_new : Store → Result Address → Store × Result ℕ
placed_new s (ok a) = (s ++ (some a ∷ []), ok (length s))
placed_new s (err e) = (s, err e)

-- The address of the caller, with one more reference, or an unspecified one instead of NULL.
unfoldable pub taken : (alloc : Bool) → Store → Option ℕ → Run (Store × Result ℕ)
unfolding retain placed_new IpAddress.new_2
taken alloc s none = done (placed_new s (IpAddress.new_2 alloc none))
taken alloc s (some p) = retain s p >>= λ t. done (t, ok p)

-- `_gekkota_ipendpoint_new`, and what its callers do when it fails.
unfoldable pub with_address :
    (alloc : Bool) → (port : ℕ) → Store × Result ℕ → Run (Store × Result IpEndPoint)
unfolding release
with_address alloc port (s, err e) = done (s, err e)
with_address true port (s, ok p) =
    done (s, ok (record { address = p; port = port; reference_count = 1 }))
with_address false port (s, ok p) = release s p >>= λ t. done (t, err out_of_memory)

-- The allocations of an address and of an end point may fail.
module _ (o : NetOrder) (alloc_address alloc : Bool) where
  unfoldable pub new : Store → Option ℕ → (port : ℕ) → Run (Store × Result IpEndPoint)
  unfolding taken with_address
  new s address port = taken alloc_address s address >>= with_address alloc (o.hton16 (u16 port))

  -- `gekkota_ipendpoint_new_1`; the family is none where the number is neither's.
  unfoldable pub new_1 : Store → Option Family → (port : ℕ) → Run (Store × Result IpEndPoint)
  unfolding placed_new with_address IpAddress.new_2
  new_1 s none port = done (s, err address_family_not_supported)
  new_1 s (some f) port = with_address alloc (o.hton16 (u16 port)) (
      placed_new s (
        IpAddress.new_2 alloc_address (
          some (record {
            block = some (record { address = 0; bytes = replicate 16 0 });
            len = family_length f;
          }))))

  copied_to :
      Store
      → (port : ℕ) → Option Address × Result IpAddress.Reference
      → Run (Store × Result IpEndPoint)
  unfolding placed_new with_address
  copied_to s port (a, ok (IpAddress.separate b)) = with_address alloc port (placed_new s (ok b))
  copied_to s port (a, ok IpAddress.shared) = fault
  copied_to s port (a, err e) = done (s, err e)

  -- `gekkota_ipendpoint_new_0` with a deep copy.
  unfoldable pub deep_copy : Store → Option IpEndPoint → Run (Store × Result IpEndPoint)
  unfolding copied_to IpAddress.new_0
  deep_copy s none = done (s, err null_argument)
  deep_copy s (some e) = address_at s e.address >>= λ a.
      copied_to s e.port (IpAddress.new_0 alloc_address (some a) true)

-- `gekkota_ipendpoint_new_0` without a copy.
unfoldable pub new_0 : Option IpEndPoint → Option IpEndPoint × Result (Unit {0})
new_0 none = (none, err null_argument)
new_0 (some e) = (some (record e { reference_count = u32 (e.reference_count + 1) }), ok tt)

-- The store, the end point that is left, and the result: 0, or the references that are left.
unfoldable pub destroy : Store → Option IpEndPoint → Run (Store × Option IpEndPoint × Result Int32)
unfolding release to_int32
destroy s none = done (s, none, err null_argument)
destroy s (some e) =
    let n = sub32 e.reference_count 1 in
    if n == 0
    then (release s e.address >>= λ t. done (t, none, ok (plus 0)))
    else done (s, some (record e { reference_count = n }), ok (to_int32 n))

-- What an `Option Address` that is not NULL holds.
copied_address : Store → (place : ℕ) → Option Address × Result (Unit {0}) → Store
copied_address s p (a, r) = set s p a

unfoldable pub copy :
    (same : Bool)
    → Store
    → Option IpEndPoint
    → Option IpEndPoint
    → Run (Store × Option IpEndPoint × Result (Unit {0}))
unfolding copied_address IpAddress.copy
copy same s none v = done (s, none, err null_argument)
copy same s (some e) none = done (s, some e, err null_argument)
copy true s (some e) (some v) = done (s, some e, ok tt)
copy false s (some e) (some v) = address_at s e.address >>= λ a. address_at s v.address >>= λ b.
    done (
      copied_address s e.address (IpAddress.copy (e.address == v.address) (some a) (some b)),
      some (record e { port = v.port }),
      ok tt,
    )

unfoldable pub equals : (same : Bool) → Store → Option IpEndPoint → Option IpEndPoint → Run Bool
unfolding IpAddress.equals
equals true s e v = done true
equals false s none v = done false
equals false s (some e) none = done false
equals false s (some e) (some v) =
    if e.port == v.port
    then (address_at s e.address >>= λ a. address_at s v.address >>= λ b.
        done (IpAddress.equals (e.address == v.address) (some a) (some b)))
    else done false

unfoldable pub get_address : Option IpEndPoint → Result ℕ
get_address none = err null_argument
get_address (some e) = ok e.address

replaced : IpEndPoint → Store × Result ℕ → Run (Store × Option IpEndPoint × Result (Unit {0}))
unfolding release
replaced e (s, err x) = done (s, some e, err x)
replaced e (s, ok p) = release s e.address >>= λ t. done (t, some (record e { address = p }), ok tt)

abbrev is_address : IpEndPoint → Option ℕ → Bool
is_address e none = false
is_address e (some p) = p == e.address

unfoldable pub set_address :
    (alloc_address : Bool)
    → Store
    → Option IpEndPoint
    → Option ℕ
    → Run (Store × Option IpEndPoint × Result (Unit {0}))
unfolding taken replaced
set_address alloc_address s none address = done (s, none, err null_argument)
set_address alloc_address s (some e) address =
    let other = taken alloc_address s address >>= replaced e in
    if is_address e address then done (s, some e, ok tt) else other

-- `GekkotaSocketAddress`; an address of IPv4 has no scope.
pub record SocketAddress : Type 0 where
  pub family : Family
  pub port : ℕ
  pub address_bytes : List ℕ
  pub scope_id : ℕ

module _ (o : NetOrder) where
  unfoldable pub get_port : Option IpEndPoint → Result ℕ
  get_port none = err null_argument
  get_port (some e) = ok (o.ntoh16 e.port)

  unfoldable pub set_port : Option IpEndPoint → (port : ℕ) → Option IpEndPoint × Result (Unit {0})
  set_port none port = (none, err null_argument)
  set_port (some e) port = (some (record e { port = o.hton16 (u16 port) }), ok tt)

  socket_address : IpEndPoint → Address → SocketAddress
  socket_address e a = record {
    family = a.family;
    port = e.port;
    address_bytes = take (family_length a.family) a.bytes;
    scope_id = if is_inet a.family then 0 else a.scope_id;
  }

  unfoldable pub to_socketaddress : Store → Option IpEndPoint → Run (Result SocketAddress)
  unfolding socket_address
  to_socketaddress s none = done (err null_argument)
  to_socketaddress s (some e) = address_at s e.address >>= λ a. done (ok (socket_address e a))

abbrev with_scope : SocketAddress → Result Address → Result Address
with_scope k (err e) = err e
with_scope k (ok a) = ok (if is_inet k.family then a else record a { scope_id = k.scope_id })

-- `gekkota_ipendpoint_new_2` on a socket address of one of the two families.
unfoldable pub new_2 :
    (alloc_address alloc : Bool) → Store → Option SocketAddress → Run (Store × Result IpEndPoint)
unfolding placed_new with_address IpAddress.new_2
new_2 alloc_address alloc s none = done (s, err null_argument)
new_2 alloc_address alloc s (some k) = with_address alloc k.port (
    placed_new s (
      with_scope k (
        IpAddress.new_2 alloc_address (
          some (record {
            block = some (record { address = 0; bytes = k.address_bytes });
            len = family_length k.family;
          })))))
