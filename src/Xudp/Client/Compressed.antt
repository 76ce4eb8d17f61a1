-- ===== src/Xudp/Client/Compressed.antt =====
-- `_gekkota_xudpclient_deflate` and `_gekkota_xudpclient_inflate` together
-- (src/gekkota/gekkota_xudpclient.c).
use gekkota.Base.{
  ℕ, ◌+◌, ◌*◌, ◌/◌, ◌≤◌, ◌≡◌, refl, ◌∙◌, ap, arith, ◌++◌, some, true, false, ok, done, NetOrder,
}
use gekkota.Base.{buffer_too_small, buffer_overflow, append_assoc}
use gekkota.Base.{length, length-append, drop, lt→ltb, ne→==_false}
use gekkota.Buffer
use gekkota.Buffer.{Block, Allocator, overwrite}
use gekkota.Lzf.Api.{Lzf}
use gekkota.Lzf.Deflate.{trailer}
use gekkota.Lzf.RoundTrip.{deflate_data_lem}
use gekkota.Lzf.Session.{
  in_block, prepare-block, need_lem, deflated, inflated, get_inflated_length-trailer,
}
use gekkota.Lzf.Format.{length-Stream_pos}
use gekkota.Packet
use gekkota.Packet.{Object}
use gekkota.Xudp.Client.Compression.{deflate, inflate, deflate_to, inflate_to}

-- A packet with one reference.
abbrev pub packet_of : Block → (flags : ℕ) → Object
packet_of b flags = record { buffer = in_block b; flags = flags; reference_count = 1 }

new_lem :
    (m : Allocator) (n : ℕ) (b : Block)
    → 1 ≤ n
    → m.alloc n false ≡ ok b
    → Packet.new m true n
      ≡ ok (record { buffer = record { block = some b; len = n }; flags = 0; reference_count = 1 })
unfolding Packet.new Buffer.malloc
new_lem m n b some_byte allocated = rw (ne→==_false n 0 (λ e. omega arith), allocated) refl

-- When the allocations of the packets and of the bytes succeed, a packet of 2 to 159 bytes is
-- compressed to a packet with the same flags, and decompressing that gives a packet with the bytes
-- and the flags of the first; both have one reference.
pub inflate-deflate_packet :
    (m : Allocator) (shr : ℕ → ℕ → ℕ) (net : NetOrder) (l : Lzf) (source first second : Block)
    (flags : ℕ)
    → 2 ≤ length source.bytes
    → length source.bytes ≤ 159
    → length second.bytes ≡ length source.bytes
    → m.alloc ((length source.bytes * 1001 + 999) / 1000 + 12) false ≡ ok first
    → m.alloc (length source.bytes) false ≡ ok second
    → (q : Object) × (deflate m true shr net l (packet_of source flags) ≡ done (ok q))
      × (q.flags ≡ flags)
      × (q.reference_count ≡ 1)
      × (inflate m true shr net l q
          ≡ done (ok (packet_of (record second { bytes = source.bytes }) flags)))
unfolding deflate inflate deflate_to inflate_to Packet.new_1
inflate-deflate_packet m shr net l source first second flags two short same first_alloc
      second_alloc =
    let n = length source.bytes in
    let big = (n * 1001 + 999) / 1000 + 12 in
    let (stream, rounds, s, returns, small) =
      deflate_data_lem shr l.compression_level big source.bytes (omega arith) net two
        (omega arith) in
    let out = stream ++ trailer net n in
    let count : length out ≡ length stream + 8 = length-append stream (trailer net n) in
    let read =
      get_inflated_length-trailer net stream _ (drop (length out) first.bytes) n first.address
        (omega arith) (length-Stream_pos s (omega arith))
        (append_assoc stream (trailer net n) (drop (length out) first.bytes)) in
    let packed : deflate m true shr net l (packet_of source flags)
        ≡ done (
            ok (record {
              buffer = record { block = some (overwrite out first); len = length out };
              flags = flags;
              reference_count = 1;
            })) =
      rw
        (
          need_lem m shr net l source first second two short same,
          new_lem m big first (omega arith) first_alloc,
          deflated m shr net l source first second two short same
              (record { block = some first; len = big }) out (ne→==_false big 0 (λ e. omega arith))
              (prepare-block m buffer_too_small big first) returns,
        )
        refl in
    (
      record {
        buffer = record { block = some (overwrite out first); len = length stream + 8 };
        flags = flags;
        reference_count = 1;
      },
      packed
          ∙ ap
              (λ k. done (
                ok (record {
                  buffer = record { block = some (overwrite out first); len = k };
                  flags = flags;
                  reference_count = 1;
                })))
              count,
      refl,
      refl,
      rw
          (
            read,
            lt→ltb n 2147483648 (omega arith),
            new_lem m n second (omega arith) second_alloc,
            inflated m shr net l source first second two short same
                (record { block = some second; len = n }) stream (drop (length out) first.bytes)
                rounds first.address s (omega (arith, small)) (ne→==_false n 0 (λ e. omega arith))
                (prepare-block m buffer_overflow n second),
          )
          refl,
    )
