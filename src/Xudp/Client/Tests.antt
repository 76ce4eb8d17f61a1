-- ===== src/Xudp/Client/Tests.antt =====
-- The theorem on compressed packets at a concrete input.
use gekkota.Base.{ℕ, ◌≡◌, ◌%◌, ◌^◌, ◌/◌, refl, arith, ok, true, done, replicate, little_endian}
use gekkota.Buffer.{Block, Allocator}
use gekkota.Lzf.Api.{Lzf}
use gekkota.Packet.{Object}
use gekkota.Xudp.Client.Compression.{deflate, inflate}
use gekkota.Xudp.Client.Compressed.{packet_of, inflate-deflate_packet}

abbrev shift : ℕ → ℕ → ℕ
shift x n = x / 2 ^ (n % 32)

abbrev blocks : Allocator
blocks = record {
  alloc = λ n initialize. ok (record { address = 4096; bytes = replicate n 0 });
  realloc = λ b n initialize. ok (record { address = 4096; bytes = replicate n 0 });
}

abbrev compressor : Lzf
compressor = record { compression_level = 13; table_length = 32768; ref_count = 1 }

abbrev sevens : Block
sevens = record { address = 64; bytes = replicate 20 7 }

inflate-deflate_packet_example :
    (q : Object) × (deflate blocks true shift little_endian compressor (packet_of sevens 5)
      ≡ done (ok q))
    × (q.flags ≡ 5)
    × (q.reference_count ≡ 1)
    × (inflate blocks true shift little_endian compressor q
        ≡ done (ok (packet_of (record { address = 4096; bytes = replicate 20 7 }) 5)))
inflate-deflate_packet_example =
    inflate-deflate_packet blocks shift little_endian compressor sevens
      (record { address = 4096; bytes = replicate 33 0 })
      (record { address = 4096; bytes = replicate 20 0 }) 5 (omega arith) (omega arith) refl refl
      refl
