-- ===== src/Packet/Tests.antt =====
-- Runs of the packet functions, and the theorems on them at concrete inputs.
use gekkota.Base.{◌≡◌, refl, arith, [], ◌∷◌, some, true, false, ok, to_int32, replicate}
use gekkota.Buffer.{Block, Allocator}
use gekkota.Packet
use gekkota.Packet.{Object, shared}
use gekkota.Packet.Laws.{IsInt32, destroy-new_0, new_2-fresh}

-- An allocator whose blocks hold sevens.
abbrev sevens : Allocator
sevens = record {
  alloc = λ n initialize. ok (record { address = 8; bytes = replicate n 7 });
  realloc = λ b n initialize. ok (record { address = 8; bytes = replicate n 7 });
}

abbrev one_two : Block
one_two = record { address = 4; bytes = 1 ∷ 2 ∷ [] }

abbrev packet : Object
packet = record {
  buffer = record { block = some one_two; len = 2 };
  flags = 1;
  reference_count = 1;
}

destroy-new_0_example :
    (Packet.new_0 sevens true (some packet) false
      ≡ (some (record packet { reference_count = 2 }), ok shared))
    × (Packet.destroy (Packet.new_0 sevens true (some packet) false).0
        ≡ (some packet, ok (to_int32 1)))
    × IsInt32 1 (to_int32 1)
destroy-new_0_example = destroy-new_0 sevens true packet (omega arith) (omega arith)

new_2-fresh_example :
    Packet.new_2 sevens true (some (record { block = some one_two; len = 2 })) 1
    ≡ ok (record {
      buffer = record { block = some (record { address = 8; bytes = replicate 2 7 }); len = 2 };
      flags = 1;
      reference_count = 1;
    })
new_2-fresh_example =
    new_2-fresh sevens one_two (record { address = 8; bytes = replicate 2 7 }) 2 1
      (λ h. omega arith) refl
