-- ===== src/Lzf.antt =====
-- The compressor of src/gekkota/gekkota_lzf.c: its constants and the accesses to the two buffers.
pub mod Buffers
pub mod Inflate
pub mod Deflate
pub mod Format
pub mod Decode
pub mod Copies
pub mod Matches
pub mod Encode
pub mod Steps
pub mod RoundTrip
pub mod Api
pub mod Session
pub mod Overflow
mod Tests
use gekkota.Base.{ℕ}

abbrev pub max_literal : ℕ
max_literal = 32

abbrev pub max_offset : ℕ
max_offset = 8192

abbrev pub max_reference : ℕ
max_reference = 264

-- sizeof(size_t), on the 64-bit machines that the model takes.
abbrev pub size_t_size : ℕ
size_t_size = 8
