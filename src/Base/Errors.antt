-- ===== src/Base/Errors.antt =====
-- `errno` values that the modelled functions set (src/gekkota/gekkota_errors.h), and results.

pub data Error : Type 0 where
  address_family_not_supported argument_not_valid buffer_too_small buffer_overflow
        client_not_connected :
      Error
  max_client_reached message_corrupted multicast_group_already_joined null_argument : Error
  lib_not_initialized null_buffer : Error
  memory_already_initialized memory_not_initialized : Error
  operation_not_supported operation_not_valid out_of_memory zero_length_buffer : Error

-- The value of a function that succeeds, or the `errno` of one that fails.
pub data Result {ℓ} (A : Type ℓ) : Type ℓ where
  ok : A → Result A
  err : Error → Result A
