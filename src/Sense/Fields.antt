-- ===== src/Sense/Fields.antt =====
-- What a reader of fixed-format sense data finds, by SPC-4.
use tcmu_runner.Prelude.{ℕ, ◌+◌, ◌*◌, ◌/◌, ◌%◌, ◌^◌, ◌<◌, ◌≡◌, refl, List, arith}
use tcmu_runner.Cdb.{byte}
use tcmu_runner.Sense.{
  raw_sense_set_data, sense_set_data, sense_set_key_specific_info, sense_set_info,
}

-- The response code of current errors in the fixed format, the sense key, and the additional sense
-- code with its qualifier, in a buffer whose additional length covers them.
abbrev pub Carries : List ℕ → ℕ → ℕ → Type 0
Carries buf key asc_ascq =
    (byte buf 0 % 2 ^ 7 ≡ 0x70)
    × (byte buf 2 % 2 ^ 4 ≡ key)
    × (byte buf 7 ≡ 10)
    × (byte buf 12 * 2 ^ 8 + byte buf 13 ≡ asc_ascq)

-- The INFORMATION field and its VALID bit.
abbrev pub Informs : List ℕ → ℕ → Type 0
Informs buf info =
    (byte buf 0 / 2 ^ 7 ≡ 1)
    × (byte buf 3 * 2 ^ 24 + byte buf 4 * 2 ^ 16 + byte buf 5 * 2 ^ 8 + byte buf 6 ≡ info)

-- The field for the sense key and its SKSV bit.
abbrev pub Specifies : List ℕ → ℕ → Type 0
Specifies buf info = (byte buf 15 / 2 ^ 7 ≡ 1) × (byte buf 16 * 2 ^ 8 + byte buf 17 ≡ info)

-- With a 4-bit key and a 16-bit code: after `tcmu_sense_set_data` a reader finds the key and the code;
-- after `tcmu_sense_set_info` with a 32-bit value and then `__tcmu_sense_set_data`, these and the value,
-- marked valid; after `tcmu_sense_set_key_specific_info` with a 16-bit value and then
-- `__tcmu_sense_set_data`, these and the value that goes with the key, marked valid.
pub sense_fields_roundtrip :
    (buf : List ℕ) (key asc_ascq info specific : ℕ)
    → key < 2 ^ 4
    → asc_ascq < 2 ^ 16
    → info < 2 ^ 32
    → specific < 2 ^ 16
    → Carries (sense_set_data key asc_ascq) key asc_ascq
      × (Carries (raw_sense_set_data (sense_set_info buf info) key asc_ascq) key asc_ascq
          × Informs (raw_sense_set_data (sense_set_info buf info) key asc_ascq) info)
      × Carries
          (raw_sense_set_data (sense_set_key_specific_info buf specific) key asc_ascq)
          key
          asc_ascq
      × Specifies
          (raw_sense_set_data (sense_set_key_specific_info buf specific) key asc_ascq)
          specific
unfolding raw_sense_set_data sense_set_data sense_set_key_specific_info sense_set_info
sense_fields_roundtrip buf key asc_ascq info specific k a i s = (
  (refl, omega arith, refl, omega arith),
  ((omega arith, omega arith, refl, omega arith), (omega arith, omega arith)),
  (omega arith, omega arith, refl, omega arith),
  (omega arith, omega arith),
)
