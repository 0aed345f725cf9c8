-- ===== src/Sense/Tests.antt =====
-- Sense data at concrete values.
use tcmu_runner.Prelude.{replicate, arith}
use tcmu_runner.Sense.{
  raw_sense_set_data, sense_set_data, sense_set_key_specific_info, sense_set_info,
}
use tcmu_runner.Sense.Fields.{Carries, Informs, Specifies, sense_fields_roundtrip}

-- MISCOMPARE at offset 0x12345678.
sense_fields_roundtrip_example :
    Carries (sense_set_data 14 0x1d00) 14 0x1d00
    × (Carries
          (raw_sense_set_data (sense_set_info (replicate 96 0xff) 0x12345678) 14 0x1d00)
          14
          0x1d00
        × Informs
            (raw_sense_set_data (sense_set_info (replicate 96 0xff) 0x12345678) 14 0x1d00)
            0x12345678)
    × Carries
        (raw_sense_set_data (sense_set_key_specific_info (replicate 96 0xff) 100) 14 0x1d00)
        14
        0x1d00
    × Specifies
        (raw_sense_set_data (sense_set_key_specific_info (replicate 96 0xff) 100) 14 0x1d00)
        100
sense_fields_roundtrip_example =
    sense_fields_roundtrip (replicate 96 0xff) 14 0x1d00 0x12345678 100 (omega arith) (omega arith)
      (omega arith) (omega arith)
