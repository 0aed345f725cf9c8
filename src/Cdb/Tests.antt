-- ===== src/Cdb/Tests.antt =====
-- Tests of the CDB readers, and the theorems at concrete commands.
use tcmu_runner.Prelude.{ℕ, ◌≡◌, refl, List, [], ◌∷◌, none, some, arith}
use tcmu_runner.Cdb.{cdb_get_length, cdb_get_lba, cdb_get_xfer_length}
use tcmu_runner.Cdb.Fields.{Reads, build, sixteen, cdb_fields_roundtrip}

-- READ (10) of 8 blocks at 258.
abbrev read_10 : List ℕ
read_10 = 0x28 ∷ 0 ∷ 0 ∷ 0 ∷ 1 ∷ 2 ∷ 0 ∷ 0 ∷ 8 ∷ 0 ∷ []

read_10_fields : (cdb_get_lba read_10 ≡ 258) × (cdb_get_xfer_length read_10 ≡ 8)
unfolding cdb_get_lba cdb_get_xfer_length
read_10_fields = (refl, refl)

lengths :
    (cdb_get_length (0x7f ∷ 0 ∷ 0 ∷ 0 ∷ 0 ∷ 0 ∷ 0 ∷ 24 ∷ []) ≡ some 32)
    × (cdb_get_length (0xc1 ∷ []) ≡ none)
unfolding cdb_get_length
lengths = (refl, refl)

cdb_fields_roundtrip_example : Reads (build sixteen 0x88 0x123456789a 4096) 16 0x123456789a 4096
cdb_fields_roundtrip_example =
    cdb_fields_roundtrip sixteen 0x88 0x123456789a 4096
      (omega arith, omega arith, omega arith, omega arith)
