-- ===== src/Cdb/Fields.antt =====
-- The fields of a CDB: what each command format holds, and the ranges of what is read.
use tcmu_runner.Prelude.{ℕ, ◌/◌, ◌%◌, ◌^◌, ◌≤◌, ◌<◌, ◌≡◌, List, [], ◌∷◌, ◌++◌, some, arith}
use tcmu_runner.Cdb.{
  cdb_get_length, cdb_get_lba, cdb_get_xfer_length, put_unaligned_be16, put_unaligned_be32,
}

-- The formats of SPC-4 for commands with an LBA and a transfer length, as a client builds them.
abbrev pub cdb_6 : ℕ → ℕ → ℕ → List ℕ
cdb_6 op lba len = op ∷ (lba / 2 ^ 16) ∷ (lba / 2 ^ 8 % 256) ∷ (lba % 256) ∷ len ∷ 0 ∷ []

abbrev pub cdb_10 : ℕ → ℕ → ℕ → List ℕ
unfolding put_unaligned_be16 put_unaligned_be32
cdb_10 op lba len = op ∷ 0 ∷ (put_unaligned_be32 lba ++ (0 ∷ (put_unaligned_be16 len ++ (0 ∷ []))))

abbrev pub cdb_12 : ℕ → ℕ → ℕ → List ℕ
unfolding put_unaligned_be32
cdb_12 op lba len = op ∷ 0 ∷ (put_unaligned_be32 lba ++ (put_unaligned_be32 len ++ (0 ∷ 0 ∷ [])))

abbrev pub cdb_16 : ℕ → ℕ → ℕ → List ℕ
unfolding put_unaligned_be32
cdb_16 op lba len =
    op
    ∷ 0
    ∷ (put_unaligned_be32 (lba / 2 ^ 32)
        ++ (put_unaligned_be32 lba ++ (put_unaligned_be32 len ++ (0 ∷ 0 ∷ []))))

-- What a reader of the CDB gets: length, LBA and transfer length.
abbrev pub Reads : List ℕ → ℕ → ℕ → ℕ → Type 0
Reads cdb n lba len =
    (cdb_get_length cdb ≡ some n) × (cdb_get_lba cdb ≡ lba) × (cdb_get_xfer_length cdb ≡ len)

-- The formats by the length of their CDB.
pub data Format : Type 0 where
  six ten twelve sixteen : Format

abbrev pub size : Format → ℕ
size six = 6
size ten = 10
size twelve = 12
size sixteen = 16

abbrev pub build : Format → ℕ → ℕ → ℕ → List ℕ
build six = cdb_6
build ten = cdb_10
build twelve = cdb_12
build sixteen = cdb_16

-- The operation codes of a format's group, and the values that its fields can hold.
abbrev pub Fits : Format → ℕ → ℕ → ℕ → Type 0
Fits six op lba len = (op < 0x20) × (lba < 2 ^ 21) × (len < 2 ^ 8)
Fits ten op lba len = (0x20 ≤ op) × (op < 0x60) × (lba < 2 ^ 32) × (len < 2 ^ 16)
Fits twelve op lba len = (0xa0 ≤ op) × (op < 0xc0) × (lba < 2 ^ 32) × (len < 2 ^ 32)
Fits sixteen op lba len = (0x80 ≤ op) × (op < 0xa0) × (lba < 2 ^ 64) × (len < 2 ^ 32)

-- A CDB that is built in one of the four formats, with an operation code of the format's group and an
-- LBA and transfer length that fit its fields, is read back: `tcmu_cdb_get_length` gives the size of
-- the format, `tcmu_cdb_get_lba` the LBA and `tcmu_cdb_get_xfer_length` the transfer length.
pub cdb_fields_roundtrip :
    (f : Format) (op lba len : ℕ) → Fits f op lba len → Reads (build f op lba len) (size f) lba len
unfolding cdb_get_length cdb_get_lba cdb_get_xfer_length put_unaligned_be16 put_unaligned_be32
cdb_fields_roundtrip six op lba len h = (ground arith, ground arith, ground arith)
cdb_fields_roundtrip ten op lba len h = (ground arith, ground arith, ground arith)
cdb_fields_roundtrip twelve op lba len h = (ground arith, ground arith, ground arith)
cdb_fields_roundtrip sixteen op lba len h = (ground arith, ground arith, ground arith)
