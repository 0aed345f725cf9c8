-- ===== src/Cdb.antt =====
-- The SCSI command descriptor block: api.c (`tcmu_cdb_get_length`, `tcmu_cdb_get_lba`,
-- `tcmu_cdb_get_xfer_length`) and be_byteshift.h. A CDB is the list of its bytes; `byte` reads 0 past
-- the end, where the C code would read outside the block.
pub mod Bytes
mod Fields
mod Tests
use tcmu_runner.Prelude.{
  ℕ, ◌+◌, ◌*◌, ◌/◌, ◌%◌, ◌^◌, List, [], ◌∷◌, Option, none, some, get_or, ◌==◌, if◌then◌else◌,
}

abbrev pub byte : List ℕ → ℕ → ℕ
byte p i = get_or p i 0

-- `__put_unaligned_be16`: the two bytes that are stored.
unfoldable pub put_unaligned_be16 : ℕ → List ℕ
put_unaligned_be16 val = (val / 2 ^ 8 % 256) ∷ (val % 256) ∷ []

-- `__put_unaligned_be32`, also `htobe32` followed by a copy.
unfoldable pub put_unaligned_be32 : ℕ → List ℕ
put_unaligned_be32 val =
    (val / 2 ^ 24 % 256) ∷ (val / 2 ^ 16 % 256) ∷ (val / 2 ^ 8 % 256) ∷ (val % 256) ∷ []

-- `__get_unaligned_be16`. The shifted bytes share no bit, so `|` adds.
unfoldable pub get_unaligned_be16 : List ℕ → ℕ → ℕ
get_unaligned_be16 p i = byte p i * 2 ^ 8 + byte p (i + 1)

-- `__get_unaligned_be32`, also `be32toh` of the word at `p + i`.
unfoldable pub raw_get_unaligned_be32 : List ℕ → ℕ → ℕ
raw_get_unaligned_be32 p i =
    byte p i * 2 ^ 24 + byte p (i + 1) * 2 ^ 16 + byte p (i + 2) * 2 ^ 8 + byte p (i + 3)

-- `get_unaligned_be32`, whose declared result is a uint16_t.
unfoldable pub get_unaligned_be32 : List ℕ → ℕ → ℕ
get_unaligned_be32 p i = raw_get_unaligned_be32 p i % 2 ^ 16

-- `be64toh` of the word at `p + i`.
unfoldable pub get_be64 : List ℕ → ℕ → ℕ
unfolding raw_get_unaligned_be32
get_be64 p i = raw_get_unaligned_be32 p i * 2 ^ 32 + raw_get_unaligned_be32 p (i + 4)

-- `tcmu_cdb_get_length`; `none` is -EINVAL.
unfoldable pub cdb_get_length : List ℕ → Option ℕ
cdb_get_length cdb =
    let group_code = byte cdb 0 / 2 ^ 5 in
    if group_code == 0
    then some 6
    else if group_code == 1
    then some 10
    else if group_code == 2
    then some 10
    else if group_code == 3
    then (if byte cdb 0 == 0x7f then some (8 + byte cdb 7) else none)
    else if group_code == 4
    then some 16
    else if group_code == 5
    then some 12
    else none

-- The `switch` on the length, with the value that stands behind the failed assertion.
abbrev by_length : Option ℕ → ℕ → ℕ → ℕ → ℕ → ℕ
by_length none six ten twelve sixteen = 0
by_length (some n) six ten twelve sixteen =
    if n == 6
    then six
    else if n == 10
    then ten
    else if n == 12
    then twelve
    else if n == 16
    then sixteen
    else 0

-- `tcmu_cdb_get_lba`. On another length `assert_perror` stops the program; the 0 behind it is what a
-- build without assertions returns.
unfoldable pub cdb_get_lba : List ℕ → ℕ
unfolding get_unaligned_be16 raw_get_unaligned_be32 get_be64 cdb_get_length
cdb_get_lba cdb =
    by_length (cdb_get_length cdb) (byte cdb 1 % 32 * 2 ^ 16 + get_unaligned_be16 cdb 2)
      (raw_get_unaligned_be32 cdb 2) (raw_get_unaligned_be32 cdb 2) (get_be64 cdb 2)

-- `tcmu_cdb_get_xfer_length`, likewise.
unfoldable pub cdb_get_xfer_length : List ℕ → ℕ
unfolding get_unaligned_be16 raw_get_unaligned_be32 cdb_get_length
cdb_get_xfer_length cdb =
    by_length (cdb_get_length cdb) (byte cdb 4) (get_unaligned_be16 cdb 7)
      (raw_get_unaligned_be32 cdb 6) (raw_get_unaligned_be32 cdb 10)
