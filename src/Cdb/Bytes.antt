-- ===== src/Cdb/Bytes.antt =====
-- Big-endian words of be_byteshift.h: reading back what was stored.
use tcmu_runner.Prelude.{ℕ, ◌%◌, ◌^◌, ◌<◌, ◌≡◌, List, ◌++◌, arith}
use tcmu_runner.Cdb.{
  put_unaligned_be16, put_unaligned_be32, get_unaligned_be16, raw_get_unaligned_be32,
  get_unaligned_be32,
}

pub get-put-be16 :
    (v : ℕ) (rest : List ℕ) → v < 2 ^ 16 → get_unaligned_be16 (put_unaligned_be16 v ++ rest) 0 ≡ v
unfolding get_unaligned_be16 put_unaligned_be16
get-put-be16 v rest h = omega arith

pub get-put-be32 :
    (v : ℕ) (rest : List ℕ)
    → v < 2 ^ 32
    → raw_get_unaligned_be32 (put_unaligned_be32 v ++ rest) 0 ≡ v
unfolding raw_get_unaligned_be32 put_unaligned_be32
get-put-be32 v rest h = omega arith

-- A 32-bit value that is stored with `put_unaligned_be32` comes back from `get_unaligned_be32`
-- reduced modulo 2 ^ 16: the reader's result type drops the upper half.
pub get_unaligned_be32_truncates :
    (v : ℕ) (rest : List ℕ)
    → v < 2 ^ 32
    → get_unaligned_be32 (put_unaligned_be32 v ++ rest) 0 ≡ v % 2 ^ 16
unfolding get_unaligned_be32 raw_get_unaligned_be32 put_unaligned_be32
get_unaligned_be32_truncates v rest h = omega arith
