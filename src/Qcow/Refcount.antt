-- ===== src/Qcow/Refcount.antt =====
-- The reference counts of a refcount block, qcow.c: `get_refcount` and `set_refcount`. The block is the
-- list of its bytes; a count has 2 ^ order bits, and counts of several bytes are big-endian.
mod Fields
mod Bytes
pub mod Laws
use tcmu_runner.Prelude.{
  ℕ, zero, suc, ◌+◌, ◌*◌, ◌-◌, ◌/◌, ◌%◌, ◌^◌, ◌<◌, ◌≤◌, ◌≡◌, ◌≢◌, refl, List, [], ◌∷◌, Option, none,
  some, length, get_or, set, not, ltb, ◌==◌, if◌then◌else◌, arith,
}
use tcmu_runner.Cdb.{byte, get_unaligned_be16, raw_get_unaligned_be32, get_be64}

-- The field of `w` bits at `shift` of a byte: `(b >> shift) & (2 ^ w - 1)`.
unfoldable pub bit_field : ℕ → ℕ → ℕ → ℕ
bit_field b shift w = b / 2 ^ shift % 2 ^ w

-- `b &= ~((2 ^ w - 1) << shift); b |= value << shift`: the bits of the field are taken out and then
-- those of the value put in.
unfoldable pub put_field : ℕ → ℕ → ℕ → ℕ → ℕ
unfolding bit_field
put_field b shift w value = b - bit_field b shift w * 2 ^ shift + value * 2 ^ shift

-- `get_refcount`; `none` is the failed assertion.
unfoldable pub get_refcount : ℕ → List ℕ → ℕ → Option ℕ
unfolding bit_field get_unaligned_be16 raw_get_unaligned_be32 get_be64
get_refcount order block index =
    if order == 0
    then some (bit_field (byte block (index / 8)) (index % 8) 1)
    else if order == 1
    then some (bit_field (byte block (index / 4)) (2 * (index % 4)) 2)
    else if order == 2
    then some (bit_field (byte block (index / 2)) (4 * (index % 2)) 4)
    else if order == 3
    then some (byte block index)
    else if order == 4
    then some (get_unaligned_be16 block (index * 2))
    else if order == 5
    then some (raw_get_unaligned_be32 block (index * 4))
    else if order == 6
    then some (get_be64 block (index * 8))
    else none

-- Bytes written from a place on.
unfoldable pub splice : List ℕ → ℕ → List ℕ → List ℕ
splice block i [] = block
splice block i (b ∷ bs) = splice (set block i b) (suc i) bs

-- `htobe16`, `htobe32` and `htobe64`: the bytes of a number.
unfoldable pub be_bytes : ℕ → ℕ → List ℕ
be_bytes zero v = []
be_bytes (suc n) v = (v / 2 ^ (8 * n) % 256) ∷ be_bytes n v

-- `set_refcount`; `none` is a failed assertion, for a value that does not fit or for no order, and the
-- shift `value >> 64` of order 6, which C leaves undefined for a value of 64 bits.
unfoldable pub set_refcount : ℕ → List ℕ → ℕ → ℕ → Option (List ℕ)
unfolding put_field splice be_bytes
set_refcount order block index value =
    if not (ltb (2 ^ order) 64)
    then none
    else if not (value / 2 ^ (2 ^ order) == 0)
    then none
    else if order == 0
    then some (set block (index / 8) (put_field (byte block (index / 8)) (index % 8) 1 value))
    else if order == 1
    then some (set block (index / 4) (put_field (byte block (index / 4)) (2 * (index % 4)) 2 value))
    else if order == 2
    then some (set block (index / 2) (put_field (byte block (index / 2)) (4 * (index % 2)) 4 value))
    else if order == 3
    then some (set block index value)
    else if order == 4
    then some (splice block (index * 2) (be_bytes 2 value))
    else if order == 5
    then some (splice block (index * 4) (be_bytes 4 value))
    else if order == 6
    then some (splice block (index * 8) (be_bytes 8 value))
    else none
