-- ===== src/Iovec.antt =====
-- The scatter/gather vectors of api.c: `tcmu_iovec_*`, `tcmu_memcpy_into_iovec`,
-- `tcmu_memcpy_from_iovec`, `tcmu_cmd_seek`.
-- A `struct iovec` is the bytes of its buffer in two parts: those before `iov_base`, and the
-- `iov_len` bytes from there on. To add to `iov_base` is to move bytes from the second part to the
-- first. The buffers of a vector do not overlap. `iovec` and `iov_cnt` are one list.
pub mod Compare
mod Copy
pub mod Seek
pub mod Zero
mod Tests
use tcmu_runner.Prelude.{
  ℕ, zero, suc, ◌+◌, ◌-◌, ◌%◌, ◌^◌, Bool, true, false, ◌&&◌, List, [], ◌∷◌, ◌++◌, Option, none,
  some, length, take, drop, replicate, min, ltb, leb, ◌==◌, if◌then◌else◌,
}

pub record Iovec : Type 0 where
  pub behind : List ℕ
  pub window : List ℕ

abbrev pub iov_len : Iovec → ℕ
iov_len v = length v.window

-- The bytes that a vector still describes, in order.
abbrev pub windows : List Iovec → List ℕ
windows [] = []
windows (v ∷ vs) = v.window ++ windows vs

-- `memcmp(...) == 0` over the first bytes. (Reading past a list's end gives no difference; the callers
-- stay inside.)
unfoldable pub same : ℕ → List ℕ → List ℕ → Bool
same zero s d = true
same (suc n) (x ∷ s) (y ∷ d) = x == y && same n s d
same (suc n) _ _ = true

-- The byte by byte loop that finds the difference.
unfoldable pub mismatch_pos : ℕ → List ℕ → List ℕ → ℕ
mismatch_pos zero s d = 0
mismatch_pos (suc n) (x ∷ s) (y ∷ d) = let r = mismatch_pos n s d in if x == y then suc r else 0
mismatch_pos (suc n) _ _ = 0

-- The loop of `tcmu_iovec_compare` at `mem_off`. The inner option is the result, `none` for -1; the
-- outer `none` says that the loop ran off the vector.
compare_from : List ℕ → ℕ → ℕ → List Iovec → Option (Option ℕ)
compare_from mem mem_off size [] = if size == 0 then some none else none
compare_from mem mem_off size (v ∷ vs) =
    let part = min size (iov_len v) in
    let rest = compare_from mem (mem_off + part) (size - part) vs in
    if size == 0
    then some none
    else if same part (drop mem_off mem) v.window
    then rest
    else some (some (mismatch_pos part (drop mem_off mem) v.window + mem_off))

unfoldable pub iovec_compare : List ℕ → List Iovec → ℕ → Option (Option ℕ)
unfolding compare_from same mismatch_pos
iovec_compare mem iovec size = compare_from mem 0 size iovec

-- `iov_base += count; iov_len -= count`.
abbrev pub advance : ℕ → Iovec → Iovec
advance count v = record { behind = v.behind ++ take count v.window; window = drop count v.window }

-- `tcmu_iovec_seek`: how many vectors were used up, and the vectors. One that is used up has length 0
-- and keeps its base. `none`: the count exceeds the vector.
unfoldable pub iovec_seek : List Iovec → ℕ → Option (ℕ × List Iovec)
iovec_seek [] count = if count == 0 then some (0, []) else none
iovec_seek (v ∷ vs) count =
    let rest = iovec_seek vs (count - iov_len v) in
    if count == 0
    then some (0, v ∷ vs)
    else if leb (iov_len v) count
    then elim rest [
      | none ↦ none
      | some (consumed, vs') ↦ some (suc consumed, record v { window = [] } ∷ vs')
    ]
    else some (0, advance count v ∷ vs)

-- `tcmu_cmd_seek`: the vector of the command still starts where it did, and `iov_cnt` falls by the
-- number of vectors that were used up.
unfoldable pub cmd_seek : List Iovec → ℕ → Option (List Iovec)
unfolding iovec_seek
cmd_seek iovec count = elim (iovec_seek iovec count) [
  | none ↦ none
  | some (consumed, vs) ↦ some (take (length iovec - consumed) vs)
]

-- `tcmu_iovec_length`, a `size_t` sum.
unfoldable pub length_from : ℕ → List Iovec → ℕ
length_from len [] = len
length_from len (v ∷ vs) = length_from ((len + iov_len v) % 2 ^ 64) vs

unfoldable pub iovec_length : List Iovec → ℕ
unfolding length_from
iovec_length iovec = length_from 0 iovec

-- `tcmu_iovec_zero`
unfoldable pub iovec_zero : List Iovec → List Iovec
iovec_zero [] = []
iovec_zero (v ∷ vs) = record v { window = replicate (iov_len v) 0 } ∷ iovec_zero vs

-- `tcmu_zeroed_mem`
unfoldable pub zeroed_mem : List ℕ → Bool
zeroed_mem [] = true
zeroed_mem (b ∷ buf) = b == 0 && zeroed_mem buf

-- `tcmu_iovec_zeroed`
unfoldable pub iovec_zeroed : List Iovec → Bool
unfolding zeroed_mem
iovec_zeroed [] = true
iovec_zeroed (v ∷ vs) = zeroed_mem v.window && iovec_zeroed vs

-- A copy over the front of a window, which it consumes.
abbrev pub fill : List ℕ → Iovec → Iovec
fill bytes v = record { behind = v.behind ++ bytes; window = drop (length bytes) v.window }

-- The loop of `tcmu_memcpy_into_iovec`, with `len` bytes to go.
unfoldable pub into_from : List Iovec → List ℕ → ℕ → ℕ → ℕ × List Iovec
into_from [] src len copied = (copied, [])
into_from (v ∷ vs) src len copied =
    let to_copy = min (iov_len v) len in
    let (n, vs') = into_from vs src (len - to_copy) (copied + to_copy) in
    if len == 0
    then (copied, v ∷ vs)
    else if to_copy == 0
    then (n, v ∷ vs')
    else (n, fill (take to_copy (drop copied src)) v ∷ vs')

unfoldable pub memcpy_into_iovec : List Iovec → List ℕ → ℕ → ℕ × List Iovec
unfolding into_from
memcpy_into_iovec iovec src len = into_from iovec src len 0

-- The loop of `tcmu_memcpy_from_iovec`; `dest` holds the bytes stored through the pointer.
unfoldable pub from_from : List ℕ → ℕ → List Iovec → ℕ → ℕ × List ℕ × List Iovec
from_from dest len [] copied = (copied, dest, [])
from_from dest len (v ∷ vs) copied =
    let to_copy = min (iov_len v) len in
    let (n, dest', vs') =
      from_from (dest ++ take to_copy v.window) (len - to_copy) vs (copied + to_copy) in
    if len == 0
    then (copied, dest, v ∷ vs)
    else if to_copy == 0
    then (n, dest', v ∷ vs')
    else (n, dest', advance to_copy v ∷ vs')

unfoldable pub memcpy_from_iovec : ℕ → List Iovec → ℕ × List ℕ × List Iovec
unfolding from_from
memcpy_from_iovec len iovec = from_from [] len iovec 0
