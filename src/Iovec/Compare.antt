-- ===== src/Iovec/Compare.antt =====
-- `tcmu_iovec_compare` against the first index at which two byte strings differ.
use tcmu_runner.Prelude.{
  ℕ, zero, suc, ◌+◌, ◌-◌, ◌≤◌, ◌<◌, ◌≡◌, ◌≢◌, refl, ap, ◌∙◌, List, [], ◌∷◌, ◌++◌, Option, none,
  some, length, take, drop, drop-drop, get_or, min, length-append, length-drop, arith, dec_le, ◌==◌,
  if◌then◌else◌, Bool-cases, inl, inr,
}
use tcmu_runner.Iovec.{Iovec, iov_len, windows, same, mismatch_pos, compare_from, iovec_compare}

-- The first of `n` positions at which two strings differ.
abbrev later : Option ℕ → Option ℕ
later none = none
later (some k) = some (suc k)

mismatch : ℕ → List ℕ → List ℕ → Option ℕ
mismatch zero s d = none
mismatch (suc n) (x ∷ s) (y ∷ d) = if x == y then later (mismatch n s d) else some 0
mismatch (suc n) _ _ = none

abbrev from : ℕ → Option ℕ → Option ℕ
from off none = none
from off (some k) = some (k + off)

from_zero : (o : Option ℕ) → from 0 o ≡ o
from_zero none = refl
from_zero (some k) = ap some (omega arith)

from_suc : (n : ℕ) (o : Option ℕ) → from (suc n) o ≡ later (from n o)
from_suc n none = refl
from_suc n (some k) = ap some (omega arith)

from_from_lem : (a b : ℕ) (o : Option ℕ) → from (a + b) o ≡ from a (from b o)
from_from_lem a b none = refl
from_from_lem a b (some k) = ap some (omega arith)

-- The two ways in which the code searches one vector agree with `mismatch`.
mismatch-same :
    (n : ℕ) (s d : List ℕ)
    → n ≤ length s
    → n ≤ length d
    → mismatch n s d ≡ (if same n s d then none else some (mismatch_pos n s d))
unfolding mismatch same mismatch_pos
mismatch-same zero s d h k = refl
mismatch-same (suc n) [] d h k = absurd (omega arith)
mismatch-same (suc n) (x ∷ s) [] h k = absurd (omega arith)
mismatch-same (suc n) (x ∷ s) (y ∷ d) h k = ground (arith, mismatch-same n s d)

mismatch-short : (m : ℕ) (s d e : List ℕ) → m ≤ length d → mismatch m s (d ++ e) ≡ mismatch m s d
unfolding mismatch
mismatch-short zero s d e h = refl
mismatch-short (suc m) s [] e h = absurd (omega arith)
mismatch-short (suc m) [] (y ∷ d) e h = refl
mismatch-short (suc m) (x ∷ s) (y ∷ d) e h = ground (arith, mismatch-short m s d e)

-- A string that goes on past one vector is compared there first.
mismatch-append :
    (s d e : List ℕ) (m : ℕ)
    → length d ≤ length s
    → mismatch (length d + m) s (d ++ e) ≡ (
        if same (length d) s d
        then from (length d) (mismatch m (drop (length d) s) e)
        else some (mismatch_pos (length d) s d))
unfolding mismatch same mismatch_pos
mismatch-append s [] e m h = let none_yet : 0 + m ≡ m = omega arith in rw (none_yet, from_zero)
mismatch-append [] (y ∷ d) e m h = absurd (omega arith)
mismatch-append (x ∷ s) (y ∷ d) e m h =
    let one_more : suc (length d) + m ≡ suc (length d + m) = omega arith in
    rw one_more (
      ground
        (arith, mismatch-append s d e m, from_suc (length d) (mismatch m (drop (length d) s) e)))

compare_from-done :
    (mem : List ℕ) (off size : ℕ) (vs : List Iovec)
    → size ≡ 0
    → compare_from mem off size vs ≡ some none
unfolding compare_from
compare_from-done mem off size [] e = ground arith
compare_from-done mem off size (v ∷ vs) e = ground arith

mismatch-done : (size : ℕ) (s d : List ℕ) → size ≡ 0 → mismatch size s d ≡ none
unfolding mismatch
mismatch-done size s d e = rw e

-- A first vector that holds all bytes that are to be compared.
last_vector :
    (mem : List ℕ) (off size : ℕ) (v : Iovec) (vs : List Iovec)
    → size ≤ length (drop off mem)
    → size ≤ iov_len v
    → compare_from mem off size (v ∷ vs) ≡ some (from off (mismatch size (drop off mem) v.window))
unfolding compare_from
last_vector mem off size v vs h k = ground (
  arith,
  compare_from-done mem off size (v ∷ vs),
  compare_from-done mem (off + min size (iov_len v)) (size - min size (iov_len v)) vs,
  mismatch-same size (drop off mem) v.window,
  mismatch-done size (drop off mem) v.window,
)

rest_of_size : (size n : ℕ) → n ≤ size → n + (size - n) ≡ size
rest_of_size size n h = omega arith

-- A first vector that ends before.
next_vector :
    (mem : List ℕ) (off size : ℕ) (v : Iovec) (vs : List Iovec)
    → iov_len v < size
    → compare_from mem off size (v ∷ vs) ≡ (
        if same (iov_len v) (drop off mem) v.window
        then compare_from mem (off + iov_len v) (size - iov_len v) vs
        else some (some (mismatch_pos (iov_len v) (drop off mem) v.window + off)))
unfolding compare_from
next_vector mem off size v vs h =
    let part : min size (iov_len v) ≡ iov_len v = omega arith in ground arith

from-later :
    (mem : List ℕ) (off n size : ℕ) (w : List ℕ)
    → from (off + n) (mismatch (size - n) (drop (off + n) mem) w)
      ≡ from off (from n (mismatch (size - n) (drop n (drop off mem)) w))
from-later mem off n size w = rw (drop-drop n off mem) (from_from_lem off n _)

compare_from-mismatch :
    (mem : List ℕ) (off size : ℕ) (vs : List Iovec)
    → off + size ≤ length mem
    → size ≤ length (windows vs)
    → compare_from mem off size vs ≡ some (from off (mismatch size (drop off mem) (windows vs)))
compare_from-mismatch mem off size [] h k =
    let e : size ≡ 0 = omega arith in
    rw (compare_from-done mem off size [] e, mismatch-done size (drop off mem) [] e)
compare_from-mismatch mem off size (v ∷ vs) h k = elim (dec_le size (iov_len v)) [
  | yes fits ↦
      rw (mismatch-short size (drop off mem) v.window (windows vs) fits)
        (last_vector mem off size v vs (omega (arith, length-drop off mem)) fits)
  | no more ↦ ground (
    arith,
    next_vector mem off size v vs,
    length-drop off mem,
    length-append v.window (windows vs),
    from-later mem off (iov_len v) size (windows vs),
    compare_from-mismatch mem (off + iov_len v) (size - iov_len v) vs,
    ap (λ n. mismatch n (drop off mem) (v.window ++ windows vs))
        (rest_of_size size (iov_len v) (omega arith)),
    mismatch-append (drop off mem) v.window (windows vs) (size - iov_len v),
  )
]

-- What the result of a comparison says of two byte strings: -1 that the first `size` bytes are
-- equal, an offset that it is the first at which they differ.
abbrev pub IsFirstDifference : ℕ → List ℕ → List ℕ → Option ℕ → Type 0
IsFirstDifference size s d none = take size s ≡ take size d
IsFirstDifference size s d (some k) =
    (k < size) × (take k s ≡ take k d) × (get_or s k 0 ≢ get_or d k 0)

later-IsFirstDifference :
    (x y n : ℕ) (s d : List ℕ) (o : Option ℕ)
    → x ≡ y
    → IsFirstDifference n s d o
    → IsFirstDifference (suc n) (x ∷ s) (y ∷ d) (later o)
later-IsFirstDifference x y n s d none e h = cc
later-IsFirstDifference x y n s d (some k) e h = (omega arith, cc (h.1), h.2)

mismatch-IsFirstDifference :
    (n : ℕ) (s d : List ℕ) → n ≤ length s → n ≤ length d → IsFirstDifference n s d (mismatch n s d)
unfolding mismatch
mismatch-IsFirstDifference zero s d h k = refl
mismatch-IsFirstDifference (suc n) [] d h k = absurd (omega arith)
mismatch-IsFirstDifference (suc n) (x ∷ s) [] h k = absurd (omega arith)
mismatch-IsFirstDifference (suc n) (x ∷ s) (y ∷ d) h k = elim (Bool-cases (x == y)) [
  | inl e ↦ rw e (
      later-IsFirstDifference x y n s d (mismatch n s d) (ground arith)
        (mismatch-IsFirstDifference n s d (omega arith) (omega arith)))
  | inr e ↦ rw e (omega arith, refl, ground arith)
]

-- Where the memory holds `size` bytes and so does the vector, `tcmu_iovec_compare` returns without
-- leaving the vector, and its result is -1 exactly if the first `size` bytes agree, else the offset of
-- the first byte at which they differ.
pub iovec_compare_correct :
    (mem : List ℕ) (vs : List Iovec) (size : ℕ)
    → size ≤ length mem
    → size ≤ length (windows vs)
    → (r : Option ℕ) × (iovec_compare mem vs size ≡ some r)
      × IsFirstDifference size mem (windows vs) r
unfolding iovec_compare
iovec_compare_correct mem vs size h k = (
  mismatch size mem (windows vs),
  compare_from-mismatch mem 0 size vs (omega arith) k ∙ ap some (from_zero _),
  mismatch-IsFirstDifference size mem (windows vs) h k,
)
