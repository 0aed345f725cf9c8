-- ===== src/Iovec/Tests.antt =====
-- Tests of the vectors, and the theorems at concrete ones.
use tcmu_runner.Prelude.{
  ℕ, ◌≡◌, refl, true, ◌↔◌, List, [], ◌∷◌, ◌++◌, Option, none, some, length, take, drop, min, All,
  arith,
}
use tcmu_runner.Iovec.{
  Iovec, windows, iovec_compare, iovec_seek, cmd_seek, iovec_zeroed, memcpy_into_iovec,
  memcpy_from_iovec,
}
use tcmu_runner.Iovec.Compare.{IsFirstDifference, iovec_compare_correct}
use tcmu_runner.Iovec.Copy.{region, memcpy_into_iovec_correct, memcpy_from_iovec_correct}
use tcmu_runner.Iovec.Seek.{Sought, iovec_seek_correct, cmd_seek_drops_last}
use tcmu_runner.Iovec.Zero.{IsZero, iovec_zeroed_iff}

abbrev buffer : List ℕ → Iovec
buffer bytes = record { behind = []; window = bytes }

-- Three vectors of three, two and one bytes.
abbrev vector : List Iovec
vector = buffer (1 ∷ 2 ∷ 3 ∷ []) ∷ buffer (4 ∷ 5 ∷ []) ∷ buffer (6 ∷ []) ∷ []

abbrev memory : List ℕ
memory = 1 ∷ 2 ∷ 3 ∷ 4 ∷ 9 ∷ 6 ∷ []

difference : iovec_compare memory vector 6 ≡ some (some 4)
unfolding iovec_compare
difference = refl

no_difference : iovec_compare memory vector 4 ≡ some none
unfolding iovec_compare
no_difference = refl

seek_4 :
    iovec_seek vector 4
    ≡ some (1, buffer [] ∷ record { behind = 4 ∷ []; window = 5 ∷ [] } ∷ buffer (6 ∷ []) ∷ [])
unfolding iovec_seek
seek_4 = refl

into_4 : (memcpy_into_iovec vector (7 ∷ 7 ∷ 7 ∷ 7 ∷ []) 4).0 ≡ 4
unfolding memcpy_into_iovec
into_4 = refl

from_4 : (memcpy_from_iovec 4 vector).1 ≡ 1 ∷ 2 ∷ 3 ∷ 4 ∷ []
unfolding memcpy_from_iovec
from_4 = refl

iovec_compare_correct_example :
    (r : Option ℕ) × (iovec_compare memory vector 6 ≡ some r)
    × IsFirstDifference 6 memory (windows vector) r
iovec_compare_correct_example = iovec_compare_correct memory vector 6 (omega arith) (omega arith)

iovec_seek_correct_example :
    (consumed : ℕ) × (ws : List Iovec) × (iovec_seek vector 4 ≡ some (consumed, ws))
    × Sought vector 4 consumed ws
iovec_seek_correct_example = iovec_seek_correct vector 4 (omega arith)

memcpy_into_iovec_correct_example :
    let (n, ws) = memcpy_into_iovec vector memory 4 in
    (n ≡ min 4 (length (windows vector)))
    × (region vector ws ≡ take n memory ++ drop n (windows vector))
    × (windows ws ≡ drop n (windows vector))
memcpy_into_iovec_correct_example = memcpy_into_iovec_correct vector memory 4 (omega arith)

memcpy_from_iovec_correct_example :
    let (n, dest, ws) = memcpy_from_iovec 4 vector in
    (n ≡ min 4 (length (windows vector)))
    × (dest ≡ take 4 (windows vector))
    × (windows ws ≡ drop 4 (windows vector))
memcpy_from_iovec_correct_example = memcpy_from_iovec_correct vector 4

iovec_zeroed_iff_example : (iovec_zeroed vector ≡ true) ↔ All IsZero (windows vector)
iovec_zeroed_iff_example = iovec_zeroed_iff vector

cmd_seek_drops_last_example : cmd_seek vector 3 ≡ some (buffer [] ∷ buffer (4 ∷ 5 ∷ []) ∷ [])
cmd_seek_drops_last_example =
    cmd_seek_drops_last (buffer (1 ∷ 2 ∷ 3 ∷ [])) (buffer (6 ∷ [])) (buffer (4 ∷ 5 ∷ []) ∷ [])
      (omega arith)
