-- ===== src/Prelude/Loops.antt =====
-- Counted loops `for (k = i; k < i + n; k++) s = body k s`, by recursion on the rounds left, and the
-- rule for an invariant of the state alone.
use Prim.Native.Nat.{ℕ, zero, suc, ◌+◌, ◌<◌}
use mathlib.Core.Path.{◌≡◌}
use native.Mathlib.Omega.{arith}

module _ {ℓ} {S : Type ℓ} where
  unfoldable pub for_range : ℕ → ℕ → (ℕ → S → S) → S → S
  for_range zero i body s = s
  for_range (suc n) i body s = for_range n (i + 1) body (body i s)

  -- What each round keeps at every index, the loop keeps.
  pub for_range_inv {κ} :
      (P : S → Type κ) (body : ℕ → S → S)
      → ((k : ℕ) (s : S) → P s → P (body k s))
      → (n i : ℕ) (s : S) → P s
      → P (for_range n i body s)
  unfolding for_range
  for_range_inv P body keep zero i s h = h
  for_range_inv P body keep (suc n) i s h =
      for_range_inv P body keep n (i + 1) (body i s) (keep i s h)

  -- The same for a predicate that speaks of the rounds done. The end `j` is a variable with an
  -- equation, since `i + 0` is stuck.
  pub for_range_ind {κ} :
      (P : ℕ → S → Type κ) (body : ℕ → S → S) (end : ℕ)
      → ((k : ℕ) (s : S) → k < end → P k s → P (k + 1) (body k s))
      → (n i : ℕ) (s : S) → n + i ≡ end
      → P i s
      → P end (for_range n i body s)
  unfolding for_range
  for_range_ind P body end keep zero i s e h = let e' : i ≡ end = omega arith in rw (← e') h
  for_range_ind P body end keep (suc n) i s e h =
      for_range_ind P body end keep n (i + 1) (body i s) (omega arith) (keep i s (omega arith) h)
