-- ===== src/Iovec/Zero.antt =====
-- `tcmu_iovec_zero`, `tcmu_iovec_zeroed` and `tcmu_iovec_length`.
use tcmu_runner.Prelude.{
  ℕ, zero, suc, ◌+◌, ◌%◌, ◌^◌, ◌<◌, ◌≡◌, refl, ◌↔◌, true, List, [], ◌∷◌, ◌++◌, All, length,
  replicate, length-append, length-replicate, sym, arith,
}
use tcmu_runner.Iovec.{
  Iovec, iov_len, windows, iovec_zero, zeroed_mem, iovec_zeroed, length_from, iovec_length,
}

abbrev pub IsZero : ℕ → Type 0
IsZero b = b ≡ 0

zeroed_mem_iff : (buf : List ℕ) → (zeroed_mem buf ≡ true) ↔ All IsZero buf
unfolding zeroed_mem
zeroed_mem_iff [] = (λ h. tt, λ h. refl)
zeroed_mem_iff (b ∷ buf) = (
  λ h. (ground arith, (zeroed_mem_iff buf).0 (ground arith)),
  λ h. ground (arith, (zeroed_mem_iff buf).1 h.1),
)

All-append : (P : ℕ → Type 0) (xs ys : List ℕ) → All P (xs ++ ys) ↔ (All P xs × All P ys)
All-append P [] ys = (λ h. (tt, h), λ h. h.1)
All-append P (x ∷ xs) ys = (
  λ h. let (a, b) = (All-append P xs ys).0 h.1 in ((h.0, a), b),
  λ h. (h.0.0, (All-append P xs ys).1 (h.0.1, h.1)),
)

All-replicate : (n : ℕ) → All IsZero (replicate n 0)
All-replicate zero = tt
All-replicate (suc n) = (refl, All-replicate n)

-- `tcmu_iovec_zeroed` holds exactly if every byte that the vector describes is 0.
pub iovec_zeroed_iff : (vs : List Iovec) → (iovec_zeroed vs ≡ true) ↔ All IsZero (windows vs)
unfolding iovec_zeroed
iovec_zeroed_iff [] = (λ h. tt, λ h. refl)
iovec_zeroed_iff (v ∷ vs) = (
  λ h.
      (All-append IsZero v.window (windows vs)).1
        ((zeroed_mem_iff v.window).0 (ground arith), (iovec_zeroed_iff vs).0 (ground arith)),
  λ h.
      let (a, b) = (All-append IsZero v.window (windows vs)).0 h in
      ground (arith, (zeroed_mem_iff v.window).1 a, (iovec_zeroed_iff vs).1 b),
)

windows-IsZero : (vs : List Iovec) → All IsZero (windows (iovec_zero vs))
unfolding iovec_zero
windows-IsZero [] = tt
windows-IsZero (v ∷ vs) =
    (All-append IsZero (replicate (iov_len v) 0) (windows (iovec_zero vs))).1
      (All-replicate (iov_len v), windows-IsZero vs)

length_from-sum :
    (vs : List Iovec) (len : ℕ) → length_from len vs % 2 ^ 64 ≡ (len + length (windows vs)) % 2 ^ 64
unfolding length_from
length_from-sum [] len = omega arith
length_from-sum (v ∷ vs) len =
    omega
      (arith, length_from-sum vs ((len + iov_len v) % 2 ^ 64), length-append v.window (windows vs))

length_from-lt : (vs : List Iovec) (len : ℕ) → len < 2 ^ 64 → length_from len vs < 2 ^ 64
unfolding length_from
length_from-lt [] len h = h
length_from-lt (v ∷ vs) len h = length_from-lt vs ((len + iov_len v) % 2 ^ 64) (omega arith)

-- `tcmu_iovec_length` is the number of bytes that the vector describes, modulo 2 ^ 64.
pub iovec_length_mod : (vs : List Iovec) → iovec_length vs ≡ length (windows vs) % 2 ^ 64
unfolding iovec_length
iovec_length_mod vs = omega (arith, length_from-sum vs 0, length_from-lt vs 0 (omega arith))

length-zero : (vs : List Iovec) → length (windows (iovec_zero vs)) ≡ length (windows vs)
unfolding iovec_zero
length-zero [] = refl
length-zero (v ∷ vs) = omega (
  arith,
  length-zero vs,
  length-append v.window (windows vs),
  length-append (replicate (iov_len v) 0) (windows (iovec_zero vs)),
  length-replicate {A = ℕ} (iov_len v) 0,
)

-- What `tcmu_iovec_zero` makes of a vector is found zeroed by `tcmu_iovec_zeroed`, and describes as
-- many bytes as before.
pub iovec_zero-zeroed :
    (vs : List Iovec)
    → (iovec_zeroed (iovec_zero vs) ≡ true) × (iovec_length (iovec_zero vs) ≡ iovec_length vs)
iovec_zero-zeroed vs = (
  (iovec_zeroed_iff (iovec_zero vs)).1 (windows-IsZero vs),
  rw (iovec_length_mod (iovec_zero vs), length-zero) (sym (iovec_length_mod vs)),
)
