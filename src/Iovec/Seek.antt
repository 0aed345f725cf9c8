-- ===== src/Iovec/Seek.antt =====
-- `tcmu_iovec_seek` and what `tcmu_cmd_seek` makes of its result.
use tcmu_runner.Prelude.{
  ℕ, suc, ◌-◌, ◌≤◌, ◌<◌, ◌≡◌, refl, ap, sym, ◌∙◌, List, [], ◌∷◌, ◌++◌, some, length, take, drop,
  drop-append, drop-append_le, length-append, arith, ◌==◌, dec_le, Bool-cases, inl, inr,
}
use tcmu_runner.Iovec.{Iovec, iov_len, windows, advance, iovec_seek, cmd_seek}

-- A vector from which `count` bytes have been consumed.
pub record Sought (vs : List Iovec) (count : ℕ) (consumed : ℕ) (ws : List Iovec) : Type 0 where
  pub left : windows (drop consumed ws) ≡ drop count (windows vs)
  pub emptied : windows (take consumed ws) ≡ []
  pub same_length : length ws ≡ length vs
  pub within : consumed ≤ length vs

seek-zero : (vs : List Iovec) (count : ℕ) → count ≡ 0 → iovec_seek vs count ≡ some (0, vs)
unfolding iovec_seek
seek-zero [] count e = rw e
seek-zero (v ∷ vs) count e = rw e

Sought-zero : (vs : List Iovec) → Sought vs 0 0 vs
Sought-zero vs = record { left = refl; emptied = refl; same_length = refl; within = omega arith }

Sought-cons :
    (v : Iovec) (vs ws : List Iovec) (count consumed : ℕ)
    → iov_len v ≤ count
    → Sought vs (count - iov_len v) consumed ws
    → Sought (v ∷ vs) count (suc consumed) (record v { window = [] } ∷ ws)
Sought-cons v vs ws count consumed h s = record {
  left =
      s.left
      ∙ sym (drop-append v.window (windows vs) (count - iov_len v))
      ∙ ap (λ n. drop n (v.window ++ windows vs)) (omega arith);
  emptied = s.emptied;
  same_length = omega (arith, s.same_length);
  within = omega (arith, s.within);
}

Sought-inside :
    (v : Iovec) (vs : List Iovec) (count : ℕ)
    → count < iov_len v
    → Sought (v ∷ vs) count 0 (advance count v ∷ vs)
Sought-inside v vs count h = record {
  left = sym (drop-append_le count v.window (windows vs) (omega arith));
  emptied = refl;
  same_length = refl;
  within = omega arith;
}

Seeks : List Iovec → ℕ → Type 0
Seeks vs count =
    (consumed : ℕ) × (ws : List Iovec) × (iovec_seek vs count ≡ some (consumed, ws))
    × Sought vs count consumed ws

seek_past :
    (v : Iovec) (vs : List Iovec) (count : ℕ)
    → iov_len v ≤ count
    → 0 < count
    → Seeks vs (count - iov_len v)
    → Seeks (v ∷ vs) count
unfolding Seeks iovec_seek
seek_past v vs count h p (n, ws, e, s) =
    (suc n, record v { window = [] } ∷ ws, ground arith, Sought-cons v vs ws count n h s)

-- A count within the vector: `tcmu_iovec_seek` returns, the vectors that it counts as consumed are
-- empty, and the others describe exactly the bytes behind the first `count`.
pub iovec_seek_correct :
    (vs : List Iovec) (count : ℕ)
    → count ≤ length (windows vs)
    → (consumed : ℕ) × (ws : List Iovec) × (iovec_seek vs count ≡ some (consumed, ws))
      × Sought vs count consumed ws
unfolding Seeks iovec_seek
iovec_seek_correct [] count h =
    let e : count ≡ 0 = omega arith in rw e (0, [], refl, Sought-zero [])
iovec_seek_correct (v ∷ vs) count h = elim (Bool-cases (count == 0)) [
  | inl z ↦ let e : count ≡ 0 = ground arith in rw e (0, v ∷ vs, refl, Sought-zero (v ∷ vs))
  | inr p ↦ elim (dec_le (iov_len v) count) [
    | yes q ↦ seek_past v vs count q (ground arith) (
        iovec_seek_correct vs (count - iov_len v)
          (omega (arith, length-append v.window (windows vs))))
    | no q ↦ (0, advance count v ∷ vs, ground arith, Sought-inside v vs count (omega arith))
  ]
]

seek_first :
    (v : Iovec) (vs : List Iovec)
    → 0 < iov_len v
    → iovec_seek (v ∷ vs) (iov_len v) ≡ some (1, record v { window = [] } ∷ vs)
unfolding iovec_seek
seek_first v vs h = ground (arith, seek-zero vs (iov_len v - iov_len v))

cmd_seek_lem :
    (vs ws : List Iovec) (count n : ℕ)
    → iovec_seek vs count ≡ some (n, ws)
    → cmd_seek vs count ≡ some (take (length vs - n) ws)
unfolding cmd_seek
cmd_seek_lem vs ws count n e = rw (e, cmd_seek)

take_init : (ms : List Iovec) (w : Iovec) → take (length ms) (ms ++ (w ∷ [])) ≡ ms
take_init [] w = refl
take_init (m ∷ ms) w = ap (λ l. m ∷ l) (take_init ms w)

-- `tcmu_cmd_seek` over the whole of a non-empty first vector that other vectors follow cuts off the
-- last one: the command is left with the emptied first vector and all but the last of the others.
pub cmd_seek_drops_last :
    (v w : Iovec) (ms : List Iovec)
    → 0 < iov_len v
    → cmd_seek (v ∷ (ms ++ (w ∷ []))) (iov_len v) ≡ some (record v { window = [] } ∷ ms)
cmd_seek_drops_last v w ms h =
    cmd_seek_lem _ _ (iov_len v) 1 (seek_first v (ms ++ (w ∷ [])) h)
    ∙ ap (λ n. some (take n (record v { window = [] } ∷ (ms ++ (w ∷ []))))) one_less
    ∙ ap (λ l. some (record v { window = [] } ∷ l)) (take_init ms w)
  where
    one_less : suc (length (ms ++ (w ∷ []))) - 1 ≡ suc (length ms)
    one_less = omega (arith, length-append ms (w ∷ []))
