-- ===== src/Zbc/Write/Bytes.antt =====
-- The backstore file after a write.
use tcmu_runner.Prelude.{
  ℕ, zero, suc, ◌+◌, ◌-◌, ◌≤◌, ◌<◌, ◌≡◌, ◌∙◌, ap, sym, List, [], ◌∷◌, ◌++◌, ◌⊎◌, inl, inr, length,
  take, drop, get_or, get_or-take, get_or-append, get_or-drop, length-take, dec_lt, arith,
}
use tcmu_runner.Zbc.Write.{Disk, store}

-- Below the offset and behind the bytes nothing changes.
pub store-outside :
    (disk : Disk) (offset o : ℕ) (bytes : List ℕ)
    → (o < offset) ⊎ (offset + length bytes ≤ o)
    → store disk offset bytes o ≡ disk o
store-outside disk offset o [] h = ground arith
store-outside disk offset o (b ∷ bytes) (inl h) =
    ground (arith, store-outside disk (offset + 1) o bytes (inl (omega arith)))
store-outside disk offset o (b ∷ bytes) (inr h) =
    ground (arith, store-outside disk (offset + 1) o bytes (inr (omega arith)))

-- From the offset on the file holds the bytes.
store-within :
    (disk : Disk) (offset k : ℕ) (bytes : List ℕ)
    → k < length bytes
    → store disk offset bytes (offset + k) ≡ get_or bytes k 0
store-within disk offset k [] h = elim h [ ]
store-within disk offset zero (b ∷ bytes) h = ground arith
store-within disk offset (suc k) (b ∷ bytes) h =
    let e : offset + suc k ≡ offset + 1 + k = omega arith in
    rw e (ground (arith, store-within disk (offset + 1) k bytes))

-- If the file holds the first `done` bytes of a list and the next ones are the front of `window`, then
-- storing `n` of these makes it hold `n` more.
pub stored_more :
    (disk : Disk) (base done n : ℕ) (all window rest : List ℕ)
    → n ≤ length window
    → window ++ rest ≡ drop done all
    → ((k : ℕ) → k < done → disk (base + k) ≡ get_or all k 0)
    → (k : ℕ) → k < done + n
    → store disk (base + done) (take n window) (base + k) ≡ get_or all k 0
stored_more disk base done n all window rest fits e held k h = elim (dec_lt k done) [
  | yes p ↦
      store-outside disk (base + done) (base + k) (take n window) (inl (omega arith)) ∙ held k p
  | no p ↦
      let at : base + k ≡ base + done + (k - done) = omega arith in
      let same : done + (k - done) ≡ k = omega arith in
      ap (λ o. store disk (base + done) (take n window) o) at
      ∙ store-within disk (base + done) (k - done) (take n window)
          (omega (arith, length-take n window))
      ∙ get_or-take n window (k - done) 0 (omega arith)
      ∙ sym (get_or-append window rest (k - done) 0 (omega arith))
      ∙ ap (λ l. get_or l (k - done) 0) e
      ∙ get_or-drop done all (k - done) 0
      ∙ ap (λ j. get_or all j 0) same
]
