-- ===== src/Qcow/Slots.antt =====
-- The slots of the cache of L2 tables: what the two loops of `l2_cache_lookup` find, and slots with
-- different offsets.
use tcmu_runner.Prelude.{
  ℕ, zero, suc, ◌+◌, ◌≤◌, ◌<◌, ◌≡◌, ◌≢◌, ◌⊎◌, ◌∙◌, inl, inr, refl, sym, ap, List, [], ◌∷◌, none,
  some, length, get_elem?, set, All, All-get, All-set, ltb, ◌==◌, if_ind, Bool-cases, arith,
}
use tcmu_runner.Qcow.{Slot, find_slot, least_used}

-- No two filled slots have the same offset.
abbrev pub Unique : List Slot → Type 0
Unique [] = Unit
Unique (s ∷ ss) = All (λ t. (t.offset ≡ 0) ⊎ (t.offset ≢ s.offset)) ss × Unique ss

-- What the first loop finds.
abbrev pub FindsSlot : List Slot → ℕ → Type 0
FindsSlot ss off =
    ((i : ℕ) × (s : Slot) × (find_slot ss off ≡ some i)
      × (get_elem? ss i ≡ some s)
      × (s.offset ≡ off))
    ⊎ ((find_slot ss off ≡ none) × All (λ (s : Slot). s.offset ≢ off) ss)

pub find_slot-FindsSlot : (ss : List Slot) (off : ℕ) → FindsSlot ss off
unfolding find_slot
find_slot-FindsSlot [] off = inr (refl, tt)
find_slot-FindsSlot (s ∷ ss) off = elim (Bool-cases (s.offset == off)) [
  | inl e ↦ inl (0, s, simp e refl, refl, ground (arith, e))
  | inr e ↦ elim (find_slot-FindsSlot ss off) [
    | inl (i, t, f, g, o) ↦ inl (suc i, t, simp (e, f) refl, g, o)
    | inr (f, a) ↦ inr (simp (e, f) refl, ((ground (arith, e)), a))
  ]
]

pub least_used-lt :
    (ss : List Slot) (i m c n : ℕ) → m < n → i + length ss ≤ n → least_used ss i m c < n
unfolding least_used
least_used-lt [] i m c n h k = h
least_used-lt (s ∷ ss) i m c n h k =
    least_used-lt ss (suc i) _ _ n
      (if_ind (λ (x : ℕ). x < n) (ltb s.count c) (λ _. omega arith) (λ _. h)) (omega arith)

All-other :
    (ss : List Slot) (off : ℕ)
    → All (λ (s : Slot). s.offset ≢ off) ss
    → All (λ t. (t.offset ≡ 0) ⊎ (t.offset ≢ off)) ss
All-other [] off h = tt
All-other (s ∷ ss) off h = (inr h.0, All-other ss off h.1)

pub some-injective : {s t : Slot} → some s ≡ some t → s ≡ t
some-injective e = cc

-- A slot that is replaced by one whose offset no slot has.
pub Unique-set_new :
    (ss : List Slot) (i : ℕ) (v : Slot)
    → All (λ s. s.offset ≢ v.offset) ss
    → Unique ss
    → Unique (set ss i v)
Unique-set_new [] i v h u = tt
Unique-set_new (s ∷ ss) zero v h u = (All-other ss v.offset h.1, u.1)
Unique-set_new (s ∷ ss) (suc i) v h u = (
  All-set (λ t. (t.offset ≡ 0) ⊎ (t.offset ≢ s.offset)) ss i v u.0 (inr (λ e. h.0 (sym e))),
  Unique-set_new ss i v h.1 u.1,
)

-- A slot that keeps its offset.
pub Unique-set_same :
    (ss : List Slot) (i : ℕ) (v s : Slot)
    → get_elem? ss i ≡ some s
    → v.offset ≡ s.offset
    → Unique ss
    → Unique (set ss i v)
Unique-set_same [] i v s e o u = tt
Unique-set_same (x ∷ ss) zero v s e o u =
    let q : v.offset ≡ x.offset = o ∙ ap (λ (t : Slot). t.offset) (sym (some-injective e)) in
    (rw q u.0, u.1)
Unique-set_same (x ∷ ss) (suc i) v s e o u = (
  All-set (λ t. (t.offset ≡ 0) ⊎ (t.offset ≢ x.offset)) ss i v u.0
      (rw o (All-get (λ t. (t.offset ≡ 0) ⊎ (t.offset ≢ x.offset)) ss i u.0 e)),
  Unique-set_same ss i v s e o u.1,
)
