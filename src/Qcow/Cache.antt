-- ===== src/Qcow/Cache.antt =====
-- The cache of L2 tables and the file behind it.
use tcmu_runner.Prelude.{
  ℕ, zero, suc, ◌+◌, ◌<◌, ◌≡◌, ◌≢◌, ◌⊎◌, ◌∙◌, inl, inr, refl, sym, ap, subst, List, [], ◌∷◌, Bool,
  true, false, some, length, get_elem?, set, All, All-get, All-set, get_elem?-set_self, length-set,
  get_elem?-lt, ◌==◌, arith,
}
use tcmu_runner.Qcow.{
  Slot, int_max, least_used, full, Lookup, found, not_read, endless, hit, refill, l2_cache_lookup,
  update_slot, write_entry,
}
use tcmu_runner.Qcow.Slots.{
  Unique, find_slot-FindsSlot, least_used-lt, some-injective, Unique-set_new, Unique-set_same,
}

-- A filled slot holds the table that the file has at its offset.
abbrev pub Agrees : (ℕ → List ℕ) → Slot → Type 0
Agrees tables s = (s.offset ≡ 0) ⊎ (s.table ≡ tables s.offset)

-- The slots have been used so rarely that `n` more uses do not reach the highest count.
abbrev pub Fresh : ℕ → Slot → Type 0
Fresh n s = s.count + n < int_max

pub record Coherent (tables : ℕ → List ℕ) (n : ℕ) (ss : List Slot) : Type 0 where
  pub agrees : All (Agrees tables) ss
  pub unique : Unique ss
  pub fresh : All (Fresh n) ss
  pub some_slot : 0 < length ss

-- The tables of the file after one of them was changed, and the slots that hold the others.
Agrees-elsewhere :
    (s : Slot) (tables : ℕ → List ℕ) (off idx v : ℕ)
    → (s.offset ≡ 0) ⊎ (s.offset ≢ off)
    → Agrees tables s
    → Agrees (write_entry tables off idx v) s
unfolding write_entry
Agrees-elsewhere s tables off idx v (inl z) a = inl z
Agrees-elsewhere s tables off idx v (inr n) (inl z) = inl z
Agrees-elsewhere s tables off idx v (inr n) (inr e) =
    let f : (s.offset == off) ≡ false = ground (arith, n) in inr (simp f e)

All-elsewhere :
    (ss : List Slot) (tables : ℕ → List ℕ) (off idx v : ℕ)
    → All (λ t. (t.offset ≡ 0) ⊎ (t.offset ≢ off)) ss
    → All (Agrees tables) ss
    → All (Agrees (write_entry tables off idx v)) ss
All-elsewhere [] tables off idx v h a = tt
All-elsewhere (s ∷ ss) tables off idx v h a =
    (Agrees-elsewhere s tables off idx v h.0 a.0, All-elsewhere ss tables off idx v h.1 a.1)

write_entry_self :
    (tables : ℕ → List ℕ) (off idx v : ℕ)
    → write_entry tables off idx v off ≡ set (tables off) idx v
unfolding write_entry
write_entry_self tables off idx v = let e : (off == off) ≡ true = ground arith in simp e refl

Agrees-here :
    (s : Slot) (tables : ℕ → List ℕ) (idx v : ℕ)
    → s.offset ≢ 0
    → Agrees tables s
    → Agrees
        (write_entry tables s.offset idx v)
        (record { offset = s.offset; count = s.count; table = set s.table idx v })
Agrees-here s tables idx v n (inl z) = absurd (n z)
Agrees-here s tables idx v n (inr e) =
    inr (ap (λ t. set t idx v) e ∙ sym (write_entry_self tables s.offset idx v))

-- The slot that is changed with the file.
Agrees-update :
    (ss : List Slot) (tables : ℕ → List ℕ) (i idx v : ℕ) (s : Slot)
    → get_elem? ss i ≡ some s
    → s.offset ≢ 0
    → Unique ss
    → All (Agrees tables) ss
    → All
        (Agrees (write_entry tables s.offset idx v))
        (set ss i (record { offset = s.offset; count = s.count; table = set s.table idx v }))
Agrees-update [] tables i idx v s e n u a = tt
Agrees-update (x ∷ ss) tables zero idx v s e n u a =
    let q : x ≡ s = some-injective e in
    (
      Agrees-here s tables idx v n (subst (Agrees tables) q a.0),
      All-elsewhere ss tables s.offset idx v
          (subst (λ (y : Slot). All (λ t. (t.offset ≡ 0) ⊎ (t.offset ≢ y.offset)) ss) q u.0) a.1,
    )
Agrees-update (x ∷ ss) tables (suc i) idx v s e n u a = (
  Agrees-elsewhere x tables s.offset idx v
      (apart (All-get (λ t. (t.offset ≡ 0) ⊎ (t.offset ≢ x.offset)) ss i u.0 e)) a.0,
  Agrees-update ss tables i idx v s e n u.1 a.1,
)
  where
    apart : (s.offset ≡ 0) ⊎ (s.offset ≢ x.offset) → (x.offset ≡ 0) ⊎ (x.offset ≢ s.offset)
    apart (inl z) = absurd (n z)
    apart (inr m) = inr (λ q. m (sym q))

-- A lookup whose read, if it is done, succeeds: it gives a slot that holds the file's table.
abbrev pub Finds : (ℕ → List ℕ) → ℕ → ℕ → Lookup → Type 0
Finds tables n off (found i ss) =
    Coherent tables n ss
    × ((s : Slot) × (get_elem? ss i ≡ some s) × (s.offset ≡ off) × (s.table ≡ tables off))
Finds tables n off (not_read ss) = ◌≡◌ {A = Bool} true false
Finds tables n off endless = ◌≡◌ {A = Bool} true false

Fresh-less : (ss : List Slot) (n : ℕ) → All (Fresh (suc n)) ss → All (Fresh n) ss
Fresh-less [] n h = tt
Fresh-less (s ∷ ss) n h = (omega (arith, h.0), Fresh-less ss n h.1)

hit-Finds :
    (tables : ℕ → List ℕ) (n off : ℕ) (ss : List Slot) (i : ℕ) (s : Slot)
    → off ≢ 0
    → Coherent tables (suc n) ss
    → get_elem? ss i ≡ some s
    → s.offset ≡ off
    → Finds tables n off (hit ss i)
unfolding hit
hit-Finds tables n off ss i s z c e o =
    let f = All-get (Fresh (suc n)) ss i c.fresh e in
    let q : (s.count + 1 == int_max) ≡ false = ground (arith, f) in
    let v : Slot = record { offset = s.offset; count = s.count + 1; table = s.table } in
    let w : Agrees tables s = All-get (Agrees tables) ss i c.agrees e in
    rw (hit, e, q)
      (
        record {
          agrees = All-set (Agrees tables) ss i v c.agrees w;
          unique = Unique-set_same ss i v s e refl c.unique;
          fresh = All-set (Fresh n) ss i v (Fresh-less ss n c.fresh) (omega (arith, f));
          some_slot = rw (length-set ss i v) c.some_slot;
        },
        (v, get_elem?-set_self ss i v (get_elem?-lt ss i e), o, holds w),
      )
  where
    holds : Agrees tables s → s.table ≡ tables off
    holds (inl y) = absurd (z (sym o ∙ y))
    holds (inr t) = t ∙ ap tables o

refill-Finds :
    (tables : ℕ → List ℕ) (n off : ℕ) (ss : List Slot) (i : ℕ)
    → n + 1 < int_max
    → i < length ss
    → Coherent tables (suc n) ss
    → All (λ (s : Slot). s.offset ≢ off) ss
    → Finds tables n off (refill ss i off (full (tables off)))
unfolding refill
refill-Finds tables n off ss i m l c a =
    let v : Slot = record { offset = off; count = 1; table = tables off } in
    (
      record {
        agrees = All-set (Agrees tables) ss i v c.agrees (inr refl);
        unique = Unique-set_new ss i v a c.unique;
        fresh = All-set (Fresh n) ss i v (Fresh-less ss n c.fresh) (omega arith);
        some_slot = rw (length-set ss i v) c.some_slot;
      },
      (v, get_elem?-set_self ss i v l, refl, refl),
    )

-- A lookup of an offset other than 0 in a coherent cache, when a read succeeds.
pub l2_cache_lookup-Finds :
    (tables : ℕ → List ℕ) (n off : ℕ) (ss : List Slot)
    → off ≢ 0
    → n + 1 < int_max
    → Coherent tables (suc n) ss
    → Finds tables n off (l2_cache_lookup ss off (full (tables off)))
unfolding l2_cache_lookup
l2_cache_lookup-Finds tables n off ss z m c = elim (find_slot-FindsSlot ss off) [
  | inl (i, s, f, g, o) ↦ rw (l2_cache_lookup, f) (hit-Finds tables n off ss i s z c g o)
  | inr (f, a) ↦
      rw (l2_cache_lookup, f)
        (refill-Finds tables n off ss (least_used ss 0 0 int_max) m
          (least_used-lt ss 0 0 int_max (length ss) c.some_slot (omega arith)) c a)
]

-- The update of the table that a lookup gave.
pub update_slot-Coherent :
    (tables : ℕ → List ℕ) (n : ℕ) (ss : List Slot) (i idx v : ℕ) (s : Slot)
    → get_elem? ss i ≡ some s
    → s.offset ≢ 0
    → Coherent tables n ss
    → Coherent (write_entry tables s.offset idx v) n (update_slot ss i idx v)
unfolding update_slot
update_slot-Coherent tables n ss i idx v s e z c =
    let w : Slot = record { offset = s.offset; count = s.count; table = set s.table idx v } in
    rw (update_slot, e)
      (record {
        agrees = Agrees-update ss tables i idx v s e z c.unique c.agrees;
        unique = Unique-set_same ss i w s e refl c.unique;
        fresh = All-set (Fresh n) ss i w c.fresh (All-get (Fresh n) ss i c.fresh e);
        some_slot = rw (length-set ss i w) c.some_slot;
      })
