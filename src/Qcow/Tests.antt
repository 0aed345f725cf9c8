-- ===== src/Qcow/Tests.antt =====
-- A cache of two slots and a block of counts.
use tcmu_runner.Prelude.{
  ℕ, ◌+◌, ◌*◌, ◌^◌, ◌≤◌, ◌≡◌, ◌≢◌, inl, inr, refl, List, [], ◌∷◌, some, length, ◌==◌, if◌then◌else◌,
  arith,
}
use tcmu_runner.Qcow.{Slot, whole, Access, entry, store, cached, direct}
use tcmu_runner.Qcow.Cache.{Coherent}
use tcmu_runner.Qcow.Refines.{Same, cached-Refines}
use tcmu_runner.Qcow.Refcount.{get_refcount, set_refcount}
use tcmu_runner.Qcow.Refcount.Laws.{set_refcount-get_refcount}

abbrev tables : ℕ → List ℕ
tables off = if off == 4096 then 7 ∷ 8 ∷ [] else if off == 8192 then 0 ∷ 9 ∷ [] else []

abbrev slots : List Slot
slots =
    record { offset = 4096; count = 3; table = 7 ∷ 8 ∷ [] }
    ∷ record { offset = 0; count = 0; table = [] }
    ∷ []

-- An entry is read and written, and the other table is read twice around an update.
abbrev accesses : List Access
accesses =
    entry 4096 1 ∷ entry 8192 0 ∷ store 8192 0 5 whole ∷ store 4096 1 6 whole ∷ entry 8192 0 ∷ []

slots-Coherent : Coherent tables 5 slots
slots-Coherent = record {
  agrees = (inr refl, (inl refl, tt));
  unique = ((inl refl, tt), (tt, tt));
  fresh = (omega arith, (omega arith, tt));
  some_slot = omega arith;
}

cached-Refines_example : Same 0 (direct accesses tables) (cached accesses slots tables)
cached-Refines_example =
    cached-Refines accesses tables slots (ground arith) (ground arith) (omega arith) slots-Coherent

abbrev block : List ℕ
block = 0 ∷ 1 ∷ 0 ∷ 2 ∷ []

set_refcount-get_refcount_example :
    (after : List ℕ) × (set_refcount 4 block 1 300 ≡ some after)
    × (get_refcount 4 after 1 ≡ some 300)
    × ((j : ℕ)
        → (j + 1) * 2 ^ 4 ≤ length block * 8
        → j ≢ 1
        → get_refcount 4 after j ≡ get_refcount 4 block j)
set_refcount-get_refcount_example =
    set_refcount-get_refcount 4 block 1 300 (omega arith) (ground arith) (omega arith) (omega arith)
