-- ===== src/Qcow/Refines.antt =====
-- The cache of L2 tables is transparent, and an offset is found again from its indices.
use tcmu_runner.Prelude.{
  ℕ, ◌<◌, ◌≡◌, ◌≢◌, ◌∙◌, refl, sym, ap, subst, Bool, true, false, List, [], ◌∷◌, ◌++◌, Option, none,
  some, length, get_or, All, arith,
}
use tcmu_runner.Qcow.{
  Slot, int_max, Lookup, found, not_read, endless, update_slot, l2_table_update, write_entry, whole,
  partly, Access, entry, store, at_table, is_whole, Accessed, access_slot, with_entries,
  then_access, cached, direct,
}
use tcmu_runner.Qcow.Cache.{Coherent, Finds, l2_cache_lookup-Finds, update_slot-Coherent}

-- The result of accesses through the cache is that of `r`, and the cache agrees with the file.
abbrev pub Same : ℕ → List ℕ × (ℕ → List ℕ) → Option Accessed → Type 0
Same n r none = ◌≡◌ {A = Bool} true false
Same n r (some a) = (a.entries ≡ r.0) × (a.tables ≡ r.1) × Coherent r.1 n a.slots

access-Same :
    (a : Access) (tables : ℕ → List ℕ) (n : ℕ) (lookup : Lookup)
    → at_table a ≢ 0
    → is_whole a ≡ true
    → Finds tables n (at_table a) lookup
    → Same n (direct (a ∷ []) tables) (access_slot a lookup tables)
unfolding access_slot direct l2_table_update
access-Same (entry off j) tables n (found i ss) z w (c, (s, e, o, t)) =
    rw (access_slot, e) (ap (λ x. get_or x j 0 ∷ []) t, refl, c)
access-Same (store off j v whole) tables n (found i ss) z w (c, (s, e, o, t)) = (
  refl,
  refl,
  subst (λ x. Coherent (write_entry tables x j v) n (update_slot ss i j v)) o
      (update_slot-Coherent tables n ss i j v s e (λ q. z (sym o ∙ q)) c),
)
access-Same (store off j v (partly u)) tables n lookup z w f = absurd (cc w)
access-Same (store off j v whole) tables n (not_read ss) z w f = absurd (cc f)
access-Same (store off j v whole) tables n endless z w f = absurd (cc f)
access-Same (entry off j) tables n (not_read ss) z w f = absurd (cc f)
access-Same (entry off j) tables n endless z w f = absurd (cc f)

with_entries-Same :
    (es : List ℕ) (s : List ℕ × (ℕ → List ℕ)) (o : Option Accessed)
    → Same 0 s o
    → Same 0 (es ++ s.0, s.1) (with_entries es o)
with_entries-Same es s none h = h
with_entries-Same es s (some b) (e, t, c) = (ap (λ l. es ++ l) e, t, c)

then_access-Same :
    (n : ℕ) (r s : List ℕ × (ℕ → List ℕ)) (o : Option Accessed)
    (rest : List Slot → (ℕ → List ℕ) → Option Accessed)
    → Same n r o
    → ((ss : List Slot) → Coherent r.1 n ss → Same 0 s (rest ss r.1))
    → Same 0 (r.0 ++ s.0, s.1) (then_access o rest)
then_access-Same n r s none rest h k = absurd (cc h)
then_access-Same n r s (some a) rest (e, t, c) k =
    subst (λ l. Same 0 (l ++ s.0, s.1) (with_entries a.entries (rest a.slots a.tables))) e
      (with_entries-Same a.entries s (rest a.slots a.tables)
        (subst (λ x. Same 0 s (rest a.slots x)) (sym t) (k a.slots c)))

direct-split :
    (a : Access) (rest : List Access) (tables : ℕ → List ℕ)
    → direct (a ∷ rest) tables ≡ (
      (direct (a ∷ []) tables).0 ++ (direct rest (direct (a ∷ []) tables).1).0,
      (direct rest (direct (a ∷ []) tables).1).1,
    )
unfolding direct
direct-split (entry off j) rest tables = refl
direct-split (store off j v wrote) rest tables = refl

-- A sequence of reads and updates of entries of L2 tables, at offsets other than 0, through a cache that
-- agrees with the file, and with room in its counts for as many uses; where every read of a table succeeds
-- and every `pwrite` of an entry writes all bytes: it succeeds, gives the entries that the same accesses to
-- the file itself give, leaves the file with the same tables, and the cache agrees with them. A `pwrite` that
-- fails or is short is excluded: the code goes on with the new entry in the cache only.
pub cached-Refines :
    (accesses : List Access) (tables : ℕ → List ℕ) (ss : List Slot)
    → All (λ a. at_table a ≢ 0) accesses
    → All (λ a. is_whole a ≡ true) accesses
    → length accesses < int_max
    → Coherent tables (length accesses) ss
    → Same 0 (direct accesses tables) (cached accesses ss tables)
unfolding cached direct
cached-Refines [] tables ss z w m c = (refl, refl, c)
cached-Refines (a ∷ rest) tables ss z w m c =
    let r = direct (a ∷ []) tables in
    subst (λ x. Same 0 x (cached (a ∷ rest) ss tables)) (sym (direct-split a rest tables))
      (then_access-Same (length rest) r (direct rest r.1) _ (cached rest)
        (access-Same a tables (length rest) _ z.0 w.0
          (l2_cache_lookup-Finds tables (length rest) (at_table a) ss z.0 (omega arith) c))
        (λ ss1 c1. cached-Refines rest r.1 ss1 z.1 w.1 (omega arith) c1))
