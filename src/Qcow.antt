-- ===== src/Qcow.antt =====
-- Images in the qcow formats, qcow.c: the cache of L2 tables, `l2_cache_lookup` and `l2_table_update`.
-- A table is the list of its entries as `be64toh` reads them, and the file is seen as the tables that it
-- holds at each offset: tables are allocated apart from each other, so that none overlaps another.
mod Slots
pub mod Cache
pub mod Refcount
pub mod Refines
mod Tests
use tcmu_runner.Prelude.{
  ℕ, zero, suc, ◌+◌, ◌/◌, ◌%◌, ◌^◌, Bool, true, false, List, [], ◌∷◌, ◌++◌, Option, none, some,
  get_elem?, get_or, set, ltb, ◌==◌, if◌then◌else◌,
}

-- One of the L2_CACHE_SIZE entries: `l2_cache_offsets[i]`, `l2_cache_counts[i]` and the table at
-- `l2_cache + (i << l2_bits)`. An offset of 0 is that of an entry that was never filled.
pub record Slot : Type 0 where
  pub offset : ℕ
  pub count : ℕ
  pub table : List ℕ

abbrev pub int_max : ℕ
int_max = 2147483647

-- The first loop of `l2_cache_lookup`: the first slot with the offset.
unfoldable pub find_slot : List Slot → ℕ → Option ℕ
find_slot [] l2_offset = none
find_slot (s ∷ ss) l2_offset =
    if s.offset == l2_offset
    then some 0
    else (elim (find_slot ss l2_offset) [ none ↦ none | some i ↦ some (suc i) ])

-- The loop that looks for the slot to evict, from slot `i` on: the first of those with the lowest count.
unfoldable pub least_used : List Slot → ℕ → ℕ → ℕ → ℕ
least_used [] i min_index min_count = min_index
least_used (s ∷ ss) i min_index min_count =
    let lower = ltb s.count min_count in
    least_used ss (suc i) (if lower then i else min_index) (if lower then s.count else min_count)

-- What `pread` of a table gives: all of it, or a failed or short read, and what is then in the buffer.
pub data Read : Type 0 where
  full : List ℕ → Read
  short : List ℕ → Read

-- What a lookup gives: the slot that holds the table, NULL, or the loop that halves the counts, which
-- does not end.
pub data Lookup : Type 0 where
  found : ℕ → List Slot → Lookup
  not_read : List Slot → Lookup
  endless : Lookup

-- A hit in slot `i`.
unfoldable pub hit : List Slot → ℕ → Lookup
hit ss i = elim (get_elem? ss i) [
  | none ↦ endless
  | some s ↦
      if s.count + 1 == int_max
      then endless
      else found i (set ss i (record { offset = s.offset; count = s.count + 1; table = s.table }))
]

-- The table is read to slot `i`. A failed read leaves the slot's offset and count as they were.
unfoldable pub refill : List Slot → ℕ → ℕ → Read → Lookup
refill ss i l2_offset (full t) =
    found i (set ss i (record { offset = l2_offset; count = 1; table = t }))
refill ss i l2_offset (short t) = elim (get_elem? ss i) [
  | none ↦ not_read ss
  | some s ↦ not_read (set ss i (record { offset = s.offset; count = s.count; table = t }))
]

-- `l2_cache_lookup`, given what the read gives if it is done.
unfoldable pub l2_cache_lookup : List Slot → ℕ → Read → Lookup
unfolding find_slot least_used hit refill
l2_cache_lookup ss l2_offset r = elim (find_slot ss l2_offset) [
  | some i ↦ hit ss i
  | none ↦ refill ss (least_used ss 0 0 int_max) l2_offset r
]

-- The entry of the table in slot `i` that `l2_table_update` sets.
unfoldable pub update_slot : List Slot → ℕ → ℕ → ℕ → List Slot
update_slot ss i l2_index cluster_offset = elim (get_elem? ss i) [
  | none ↦ ss
  | some s ↦
      set ss i
        (record { offset = s.offset; count = s.count; table = set s.table l2_index cluster_offset })
]

-- The tables of the file after `pwrite` of one entry of the table at `l2_offset`.
unfoldable pub write_entry : (ℕ → List ℕ) → ℕ → ℕ → ℕ → ℕ → List ℕ
write_entry tables l2_offset l2_index cluster_offset at =
    if at == l2_offset then set (tables l2_offset) l2_index cluster_offset else tables at

-- What `pwrite` of an entry does: all of its bytes are written, or the call fails or is short and leaves some
-- entry in the file.
pub data Wrote : Type 0 where
  whole : Wrote
  partly : ℕ → Wrote

-- The entry that the file then has.
abbrev pub left_by : ℕ → Wrote → ℕ
left_by cluster_offset whole = cluster_offset
left_by cluster_offset (partly e) = e

-- `l2_table_update` of the table in slot `i`: the slots and the tables of the file. What the write did is
-- only logged, and the result is not looked at by the callers.
unfoldable pub l2_table_update :
    List Slot → (ℕ → List ℕ) → ℕ → ℕ → ℕ → ℕ → Wrote → List Slot × (ℕ → List ℕ)
unfolding update_slot write_entry
l2_table_update ss tables i l2_offset l2_index cluster_offset wrote = (
  update_slot ss i l2_index cluster_offset,
  write_entry tables l2_offset l2_index (left_by cluster_offset wrote),
)

-- `l1_index`, `l2_index` of `get_cluster_offset`, for a table of 2 ^ l2_bits entries and clusters of
-- 2 ^ cluster_bits bytes; and the sector's place in its cluster.
unfoldable pub l1_index : ℕ → ℕ → ℕ → ℕ
l1_index l2_bits cluster_bits offset = offset / 2 ^ (l2_bits + cluster_bits) % 2 ^ 32

unfoldable pub l2_index : ℕ → ℕ → ℕ → ℕ
l2_index l2_bits cluster_bits offset = offset / 2 ^ cluster_bits % 2 ^ l2_bits

-- What `get_cluster_offset` does with an L2 table: it reads an entry, or it writes one with
-- `l2_table_update`, whose `pwrite` does what is said.
pub data Access : Type 0 where
  entry : ℕ → ℕ → Access
  store : ℕ → ℕ → ℕ → Wrote → Access

abbrev pub at_table : Access → ℕ
at_table (entry l2_offset i) = l2_offset
at_table (store l2_offset i v wrote) = l2_offset

-- The access is a read of an entry, or its `pwrite` writes all bytes.
abbrev pub is_whole : Access → Bool
is_whole (entry l2_offset i) = true
is_whole (store l2_offset i v whole) = true
is_whole (store l2_offset i v (partly e)) = false

-- The entries read, the cache, and the tables of the file.
pub record Accessed : Type 0 where
  pub entries : List ℕ
  pub slots : List Slot
  pub tables : ℕ → List ℕ

-- One access with the slot that the lookup gave; `none` is an error.
unfoldable pub access_slot : Access → Lookup → (ℕ → List ℕ) → Option Accessed
unfolding l2_table_update
access_slot a (not_read ss) tables = none
access_slot a endless tables = none
access_slot (entry l2_offset j) (found i ss) tables = elim (get_elem? ss i) [
  | none ↦ none
  | some s ↦ some (record { entries = get_or s.table j 0 ∷ []; slots = ss; tables = tables })
]
access_slot (store l2_offset j v wrote) (found i ss) tables =
    let (ss', tables') = l2_table_update ss tables i l2_offset j v wrote in
    some (record { entries = []; slots = ss'; tables = tables' })

abbrev pub with_entries : List ℕ → Option Accessed → Option Accessed
with_entries es none = none
with_entries es (some b) =
    some (record { entries = es ++ b.entries; slots = b.slots; tables = b.tables })

abbrev pub then_access :
    Option Accessed → (List Slot → (ℕ → List ℕ) → Option Accessed) → Option Accessed
then_access none rest = none
then_access (some a) rest = with_entries a.entries (rest a.slots a.tables)

-- A sequence of accesses through the cache, on a file whose reads succeed.
unfoldable pub cached : List Access → List Slot → (ℕ → List ℕ) → Option Accessed
unfolding l2_cache_lookup access_slot
cached [] ss tables = some (record { entries = []; slots = ss; tables = tables })
cached (a ∷ rest) ss tables =
    let lookup = l2_cache_lookup ss (at_table a) (full (tables (at_table a))) in
    then_access (access_slot a lookup tables) (cached rest)

-- The same accesses to the tables of the file themselves, with every byte written.
unfoldable pub direct : List Access → (ℕ → List ℕ) → List ℕ × (ℕ → List ℕ)
unfolding write_entry
direct [] tables = ([], tables)
direct (entry l2_offset j ∷ rest) tables =
    let r = direct rest tables in (get_or (tables l2_offset) j 0 ∷ r.0, r.1)
direct (store l2_offset j v wrote ∷ rest) tables = direct rest (write_entry tables l2_offset j v)
