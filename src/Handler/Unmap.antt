-- ===== src/Handler/Unmap.antt =====
-- UNMAP, tcmur_cmd_handler.c: `align_and_split_unmap`, `handle_unmap_internal`, `handle_unmap`, and the
-- UNMAP in a WRITE SAME, `handle_unmap_in_writesame`. The count of references that ends the command
-- is in the child Finish.
pub mod Splits
pub mod Granules
pub mod Medium
pub mod Finish
use tcmu_runner.Prelude.{
  ℕ, zero, suc, ◌+◌, ◌*◌, ◌-◌, ◌/◌, ◌%◌, ◌^◌, min, List, [], ◌∷◌, ◌++◌, Bool, true, false, not,
  Option, none, some, ltb, ◌==◌, if◌then◌else◌,
}
use tcmu_runner.Status.{
  Status, async_handled, not_handled, ok, no_resource, invalid_cmd, invalid_cdb, invalid_param_list,
  invalid_param_list_len, is_ok,
}
use tcmu_runner.Cdb.{
  byte, cdb_get_lba, cdb_get_xfer_length, get_unaligned_be16, raw_get_unaligned_be32, get_be64,
}
use tcmu_runner.Iovec.{Iovec, memcpy_from_iovec}
use tcmu_runner.Handler.{Device, lba_to_byte, check_lbas}
use tcmu_runner.Handler.Ranges.{Request}
use tcmu_runner.Handler.Bits.{and64}

abbrev pub is_async : Status → Bool
is_async s = elim s [ async_handled ↦ true | _ ↦ false ]

-- VPD_MAX_UNMAP_BLOCK_DESC_COUNT
abbrev pub max_unmap_block_desc_count : ℕ
max_unmap_block_desc_count = 4

-- What the calls of one round give: `calloc` of the descriptor or of the command fails, or
-- `aio_request_schedule` returns a status.
pub data Answer : Type 0 where
  no_desc : Answer
  no_ucmd : Answer
  scheduled : Status → Answer

-- The requests that were handed to `aio_request_schedule`, the rounds done, and the status that is
-- returned.
pub record Split : Type 0 where
  pub requests : List Request
  pub rounds : ℕ
  pub ret : Status

abbrev pub after : List Request → Option Split → Option Split
after rs none = none
after rs (some s) = some (record { requests = rs ++ s.requests; rounds = s.rounds; ret = s.ret })

abbrev pub stopped : List Request → ℕ → Status → Option Split
stopped rs i ret = some (record { requests = rs; rounds = i; ret = ret })

-- The descriptor of a round.
unfoldable pub desc : Device → ℕ → ℕ → Request
unfolding lba_to_byte
desc d lba lbas = record { offset = lba_to_byte d lba; length = lba_to_byte d lbas }

-- The rest of a round, given what its calls give and the rounds behind it.
unfoldable pub split_round : Answer → Request → ℕ → Option Split → Option Split
split_round no_desc r i rest = stopped [] (i + 1) no_resource
split_round no_ucmd r i rest = stopped [] (i + 1) no_resource
split_round (scheduled s) r i rest =
    if is_async s then after (r ∷ []) rest else stopped (r ∷ []) (i + 1) s

-- The loop of `align_and_split_unmap`, on fuel; `none` says that the fuel ran out. `i` counts the
-- rounds of the whole command. The loop goes on only while `ret` is TCMU_STS_ASYNC_HANDLED.
unfoldable pub split_loop : ℕ → Device → (ℕ → Answer) → ℕ → ℕ → ℕ → ℕ → ℕ → Status → Option Split
unfolding desc split_round
split_loop zero d answers gran lba nlbas lbas i ret = none
split_loop (suc fuel) d answers gran lba nlbas lbas i ret =
    let rest =
      split_loop fuel d answers gran ((lba + lbas) % 2 ^ 64) (nlbas - lbas)
        (min gran (nlbas - lbas)) (i + 1) async_handled in
    if nlbas == 0 then stopped [] i ret else split_round (answers i) (desc d lba lbas) i rest

-- `opt_unmap_gran` and `mask` of `align_and_split_unmap`.
unfoldable pub granularity : Device → ℕ × ℕ
granularity d =
    if not d.split_unmaps
    then (d.max_unmap_len, 0)
    else (d.opt_unmap_gran, (d.unmap_gran_align + 2 ^ 64 - 1) % 2 ^ 64)

-- `lbas` before the loop.
unfoldable pub first_lbas : ℕ × ℕ → ℕ → ℕ → ℕ
first_lbas (gran, mask) lba nlbas = min ((gran + 2 ^ 64 - and64 lba mask) % 2 ^ 64) nlbas

-- `align_and_split_unmap`; the fuel allows for a round for each block, one for a first request of no block
-- and one to leave the loop.
unfoldable pub align_and_split_unmap : Device → (ℕ → Answer) → ℕ → ℕ → ℕ → Option Split
unfolding split_loop granularity first_lbas
align_and_split_unmap d answers lba nlbas i =
    let g = granularity d in
    split_loop (suc (suc nlbas)) d answers g.0 lba nlbas (first_lbas g lba nlbas) i not_handled

-- The descriptors behind one whose requests were all scheduled.
abbrev pub go_on : Option Split → (ℕ → Status → Option Split) → Option Split
go_on none rest = none
go_on (some s) rest = if is_async s.ret then after s.requests (rest s.rounds s.ret) else some s

-- The loop of `handle_unmap_internal`, on fuel; `none` says that the fuel ran out. `offset` and `bddl` have
-- 16 bits, and `par` is the parameter list from its beginning.
unfoldable pub unmap_list : ℕ → Device → (ℕ → Answer) → List ℕ → ℕ → ℕ → ℕ → Status → Option Split
unfolding get_be64 raw_get_unaligned_be32 align_and_split_unmap check_lbas
unmap_list zero d answers par offset bddl i ret = none
unmap_list (suc fuel) d answers par offset bddl i ret =
    let lba = get_be64 par (8 + offset) in
    let nlbas = raw_get_unaligned_be32 par (8 + offset + 8) in
    let rest = λ (j : ℕ) (r : Status).
      unmap_list fuel d answers par ((offset + 16) % 2 ^ 16) ((bddl + 2 ^ 16 - 16) % 2 ^ 16) j r in
    if bddl == 0
    then stopped [] i ret
    else if ltb d.max_unmap_len nlbas
    then stopped [] i invalid_param_list
    else if not (is_ok (check_lbas d lba nlbas))
    then stopped [] i (check_lbas d lba nlbas)
    else if nlbas == 0
    then rest i ok
    else go_on (align_and_split_unmap d answers lba nlbas i) rest

-- How a handler of a command answers: at once with a status, or by requests that go on.
pub data UnmapReply : Type 0 where
  answered : Status → UnmapReply
  -- `none` is a loop that did not end.
  submitted : Option Split → UnmapReply

-- `handle_unmap_internal` up to `done:`, given what `unmap_init` returns. `handle_unmap` clears
-- the low four bits of `bddl`; with any other one the loop of the source passes by 0.
unfoldable pub handle_unmap_internal : Device → (ℕ → Answer) → Status → ℕ → List ℕ → UnmapReply
unfolding unmap_list
handle_unmap_internal d answers init bddl par =
    if is_ok init
    then submitted (unmap_list (suc (bddl / 16)) d answers par 0 bddl 0 ok)
    else answered init

-- `handle_unmap`, for a handler with or without unmap, given whether `par` could be allocated and what
-- `unmap_init` returns.
unfoldable pub handle_unmap :
    Device → (ℕ → Answer) → Bool → Bool → Status → List ℕ → List Iovec → UnmapReply
unfolding handle_unmap_internal get_unaligned_be16
handle_unmap d answers has_unmap par_ok init cdb iovec =
    let data_length = cdb_get_xfer_length cdb in
    if not has_unmap
    then answered invalid_cmd
    else if byte cdb 1 % 2 == 1
    then answered invalid_cdb
    else if data_length == 0
    then answered ok
    else if ltb data_length 8
    then answered invalid_param_list_len
    else if not par_ok
    then answered no_resource
    else let (copied, par, _) = memcpy_from_iovec data_length iovec in
      let bddl = get_unaligned_be16 par 2 / 16 * 16 in
      if not (copied == data_length)
      then answered invalid_param_list_len
      else if bddl == 0
      then answered ok
      else if ltb max_unmap_block_desc_count (bddl / 16)
      then answered invalid_param_list
      else handle_unmap_internal d answers init bddl par

-- `handle_unmap_in_writesame` up to the call of `align_and_split_unmap`.
unfoldable pub handle_unmap_in_writesame : Device → (ℕ → Answer) → Status → List ℕ → UnmapReply
unfolding align_and_split_unmap
handle_unmap_in_writesame d answers init cdb =
    if is_ok init
    then submitted (align_and_split_unmap d answers (cdb_get_lba cdb) (cdb_get_xfer_length cdb) 0)
    else answered init
