-- ===== src/Zbc/Read.antt =====
-- READ of file_zbc.c: `__zbc_read` and `zbc_read`.
-- `pread` is the system call, a parameter: the bytes read, or `none` if fewer came than were asked for. A
-- buffer is the bytes that end up in it.
pub mod Within
pub mod Back
use tcmu_runner.Prelude.{
  ℕ, zero, suc, ◌+◌, ◌-◌, ◌*◌, ◌/◌, ◌%◌, ◌^◌, Bool, true, false, not, ◌&&◌, ◌||◌, List, [], ◌∷◌,
  ◌++◌, Option, none, some, get_elem?, replicate, ltb, leb, ◌==◌, if◌then◌else◌,
}
use tcmu_runner.Cdb.{cdb_get_lba, cdb_get_xfer_length}
use tcmu_runner.Iovec.{Iovec, iov_len, iovec_length}
use tcmu_runner.Zbc.{DevModel, ha, hm, Zone, ZbcDev, is_seq, add64}
use tcmu_runner.Zbc.Commands.{
  Reply, sts_ok, check, medium_error, illegal_request, get_zone, asc_read_error,
  asc_attempt_to_read_invalid_data,
}
use tcmu_runner.Zbc.Write.{check_rdwr, zone_end, type_code, sub64}

-- The end of `__zbc_read`, with what it leaves in `zone_type`.
pub data Got : Type 0 where
  failed : ℕ → Got
  bytes_read : ℕ → List ℕ → Got

abbrev is_hm : ZbcDev → Bool
is_hm d = elim d.model [ ha ↦ false | hm ↦ true ]

-- What `zone_type` holds after the check of a zone's type.
abbrev pub next_type : ZbcDev → ℕ → Zone → ℕ
next_type d zone_type z = if is_hm d && zone_type == 0 then type_code z.type else zone_type

-- A host-managed device does not read over the boundary of zones of different types.
abbrev pub other_kind : ZbcDev → ℕ → Zone → Bool
other_kind d zone_type z = is_hm d && not (zone_type == 0) && not (zone_type == type_code z.type)

abbrev pub boundary : Zone → ℕ
boundary z = if is_seq z then z.wp else zone_end z

-- The count of blocks of a round; `nr_lbas` is that of the whole transfer.
abbrev pub read_count : Zone → ℕ → ℕ → ℕ → ℕ
read_count z nr_lbas lba lba_count =
    if ltb (boundary z) (add64 lba nr_lbas) then sub64 (boundary z) lba else lba_count

abbrev pub prepend : List ℕ → Option Got → Option Got
prepend bytes rest = elim rest [
  | none ↦ none
  | some (failed t) ↦ some (failed t)
  | some (bytes_read t more) ↦ some (bytes_read t (bytes ++ more))
]

module _ (pread : ℕ → ℕ → Option (List ℕ)) (meta_size : ℕ) (d : ZbcDev) where
  -- The rest of a round of the loop in a zone that may be read, with the loop's later rounds as a function
  -- of the LBA, the blocks left and `zone_type`; `none` is an access behind the buffer.
  unfoldable pub read_zone : (ℕ → ℕ → ℕ → Option Got) → Zone → ℕ → ℕ → ℕ → ℕ → Option Got
  read_zone later z nr_lbas lba lba_count zone_type =
      if is_seq z && leb z.wp lba
      then some (bytes_read zone_type (replicate (lba_count * d.lba_size) 0))
      else let count = read_count z nr_lbas lba lba_count in
        if ltb lba_count count
        then none
        else elim (pread ((meta_size + lba * d.lba_size) % 2 ^ 64) (count * d.lba_size)) [
          | none ↦ some (failed zone_type)
          | some bytes ↦ prepend bytes (later (add64 lba count) (lba_count - count) zone_type)
        ]

  -- The loop of `__zbc_read`, on fuel; `none` says that the fuel ran out, or an access outside the zones or
  -- the buffer.
  unfoldable pub read_loop : ℕ → ℕ → ℕ → ℕ → ℕ → Option Got
  unfolding read_zone
  read_loop zero nr_lbas lba lba_count zone_type = none
  read_loop (suc fuel) nr_lbas lba lba_count zone_type = elim (lba_count == 0) [
    | true ↦ some (bytes_read zone_type [])
    | false ↦ elim (get_zone d lba false) [
      | none ↦ none
      | some i ↦ elim (get_elem? d.zones i) [
        | none ↦ none
        | some z ↦
            if other_kind d zone_type z
            then some (failed 0)
            else read_zone (λ l c t. read_loop fuel nr_lbas l c t) z nr_lbas lba lba_count
                (next_type d zone_type z)
      ]
    ]
  ]

  -- `__zbc_read`; each round reads a block at least.
  unfoldable pub do_read : ℕ → ℕ → ℕ → Option Got
  unfolding read_loop
  do_read nr_lbas lba zone_type = read_loop (nr_lbas + 1) nr_lbas lba nr_lbas zone_type

  abbrev read_refusal : ℕ → Reply
  read_refusal zone_type =
      if zone_type == 0
      then check illegal_request asc_attempt_to_read_invalid_data
      else check medium_error asc_read_error

  -- The loop of `zbc_read` over the vectors; a vector of no block counts as a failure. The result has the
  -- bytes of each buffer that was read.
  unfoldable pub read_vectors : List Iovec → ℕ → ℕ → Option (Reply × List (List ℕ))
  unfolding do_read
  read_vectors [] lba zone_type = some (sts_ok, [])
  read_vectors (v ∷ vs) lba zone_type =
      let nr_lbas = iov_len v / d.lba_size in
      elim (do_read nr_lbas lba zone_type) [
        | none ↦ none
        | some (failed t) ↦ some (read_refusal t, [])
        | some (bytes_read t bytes) ↦ elim (nr_lbas == 0) [
          | true ↦ some (read_refusal t, bytes ∷ [])
          | false ↦ elim (read_vectors vs (add64 lba nr_lbas) t) [
            | none ↦ none
            | some (r, more) ↦ some (r, bytes ∷ more)
          ]
        ]
      ]

  -- `zbc_read`
  unfoldable pub zbc_read : List ℕ → List Iovec → Option (Reply × List (List ℕ))
  unfolding read_vectors
  zbc_read cdb iovec =
      let lba = cdb_get_lba cdb in
      elim (check_rdwr d lba (cdb_get_xfer_length cdb) (iovec_length iovec)) [
        | sts_ok ↦ read_vectors iovec lba 0
        | r ↦ some (r, [])
      ]
