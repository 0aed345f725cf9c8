-- ===== src/Zbc/Read/Back.antt =====
-- What WRITE has written READ gives back.
use tcmu_runner.Prelude.{
  ℕ, suc, ◌+◌, ◌-◌, ◌*◌, ◌/◌, ◌%◌, ◌^◌, ◌≤◌, ◌<◌, ◌≡◌, refl, sym, ap, subst, ◌∙◌, true, false, ◌⊎◌,
  inl, inr, List, [], ◌∷◌, Option, some, length, get_or, arith, append-nil, ◌==◌,
}
use native.Mathlib.Nat.{mul-div_cancel}
use tcmu_runner.Cdb.{cdb_get_lba, cdb_get_xfer_length}
use tcmu_runner.Iovec.{Iovec, windows, iov_len, iovec_length}
use tcmu_runner.Iovec.Zero.{iovec_length_mod}
use tcmu_runner.Zbc.{Zone, ZbcDev, is_conv, is_seq_req}
use tcmu_runner.Zbc.Invariant.{ZoneAt, IsValid, WithinLimit, Frame}
use tcmu_runner.Zbc.Commands.{Reply, sts_ok}
use tcmu_runner.Zbc.Write.{Disk, WriteState, check_rdwr, zbc_write}
use tcmu_runner.Zbc.Write.Zones.{Geometry, Addressable, Frame-Addressable, zone_end-le}
use tcmu_runner.Zbc.Write.Check.{check_rdwr_iff}
use tcmu_runner.Zbc.Write.Loop.{WritesBlocks}
use tcmu_runner.Zbc.Write.Whole.{Done, Outcome, error, success, initial, zbc_write-Outcome}
use tcmu_runner.Zbc.Read.{bytes_read, next_type, other_kind, do_read, read_vectors, zbc_read}
use tcmu_runner.Zbc.Read.Within.{
  file_bytes, ReadsFile, written, mixed, no_zeros, in_zone-Holds, do_read-mixed,
}

-- The file holds some bytes from an offset on.
file_bytes-holds :
    (disk : Disk) (offset : ℕ) (xs : List ℕ)
    → ((k : ℕ) → k < length xs → disk (offset + k) ≡ get_or xs k 0)
    → file_bytes disk offset (length xs) ≡ xs
unfolding file_bytes
file_bytes-holds disk offset [] h = refl
file_bytes-holds disk offset (x ∷ xs) h = cc (first, file_bytes-holds disk (offset + 1) xs rest)
  where
    here : offset + 0 ≡ offset
    here = omega arith

    first : disk offset ≡ x
    first = ap disk (sym here) ∙ h 0 (omega arith)

    rest : (k : ℕ) → k < length xs → disk (offset + 1 + k) ≡ get_or xs k 0
    rest k l =
        let there : offset + 1 + k ≡ offset + suc k = omega arith in
        ap disk there ∙ h (suc k) (omega arith)

-- A success is reported with the state that the write leaves.
success-Done :
    (meta_size : ℕ) (s0 s : WriteState) {o : Option (Reply × WriteState)}
    → Outcome meta_size s0 o
    → o ≡ some (sts_ok, s)
    → Done meta_size s0 s
success-Done meta_size s0 s (error {r = r} {s = s'} n t) e = absurd (n same)
  where
    same : r ≡ sts_ok
    same = cc
success-Done meta_size s0 s (success {s = s'} done) e = subst (Done meta_size s0) same done
  where
    same : s' ≡ s
    same = cc

-- A zone that is written in order only, or anywhere.
abbrev pub Plain : Zone → Type 0
Plain z = (is_conv z ≡ true) ⊎ (is_seq_req z ≡ true)

-- A zone that has taken a write has its blocks below the pointer.
taken-written :
    (z : Zone) (lba n : ℕ)
    → Plain z
    → (is_seq_req z ≡ false) ⊎ (z.wp ≡ lba + n)
    → written z lba n ≡ n
taken-written z lba n p h = ground arith

-- The first zone of a read is of a kind that may be read.
first_kind : (d : ZbcDev) (z : Zone) → other_kind d 0 z ≡ false
first_kind d z = ground arith

module _ (pread : ℕ → ℕ → Option (List ℕ)) (meta_size : ℕ) (s0 s : WriteState)
    (done : Done meta_size s0 s)
    (whole : length (windows s0.iovec) ≡ s0.nr_lbas * s0.dev.lba_size) where
  file_holds :
      file_bytes s.disk (meta_size + s0.lba * s0.dev.lba_size) (s0.nr_lbas * s0.dev.lba_size)
      ≡ windows s0.iovec
  file_holds =
      subst (λ n. file_bytes s.disk (meta_size + s0.lba * s0.dev.lba_size) n ≡ windows s0.iovec)
        whole
        (file_bytes-holds s.disk (meta_size + s0.lba * s0.dev.lba_size) (windows s0.iovec)
          (λ k l. done.stored k (subst (λ n. k < n) whole l)))

  do_read-back :
      ReadsFile pread s.disk
      → Addressable meta_size s.dev
      → ((i : ℕ) (z : Zone) → ZoneAt s.dev i z → Plain z)
      → 0 < s0.nr_lbas
      → (t : ℕ) × (do_read pread meta_size s.dev s0.nr_lbas s0.lba 0
          ≡ some (bytes_read t (windows s0.iovec)))
  do_read-back reads ad plain left = elim done.pointed [
    | inl e ↦ absurd (omega (arith, e))
    | inr (i, z, at, above, inside, pointer) ↦
        let held = in_zone-Holds s0.lba i z done.intact.geometry at above (omega (arith, inside)) in
        (
          next_type s.dev 0 z,
          do_read-mixed pread s.disk meta_size s.dev reads ad s0.lba s0.nr_lbas 0 i z
                done.intact.geometry held inside left (first_kind s.dev z)
              ∙ ap (λ l. some (bytes_read (next_type s.dev 0 z) l))
                  (bytes z (taken-written z s0.lba s0.nr_lbas (plain i z at) pointer)),
        )
  ]
    where
      bytes :
          (z : Zone)
          → written z s0.lba s0.nr_lbas ≡ s0.nr_lbas
          → mixed s.disk meta_size s.dev s0.lba s0.nr_lbas (written z s0.lba s0.nr_lbas)
            ≡ windows s0.iovec
      bytes z e =
          ap (mixed s.disk meta_size s.dev s0.lba s0.nr_lbas) e
          ∙ no_zeros s.disk meta_size s.dev s0.lba s0.nr_lbas (s0.nr_lbas - s0.nr_lbas)
              (omega arith)
          ∙ ap (λ b. file_bytes s.disk (meta_size + s0.lba * b) (s0.nr_lbas * b))
              done.intact.frame.lba_size
          ∙ file_holds

-- A read into one buffer.
read_vectors-one :
    (pread : ℕ → ℕ → Option (List ℕ)) (meta_size : ℕ) (d : ZbcDev) (v : Iovec) (lba n t : ℕ)
    (bytes : List ℕ)
    → 0 < d.lba_size
    → 0 < n
    → iov_len v ≡ n * d.lba_size
    → do_read pread meta_size d n lba 0 ≡ some (bytes_read t bytes)
    → read_vectors pread meta_size d (v ∷ []) lba 0 ≡ some (sts_ok, bytes ∷ [])
unfolding read_vectors
read_vectors-one pread meta_size d v lba n t bytes b left fits e =
    rw (read_vectors, blocks, e, some_left) refl
  where
    blocks : iov_len v / d.lba_size ≡ n
    blocks = ap (λ k. k / d.lba_size) fits ∙ mul-div_cancel n b

    some_left : iov_len v / d.lba_size == 0 ≡ false
    some_left = ground (arith, left, blocks)

-- WRITE of at least one block as in `zbc_write-Outcome`, of as many bytes as the blocks have, on a device
-- without zones that only prefer sequential writes: if it succeeds, then READ of the same blocks into one
-- buffer, by a system call that reads what the file holds, succeeds and gives the bytes that were written.
pub zbc_write-read :
    (pwrite : ℕ → ℕ → Option ℕ) (pread : ℕ → ℕ → Option (List ℕ)) (meta_size : ℕ) {d : ZbcDev}
    (disk : Disk) (cdb read_cdb : List ℕ) (iovec : List Iovec) (v : Iovec) (s : WriteState)
    → WritesBlocks pwrite d.lba_size
    → IsValid d
    → Geometry d
    → Addressable meta_size d
    → WithinLimit d
    → 0 < d.lba_size
    → d.lba_size < 2 ^ 32
    → cdb_get_lba cdb < 2 ^ 64
    → cdb_get_xfer_length cdb < 2 ^ 32
    → length (windows iovec) < 2 ^ 64
    → 0 < cdb_get_xfer_length cdb
    → length (windows iovec) ≡ cdb_get_xfer_length cdb * d.lba_size
    → zbc_write pwrite meta_size d disk cdb iovec ≡ some (sts_ok, s)
    → ((i : ℕ) (z : Zone) → ZoneAt s.dev i z → Plain z)
    → ReadsFile pread s.disk
    → cdb_get_lba read_cdb ≡ cdb_get_lba cdb
    → cdb_get_xfer_length read_cdb ≡ cdb_get_xfer_length cdb
    → iov_len v ≡ cdb_get_xfer_length cdb * d.lba_size
    → zbc_read pread meta_size s.dev read_cdb (v ∷ []) ≡ some (sts_ok, windows iovec ∷ [])
unfolding zbc_read
zbc_write-read pwrite pread meta_size {d} disk cdb read_cdb iovec v s p valid g ad l b small lba nr
      mem left whole e plain reads same_lba same_nr fits =
    let (t, got) =
      do_read-back pread meta_size s0 s done whole reads (Frame-Addressable meta_size frame ad)
        plain left in
    rw (zbc_read, accepts)
      (ap (λ k. read_vectors pread meta_size s.dev (v ∷ []) k 0) same_lba
        ∙ read_vectors-one pread meta_size s.dev v (cdb_get_lba cdb) (cdb_get_xfer_length cdb) t
            (windows iovec) (omega (arith, b, frame.lba_size)) left
            (fits ∙ ap (λ k. cdb_get_xfer_length cdb * k) (sym frame.lba_size)) got)
  where
    s0 : WriteState
    s0 = initial d disk cdb iovec

    done : Done meta_size s0 s
    done =
        success-Done meta_size s0 s
          (zbc_write-Outcome pwrite meta_size disk cdb iovec p valid g ad l b small lba nr mem) e

    frame : Frame d s.dev
    frame = done.intact.frame

    on_device : cdb_get_lba cdb + cdb_get_xfer_length cdb ≤ s.dev.capacity
    on_device = elim done.pointed [
      | inl z ↦ absurd (omega (arith, z, left))
      | inr (i, z, at, above, inside, pointer) ↦
          omega (arith, inside, zone_end-le i done.intact.geometry at)
    ]

    fits_word : iov_len v % 2 ^ 64 ≡ cdb_get_xfer_length cdb * d.lba_size
    fits_word = omega (arith, fits, whole, mem)

    same_size : cdb_get_xfer_length cdb * d.lba_size ≡ cdb_get_xfer_length read_cdb * s.dev.lba_size
    same_size = cc (same_nr, frame.lba_size)

    room : iovec_length (v ∷ []) ≡ cdb_get_xfer_length read_cdb * s.dev.lba_size
    room =
        iovec_length_mod (v ∷ [])
        ∙ ap (λ l. length l % 2 ^ 64) (append-nil v.window)
        ∙ fits_word
        ∙ same_size

    accepts :
        check_rdwr s.dev
          (cdb_get_lba read_cdb)
          (cdb_get_xfer_length read_cdb)
          (iovec_length (v ∷ []))
        ≡ sts_ok
    accepts =
        (check_rdwr_iff s.dev (cdb_get_lba read_cdb) (cdb_get_xfer_length read_cdb)
            (iovec_length (v ∷ [])) (omega (arith, lba, same_lba)) (omega (arith, nr, same_nr))
            (omega (arith, small, frame.lba_size)) done.intact.geometry.small).1
          (room, omega (arith, on_device, same_lba, same_nr))
