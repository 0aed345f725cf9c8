-- ===== src/Zbc/Read/Within.antt =====
-- A read inside one zone, and after a write.
use tcmu_runner.Prelude.{
  ℕ, zero, suc, ◌+◌, ◌-◌, ◌*◌, ◌≤◌, ◌<◌, ◌≡◌, refl, sym, ap, subst, ◌∙◌, true, false, ◌&&◌, inl,
  inr, List, [], ◌∷◌, ◌++◌, Option, some, replicate, min, ltb, leb, if◌then◌else◌, ◌==◌, arith,
  Bool-cases, append-nil, dec_lt, dec_le,
}
use tcmu_runner.Zbc.{Zone, ZbcDev, is_seq, add64}
use tcmu_runner.Zbc.Invariant.{ZoneAt}
use tcmu_runner.Zbc.Write.{Disk}
use tcmu_runner.Zbc.Write.Zones.{
  Geometry, Holds, get_zone-Holds, zone_end-le, Addressable, offset-small,
}
use tcmu_runner.Zbc.Write.Check.{zone_end-eq}
use tcmu_runner.Zbc.Read.{
  Got, bytes_read, next_type, other_kind, read_count, prepend, read_zone, read_loop, do_read,
}

-- The bytes of the file from an offset on.
unfoldable pub file_bytes : Disk → ℕ → ℕ → List ℕ
file_bytes disk offset zero = []
file_bytes disk offset (suc n) = disk offset ∷ file_bytes disk (offset + 1) n

-- What is assumed of the system call: it reads what the file holds.
abbrev pub ReadsFile : (ℕ → ℕ → Option (List ℕ)) → Disk → Type 0
ReadsFile pread disk = (offset count : ℕ) → pread offset count ≡ some (file_bytes disk offset count)

-- How many blocks of a transfer in a zone lie below its write pointer.
abbrev pub written : Zone → ℕ → ℕ → ℕ
written z lba n = if is_seq z then min n (z.wp - lba) else n

le_mul : (m n b : ℕ) → m ≤ n → m * b ≤ n * b
le_mul m n b h = grind arith

-- Zones do not overlap.
not_before :
    {d : ZbcDev} (b i j : ℕ) (z y : Zone)
    → Geometry d
    → ZoneAt d i z
    → ZoneAt d j y
    → b < z.start + z.len
    → y.start ≤ b
    → j ≤ i
not_before {d} b i j z y g at at' below above = elim (dec_lt i j) [
  | no p ↦ omega arith
  | yes p ↦ absurd (
      omega (
        arith,
        le_mul (i + 1) j d.zone_size (omega arith),
        (g.tiles i z at).1,
        (g.tiles j y at').0,
      ))
]

-- A block of a zone is held by it.
pub in_zone-Holds :
    {d : ZbcDev} (b i : ℕ) (z : Zone)
    → Geometry d
    → ZoneAt d i z
    → z.start ≤ b
    → b < z.start + z.len
    → Holds d b i z
in_zone-Holds {d} b i z g at above below =
    let (j, y, held) = get_zone-Holds b g (omega (arith, zone_end-le i g at)) in
    let same : j ≡ i = omega (
      arith,
      not_before b i j z y g at held.at below held.above,
      not_before b j i y z g held.at at held.below above,
    ) in
    record { found = held.found ∙ ap some same; at = at; above = above; below = below }

-- The file's bytes for some blocks, and zeros up to a number of blocks.
abbrev pub mixed : Disk → ℕ → ZbcDev → ℕ → ℕ → ℕ → List ℕ
mixed disk meta_size d lba n w =
    file_bytes disk (meta_size + lba * d.lba_size) (w * d.lba_size)
    ++ replicate ((n - w) * d.lba_size) 0

pub no_zeros :
    (disk : Disk) (meta_size : ℕ) (d : ZbcDev) (lba n m : ℕ)
    → m ≡ 0
    → file_bytes disk (meta_size + lba * d.lba_size) (n * d.lba_size)
        ++ replicate (m * d.lba_size) 0
      ≡ file_bytes disk (meta_size + lba * d.lba_size) (n * d.lba_size)
no_zeros disk meta_size d lba n m e =
    ap (λ k. file_bytes disk (meta_size + lba * d.lba_size) (n * d.lba_size) ++ replicate k 0)
      no_bytes
    ∙ append-nil (file_bytes disk (meta_size + lba * d.lba_size) (n * d.lba_size))
  where
    no_bytes : m * d.lba_size ≡ 0
    no_bytes = ap (λ k. k * d.lba_size) e ∙ omega arith

module _ (pread : ℕ → ℕ → Option (List ℕ)) (disk : Disk) (meta_size : ℕ) (d : ZbcDev)
    (reads : ReadsFile pread disk) (ad : Addressable meta_size d) where
  -- Behind the write pointer the buffer is filled with zeros.
  zeros :
      (later : ℕ → ℕ → ℕ → Option Got) (z : Zone) (nr_lbas lba n t : ℕ)
      → is_seq z && leb z.wp lba ≡ true
      → read_zone pread meta_size d later z nr_lbas lba n t
        ≡ some (bytes_read t (replicate (n * d.lba_size) 0))
  unfolding read_zone
  zeros later z nr_lbas lba n t q = rw (read_zone, q) refl

  -- A round that reads from the file.
  from_file :
      (later : ℕ → ℕ → ℕ → Option Got) (z : Zone) (nr_lbas lba n c t : ℕ)
      → is_seq z && leb z.wp lba ≡ false
      → read_count z nr_lbas lba n ≡ c
      → c ≤ n
      → lba ≤ d.capacity
      → read_zone pread meta_size d later z nr_lbas lba n t
        ≡ prepend
            (file_bytes disk (meta_size + lba * d.lba_size) (c * d.lba_size))
            (later (add64 lba c) (n - c) t)
  unfolding read_zone
  from_file later z nr_lbas lba n c t q e h on =
      rw
        (
          read_zone,
          q,
          e,
          fits,
          offset-small meta_size d lba ad on,
          reads (meta_size + lba * d.lba_size) (c * d.lba_size),
        )
        (ap
          (λ k.
            prepend (file_bytes disk (meta_size + lba * d.lba_size) (c * d.lba_size))
              (later (add64 lba k) (n - k) t))
          e)
    where
      fits : ltb n c ≡ false
      fits = ground (arith, h)

  none_left :
      (fuel nr_lbas lba t : ℕ)
      → read_loop pread meta_size d (suc fuel) nr_lbas lba 0 t ≡ some (bytes_read t [])
  unfolding read_loop
  none_left fuel nr_lbas lba t = refl

  -- A round in the zone that holds the LBA, of a kind that may be read.
  a_round :
      (fuel nr_lbas lba n t i : ℕ) (z : Zone)
      → Holds d lba i z
      → 0 < n
      → other_kind d t z ≡ false
      → read_loop pread meta_size d (suc fuel) nr_lbas lba n t
        ≡ read_zone pread meta_size d
            (λ l c u. read_loop pread meta_size d fuel nr_lbas l c u)
            z
            nr_lbas
            lba
            n
            (next_type d t z)
  unfolding read_loop
  a_round fuel nr_lbas lba n t i z held h k = rw (read_loop, some_left, held.found, held.at, k) refl
    where
      some_left : n == 0 ≡ false
      some_left = ground (arith, h)

  -- The count of the first round.
  whole_count :
      (lba n i : ℕ) (z : Zone)
      → Geometry d
      → Holds d lba i z
      → lba + n ≤ z.start + z.len
      → 0 < n
      → n ≤ written z lba n
      → read_count z n lba n ≡ n
  whole_count lba n i z g held inside left h =
      ground (arith, h, left, inside, zone_end-eq i g held.at, zone_end-le i g held.at, g.small)

  part_count :
      (lba n i : ℕ) (z : Zone)
      → Geometry d
      → Holds d lba i z
      → lba + n ≤ z.start + z.len
      → is_seq z ≡ true
      → lba < z.wp
      → z.wp < lba + n
      → read_count z n lba n ≡ z.wp - lba
  part_count lba n i z g held inside s above below =
      ground (arith, s, above, below, inside, zone_end-le i g held.at, g.small)

  only_zeros : (lba n : ℕ) → replicate (n * d.lba_size) 0 ≡ mixed disk meta_size d lba n 0
  unfolding file_bytes
  only_zeros lba n = rw (none, all) refl
    where
      none : 0 * d.lba_size ≡ 0
      none = omega arith

      all : n - 0 ≡ n
      all = omega arith

  -- The check of the kinds in a second round in the same zone.
  same_kind :
      (t : ℕ) (z : Zone) → other_kind d t z ≡ false → other_kind d (next_type d t z) z ≡ false
  same_kind t z k = ground (arith, k)

  same_type : (t : ℕ) (z : Zone) → next_type d (next_type d t z) z ≡ next_type d t z
  same_type t z = ground arith

  -- The bytes of a buffer before those of the later rounds.
  then_nothing :
      (bytes : List ℕ) (fuel nr_lbas lba n t : ℕ)
      → n ≡ 0
      → prepend bytes (read_loop pread meta_size d (suc fuel) nr_lbas lba n t)
        ≡ some (bytes_read t bytes)
  then_nothing bytes fuel nr_lbas lba n t e =
      ap (λ m. prepend bytes (read_loop pread meta_size d (suc fuel) nr_lbas lba m t)) e
      ∙ ap (prepend bytes) (none_left fuel nr_lbas lba t)
      ∙ ap (λ l. some (bytes_read t l)) (append-nil bytes)

  module _ (fuel lba n t i : ℕ) (z : Zone) (g : Geometry d) (held : Holds d lba i z)
      (inside : lba + n ≤ z.start + z.len) (left : 0 < n) (k : other_kind d t z ≡ false) where
    abbrev Reads : ℕ → Type 0
    Reads w =
        read_loop pread meta_size d (suc (suc fuel)) n lba n t
        ≡ some (bytes_read (next_type d t z) (mixed disk meta_size d lba n w))

    on_device : lba ≤ d.capacity
    on_device = omega (arith, held.below, zone_end-le i g held.at)

    later : ℕ → ℕ → ℕ → Option Got
    later l c u = read_loop pread meta_size d (suc fuel) n l c u

    all_written : is_seq z && leb z.wp lba ≡ false → n ≤ written z lba n → Reads n
    unfolding later
    all_written q h =
        a_round (suc fuel) n lba n t i z held left k
        ∙ from_file later z n lba n n (next_type d t z) q
            (whole_count lba n i z g held inside left h) (omega arith) on_device
        ∙ then_nothing _ fuel n (add64 lba n) (n - n) (next_type d t z) (omega arith)
        ∙ ap (λ l. some (bytes_read (next_type d t z) l))
            (sym (no_zeros disk meta_size d lba n (n - n) (omega arith)))

    none_written : is_seq z && leb z.wp lba ≡ true → Reads 0
    unfolding later
    none_written q =
        a_round (suc fuel) n lba n t i z held left k
        ∙ zeros later z n lba n (next_type d t z) q
        ∙ ap (λ l. some (bytes_read (next_type d t z) l)) (only_zeros lba n)

    some_written : is_seq z ≡ true → lba < z.wp → z.wp < lba + n → Reads (z.wp - lba)
    unfolding later
    some_written s above below =
        a_round (suc fuel) n lba n t i z held left k
        ∙ from_file later z n lba n (z.wp - lba) (next_type d t z) (ground (arith, above))
            (part_count lba n i z g held inside s above below) (omega arith) on_device
        ∙ ap
            (λ l.
              prepend (file_bytes disk (meta_size + lba * d.lba_size) ((z.wp - lba) * d.lba_size))
                (later l (n - (z.wp - lba)) (next_type d t z)))
            at_pointer
        ∙ ap (prepend (file_bytes disk (meta_size + lba * d.lba_size) ((z.wp - lba) * d.lba_size)))
            second
      where
        at_pointer : add64 lba (z.wp - lba) ≡ z.wp
        at_pointer = omega (arith, zone_end-le i g held.at, g.small)

        held' : Holds d z.wp i z
        held' = in_zone-Holds z.wp i z g held.at (omega (arith, held.above)) (omega arith)

        second :
            read_loop pread meta_size d (suc fuel) n z.wp (n - (z.wp - lba)) (next_type d t z)
            ≡ some (bytes_read (next_type d t z) (replicate ((n - (z.wp - lba)) * d.lba_size) 0))
        second =
            a_round fuel n z.wp (n - (z.wp - lba)) (next_type d t z) i z held' (omega arith)
              (same_kind t z k)
            ∙ zeros (λ l c u. read_loop pread meta_size d fuel n l c u) z n z.wp (n - (z.wp - lba))
                (next_type d (next_type d t z) z) (ground (arith, s))
            ∙ ap (λ u. some (bytes_read u (replicate ((n - (z.wp - lba)) * d.lba_size) 0)))
                (same_type t z)

    -- A read of blocks that all lie in one zone gives, if the system call reads what the file holds, the
    -- file's bytes for the blocks below the write pointer, or for all blocks of a conventional zone, and
    -- zeros for the others.
    in_zone-Reads : Reads (written z lba n)
    in_zone-Reads = elim (Bool-cases (is_seq z && leb z.wp lba)) [
      | inl q ↦ subst Reads (ground (arith, q)) (none_written q)
      | inr q ↦ elim (dec_le n (written z lba n)) [
        | yes h ↦ subst Reads (ground (arith, h)) (all_written q h)
        | no h ↦
            subst Reads (ground (arith, q, h))
              (some_written (ground (arith, h)) (ground (arith, q, h)) (ground (arith, q, h)))
      ]
    ]

  -- A read of blocks that all lie in one zone of a kind that may be read ends and gives, if the system call
  -- reads what the file holds, the file's bytes for the blocks below the write pointer, or for all blocks of
  -- a conventional zone, and zeros for the others.
  pub do_read-mixed :
      (lba n t i : ℕ) (z : Zone)
      → Geometry d
      → Holds d lba i z
      → lba + n ≤ z.start + z.len
      → 0 < n
      → other_kind d t z ≡ false
      → do_read pread meta_size d n lba t
        ≡ some (bytes_read (next_type d t z) (mixed disk meta_size d lba n (written z lba n)))
  unfolding do_read
  do_read-mixed lba n t i z g held inside left k =
      rw two (in_zone-Reads (n - 1) lba n t i z g held inside left k)
    where
      two : n + 1 ≡ suc (suc (n - 1))
      two = omega arith
