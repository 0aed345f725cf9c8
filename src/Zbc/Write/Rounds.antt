-- ===== src/Zbc/Write/Rounds.antt =====
-- A round of the loop of `zbc_write`: it never leaves the zones or the vector.
use tcmu_runner.Prelude.{
  subst, ℕ, ◌+◌, ◌-◌, ◌*◌, ◌/◌, ◌^◌, ◌≤◌, ◌<◌, ◌≡◌, refl, sym, true, false, not, ◌&&◌, List, ◌∷◌,
  Option, none, some, drop, take, min, arith, leb, ltb, Option-cases, Bool-cases, inl, inr,
  length-append,
}
use native.Mathlib.Nat.{mul-mod_left}
use tcmu_runner.Iovec.{Iovec, iov_len, windows, iovec_seek}
use tcmu_runner.Iovec.Seek.{iovec_seek_correct}
use tcmu_runner.Zbc.{Zone, is_seq, is_open, do_open_zone, add64}
use tcmu_runner.Zbc.Invariant.{
  Frame-trans, zone-ZoneOk, is_openable, opened, Opens, do_open_zone-Opens,
  do_open_zone-WithinLimit,
}
use tcmu_runner.Zbc.Commands.{check, get_zone, medium_error, asc_write_error}
use tcmu_runner.Zbc.Write.{
  store, in_zone, zone_end, WriteState, stop, next, settle_write, transfer, transfer_at, write_once,
  sub64,
}
use tcmu_runner.Zbc.Write.Zones.{
  zone_end-le, Frame-Geometry, Addressable, Frame-Addressable, offset-small,
}
use tcmu_runner.Zbc.Write.Check.{zone_end-eq}
use tcmu_runner.Zbc.Write.Pointer.{Ready}
use tcmu_runner.Zbc.Write.Loop.{WritesBlocks, Running, Round, stops, goes_on, transfer-next}
use tcmu_runner.Zbc.Write.Facts.{counted, get_zone-within, openable, first, some_bytes}

module _ (pwrite : ℕ → ℕ → Option ℕ) (meta_size : ℕ) (s0 : WriteState) (i : ℕ) where
  transfer-some :
      (s : WriteState) (z : Zone) (v : Iovec) (vs ws : List Iovec) (ret consumed : ℕ)
      → in_zone z s.lba s.nr_lbas ≡ s.nr_lbas
      → pwrite
          (meta_size + s.lba * s.dev.lba_size)
          (min s.nr_lbas (iov_len v / s.dev.lba_size) * s.dev.lba_size)
        ≡ some ret
      → iovec_seek (v ∷ vs) ret ≡ some (consumed, ws)
      → s.lba + s.nr_lbas < 2 ^ 64
      → Addressable meta_size s.dev
      → s.lba ≤ s.dev.capacity
      → ret / s.dev.lba_size ≤ s.nr_lbas
      → transfer pwrite meta_size s i z v vs
        ≡ next (record s {
          dev = settle_write s.dev i s.lba (ret / s.dev.lba_size);
          disk = store s.disk (meta_size + s.lba * s.dev.lba_size) (take ret v.window);
          iovec = drop consumed ws;
          lba = s.lba + ret / s.dev.lba_size;
          nr_lbas = s.nr_lbas - ret / s.dev.lba_size;
        })
  unfolding transfer
  transfer-some s z v vs ws ret consumed iz pw sk bound ad on le =
      rw
        (
          iz,
          offset-small meta_size s.dev s.lba ad on,
          pw,
          sk,
          offset-small meta_size s.dev s.lba ad on,
          plus,
          minus,
          transfer,
        )
        refl
    where
      plus : add64 s.lba (ret / s.dev.lba_size) ≡ s.lba + ret / s.dev.lba_size
      plus = omega arith

      minus : sub64 s.nr_lbas (ret / s.dev.lba_size) ≡ s.nr_lbas - ret / s.dev.lba_size
      minus = omega arith

  transfer-none :
      (s : WriteState) (z : Zone) (v : Iovec) (vs : List Iovec)
      → in_zone z s.lba s.nr_lbas ≡ s.nr_lbas
      → pwrite
          (meta_size + s.lba * s.dev.lba_size)
          (min s.nr_lbas (iov_len v / s.dev.lba_size) * s.dev.lba_size)
        ≡ none
      → Addressable meta_size s.dev
      → s.lba ≤ s.dev.capacity
      → transfer pwrite meta_size s i z v vs ≡ stop (check medium_error asc_write_error) s
  unfolding transfer
  transfer-none s z v vs iz pw ad on =
      rw (iz, offset-small meta_size s.dev s.lba ad on, pw, transfer) refl

  transfer-Round :
      (done : ℕ) (s : WriteState) (z : Zone) (v : Iovec) (vs : List Iovec)
      → WritesBlocks pwrite s.dev.lba_size
      → Running meta_size s0 i done s z
      → s.iovec ≡ v ∷ vs
      → Ready z
      → Round meta_size s0 i done (transfer pwrite meta_size s i z v vs)
  transfer-Round done s z v vs p r iv ready =
      elim (Option-cases (
        pwrite (meta_size + s.lba * s.dev.lba_size)
          (min s.nr_lbas (iov_len v / s.dev.lba_size) * s.dev.lba_size))) [
            | inl e ↦ rw (transfer-none s z v vs all e r.addressable on) (stops (λ q. cc) r.intact)
            | inr (ret, e) ↦
                let (positive, few, whole) = p.whole _ _ ret (mul-mod_left _ _) e in
                let (blocks, some_blocks, at_most, fits) =
                  counted s.nr_lbas (iov_len v) s.dev.lba_size ret positive few whole in
                let (consumed, ws, sk, sought) =
                  iovec_seek_correct (v ∷ vs) ret
                    (omega (arith, length-append v.window (windows vs))) in
                let (z', r') =
                  transfer-next meta_size s0 i done s z v vs ret (ret / s.dev.lba_size) consumed ws
                    r iv ready blocks some_blocks at_most fits sought in
                rw (transfer-some s z v vs ws ret consumed all e sk bound r.addressable on at_most)
                  (goes_on (ret / s.dev.lba_size) z' some_blocks r')
          ]
    where
      all : in_zone z s.lba s.nr_lbas ≡ s.nr_lbas
      all = ground (
        arith,
        r.inside,
        zone_end-eq i r.intact.geometry r.at,
        zone_end-le i r.intact.geometry r.at,
        r.intact.geometry.small,
      )

      on : s.lba ≤ s.dev.capacity
      on = omega (arith, r.inside, zone_end-le i r.intact.geometry r.at)

      bound : s.lba + s.nr_lbas < 2 ^ 64
      bound = omega (arith, r.inside, zone_end-le i r.intact.geometry r.at, r.intact.geometry.small)

  -- The zone after it was opened for the write.
  opened-Running :
      (done : ℕ) (s : WriteState) (z : Zone)
      → Running meta_size s0 i done s z
      → is_openable z ≡ true
      → s.dev.nr_exp_open < s.dev.nr_open_zones
      → Running meta_size s0 i done (record s { dev = do_open_zone s.dev i false }) (opened false z)
  opened-Running done s z r o room = record {
    intact = record {
      valid = p.valid;
      geometry = Frame-Geometry r.intact.geometry p.frame p.valid.sized;
      limit = do_open_zone-WithinLimit i false r.intact.valid r.at o r.intact.limit room;
      frame = Frame-trans r.intact.frame p.frame;
    };
    addressable = Frame-Addressable meta_size p.frame r.addressable;
    at = p.now;
    lba_now = r.lba_now;
    nr_now = r.nr_now;
    above = r.above;
    inside = r.inside;
    pointer = r.pointer;
    writable = λ h. refl;
    room = r.room;
    rest = r.rest;
    stored = r.stored;
    outside = r.outside;
  }
    where
      p : Opens s.dev i false z (do_open_zone s.dev i false)
      p = do_open_zone-Opens i false r.intact.valid r.at o

  transfer_at-Round :
      (done : ℕ) (s : WriteState) (z : Zone)
      → WritesBlocks pwrite s0.dev.lba_size
      → 0 < s0.dev.lba_size
      → Running meta_size s0 i done s z
      → 0 < s.nr_lbas
      → Ready z
      → Round meta_size s0 i done (transfer_at pwrite meta_size s i)
  transfer_at-Round done s z p b r some_left ready =
      let (v, vs, iv) = first s.iovec (some_bytes s.nr_lbas s0.dev.lba_size _ r.room some_left b) in
      rw (r.at, iv, transfer_at)
        (transfer-Round done s z v vs (subst (WritesBlocks pwrite) (sym r.intact.frame.lba_size) p)
          r iv ready)

  -- A round in which blocks are left either stops with an error and a sound device, or writes at least
  -- one block and goes on.
  pub write_once-Round :
      (done : ℕ) (s : WriteState) (z : Zone)
      → WritesBlocks pwrite s0.dev.lba_size
      → 0 < s0.dev.lba_size
      → Running meta_size s0 i done s z
      → 0 < s.nr_lbas
      → Round meta_size s0 i done (write_once pwrite meta_size s)
  unfolding write_once
  write_once-Round done s z p b r some_left = elim (Bool-cases (is_seq z && not (is_open z))) [
    | inr ready ↦
        rw (found, r.at, in_zone, ready, write_once)
          (transfer_at-Round done s z p b r some_left (ready_of ready))
    | inl shut ↦ elim (Bool-cases (leb s.dev.nr_open_zones s.dev.nr_exp_open)) [
      | inl many ↦ rw (found, r.at, in_zone, shut, many, write_once) (stops (λ q. cc) r.intact)
      | inr few ↦
          rw (found, r.at, in_zone, shut, few, write_once)
            (transfer_at-Round done (record s { dev = do_open_zone s.dev i false }) (opened false z)
              p b
              (opened-Running done s z r
                (openable z (zone-ZoneOk i r.intact.valid r.at) shut (r.writable some_left))
                (ground arith))
              some_left (inr refl))
    ]
  ]
    where
      found : get_zone s.dev s.lba false ≡ some i
      found =
          get_zone-within i s.lba r.intact.geometry r.at (omega (arith, r.above, r.lba_now))
            (omega (arith, r.inside))

      in_zone : ltb (zone_end z) (add64 s.lba s.nr_lbas) ≡ false
      in_zone = ground (
        arith,
        r.inside,
        zone_end-eq i r.intact.geometry r.at,
        zone_end-le i r.intact.geometry r.at,
        r.intact.geometry.small,
      )

      ready_of : (is_seq z && not (is_open z)) ≡ false → Ready z
      ready_of e = elim (Bool-cases (is_open z)) [ inl o ↦ inr o | inr n ↦ inl (ground arith) ]
