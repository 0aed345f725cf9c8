-- ===== src/Zbc/Write/Loop.antt =====
-- The loop of `zbc_write`: each round writes whole blocks into one zone and goes on behind them.
use tcmu_runner.Prelude.{
  ℕ, ◌+◌, ◌-◌, ◌*◌, ◌%◌, ◌≤◌, ◌<◌, ◌≡◌, ◌≢◌, ap, ◌∙◌, sym, Bool, true, false, ◌⊎◌, List, ◌∷◌,
  Option, some, get_or, length, drop, take, arith, inl, inr, drop-drop, length-drop, length-take,
}
use native.Mathlib.Nat.{add-mul as add_mul}
use tcmu_runner.Iovec.{Iovec, iov_len, windows}
use tcmu_runner.Iovec.Seek.{Sought}
use tcmu_runner.Zbc.{Zone, seqwrite_req, ZbcDev, is_seq_req, is_full}
use tcmu_runner.Zbc.Invariant.{
  Place, ZoneOk, IsValid, ZoneAt, Frame, Frame-trans, WithinLimit, zone-ZoneOk,
}
use tcmu_runner.Zbc.Commands.{Reply, sts_ok}
use tcmu_runner.Zbc.Write.{store, WriteState, Next, stop, next, settle_write}
use tcmu_runner.Zbc.Write.Zones.{Geometry, Frame-Geometry, Addressable, Frame-Addressable}
use tcmu_runner.Zbc.Write.Pointer.{Ready, Written, settle_write-Written}
use tcmu_runner.Zbc.Write.Bytes.{store-outside, stored_more}

-- What is assumed of the system call when it is asked for whole blocks. It writes at most the bytes that it
-- was asked for; and, a condition on the file that not every file system meets, no write is cut inside a
-- block: a result that is positive is of whole blocks.
pub record WritesBlocks (pwrite : ℕ → ℕ → Option ℕ) (lba_size : ℕ) : Type 0 where
  pub whole :
      (offset count n : ℕ)
      → count % lba_size ≡ 0
      → pwrite offset count ≡ some n
      → (0 < n) × (n ≤ count) × (n % lba_size ≡ 0)

-- What the command keeps of the device that it found.
pub record Intact (d0 d : ZbcDev) : Type 0 where
  pub valid : IsValid d
  pub geometry : Geometry d
  pub limit : WithinLimit d
  pub frame : Frame d0 d

-- The type of a zone, seen from its place.
abbrev is_type_req : Place → Bool
is_type_req x = elim x.type [ seqwrite_req ↦ true | _ ↦ false ]

not_full : {z : Zone} → Ready z → ZoneOk z → is_full z ≡ false
not_full (inl c) ok = ground (arith, ok.pointer)
not_full (inr o) ok = ground arith

module _ (meta_size : ℕ) (s0 : WriteState) (i : ℕ) where
  abbrev block : ℕ
  block = s0.dev.lba_size

  -- The loop after `done` blocks, in zone `i`, whose descriptor is now `z`.
  pub record Running (done : ℕ) (s : WriteState) (z : Zone) : Type 0 where
    pub intact : Intact s0.dev s.dev
    pub addressable : Addressable meta_size s.dev
    pub at : ZoneAt s.dev i z
    pub lba_now : s.lba ≡ s0.lba + done
    pub nr_now : s.nr_lbas + done ≡ s0.nr_lbas
    pub above : z.start ≤ s0.lba
    pub inside : s.lba + s.nr_lbas ≤ z.start + z.len
    pub pointer : is_seq_req z ≡ true → s.lba ≡ z.wp
    pub writable : 0 < s.nr_lbas → is_full z ≡ false
    pub room : length (windows s.iovec) ≡ s.nr_lbas * block
    pub rest : windows s.iovec ≡ drop (done * block) (windows s0.iovec)
    pub stored :
        (k : ℕ)
        → k < done * block
        → s.disk (meta_size + s0.lba * block + k) ≡ get_or (windows s0.iovec) k 0
    pub outside :
        (o : ℕ)
        → (o < meta_size + s0.lba * block) ⊎ (meta_size + s0.lba * block + done * block ≤ o)
        → s.disk o ≡ s0.disk o

  -- How a round can end.
  pub data Round (done : ℕ) : Next → Type 0 where
    stops :
        {r : Reply} {s' : WriteState} → r ≢ sts_ok → Intact s0.dev s'.dev → Round done (stop r s')
    goes_on :
        {s' : WriteState} (more : ℕ) (z : Zone)
        → 0 < more
        → Running (done + more) s' z
        → Round done (next s')

  after-Intact :
      (s : WriteState) {z : Zone} (more : ℕ)
      → Intact s0.dev s.dev
      → Written s.dev i s.lba more z (settle_write s.dev i s.lba more)
      → Intact s0.dev (settle_write s.dev i s.lba more)
  after-Intact s more t w = record {
    valid = w.keeps.valid;
    geometry = Frame-Geometry t.geometry w.keeps.frame w.keeps.valid.sized;
    limit = omega (arith, t.limit, w.keeps.imp, w.keeps.exp, w.keeps.frame.nr_open_zones);
    frame = Frame-trans t.frame w.keeps.frame;
  }

  -- Once the zone can take the data.
  pub transfer-next :
      (done : ℕ) (s : WriteState) (z : Zone) (v : Iovec) (vs : List Iovec) (n more consumed : ℕ)
      (ws : List Iovec)
      → Running done s z
      → s.iovec ≡ v ∷ vs
      → Ready z
      → n ≡ more * s.dev.lba_size
      → 0 < more
      → more ≤ s.nr_lbas
      → n ≤ iov_len v
      → Sought (v ∷ vs) n consumed ws
      → (z' : Zone) × Running
          (done + more)
          (record s {
            dev = settle_write s.dev i s.lba more;
            disk = store s.disk (meta_size + s.lba * s.dev.lba_size) (take n v.window);
            iovec = drop consumed ws;
            lba = s.lba + more;
            nr_lbas = s.nr_lbas - more;
          })
          z'
  transfer-next done s z v vs n more consumed ws r iv ready counted p le fits sought = (
    w.zone,
    record {
      intact = after-Intact s more r.intact w;
      addressable = Frame-Addressable meta_size w.keeps.frame r.addressable;
      at = w.now;
      lba_now = omega (arith, r.lba_now);
      nr_now = omega (arith, r.nr_now);
      above = omega (arith, start, r.above);
      inside = omega (arith, start, len, r.inside);
      pointer = λ q. sym (w.pointer (sym (ap (λ x. is_type_req x) w.same_place) ∙ q));
      writable =
          λ q. not_full (w.ready (omega (arith, r.inside))) (zone-ZoneOk i w.keeps.valid w.now);
      room = ap length sought.left ∙ length-drop n (windows (v ∷ vs)) ∙ less_mul;
      rest =
          sought.left
          ∙ ap (λ x. drop n (windows x)) (sym iv)
          ∙ ap (drop n) r.rest
          ∙ drop-drop n (done * block) (windows s0.iovec)
          ∙ ap (λ x. drop x (windows s0.iovec)) (sym bytes);
      stored = λ k h.
          ap (λ x. store s.disk x (take n v.window) (meta_size + s0.lba * block + k)) offset
          ∙ stored_more s.disk (meta_size + s0.lba * block) (done * block) n (windows s0.iovec)
              v.window (windows vs) fits (ap windows (sym iv) ∙ r.rest) r.stored k
              (omega (arith, bytes));
      outside = λ o h.
          store-outside s.disk (meta_size + s.lba * s.dev.lba_size) o (take n v.window)
            (written o h)
          ∙ r.outside o (before o h);
    },
  )
    where
      w : Written s.dev i s.lba more z (settle_write s.dev i s.lba more)
      w =
          settle_write-Written i s.lba more r.intact.valid r.at ready
            (omega (arith, r.above, r.lba_now)) (omega (arith, r.inside)) r.pointer

      e : n ≡ more * block
      e = counted ∙ ap (λ x. more * x) r.intact.frame.lba_size

      start : w.zone.start ≡ z.start
      start = ap (λ x. x.start) w.same_place

      len : w.zone.len ≡ z.len
      len = ap (λ x. x.len) w.same_place

      bytes : (done + more) * block ≡ done * block + n
      bytes = add_mul done more block ∙ ap (λ x. done * block + x) (sym e)

      offset : meta_size + s.lba * s.dev.lba_size ≡ meta_size + s0.lba * block + done * block
      offset = omega (
        arith,
        ap (λ x. s.lba * x) r.intact.frame.lba_size,
        ap (λ x. x * block) r.lba_now,
        add_mul s0.lba done block,
      )

      less_mul : length (windows (v ∷ vs)) - n ≡ (s.nr_lbas - more) * block
      less_mul = omega (
        arith,
        ap (λ x. length (windows x)) iv,
        r.room,
        e,
        add_mul (s.nr_lbas - more) more block,
        ap (λ x. x * block) {x = s.nr_lbas - more + more} {y = s.nr_lbas} (omega arith),
      )

      written :
          (o : ℕ)
          → (o < meta_size + s0.lba * block)
            ⊎ (meta_size + s0.lba * block + (done + more) * block ≤ o)
          → (o < meta_size + s.lba * s.dev.lba_size)
            ⊎ (meta_size + s.lba * s.dev.lba_size + length (take n v.window) ≤ o)
      written o (inl h) = inl (omega (arith, offset))
      written o (inr h) = inr (omega (arith, offset, bytes, length-take n v.window))

      before :
          (o : ℕ)
          → (o < meta_size + s0.lba * block)
            ⊎ (meta_size + s0.lba * block + (done + more) * block ≤ o)
          → (o < meta_size + s0.lba * block) ⊎ (meta_size + s0.lba * block + done * block ≤ o)
      before o (inl h) = inl h
      before o (inr h) = inr (omega (arith, bytes))
