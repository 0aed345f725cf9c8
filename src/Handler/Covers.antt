-- ===== src/Handler/Covers.antt =====
-- Requests for consecutive blocks of a device.
use tcmu_runner.Prelude.{ℕ, ◌+◌, ◌-◌, ◌≤◌, ◌≡◌, ◌∙◌, refl, ap, List, [], ◌∷◌, arith}
use tcmu_runner.Handler.{Device, lba_to_byte}
use tcmu_runner.Handler.Sizes.{Fits, lba_to_byte-add, lba_to_byte-zero}
use tcmu_runner.Handler.Ranges.{Request, interval, bytes_of, bytes_of-cons, bytes_of-one}

-- The requests are of the first blocks of a range, byte by byte; of all of them when `Full` holds.
abbrev pub Covers : Device → ℕ → ℕ → List Request → Type 0 → Type 0
Covers d lba nlbas rs Full =
    (done : ℕ) × (done ≤ nlbas)
    × (bytes_of rs ≡ interval (lba_to_byte d lba) (lba_to_byte d done))
    × (Full → done ≡ nlbas)

-- A request for blocks.
abbrev pub blocks : Device → ℕ → ℕ → Request
blocks d lba lbas = record { offset = lba_to_byte d lba; length = lba_to_byte d lbas }

pub Covers-none :
    (d : Device) (lba nlbas : ℕ) (Full : Type 0) → (Full → nlbas ≡ 0) → Covers d lba nlbas [] Full
unfolding bytes_of
Covers-none d lba nlbas Full h =
    (0, omega arith, rw (lba_to_byte-zero d) refl, λ e. omega (arith, h e))

pub Covers-one :
    (d : Device) (lba nlbas lbas : ℕ) (Full : Type 0)
    → lbas ≤ nlbas
    → (Full → lbas ≡ nlbas)
    → Covers d lba nlbas (blocks d lba lbas ∷ []) Full
Covers-one d lba nlbas lbas Full l h =
    (lbas, l, bytes_of-one (lba_to_byte d lba) (lba_to_byte d lbas), h)

-- A request in front of those for the blocks behind it.
pub Covers-after :
    (d : Device) (lba nlbas lbas : ℕ) (rs : List Request) (Full : Type 0)
    → Fits d
    → lba + nlbas ≤ d.num_lbas
    → lbas ≤ nlbas
    → Covers d (lba + lbas) (nlbas - lbas) rs Full
    → Covers d lba nlbas (blocks d lba lbas ∷ rs) Full
Covers-after d lba nlbas lbas rs Full fits h l (done, small, eq, all) = (
  lbas + done,
  omega arith,
  rw (lba_to_byte-add d lbas done fits (omega arith)) goes_on,
  λ e. omega (arith, all e),
)
  where
    moved : bytes_of rs ≡ interval (lba_to_byte d lba + lba_to_byte d lbas) (lba_to_byte d done)
    moved =
        eq
        ∙ ap (λ x. interval x (lba_to_byte d done)) (lba_to_byte-add d lba lbas fits (omega arith))

    goes_on :
        bytes_of (blocks d lba lbas ∷ rs)
        ≡ interval (lba_to_byte d lba) (lba_to_byte d lbas + lba_to_byte d done)
    goes_on = bytes_of-cons (lba_to_byte d lba) (lba_to_byte d lbas) (lba_to_byte d done) rs moved
