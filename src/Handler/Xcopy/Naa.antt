-- ===== src/Handler/Xcopy/Naa.antt =====
-- The names of devices in an EXTENDED COPY: `char_to_hex` of scsi.c, and `xcopy_gen_naa_ieee` and
-- `xcopy_locate_udev` of tcmur_cmd_handler.c.
use tcmu_runner.Prelude.{
  ℕ, ◌+◌, ◌*◌, ◌-◌, ◌^◌, List, [], ◌∷◌, Bool, true, false, ◌&&◌, Option, none, some, set, ltb, leb,
  ◌==◌, if◌then◌else◌,
}
use tcmu_runner.Cdb.{byte}
use tcmu_runner.Handler.{Device}

-- A device of the library's context with the text of its unit serial number, which
-- `tcmu_cfgfs_dev_get_wwn` reads from configfs; `none` is a failed read.
pub record Target : Type 0 where
  pub device : Device
  pub serial : Option (List ℕ)

-- `char_to_hex`
unfoldable pub char_to_hex : ℕ → Option ℕ
char_to_hex c =
    if leb b'0' c && leb c b'9'
    then some (c - b'0')
    else if leb b'a' c && leb c b'f'
    then some (c - b'a' + 10)
    else if leb b'A' c && leb c b'F'
    then some (c - b'A' + 10)
    else none

-- One character of the loop of `xcopy_gen_naa_ieee`: the bytes, `ind` and `next`. The half of the byte
-- that is or-ed in was 0.
unfoldable pub put_digit : ℕ → List ℕ × ℕ × Bool → List ℕ × ℕ × Bool
put_digit val (wwn, ind, next) =
    if next
    then (set wwn ind (byte wwn ind + val), ind + 1, false)
    else (set wwn ind (val * 2 ^ 4), ind, true)

unfoldable pub naa_loop : List ℕ → List ℕ × ℕ × Bool → List ℕ
unfolding char_to_hex put_digit
naa_loop [] (wwn, ind, next) = wwn
naa_loop (c ∷ cs) (wwn, ind, next) = naa_loop cs (
    if ltb ind 16
    then (elim (char_to_hex c) [
      | none ↦ (wwn, ind, next)
      | some val ↦ put_digit val (wwn, ind, next)
    ])
    else (wwn, ind, next))

-- `xcopy_gen_naa_ieee`
unfoldable pub gen_naa_ieee : Target → Option (List ℕ)
unfolding naa_loop
gen_naa_ieee t = elim t.serial [
  | none ↦ none
  | some p ↦ some (
      naa_loop p
        (0x60 ∷ 0x01 ∷ 0x40 ∷ 0x50 ∷ 0 ∷ 0 ∷ 0 ∷ 0 ∷ 0 ∷ 0 ∷ 0 ∷ 0 ∷ 0 ∷ 0 ∷ 0 ∷ 0 ∷ [], 3, true))
]

-- `memcmp` of two lists of bytes, as the test for equality.
unfoldable pub same_bytes : List ℕ → List ℕ → Bool
same_bytes [] [] = true
same_bytes [] (y ∷ ys) = false
same_bytes (x ∷ xs) [] = false
same_bytes (x ∷ xs) (y ∷ ys) = x == y && same_bytes xs ys

-- `xcopy_locate_udev`
unfoldable pub locate_udev : List Target → List ℕ → Option Target
unfolding gen_naa_ieee same_bytes
locate_udev [] dev_wwn = none
locate_udev (t ∷ ts) dev_wwn =
    let rest = locate_udev ts dev_wwn in
    elim (gen_naa_ieee t) [
      | none ↦ none
      | some wwn ↦ if same_bytes wwn dev_wwn then some t else rest
    ]
