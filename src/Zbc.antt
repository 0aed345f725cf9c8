-- ===== src/Zbc.antt =====
-- The emulated zoned block device, file_zbc.c: its state and the operations on one zone.
-- The C array `zones` is a list, a pointer into it an index; the __u8 flags `non_seq` and `reset` are
-- truth values; the counters are unsigned int and wrap at 2 ^ 32, sectors are __u64 and wrap at 2 ^ 64.
pub mod Invariant
pub mod Commands
pub mod Write
pub mod Format
pub mod Report
pub mod Read
mod Tests
use tcmu_runner.Prelude.{
  ℕ, zero, suc, ◌+◌, ◌-◌, ◌%◌, ◌^◌, Bool, true, false, not, ◌&&◌, ◌||◌, List, Option, none, some,
  get_elem?, set, leb, ◌==◌, if◌then◌else◌,
}

-- `enum zbc_dev_model`
pub data DevModel : Type 0 where
  ha hm : DevModel

-- `enum zbc_zone_type`; other bytes can only come from a damaged file.
pub data ZoneType : Type 0 where
  conventional seqwrite_req seqwrite_pref : ZoneType
  other_type : ℕ → ZoneType

-- `enum zbc_zone_cond`, likewise.
pub data ZoneCond : Type 0 where
  not_wp empty imp_open exp_open closed readonly full offline : ZoneCond
  other_cond : ℕ → ZoneCond

-- `struct zbc_zone`
pub record Zone : Type 0 where
  pub start : ℕ
  pub len : ℕ
  pub wp : ℕ
  pub type : ZoneType
  pub cond : ZoneCond
  pub non_seq : Bool
  pub reset : Bool

-- The part of `struct zbc_dev` that the commands use.
pub record ZbcDev : Type 0 where
  pub model : DevModel
  pub capacity : ℕ
  pub lba_size : ℕ
  pub zone_size : ℕ
  pub zones : List Zone
  pub nr_zones : ℕ
  pub nr_conv_zones : ℕ
  pub nr_open_zones : ℕ
  pub nr_imp_open : ℕ
  pub nr_exp_open : ℕ

-- The macros `zbc_zone_*`.
abbrev pub is_conv : Zone → Bool
is_conv z = elim z.type [ conventional ↦ true | _ ↦ false ]

abbrev pub is_seq_req : Zone → Bool
is_seq_req z = elim z.type [ seqwrite_req ↦ true | _ ↦ false ]

abbrev pub is_seq_pref : Zone → Bool
is_seq_pref z = elim z.type [ seqwrite_pref ↦ true | _ ↦ false ]

abbrev pub is_seq : Zone → Bool
is_seq z = not (is_conv z)

abbrev pub is_empty : Zone → Bool
is_empty z = elim z.cond [ empty ↦ true | _ ↦ false ]

abbrev pub is_full : Zone → Bool
is_full z = elim z.cond [ full ↦ true | _ ↦ false ]

abbrev pub is_imp_open : Zone → Bool
is_imp_open z = elim z.cond [ imp_open ↦ true | _ ↦ false ]

abbrev pub is_exp_open : Zone → Bool
is_exp_open z = elim z.cond [ exp_open ↦ true | _ ↦ false ]

abbrev pub is_open : Zone → Bool
is_open z = is_imp_open z || is_exp_open z

abbrev pub is_closed : Zone → Bool
is_closed z = elim z.cond [ closed ↦ true | _ ↦ false ]

-- Arithmetic of the C types.
abbrev pub inc32 : ℕ → ℕ
inc32 n = (n + 1) % 2 ^ 32

abbrev pub dec32 : ℕ → ℕ
dec32 n = (n + 2 ^ 32 - 1) % 2 ^ 32

abbrev pub add32 : ℕ → ℕ → ℕ
add32 a b = (a + b) % 2 ^ 32

abbrev pub add64 : ℕ → ℕ → ℕ
add64 a b = (a + b) % 2 ^ 64

-- To work on `zones[i]`. The code forms pointers to zones of the array only.
abbrev pub with_zone : ZbcDev → ℕ → (Zone → ZbcDev) → ZbcDev
with_zone d i f = elim (get_elem? d.zones i) [ none ↦ d | some z ↦ f z ]

abbrev pub put_zone : ZbcDev → ℕ → Zone → ZbcDev
put_zone d i z = record d { zones = set d.zones i z }

-- `__zbc_close_zone`
unfoldable pub do_close_zone : ZbcDev → ℕ → ZbcDev
do_close_zone d i = with_zone d i λ z.
    if is_conv z
    then d
    else if not (is_open z)
    then d
    else let d' =
        if is_imp_open z
        then record d { nr_imp_open = dec32 d.nr_imp_open }
        else record d { nr_exp_open = dec32 d.nr_exp_open } in
      put_zone d' i (record z { cond = if z.wp == z.start then empty else closed })

abbrev pub imp_open_at : ZbcDev → ℕ → Bool
imp_open_at d i = elim (get_elem? d.zones i) [ none ↦ false | some z ↦ is_imp_open z ]

-- The loop of `__zbc_close_imp_open_zone` from `i` on.
unfoldable pub close_imp_from : ℕ → ℕ → ZbcDev → ZbcDev
close_imp_from zero i d = d
close_imp_from (suc n) i d = elim (imp_open_at d i) [
  | true ↦ do_close_zone d i
  | false ↦ close_imp_from n (i + 1) d
]

-- `__zbc_close_imp_open_zone`
unfoldable pub do_close_imp_open_zone : ZbcDev → ZbcDev
do_close_imp_open_zone d = close_imp_from d.nr_zones 0 d

-- The end of `__zbc_open_zone`, after an implicitly open zone was closed.
unfoldable pub mark_open : ZbcDev → ℕ → Bool → ZbcDev
mark_open d i explicit = with_zone d i λ z.
    if explicit
    then put_zone (record d { nr_exp_open = inc32 d.nr_exp_open }) i (record z { cond = exp_open })
    else put_zone (record d { nr_imp_open = inc32 d.nr_imp_open }) i (record z { cond = imp_open })

abbrev pub make_room : ZbcDev → ZbcDev
make_room d =
    if leb d.nr_open_zones (add32 d.nr_imp_open d.nr_exp_open) then do_close_imp_open_zone d else d

-- `__zbc_open_zone`
unfoldable pub do_open_zone : ZbcDev → ℕ → Bool → ZbcDev
do_open_zone d i explicit = with_zone d i λ z.
    if (explicit && is_exp_open z) || (not explicit && is_imp_open z)
    then d
    else mark_open (make_room d) i explicit

-- The assignments of `__zbc_finish_zone`
unfoldable pub mark_full : ZbcDev → ℕ → ZbcDev
mark_full d i = with_zone d i λ z.
    put_zone d i
      (record z { wp = add64 z.start z.len; cond = full; non_seq = false; reset = false })

-- `__zbc_finish_zone`; the flag is the argument `empty`.
unfoldable pub do_finish_zone : ZbcDev → ℕ → Bool → ZbcDev
do_finish_zone d i also_empty = with_zone d i λ z.
    if is_conv z
    then d
    else if is_closed z || is_open z || (also_empty && is_empty z)
    then mark_full (if is_open z then do_close_zone d i else d) i
    else d

-- The assignments of `__zbc_reset_wp`
unfoldable pub mark_empty : ZbcDev → ℕ → ZbcDev
mark_empty d i =
    with_zone d i
      λ z. put_zone d i (record z { wp = z.start; cond = empty; non_seq = false; reset = false })

-- `__zbc_reset_wp`
unfoldable pub do_reset_wp : ZbcDev → ℕ → ZbcDev
do_reset_wp d i =
    with_zone d i
      λ z. if is_conv z then d else mark_empty (if is_open z then do_close_zone d i else d) i
