-- ===== src/Sense.antt =====
-- Fixed-format sense data, api.c: `__tcmu_sense_set_data`, `tcmu_sense_set_data`,
-- `tcmu_sense_set_key_specific_info` and `tcmu_sense_set_info`. The buffer is the list of its bytes.
mod Fields
mod Tests
use tcmu_runner.Prelude.{ℕ, ◌+◌, ◌*◌, ◌/◌, ◌%◌, ◌^◌, List, [], ◌∷◌, ◌++◌, drop, replicate, set}
use tcmu_runner.Cdb.{byte}

-- `SENSE_BUFFERSIZE`
abbrev pub sense_buffersize : ℕ
sense_buffersize = 96

-- `b |= 0x70` and `b |= 0x80` on a byte.
abbrev pub or_70 : ℕ → ℕ
or_70 b = b / 2 ^ 7 * 2 ^ 7 + 0x70 + b % 2 ^ 4

abbrev pub or_80 : ℕ → ℕ
or_80 b = 0x80 + b % 2 ^ 7

-- `memset(sense_buf, 0, 18)`
abbrev pub clear_18 : List ℕ → List ℕ
clear_18 buf = replicate 18 0 ++ drop 18 buf

-- `__tcmu_sense_set_data`
unfoldable pub raw_sense_set_data : List ℕ → ℕ → ℕ → List ℕ
raw_sense_set_data buf key asc_ascq =
    let a = set buf 0 (or_70 (byte buf 0)) in
    let b = set a 2 key in
    let c = set b 7 0xa in let d = set c 12 (asc_ascq / 2 ^ 8 % 256) in set d 13 (asc_ascq % 256)

-- `tcmu_sense_set_data`: the buffer behind it.
unfoldable pub sense_set_data : ℕ → ℕ → List ℕ
unfolding raw_sense_set_data
sense_set_data key asc_ascq = raw_sense_set_data (replicate sense_buffersize 0) key asc_ascq

-- `tcmu_sense_set_key_specific_info`
unfoldable pub sense_set_key_specific_info : List ℕ → ℕ → List ℕ
sense_set_key_specific_info buf info =
    let a = set (set (clear_18 buf) 16 (info / 2 ^ 8 % 256)) 17 (info % 256) in
    set a 15 (or_80 (byte a 15))

-- `tcmu_sense_set_info`
unfoldable pub sense_set_info : List ℕ → ℕ → List ℕ
sense_set_info buf info =
    let a = set (set (clear_18 buf) 3 (info / 2 ^ 24 % 256)) 4 (info / 2 ^ 16 % 256) in
    let b = set (set a 5 (info / 2 ^ 8 % 256)) 6 (info % 256) in set b 0 (or_80 (byte b 0))
