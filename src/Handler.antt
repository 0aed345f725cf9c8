-- ===== src/Handler.antt =====
-- The command handler of the runner, tcmur_cmd_handler.c: the checks of a command's range, and the
-- sizes in blocks and bytes of libtcmu.c. UNMAP, WRITE SAME and EXTENDED COPY are in the children.
-- The functions of the other files that they call (the allocation, the scheduling of a request, the
-- handler) give their results as arguments.
mod Ranges
mod Bits
mod Sizes
mod Covers
pub mod Unmap
pub mod WriteSame
pub mod Xcopy
pub mod Compare
mod Tests
use tcmu_runner.Prelude.{
  ℕ, ◌+◌, ◌*◌, ◌-◌, ◌/◌, ◌%◌, ◌^◌, List, Bool, ◌||◌, not, ltb, ◌==◌, if◌then◌else◌,
}
use tcmu_runner.Status.{Status, ok, hw_err, range, is_ok}
use tcmu_runner.Cdb.{cdb_get_lba}

-- What the functions read of `struct tcmu_device`.
pub record Device : Type 0 where
  pub block_size : ℕ
  pub block_size_shift : ℕ
  pub num_lbas : ℕ
  pub max_xfer_len : ℕ
  pub max_unmap_len : ℕ
  pub opt_unmap_gran : ℕ
  pub unmap_gran_align : ℕ
  pub split_unmaps : Bool
  pub opt_xcopy_rw_len : ℕ

-- `tcmu_lba_to_byte`
unfoldable pub lba_to_byte : Device → ℕ → ℕ
lba_to_byte d lba = lba * 2 ^ d.block_size_shift % 2 ^ 64

-- `tcmu_byte_to_lba`
unfoldable pub byte_to_lba : Device → ℕ → ℕ
byte_to_lba d bytes = bytes / 2 ^ d.block_size_shift

-- `check_lbas`
unfoldable pub check_lbas : Device → ℕ → ℕ → Status
check_lbas d start_lba lba_cnt =
    let end = (start_lba + lba_cnt) % 2 ^ 64 in
    if ltb d.num_lbas end || ltb end start_lba then range else ok

-- `check_iovec_length`, given the length of the vector.
unfoldable pub check_iovec_length : Device → ℕ → ℕ → Status
unfolding lba_to_byte
check_iovec_length d iov_length sectors =
    if not (iov_length == lba_to_byte d sectors) then hw_err else ok

-- `check_lba_and_length`
unfoldable pub check_lba_and_length : Device → List ℕ → ℕ → ℕ → Status
unfolding check_iovec_length check_lbas
check_lba_and_length d cdb iov_length sectors =
    let ret = check_iovec_length d iov_length sectors in
    if is_ok ret then check_lbas d (cdb_get_lba cdb) sectors else ret
