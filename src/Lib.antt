-- ===== src/Lib.antt =====
-- tcmu-runner: a daemon and library that serve SCSI commands for LIO's user space backstores.
--
-- A command arrives as a CDB (a few bytes) and a vector of buffers. Helpers of api.c read the CDB and
-- move data between the buffers; a handler for a kind of backstore, here the emulated zoned disk of
-- file_zbc.c, looks up the zones that the command names, changes their descriptors, moves data to or
-- from a file and answers with a status or with sense data.
--
-- Prelude: Boolean tests on the native numbers, lists with `get_elem?`, `set`, `take` and `drop`, the
--   sum of a weight over a list, and `for_range`, the C loop `for (i = 0; i < n; i++)`.
-- Cdb: api.c (`tcmu_cdb_get_length`, `tcmu_cdb_get_lba`, `tcmu_cdb_get_xfer_length`) and
--   be_byteshift.h. A CDB is a list of bytes; a read past its end gives 0.
-- Iovec: api.c (`tcmu_iovec_*`, `tcmu_memcpy_into_iovec`, `tcmu_memcpy_from_iovec`,
--   `tcmu_cmd_seek`). A vector is two byte lists, what `iov_base` has passed and what is left, so that
--   moving the base is visible and the buffer behind it too.
-- Sense: api.c (`tcmu_sense_set_data` and its companions), the bytes of fixed-format sense data.
-- Zbc: file_zbc.c. `ZbcDev` and `Zone` are `struct zbc_dev` and `struct zbc_zone`; a pointer to a zone
--   is its index; `do_close_zone`, `do_open_zone`, `do_finish_zone` and `do_reset_wp` are the functions
--   whose names start with `__zbc`.
--   Zbc/Invariant: exact counters of open zones, and where each write pointer lies.
--   Zbc/Format: `zbc_format_meta` and `zbc_init_meta`, with the success of the calls on the file as a parameter.
--   Zbc/Commands: ZBC OUT (`zbc_open_zone`, `zbc_close_zone`, `zbc_finish_zone`, `zbc_reset_wp`).
--   Zbc/Write: WRITE (`zbc_check_rdwr`, `zbc_write_check_zones`, `zbc_write`), with the system call
--   `pwrite` as a parameter. Zbc/Read: READ (`__zbc_read`, `zbc_read`), with `pread` as a parameter.
--   Zbc/Report: REPORT ZONES (`zbc_should_report_zone`, `zbc_report_zones`, `zbc_in`).
--
-- Status: the return codes of libtcmu_common.h.
-- Aio: tcmur_aio.c, the count of outstanding commands and of wake-ups of the ring's processing; its child
--   Protocol is `aio_command_finish` of tcmur_cmd_handler.c as the steps of any number of threads, with any
--   number of threads in `aio_wait_for_empty_queue`.
-- Device: tcmur_device.c, the recovery of a device and its lock. Calls of the handler, waits and other
--   threads are a parameter, `Calls`, that may change the whole state where the code does not hold
--   `state_lock`.
--   Device/Recovery, Device/Endings and Device/Locking: reopening and the lock.
-- Alua: alua.c, the states of the port groups, the transitions with the device's lock, and the commands
--   REPORT and SET TARGET PORT GROUPS. The kernel's settings are a parameter.
--   Alua/Grant: explicit transitions. Alua/Sync: the states that the lock's tag implies. Alua/Report: the
--   reported data. Alua/Threads: implicit transitions as steps.
--
-- Handler: tcmur_cmd_handler.c, the commands that the runner splits into requests to a backstore; sizes in
--   blocks and bytes of libtcmu.c. The results of the allocations, of `aio_request_schedule` and of the
--   requests are parameters.
--   Handler/Covers: what it means that requests are of the consecutive blocks of a range.
--   Handler/Unmap: `align_and_split_unmap`, `handle_unmap_internal`, `handle_unmap`. Its child Granules has the
--   alignment 0 that main.c sets for every device, and Finish has
--   `struct unmap_state` and `unmap_put` as steps of the threads that submit and complete requests.
--   Handler/WriteSame: `handle_writesame` and the chain of writes of `handle_writesame_cbk`.
--   Handler/Compare: `handle_caw` and `handle_write_verify` with their callbacks, as the calls that they make.
--   Handler/Xcopy: `handle_xcopy` and the chain of `handle_xcopy_read_cbk` and `handle_xcopy_write_cbk`; its
--   children Naa and Parse have `xcopy_parse_parameter_list` and what it calls.
--
-- Qcow: qcow.c, the cache of L2 tables (`l2_cache_lookup`, `l2_table_update`) and the indices of an offset;
--   Qcow/Refines: the cache against the file's tables; what `pwrite` of an entry does is a parameter. Qcow/Refcount: `get_refcount`, `set_refcount`.
--
-- Counters are unsigned int and wrap at 2 ^ 32, sectors and sizes wrap at 2 ^ 64; the wrap-around is
-- written out. The loops over the zones run over their number. The two loops of WRITE and that of READ
-- take one unit of fuel a round, and each round of a transfer that is on the device takes at least one
-- block, so that one unit more than there are blocks is enough.
-- The chains of WRITE SAME and EXTENDED COPY take a unit a request, and each is of one block at least. The
-- loop that splits an UNMAP does so too, but for a first request that may be of no block; the loop over the
-- descriptors of an UNMAP takes a unit a descriptor and one to end.
-- The loop that reopens a device takes a unit of fuel an attempt, and one to end.
--
-- Not modelled: log messages and the mapping of the metadata file into memory, which are I/O; of
-- file_zbc.c INQUIRY, MODE SENSE, READ CAPACITY, FLUSH, the check of found metadata and the
-- configuration string, which no modelled part calls; the queue of work of tcmur_aio.c; the reading of
-- the groups from configfs in alua.c; and the other files of the repository: scsi.c; of the command
-- handler FORMAT UNIT and the dispatch; the ring of the kernel interface; of qcow.c the opening of
-- images, the allocation of clusters and the transfers of data; the other backstores, and the daemon.
pub mod Prelude
pub mod Aio
pub mod Alua
pub mod Cdb
pub mod Device
pub mod Handler
pub mod Iovec
pub mod Qcow
pub mod Sense
pub mod Status
pub mod Zbc
