-- ===== src/Lib.antt =====
-- memif: memory move requests between user code and the kernel, over shared pages.
--
-- User code and the kernel share a few pages, the region (libsmm/mig.h). It has an array of
-- descriptors, each one a request to move memory; a free list of descriptors; and three colored
-- queues: requests, issued requests and completed ones. All are lock-free, built on
-- compare-and-swap of one 64-bit link (libsmm/migqueue.c). The color of the request queue tells who
-- has to flush it: the user by a system call, or the kernel. A user puts a request into the queue
-- (libsmm/migusr.c) and, if the queue is in the user's color, writes to the file. The driver
-- (migrate-x86/migrate-x86.c) then moves all requests on to the issued queue, turns the color, and
-- starts the first transfer. Its interrupt completes that request and schedules a kernel thread,
-- which serves the rest and turns the color back.
--
-- Desc: libsmm/mig.h, `mig_desc_ptr` (DescPtr) and `mig_desc` (Desc), with the bit fields of the two
--   words and the macros on addresses. A value of w bits is a ℕ, with its wrap-around written out.
-- Region: `mig_region`, `index_to_desc`, `desc_to_index`, and the loads, stores and
--   compare-and-swaps of links. A pointer to a descriptor is its index. Region/Run has the runs of
--   the code: a result and a state, `bug` where an assertion or BUG() stops it, `spinning` where a
--   loop uses up its fuel. Region/View has the abstract view: who owns each descriptor, and the
--   cells of the free list and of the queues; Region/Cells, Region/Nodes and Region/Swing its lemmas.
-- FreeList: `freelist_add` and `freelist_remove`; FreeList/Threads has their accesses to shared
--   memory as steps of any number of threads. Queue: `migqueue_create`, `migdesc_replicate`,
--   `migqueue_set_color_if_empty`, `mig_enqueue`, `mig_dequeue`, `migqueue_color` and
--   `migqueue_is_empty`; Queue/Threads has the accesses of `mig_enqueue` as steps of any number of
--   threads. Init: `freelist_init` and `init_migregion`.
-- Driver: migrate-x86/migrate-x86.c. Driver/Flush has `user_flush` and `dma_callback_kthread`,
--   Driver/Work has `kernel_flush_work`, Driver/Files has `if_write`, `if_poll`, `mmap_fault`,
--   `test_fill_queue` and `test_empty_queue`, Driver/Copy has `issue_one_desc_copy`,
--   Driver/Migrate `issue_one_desc_mig`, Driver/Migrate/Install `install_new_pte`,
--   Driver/Migrate/Complete `dma_complete_one_mig`, Driver/Open has `if_open`, `if_close`,
--   `mmap_open`, `mmap_close` and the loading of the module, and Driver/Issue the call through
--   `issue_one_desc_func`. Driver/Batch has the other way to flush: one transfer for all requests,
--   `flush_single_qreq_noremap2`, its callback `dma_callback_noremap` and the callback's work
--   `dma_complete_work_noremap`. The other files below Driver have the proofs. The state is the region
--   and a trace of what is done to the outside.
-- User: libsmm/migusr.c, `memif_start_replication` and `memif_open`, with the system calls as
--   parameters.
-- Edma: libsmm/edma3.c, DMA from user space. Edma/Geometry has `get_xfer_geometry`, Edma/Channel
--   `edma3_allocate_channel_linked`, `edma3_free_channel` and `edma3_get_param_phys`, Edma/Gather
--   `preload_psets`, `edma3_start_gather_preloaded` and `edma3_wait_gather_preloaded`, Edma/Sized
--   `edma3_start_gather`, Edma/Repeat `edma3_start_xfer_multiple`,
--   Edma/Selfchain `edma3_start_xfer_multiple_selfchaining`, Edma/Single `edma3_start_xfer_once`,
--   `edma3_start_xfer_once1`, the waits for them and `edma3_check_xfer`. The driver EDMA3_DRV is the
--   record Drv of its calls, over a state of its own; in Edma/Repeat/Documented the record Account
--   says when it grants a channel. The counts and indices of a PSET have 16 bits.
-- Tests: small regions, and the inputs on which the theorems are applied.
--
-- The body of each compare-and-swap loop is a function of its own, a turn. But for the free list in
-- FreeList/Threads and `mig_enqueue` in Queue/Threads, where memory is sequentially consistent and
-- threads are interrupted between any two accesses, each operation runs without another thread
-- between its steps, but may start with a tail that lags behind, as other threads leave it. A free
-- list needs one turn; `mig_enqueue` one more than the nodes that the tail lags behind;
-- `mig_dequeue` two; the loops of the driver one more than the requests that are pending.
-- Uninitialised locals of the source (the color of `tmp` in `__freelist_add`, `tmp` in
-- `mig_enqueue`) are parameters. Log output, measurements and memory barriers are left
-- out, and the end mark that the driver writes to `pg_desc` behind the last page of a table.
--
-- The flush calls `issue_one_desc_copy` or `issue_one_desc_mig` through a pointer,
-- `dma_complete_one_mig` on each page, and the DMA engine for the status of a transfer. These are
-- the record Calls, and what is relied on is the hypothesis Behaves. The functions themselves are in
-- Driver/Copy and Driver/Migrate, with the memory manager and the DMA engine as the records Machine
-- and Mm; a migration has the pages that it touches and what it does to them as its state.
-- Not modelled: `flush_single_qreq` with the page migration `migrate_pages_ks2` and its callback,
-- the page migration taken over from Linux, several open files at a time, the address space of the
-- process, the driver with several channels, the opening of the DMA driver, and the code for other
-- boards.
pub mod Base
pub mod Desc
pub mod Region
pub mod FreeList
pub mod Queue
pub mod Init
pub mod Driver
pub mod Edma
pub mod User
pub mod Tests
