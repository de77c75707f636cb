-- ===== src/Lib.antt =====
-- The middle layer of the GPU/SSD data path: the coalescing module of control/nvmevirt, which takes
-- node ids from the rings of src/nvmev_l1.h, groups them by flash page, reads each page once from a
-- backend and delivers the rows of the waiting requests.
--
-- The parts, in the order of a request's way through them:
--   Base      shared names: Boolean tests, arrays, lists, machine words (`% 2 ^ w` written out) and bits.
--   Ring      `struct l1_ring`: `l1_push_req` and `l1_pop_cqe` of src/nvmev_l1.h; `pop_req`, `rq_empty` and
--             `push_cqe` of control/nvmevirt/coalesce.c. Ring/Producers has each access of the producers and
--             of the consumer as a step of its own, so that any number of calls interleave.
--   Cookie    CO_COOKIE and CO_CK_ of control/nvmevirt/coalesce_backend.h; the GS_ words of coalesce.c.
--   Shard     `struct co_shard` with its pools: `pend_alloc`, `pend_free`, `waiter_alloc`,
--             `waiter_free_chain`. Shard/Pools has the invariant of the pools.
--   Middle    the laps of a shard's threads over the backend's and the front end's vtables (`Ops`):
--             Middle/Group (`co_sort_window`; Middle/Radix proves the radix sort), Middle/Issue
--             (`co_flush_issue`), Middle/Complete (`nvmev_co_backend_done`, `co_timeout_scan`,
--             `co_force_complete`), Middle/Reap (`co_reap`, `co_gpu_reclaim`, `co_drain_returns`),
--             Middle/Bucket (`co_bucket_lap`), Middle/Lap (`co_reaper_lap`, `co_issue_lap`,
--             `co_shard_idle`), Middle/Thread (`co_consumer`, `co_reaper`). Middle/Geometry has where rows
--             and pages lie, Middle/Keeps what the phases keep: the books of a shard, in which every
--             slot and every waiter node is in one place and every request is counted.
--   Direct    control/nvmevirt/backend_direct.c: the queue pair of a lane, with the device as an actor that
--             posts the submitted commands in any order; Direct/Setup creates and destroys the pairs,
--             Direct/Poll has the books of the command ids and what a poll reports, Direct/Doorbells
--             where the doorbells lie.
--   Emulated  control/nvmevirt/backend_model.c: the two providers that copy pages out of DRAM, one at once
--             and one after a delay that Emulated/Timers shows is kept.
--   GpuMem    control/nvmevirt/gpu_mem.c: the registered regions of GPU memory and their lookup table.
--             GpuMem/Register has the operations with their errors, GpuMem/Search and GpuMem/Table
--             the lookup, GpuMem/Pages the query of a region's pages, GpuMem/Automap the cache of
--             automatic mappings, GpuMem/Exit the unload.
--   Setup     the loading of the middle layer, in control/nvmevirt/coalesce.c: the geometry of
--             `nvmev_coalesce_init` with `co_shard_pools_alloc` and `co_mmap`; Setup/Init has what loading
--             allocates, starts and registers, and `nvmev_coalesce_exit`.
--   Channel   control/nvmevirt/channel_model.c: the credits of a flash channel's time slots, the one part of the
--             NVMe device model that is modelled.
--   Client    src/isefs.c: `isefs_fetch`, `isefs_poll` and `isefs_fetch_wait` over an interface of the
--             rings; Client/Address is the way from a row to its bus address and its shard.
--
-- State is explicit: an operation maps a shard, its counters and the outside world `E` to new ones.
-- A backend, a front end, the clock and the kernel's `sort` are fields of `Ops E`; a thread's turns
-- are a list with the value of `coalesce_enable` in each. Every C integer is a natural number with its
-- wrap-around written out; an array that the code never indexes out of its allocation is a function
-- of the index.
--
-- Fuel: a walk over a page's waiters has the size of the arena, which a chain without repeats cannot
-- exceed; the issue loop has the number of entries in the window, of which each round issues at
-- least one; a sweep has the number of slots; a probe has the size of the table. `admin_wait` has the
-- 500000 polls of the source; a binary search has one step for each entry and one more; a poll has
-- one turn for each entry that may complete and one for its last test; a transfer has one turn for
-- each time slot; the inner loop of
-- `isefs_fetch_wait` has one turn for each request that may be outstanding.
--
-- Not modelled: the ioctls and the procfs file of the middle layer; the PCI
-- bring-up of a controller, the self-test and the init and exit entries of the direct backend; the
-- text of the procfs files of gpu_mem.c; the opening and closing of the device and `set_dst` in the
-- client; the block-layer backend, which only calls the kernel; the vector copies of gpu_memcpy.c;
-- and the rest of the NVMe device model of control/nvmevirt, which the data path does not use.
pub mod Base
pub mod Cookie
pub mod Ring
pub mod Shard
pub mod Middle
pub mod Direct
pub mod Emulated
pub mod GpuMem
pub mod Client
pub mod Setup
pub mod Channel
