-- ===== src/Lib.antt =====
-- A verification library for FLAX, an NVMe device emulator with computational storage.
--
-- The device keeps the data of its in-device programs in SLM (subsystem-local memory). A host
-- command allocates a range of it (`src/buddy.c` behind `src/csd_slm.c`), a load task fills it, a
-- compute task or the host reads it. Producer and consumer meet in the SLM region, `struct
-- slm_lba_info`: the producer notifies what it has written, the consumer asks whether a range is
-- ready, and a consumer that jumps asks for a demand read. Commands become tasks of the dispatcher
-- (`src/csd_dispatcher.c`), which keeps them on linked lists and issues the requests of the loads.
-- A zoned namespace (`src/zns_*.c`) is a second, independent part; it takes its write buffer from
-- `src/ssd.c`. A conventional namespace (`src/conv_ftl.c`) is a third: a page-mapped flash
-- translation layer, which shares the write buffer among its instances.
--
-- Base: shared names, lists over the native numbers, Boolean tests, and machine words. A `size_t`
--   or `uint64_t` is a number below 2 ^ 64, with `add_size`, `sub_size` and `mul_size` for what
--   wraps; a `uint32_t` is narrowed by `u32`.
-- Buddy: `src/buddy.c`. The nodes are a tree, `buddy_alloc` and `buddy_free` return the tree that
--   they leave. Allocated is the specification: a list of blocks, in which one free block is
--   taken or one allocated block is given back.
-- Slm.Region, Slm.Store: `struct slm_lba_info`, the page map `slm_data_ready_info`, and the part of
--   the task table that `src/csd_slm.c` uses. A pointer to a region is a number.
-- Slm.Frontier: `ht_advance_head` and the other functions that move `ht_head` and `ht_tail`.
-- Slm.Ready, Slm.Notify: the checks of consumers, and the notifications of producers.
-- Slm.Extent, Slm.Demand, Slm.Magic: address translation by extents, `slm_request_demand_read` and
--   `complete_slm_demand_read`, and `slm_request_demand_read_info` with its packed extents.
-- Slm.Memory: allocation, reservation and release of SLM ranges, and the life of a region.
-- Csd.Ranges, Csd.Issue: `src/csd_dispatcher.c`, the loads. A load task fills a region from a list
--   of source ranges; Csd.Issue is the loop of `__request_io` that issues its requests, and
--   Csd.Issue.Serve the round of the quota around it, and Csd.Issue.Quota the quota. Csd.Latency is
--   `csd_get_target_latency` of `src/csd_ftl.c`. The stream of bytes that the ranges name is
--   Csd.Ranges.Bytes.
-- Csd.Lists, Csd.Queue: the doubly linked lists of tasks and requests, `struct ccsd_list`. An index
--   of -1 is none. Csd.Lists.Family is their specification: sequences of indices that share out the
--   pool.
-- Csd.Task, Csd.Table: `struct ccsd_task_info` and `struct ccsd_task_table`, the dispatch of a
--   command, `__reclaim_task`, the loop over the done list, and the states that are reached by them.
-- Zns.Zone, Zns.Manage, Zns.Write, Zns.Device: `src/zns_ftl.h`, `src/zns_mgmt_send.c`,
--   `src/zns_read_write.c` and `src/zns_ftl.c`. A handler sees the device's resources and its zone.
-- Ftl.Geometry, Ftl.Init: the geometry of `src/ssd.h` and `src/ssd.c`, page addresses and their
--   numbers, and the set-up of an FTL instance.
-- Ftl.State, Ftl.Pages, Ftl.Pointer, Ftl.Map, Ftl.Collect, Ftl.Conv: `src/conv_ftl.c`, from the state
--   of an instance to the page marks, the write pointers, the write of one page, garbage collection,
--   and `conv_write` over the instances. The abstract state is the set of logical pages that hold
--   data; where their data is, and when it moves, is not part of it.
-- Ftl.Victims: the queue of victim lines. `src/pqueue.c` is a library of another project: its calls
--   are the parameter `PQueue`, and `QueueLaws` is what the code relies on, that a queue holds what
--   was put in it and nothing else. Ftl.ListQueue is a sorted list that meets them.
--
-- Conventions. A function that changes what a pointer leads to returns the new value. `BUG()`, a
-- NULL that is read through and a call that does not return are results (`bug`, `hang`, or `none`
-- of an Option). A write beyond an array is `none` in Zns.Device. A use after free in the release of
-- a range, and an `int` that overflows while the pages of an instance are counted, are `bug`. The
-- page masks of `ALIGNED_DOWN` and `ALIGNED_UP` keep 32 bits, as in the source.
--
-- Fuel. `alloc_free` halves a block in each round and gets one unit more than the block's size,
-- which is enough for a size that is not 0. `absorb` removes an entry of the stashed list in each
-- round but the last and gets one unit more than its length. `free_pages` moves on by a page at
-- least, where no region has a length of 0, and gets one unit more than the number of pages. The
-- loops of Ftl are recursions on the number of rounds that the source's bounds give. The loop of
-- Csd.Issue takes a free request in each round and is a recursion on the list of the free requests.
-- The loops of Csd.Table over a list get one round more than there are tasks, since no list is longer.
--
-- Not modelled: locks and memory order (an operation is one step), debug output, the failure of
-- kernel allocations, the bytes that are stored, and the delays that the flash model computes (all
-- that `conv_read` does). The modulus `lbas_per_zrwafg` is taken as in the source; where it is 0
-- the kernel would trap. Of the dispatcher: the copy of command data and the completion entries,
-- the reclaim of requests, the deferred release of ranges, the magic commands, and the threads,
-- which appear as steps of Csd.Table.Reach; a command comes to Csd.Table with its region set up.
-- The latency is a parameter of the loads, and the flash read one of Csd.Latency. The key-value and
-- simple FTLs, the rest of the CSD FTL, the compute programs and the NVMe front end are not part of
-- this library.
pub mod Base
pub mod Buddy
pub mod Slm
pub mod Csd
pub mod Zns
pub mod Ftl
