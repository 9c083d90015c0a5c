-- ===== src/Lib.antt =====
-- The Lariat kernel: the physical page allocator, page tables, the scheduler, the block layer,
-- message ports, pipes, the input queue, file descriptors, the virtual file system and the network
-- stack with UDP and TCP, modelled from their C sources.
--
-- Parts, files and code
--   Pmm (kernel/pmm.c, include/pmm.h): the physical page allocator over the bitmap of Bitmap. The
--     static variables are the record `Pmm`; the functions have the names of the source without
--     `pmm_`. `init_e820` is the boot from the memory map.
--   Vmm (kernel/vmm.c, include/vmm.h): page tables whose pages come from Pmm. A page of memory is the
--     function of its words; `IsTree` says that the tables of an address space are a tree of pages
--     in use. Taken and Link have new tables, Way the walk of an address, Map, Unmap and Range the calls.
--   Timer (cpu/timer.c, include/timer.h): the seconds of the wall clock from the registers of the RTC,
--     and the list of kernel timers. Civil has the calendar, Queue the timers.
--   ThreadQueue (kernel/sched.c): `queue_push`, `queue_pop` and `queue_remove` on a heap of `next`
--     pointers. `Holds` says which list a queue stands for.
--   Sched (kernel/sched.c, include/sched.h): the ready queue, the wait queues, wake-ups, blocking,
--     yielding, sleeping and the timer tick on top of ThreadQueue, for one CPU. `IsLinked`
--     says which lists the queues hold.
--   Block (kernel/block.c): the write-through cache of sectors and the transfers through it. The
--     driver is the record `Driver`, with what its answer means as its laws: it may answer with a
--     count of bytes that is short, of which the laws say nothing.
--   Ipc (kernel/ipc/port.c, include/ipc.h): the table of named message ports; a send wakes a
--     receiver by Sched, and a receive from an empty port blocks by Sched.
--   Pipe (kernel/pipe.c): the ring of a pipe; a read or write is modelled up to its yield.
--   Input (kernel/input.c): the ring of input events; a read is a pass of its wait and, if that ends,
--     the taking of events, and a push wakes the readers by Sched.
--   Fd (kernel/fd.c, include/fd.h, `vfs_close` of kernel/vfs.c): descriptor tables and the counts
--     of references to open files. `IsBalanced` says that the counts are right.
--   Vfs (kernel/vfs.c, include/vfs.h): permissions, the split of paths, the path walk with links and
--     mount points, the mount table, opening and directory operations. The operations of the file
--     systems are the records `Ops` and `FileOps`, arguments. Names has the split, Walk the walk.
--   Ramfs (kernel/fs/ramfs.c): files in memory as growing arrays, with the memory functions of
--     Net, and directories (Dirs) on the entries of Vfs.
--   Net (kernel/net, include/net.h, include/netpcb.h): packet buffers, Eth, Arp, Ipv4 (with ICMP),
--     Udp and Tcp, each a module with the functions of its file; Checksum has the internet checksum.
--     A buffer is a value and its array a function; Udp.Stack composes the layers on a frame.
--   Net.Tcp (kernel/net/tcp.c): Input is the state machine, Output the sending, Calls the calls of a
--     program up to their waits and the timer's callback, Blocks the list of control blocks and the
--     way from a packet to its block, Accept the accept queue, Packet the segments in buffers. The segments that a function
--     sends are results. Stream.World is two control blocks over a network that loses, repeats and
--     reorders what they send; Stream states their invariant on the streams of bytes.
--   Prelude: tests, lists, bits, error codes and integers that the parts share.
--
-- Conventions
--   Numbers are natural; a `uint64_t` or `uint32_t` that can wrap has its remainder written out.
--   Each function is one step from state to state, but two that let go between their steps:
--   `block_write` transfers without a lock (`block_write_device`) and takes `block_lock` for the cache
--   (`block_write_cache`), and `input_read` waits under `sched_lock` (`input_wait`) and takes events
--   under `ev_lock` (`input_take`); `block_write` and `input_read` themselves are the runs where nothing
--   comes between. The other functions of Pmm, Sched, Block, Ipc, Input, Net.Tcp and Timer run under a
--   lock; those of Pipe, Fd and Vmm take none and are modelled as if nothing came between. A call
--   that switches to another thread ends its step there. A loop over a table or a count is
--   structural in the rounds that are left. The fuel is: for `queue_remove` more than the threads of
--   the queue, for `block_read` one more than the sectors to read, for its run of misses their
--   number, for `pipe_write` two rounds, for the timer tick more than the sleeping threads, for the
--   fold of a checksum three tests, for the split of a path its length, for mount points as many
--   rounds as they lie over one another, for the growth of a file 33 tests, for
--   the sending of bytes one round more than the buffer has bytes; the theorems on these
--   functions say that this is enough. A walk has the 9 levels of links of the source, and the search
--   of a tree of entries its depth as an argument.
--
-- Not modelled
--   The CPU set-up, interrupts and context switches (assembly and registers), the device drivers,
--   the file systems on disks, the copies of address spaces, processes, system calls, sockets, the
--   desktop and the user programs. Of kernel/sched.c signals, exits and stacks are left out. `kmalloc`,
--   `sched_signal_pending` and `timer_get_ticks` are arguments with their result.
pub mod Prelude
pub mod Bitmap
pub mod Pmm
pub mod ThreadQueue
pub mod Sched
pub mod Block
pub mod Ipc
pub mod Pipe
pub mod Fd
pub mod Vfs
pub mod Vmm
pub mod Timer
pub mod Ramfs
pub mod Input
pub mod Net
