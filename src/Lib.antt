-- ===== src/Lib.antt =====
-- Gloworm, a small Unix-like operating system for the m68k, in C. Its kernel keeps processes in a
-- table and in two queues, the ready ones and the blocked ones; devices and files are reached
-- through system calls, and data moves through ring buffers and iterators over segments.
--
-- Prelude holds the names, tests on numbers and lemmas on lists that the other modules share, and in
--   Prelude.Bits what `&` and `|` do to the single bits of a word.
--
-- Utils models include/kernel/utils and src/kernel/utils.
--   RingBuffer is include/kernel/utils/ringbuffer.h: `_buf_init` is `init`, `_buf_put` is `put` and
--     so on; the record `Ring` is `struct ringbuffer`. A loop over `size` is recursion on the rounds
--     left. The two operations over iterators are left out.
--   Queue is include/kernel/utils/queue.h. Nodes stand in a store from addresses to nodes that all
--     queues share, and `Queue.Seg.IsQueue` says which sequence of nodes a queue stands for.
--   Iovec is include/kernel/utils/iovec.h and src/kernel/utils/iovec.c: segments of a memory that is
--     a function, the copies between them and flat memory, and the iterator with its seek. A copy
--     has fuel for one round more than there are segments, a seek for one round per segment.
--
-- Proc models src/kernel/proc. `Kernel` holds the variables of scheduler.c and process.c, and the
--   fields of all processes; a process and the queue node in it go by the process's address.
--   Proc.Table is process.c, Proc.Scheduler scheduler.c, Proc.Signal signal.c. An operation is a
--   function from the kernel before to the kernel after; interrupts are off where LOCK stands, and
--   the model makes a step of each function. `resume_blocked_procs` has fuel as an argument, one
--   round more than there are blocked processes; `next_slotnum` has enough for two rounds through
--   the table, and a signal to a group one round more than there are slots; the result says if it
--   ran out.
--   `Proc.Invariant.Scheduled` is the scheduler's invariant: the two queues are well linked, and
--   hold exactly the processes whose state says so. `Proc.Family.HasParents` says that init and the
--   parents of all processes are in the table, on which `resume_waiting_parent` relies.
--
--   Proc.Timer is timer.c: the armed timers are a queue as well, and `check_timers` has fuel for one
--     round more than there are of them; it returns the timers whose callbacks it calls.
--
--   Proc.Filedesc is filedesc.c: the files of a table are a function from the descriptors, and an
--     operation returns the files that it clones or closes.
--
-- Irq models src/kernel/irq. Irq.Bh is bh.c: what a handler does to the two words, the table and the
--   rest of the system is an argument, and the loop over the handlers returns the numbers of those
--   that it calls.
--
-- Fs models src/kernel/fs. Fs.Pipe is pipe.c: the vnode of a pipe and the positions of its two
--   files; a call that suspends the process says so in its outcome. Fs.Bitmaps is ext2/bitmaps.h over
--   the bytes of a block, and the block that the buffer cache returns is an argument. Fs.Bufcache is
--   bufcache.c: the queue of the entries is the list of them, the driver is the record `Device`, with
--   the laws of a device that keeps what is written at each byte position, and a panic is a result
--   of its own. The position of a block is a product of 32 bits.
--
-- Mm models src/kernel/mm. Mm.Pages is pages.c and include/kernel/mm/pages.h with CONFIG_MMU and
--   pages of 4 KB: a block of pages has a bitmap of 16-bit words and a count of references for each
--   page, both functions here, and Mm.Pages.Global holds the blocks of the system. The search of
--   `page_block_alloc` has fuel for one round more than there are pages.
--   Mm.Heap is kmalloc.c: the free blocks are linked in a function from addresses, with a list of
--     them in Mm.Heap.List as what they stand for. The loops of `kmalloc` and `kmfree` have fuel as
--     an argument, one round more than there are free blocks; a panic is a result of its own. The
--     heap grows by `page_alloc` of Mm.Pages.Global. The header of a block is the cell of its address.
--   Mm.Map is map.c and include/kernel/mm/map.h with CONFIG_MMU: an address space is the list of its
--     segments in the order of the queue, and an address a number with the wrap-around of 32 bits
--     written out. The page table, the allocation of a segment and the open files are the record
--     `Host`. The neighbours of a segment, which `memory_map_resize` reaches through the queue, are
--     those of a `Place` in the list. The operations stand in Mm.Map.Segments, Cuts
--     and Border: mapping, unmapping and resizing.
--
-- Net models src/kernel/net. Net.Tcp is protocol/tcp.c: the functions of Net.Tcp.Forward that a
--   packet goes through in each state of an endpoint return the endpoint, the packets that it sends
--   and the events that its socket is woken for; the sequence numbers wrap at 32 bits, and the two
--   buffers are the rings of Utils.RingBuffer. In Net.Tcp.Stream packets arrive one behind
--   the other. Net.Tcp.Calls holds the calls of a socket; what `rand`
--   returns is an argument.
--
-- Libc models src/libc/common. A string that is read is the list of its codes, one that is written
--   a memory. Libc.Text is string/, Libc.Number is stdlib/atoi.c, strtol.c and itoa.c, Libc.Chars is
--   ctype/ and builtins/, Libc.Time is time/gmtime.c. The loops that look for the end of a string in
--   memory have fuel as an argument; the loop of `itoa_padded` over the digits has 32 rounds, enough
--   for a word in base 2, and that of `gmtime` over the years one for each day.
--
-- Not modelled: the switch of the machine context and the system call that is started again behind
-- it, the frames of signal handlers, the release of files, memory maps and timers at exit, the
-- callbacks of timers, page faults, the release of whole address spaces, the headers of packets
-- and the lookup of endpoints, the other parts of the kernel (in src/kernel drivers, arch,
-- syscall.c, and of irq, net and fs all but these), formatted input and output, `strftime` and `malloc` in
-- src/libc, the boot loader, the monitor, the user commands and the tests.
pub mod Prelude
pub mod Utils
pub mod Proc
pub mod Fs
pub mod Mm
pub mod Net
pub mod Irq
pub mod Libc
