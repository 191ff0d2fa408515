-- ===== src/Lib.antt =====
-- A teaching operating system (xv6 on RISC-V) with Peterson locks as system calls and a tournament
-- lock on top of them.
--
-- The parts, and the files that model them:
--
-- Peterson.antt: kernel/petersonlock.c. petersonlock_create and petersonlock_destroy are
-- functions on the table; petersonlock_acquire and petersonlock_release are machines that make
-- one access of shared memory at a time (acquire_step, release_step), and run alone on fuel.
-- Peterson/Protocol.antt has the moves of the protocol, Peterson/Pair.antt two processes that
-- loop over one lock as in user/test_peterson.c.
--
-- Tournament.antt: user/libtournament.c, on the system calls of Peterson.antt.
-- Tournament/Run.antt interleaves up to 16 processes; Tournament/Tree.antt has the arithmetic
-- of the tree, Tournament/Create.antt the start, Tournament/Failure.antt its failure paths.
-- The outcomes of malloc and fork are parameters.
--
-- Pipe.antt: kernel/pipe.c. The ring buffer with its wrapping counters (Pipe/Ring.antt relates
-- it to a queue) and the loops of pipewrite and piperead, which return where they would sleep;
-- copyin and copyout are parameters.
--
-- Log.antt: kernel/log.c, over the buffer cache as what bread returns. Log/Crash.antt and
-- Log/Phases.antt follow a commit write by write, Log/Atomic.antt is about recovery after a
-- crash, Log/Space.antt the reservation of log space by begin_op, Log/Small.antt about a log
-- of LOGSIZE blocks.
--
-- ProcTable.antt and Proc.antt: kernel/proc.h and kernel/proc.c, the process table and the
-- calls fork, exit, wait, sleep, wakeup, yield and kill. Proc/Run.antt has its runs.
-- Proc/Wakeup.antt, Proc/Kinship.antt, Proc/ForkExit.antt and Proc/Orphans.antt follow the
-- parents of processes, Proc/Doomed.antt the call kill(0).
--
-- Memory.antt: kernel/string.c, on a memory of bytes. Memory/Move.antt is about memmove,
-- Memory/Copy.antt about safestrcpy, Memory/Length.antt about strlen. strlen has fuel for each
-- round of its loop; n of it are enough for a string with fewer than n characters.
--
-- Spinlock.antt: kernel/spinlock.c, the spin locks and the count of push_off and pop_off of a
-- core. Spinlock/Nesting.antt is about their pairs.
--
-- PageAlloc.antt: kernel/kalloc.c, the allocator of physical pages. PageAlloc/FreeList.antt is
-- about its free list. The loop of freerange has fuel for each page up to its end.
--
-- Grep.antt: user/grep.c. Grep/Regex.antt says what a pattern means, Grep/Lines.antt what grep
-- writes. What a read gives is a parameter; the loop has fuel for each read, and one more than
-- the input has bytes is enough.
--
-- Buffer.antt: kernel/bio.c, the buffer cache. Buffer/Find.antt, Buffer/View.antt,
-- Buffer/Recycle.antt and Buffer/Read.antt follow bread as the lookup in a map from blocks to
-- contents.
--
-- Blocks.antt: the block layer of kernel/fs.c, on the contents of blocks that the buffer cache
-- gives. Blocks/Bits.antt and Blocks/Bitmap.antt follow one bit, Blocks/Alloc.antt the set of
-- the blocks in use.
--
-- Dinode.antt: inodes on the disk, of kernel/fs.c and kernel/fs.h, over Words.antt, the
-- numbers in the bytes of a block. Dinode/Layout.antt says that the fields do not overlap,
-- Dinode/Copies.antt that inodes are copied to the disk and back; Dinode/Ialloc.antt is about
-- ialloc.
--
-- FileMap.antt: bmap and itrunc of kernel/fs.c. FileMap/Slots.antt says what the blocks of a
-- file are, FileMap/Mapping.antt, FileMap/Indirect.antt and FileMap/Bmap.antt are about bmap,
-- FileMap/Released.antt, FileMap/Release.antt and FileMap/Truncate.antt about itrunc.
--
-- Content.antt: readi and writei of kernel/fs.c, over FileMap.antt, on the bytes of a file.
-- Content/Reading.antt is about readi; Content/Holding.antt, Content/Block.antt,
-- Content/Loop.antt and Content/Writing.antt are about writei.
--
-- InodeTable.antt: iget, idup and iput of kernel/fs.c. InodeTable/Search.antt and
-- InodeTable/References.antt are about iget, InodeTable/Put.antt about iput.
--
-- PathName.antt: skipelem of kernel/fs.c and the names that namex goes through.
-- PathName/Elements.antt compares them with the pieces between the slashes.
--
-- Directory.antt: dirlookup of kernel/fs.c, over readi of Content.antt and strncmp of
-- Memory.antt. Directory/Names.antt says when two names are the same.
--
-- Base.antt has what the files share. Each part has its tests, and its theorems at concrete inputs,
-- in a file Tests.antt.
--
-- Shared memory is sequentially consistent in the model. A loop that may wait for others, or for a
-- byte of memory, runs on fuel, and its result says when the fuel ran out; a loop that always ends
-- is structural, or has fuel for all its rounds. Counters that the code lets wrap wrap in the model.
--
-- The loops of readi and writei have fuel for one round per byte and one more, as each round moves at
-- least a byte; the outer loop of balloc has a round for each block of the bitmap, dirlookup one for
-- each entry and more. File contents are those of blocks as bread gives them after the log_write of
-- each change. Block and inode numbers do not wrap.
--
-- Not modelled: changes of directories, the system calls on files, virtual memory, traps, devices,
-- the shell and the other user programs. What the parts of the kernel get from these (copyin and
-- copyout, page tables) is a parameter.
pub mod Base
pub mod Blocks
pub mod Buffer
pub mod Content
pub mod Dinode
pub mod Directory
pub mod FileMap
pub mod Grep
pub mod InodeTable
pub mod Log
pub mod Memory
pub mod PageAlloc
pub mod PathName
pub mod Peterson
pub mod Pipe
pub mod Proc
pub mod ProcTable
pub mod Spinlock
pub mod Tournament
pub mod Words
