-- ===== src/Lib.antt =====
-- Verification of the kernel's own logic: the physical memory, the pipe, the disk buffers, files on a FAT
-- volume, paths and open files, FAT time
-- stamps, copies of strings, the hash map of the kernel's template library, page tables, locks, the
-- console and the table of tasks, as executable models of the C++ with the theorems that make them
-- correct.
--
-- Memory (kernel/include/riscv.hpp, kernel/include/memlayout.hpp): physical memory is a function from
-- addresses to the 64-bit words there; both allocators keep their free lists inside it.
--   Memory/Pages: `MemAllocator` of kernel/memory/MemAllocator.cpp. `free_range` is `freeRange`, whose
--   loop runs once for each page between the rounded bounds; `alloc`, `free`, `init` and the counters
--   keep their names. Pages/Clients runs them for clients that take, return and write pages.
--   Memory/Buddy: `BuddyAllocator` of kernel/memory/BuddyAllocator.cpp. `calc_loop`, `get_buddy`,
--   `find_block`, `split`, `seek`, `unlink` and `free_loop` are the loops and helpers of `_calc_level`,
--   `_get_buddy`, `alloc` and `free`. The level search runs at most 61 rounds, enough for a size of
--   64 bits; the search of the table runs over its 13 entries; the merge loop over the levels left;
--   the walk of a free list over an amount of fuel that the theorem takes to be as long as the lists.
--   Memory/Paging: kernel/memory/VmManager.cpp. `descend` is the loop of `walk`; Paging/User has what
--   grows, shrinks, copies and releases an address space, Paging/Copy `copyin`, `copyout` and
--   `copyinstr`. `mappages` has fuel for its pages, the copies for their bytes, `freewalk` for the
--   three levels. The proofs give each page in use a code that says where in which of up to 511
--   address spaces it stands (Paging/Tree); Paging/Walk and Paging/MapRange are about mapping,
--   Paging/Access, Paging/CopyOut and Paging/CopyIn about what the user reaches.
-- Fs/Pipe: `Pipe` of kernel/fs/Pipe.cpp. The pipe's lock is held between two sleeps, so a call is a
--   chain of stretches, each one function call here: `write` and `read` from the start, `write_loop`
--   for a writer that wakes up. The wake-ups of a stretch are part of its ending. The copies of one
--   byte from and to a task's memory are parameters. Pipe/Calls has what a call
--   of `read` took and delivered, Pipe/Fifo the histories of calls.
-- Fs/Buffer: `BufferLayer` of kernel/fs/buf/BufferLayer.cpp, with `SleepLock::lock` for the buffers.
--   `alloc_buffer` is `allocBuffer` up to the lock, `lock_buffer` the lock, `fill` the rest of `read`.
--   The contents of a buffer and the device driver are parameters.
-- Fs/FatTime: `FatTime2Unix` and `UnixTime2Fat` of kernel/fs/fat32/fat_utils.cpp. `year_of`,
--   `month_and_day` with `month_loop`, `fat_date` and `fat_time` are the parts of `UnixTime2Fat`; its
--   loop over the months runs at most 11 rounds, as in the source.
-- Fs/Fat: kernel/fs/fat32/fat32_file_system.cpp with kernel/include/fs/fat. The device is a function from
--   byte addresses to bytes, and the buffers are taken to hold what the device holds: `ZeroCluster` and
--   `UpdateInode` write past them in the source. The functions keep their
--   names; `alloc_from`, `bmap_loop`, `follow`, `read_loop` and `write_loop` are the loops and their rounds. The search of a free cluster has fuel: a number of rounds up to the count of clusters is
--   enough on a volume that has a free one. The loops over bytes have a round for each byte at most, that
--   of `free_cluster_chain` one for each cluster of the chain. Fat/Links and Fat/Bytes read the table as
--   chains and a file as its bytes; Fat/Written and Fat/Store are about a round of a write, Fat/Update
--   about the entry that `UpdateInode` writes. Fat/Directory is
--   `FindFreeEntry`, with fuel for the entries that it looks at.
--   Memory/Paging/Either has `either_copyin` and `either_copyout` of kernel/os/TaskScheduler.cpp.
-- Fs/Vfs: `VfsManager` of kernel/fs/vfs/vfs.cpp and the inodes of kernel/fs/vfs_file.cpp.
--   `skip_element` is `SkipElememt`; `namex`, with fuel for the bytes of its path, and
--   `convert_inode_by_mp` keep their names; `descend` is the end of a round of `namex`. File systems are
--   the interface `FileSystems`; Vfs/Balance says what they are taken to do to the counts of references,
--   the one that `BuildInode` takes included. Vfs/OpenFile has `struct file` with `read`, `write`,
--   `rewind`, `dup` and `close`, over the interface `Objects` of pipes and inodes.
-- Fs/Console: kernel/device/Console.cpp, the ring between the serial interrupt and the readers, as
--   built for QEMU. `keep` and `erase_last` are branches of `console_intr`; `read_loop` is a stretch of
--   `read` up to a sleep. The copy of a byte is a parameter, the output a list of effects.
-- Text: `memset`, `memmove`, `strncpy` and `safestrcpy` of kernel/common/string.cpp, over a memory of
--   bytes; the other routines of that file are not modelled.
-- Sstl/HashMap: `map`, its hash and its iterator of sstl/map.hpp, a table of chains. The nodes are
--   modelled by value; the dummy node of a chain is not. The hash is a `fault` for orders that are not
--   from 2 to 65, where its shift is not defined.
-- Task: the table of tasks of kernel/os/TaskScheduler.cpp and kernel/include/os/Process.hpp. A task is
--   its index; a stretch of code under a task's lock is one function call, and one processor runs tasks,
--   since the second hart spins in kernel/boot/main.cpp. Task/Switch has the scheduler's loop body
--   (`visit`), `sleep` before and after its switch (`fall_asleep`, `awake`), `wakeup`, `yield`
--   (`give_up`) and `kill`; Task/Life `allocTask`, `fork`, `clone`, `growtask` and `freeTask`; Task/Exit
--   `exit`, and `wait` and `wait4` one round at a time; Task/Handles the open files of a task. What the
--   table takes from memory and files is the interface Task/Services. Task/Kinship and Task/Handshake
--   have the proofs.
-- Lock: `push_off` and `pop_off` of kernel/os/Intr.cpp and `SpinLock` of kernel/os/SpinLock.cpp, as
--   calls (Lock/Nesting) and as the memory accesses of several harts (Lock/Exclusion), where `swap`,
--   `note_holder`, `forget_holder` and `release` are the accesses of `lock` and `unlock`.
-- Prelude: lists, Boolean tests and bit operations on the native numbers, and the results of code:
--   `ok`, `panic` for the kernel's own stop, and `fault` for a step that C++ leaves undefined.
--
-- Machine words wrap where the source's can, written `% 2 ^ 32` and `% 2 ^ 64`. Outside of Lock,
-- a spin lock makes a method one step. `fork`, `clone`, `exit` and `allocBuffer` let their locks go, or
-- hold none, before they have changed all they change: they too are one step here, the call as it runs
-- when nothing comes in between. Memory areas, the kernel's own mappings of devices,
-- the other operations on FAT directories, device files and the system calls are not modelled; drivers,
-- boot code, the firmware and user programs are outside.
pub mod Prelude
pub mod Memory
pub mod Sstl
pub mod Fs
pub mod Text
pub mod Task
pub mod Lock
