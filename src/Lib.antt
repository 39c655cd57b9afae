-- ===== src/Lib.antt =====
-- OnyxKernel: verification of the kernel and of the crate that it shares with its programs.
--
-- The program is a RISC-V kernel (kernel/), a library without dependencies that the kernel and the
-- programs use (core/), and a first process with its shell (init/). User programs enter the kernel
-- by system calls; the kernel keeps processes, files and channels, and answers with a value or with
-- the code of an error, which the boundary translates to the POSIX numbers.
--
-- Parts and files:
--   Prelude: Boolean tests, lists over the native numbers, integers.
--   Core/Errno: core/src/errno, the errors and their codes. KResult is the result type of the kernel.
--   Core/Ringbuf: core/src/ringbuf.rs, the byte ring under channels and pseudo terminals. Counters
--     are u32 values that wrap at 2 ^ 32. Slots and Window read a ring as a window of an endless
--     repetition of its buffer; Refine states what the operations do to the bytes held.
--   Core/Crypto/Sha256: core/src/crypto/sha256.rs. Stream is about the buffer of the state, Digest about
--     whole messages.
--   Core/Crypto/Kdf: core/src/crypto/kdf.rs, password hashes and the field of the shadow file. Hex is
--     about the digits, Bytes about digests and their comparison, Field about fields.
--   Core/Fmt: core/src/fmt (writer.rs, format_num.rs, impls.rs), formatted output. Num is about the digits
--     of numbers, Kinds about what a conversion writes, Pieces about templates.
--   Fs/Pty: kernel/src/fs/pty, the table of pseudo terminals. Stream is about one pair, Table about
--     sequences of calls.
--   Fs/OnyxFs/Compress: kernel/src/fs/onyxfs/compress.rs, the run-length code of the snapshots. Encode is
--     the code without a bound on its size, Bound its size, Decode what the decoder makes of a packet.
--   Fs/OnyxFs/Journal: kernel/src/fs/onyxfs/journal.rs and core/src/formats/onyxfs_fmt/journal.rs. Record
--     is about what the journal holds, Redo about what its slots do to a block, Clear and Replay about
--     the two loops of recovery, Recover about one recovery, Crash about two in a row, Open
--     about a transaction that is logged, Commit and Durable about its commit.
--   Fs/Vfs/Node, Fs/Vfs/Fd: kernel/src/fs/vfs/node/vnode.rs and kernel/src/fs/vfs/fd (ops.rs, table.rs,
--     dup.rs, seek.rs, stdio.rs), the table of descriptors. Token is about the tokens that name
--     descriptors, Pipe about pipes and positions.
--   Proc/State: kernel/src/proc/process/types.rs, the two fields of a process that wait lists change.
--   Proc/Limits: kernel/src/proc/limits.rs. Pages is about the atomic counter of user pages, with the
--     steps of several processors interleaved, Caps about the number of processes.
--   Proc/Runqueue: kernel/src/proc/scheduler/runqueue.rs and sched/steal.rs. Chain is about lists
--     threaded through pointers, Refine relates the queues to lists, Fifo, Remove and Steal are about
--     their operations.
--   Ipc/Channel, Ipc/Transfer: kernel/src/ipc/channel/types.rs, ringbuf/access.rs, ringbuf/send.rs
--     and ringbuf/recv.rs.
--   Ipc/Wait: kernel/src/ipc/channel/ringbuf/wait.rs, the lists of sleeping processes.
--   Ipc/Registry: kernel/src/ipc/channel/chan.rs, the table of channels.
--   Mm/Pmm: kernel/src/mm/pmm/bitmap.rs and mod.rs, the allocator of physical pages.
--     Bits reads the bitmap as a set of pages, Init is the start of the allocator, Alloc is
--     about one page, Run about several in a row.
--   Mm/Heap: kernel/src/mm/heap (mod.rs, alloc.rs, realloc.rs), the list of blocks of the kernel heap.
--     Tiles reads it as blocks side by side, Fit is about taking a block, Join and Release about giving
--     one back, Sound and Restore about the lists of blocks, Balance about each operation, Cycle about
--     one after the other.
--     Pools is about the pools of small objects under it, Memory and Realloc about allocations that grow.
--   Mm/Slab: kernel/src/mm/pmm/slab.rs, the pools of small objects. Found and Grant are about the walk over
--     the pages of a class, InUse and Objects about objects that are in use, Return about giving back.
--   Net/Checksum: kernel/src/net/checksum.rs and the checksum of net/tcp/conn.rs. Sum relates them to
--     sums of words, Verify is about a checksum in its field.
--   Net/Tcp: kernel/src/net/tcp/conn.rs and state.rs; Net/Tcp/Sock is sock.rs, Net/Tcp/Retry retry.rs,
--     Net/Tcp/Listen listen.rs and net/ownership.rs, where Queue is about the connections that wait in a
--     listener and Exit about the end of a process.
--     Invariant is about sequence numbers and acknowledgements, Ring and Receive about received bytes,
--     Transition about segments.
--   Net/Udp: kernel/src/net/udp.rs and net/udp. Slots, Queue and Refine are about the queue of a socket,
--     First is about the socket that a datagram is for, Deliver about a datagram from its sender to a socket.
--   Proc/Signals: kernel/src/proc/signals. Masks is about what always holds of a process, Delivery about a
--     signal to kill, Handler about the entry of a handler and the return from it.
--   Syscall: kernel/src/syscall/numbers.rs and handler/acl.rs, which process may make which call.
--   Tests: the theorems at concrete inputs.
--
-- Conventions. Bytes, pids, addresses and counters are native natural numbers, and a machine integer
-- that can wrap is reduced modulo 2 ^ 32 or 2 ^ 64 where the code can wrap. The build checks plain sums
-- and differences for overflow (Cargo.toml), so that the code panics where they leave their type: in
-- Mm/Heap the panic of a count of used bytes that would sink below 0 is the result none; elsewhere the
-- definitions wrap or stop at 0 there. A static table is a list
-- that the operations take and return. A pointer to a process is its address, and the fields of the
-- processes are functions of the address. An operation that holds one lock throughout is one step; an
-- operation that takes locks in turn is a composition of steps, so that other calls may run between.
-- A disk holds a list of bytes for each block and a number of writes that it still takes. A write past
-- them fails and changes nothing, which stands for a crash or a failing device; reads succeed.
--
-- Fuel. The loops over wait lists and over run queues follow pointers. They take a number of rounds,
-- and the theorems on them ask for as many as the list has processes (one more to take one out), which
-- is all that the code runs. The compressor and its decoder consume a byte of their input in each
-- round, so the length of the input is fuel enough, and the round trip is stated for that fuel. The
-- padding of SHA-256 runs 63 rounds at most, and the fold of a checksum two; they have 64 and 3. The
-- walk over the blocks of the heap has a round for each header that the heap has room for, and one
-- more. vformat has a round for each byte of its template, a number at most 20 digits, and the walks
-- over the pages of a pool a round for each page and one more. The other loops are structural recursion on a list or on a counter of the code.
--
-- Not modelled: drivers, assembly and control registers, the spin locks themselves, the scheduler's
-- switch of context, and all that draws on a screen. Of TCP, what waits for the device is left out: the
-- loop of tcp_connect, the sending of a segment, whose segments are results here, and the parsing of
-- frames. The parts of the kernel that are not listed above are outside this library.
pub mod Prelude
pub mod Core
pub mod Fs
pub mod Proc
pub mod Ipc
pub mod Mm
pub mod Net
pub mod Syscall
pub mod Tests
