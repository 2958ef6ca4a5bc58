-- ===== src/Lib.antt =====
-- A verification library of the chat server.
--
-- The server (chattingServer_single) is an IOCP server: worker threads take completions from a
-- port, a session's received bytes go into a ring buffer, whole packets are peeled from the ring
-- into serializers, decrypted and handed to the chat server, which parses them into jobs. One
-- content thread takes the jobs from a queue and keeps the users and the grid of sectors.
-- Answers are written into serializers, sealed and handed back to the sessions. Paths below begin
-- at chattingServer_single/.
--
-- Common is no part of the program: tests, lists, integers, bits and machine words.
--
-- RingBuffer: lib/IOCP netServer/ringBuffer.h and ringBuffer.cpp. A record of the fields; `char*`
-- is an offset from `buffer`; a mask with `_maxSize` is the bitwise `and`. `pow(2, ceil(log2(n)))`
-- and the storage of `new char[]` are parameters. RingBuffer/Copy: a ring copied and assigned.
--
-- Serializer: lib/IOCP netServer/serializer.h, serializer.cpp and define.h. Pointers are
-- addresses, because `resize` computes with pointers into two blocks; the blocks that the
-- allocator returns are arguments, and an access outside the serializer's own block is `none`.
-- A `char` is its bit pattern, and the conversions to `int`, `short` and `size_t` are written out.
--   Serializer/Memory: fields, memory accesses, pointer moves, `resize`, the loop that grows.
--   Serializer: `push`, `pop`, `peek`, the stream operators, strings.
--   Serializer/Cipher, Serializer/Sealing: header, checksum, `encryption`, `decryption`.
--   Serializer/Copy: a serializer copied and assigned.
--
-- ObjectPool: lib/objectPool/objectPool.h and chunkBlock.h. Chains of threads over chunks of one
-- pool; calls are runs without interruption, in any order. What `new` returns is an argument.
--
-- Packet: lib/IOCP netServer/packet.h. Handles that share a serializer by its count of references.
--
-- Session: lib/IOCP netServer/session.h and session.cpp. Counts and flags are bit patterns; packets
-- are known by their addresses. Session/Framing and Session/Refused: packets peeled off the ring.
-- Session/Delivery: from the sealing serializer to the opened one.
-- Session/Receiving: the loop of a worker thread over the packets of a reception.
--
-- Content: chattingContent.h and chattingContent.cpp. Hash maps and hash sets are lists, the
-- 51 x 51 sectors a function with the bounds of `operator[]` written out, a null pointer is `none`.
-- What pools, clock and `wcscpy_s` return in a job is its `Environment`; what a job asks of the
-- server is the list `reported`. Content/Jobs: messages, time-outs, the loop over the queue.
-- Content/Messages: the packet of a message. Content/History and Content/Unconnected: sequences of
-- jobs. What `deleteUser` reads from the entry that it has erased is a part of the `Environment`.
--
-- Server: chattingServer.cpp. Callbacks of the network; packets parsed into jobs. Server/Moving: a
-- request on its way from the packet through the job to the answer. Server/Receiving: a reception
-- from the ring to the queue of jobs and to the network.
--
-- Network: lib/IOCP netServer/network.h and network.cpp. Slots, session numbers, reference counts,
-- completions. Network/Threads: one round of the accept thread and of the worker threads.
-- Network/Reception: a reception from the ring to the calls of `OnRecv`. Network/Slot: one slot
-- under threads that interrupt each other, an access to shared memory at a time, as a step
-- relation, with what the theorems ask of its lookups; the other definitions are runs without
-- interruption.
--
-- LockFree: lib/IOCP netServer/LockFreeStack.h. The chain of nodes that `push` and `pop` of the
-- stack, and `Free` and `Alloc` of its pool, work on, under interleaved threads. The bound of
-- 2 ^ 16 keys in its theorems is that of the number in a key; it counts from any `pushCount`, which
-- the constructors leave as it is.
--
-- SendQueue: lib/IOCP netServer/LockFreeQueue.h. The queue under a session, with its pool of nodes;
-- for Session it is a list with room for 255 packets.
--
-- JobQueue: lockFreeJobQueue.h. The queue of the content thread, over the record of SendQueue; its
-- last node bears the address of the queue. For Content and Server it is a list.
--
-- Profiler: lib/monitoringTools/profiler/profiler.h and profiler.cpp. The times that a thread
-- measures. Profiler/Trace: calls in any order, and what they measure.
--
-- Csv: the lines that profiler/profiler.cpp and logger/logger.cpp write. Csv/Reading is no part of
-- the program: a reader of such lines.
--
-- Only the loops of SendQueue and JobQueue run on fuel; one round is enough in a run without
-- interruption. Every other loop runs over a list that its caller hands over (bytes, blocks,
-- users, jobs, receivers). The loop that grows a serializer runs over the blocks that the
-- allocator hands out, and the loop over received packets over the serializers that the pool hands
-- out; both are `none` when these run out. One serializer more than packets is enough.
--
-- Not modelled: interruptions outside of Network/Slot and LockFree, sockets and completion ports,
-- the pools that job queues share, the files and counters of lib/monitoringTools, and the vendored
-- libraries cpp_redis and tacopie.

pub mod Common
pub mod RingBuffer
pub mod Serializer
pub mod ObjectPool
pub mod Packet
pub mod Session
pub mod Content
pub mod Server
pub mod Network
pub mod LockFree
pub mod SendQueue
pub mod JobQueue
pub mod Profiler
pub mod Csv
