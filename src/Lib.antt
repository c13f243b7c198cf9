-- ===== src/Lib.antt =====
-- simpleKvSvr: three generations of a small key-value server in C++.
--
-- simplekvsvr_v2 is the one with layers. The network layer turns a line from a client into a task, the
-- logic layer (kvlogiclayer.h) parses the line and later writes the answer, and the store
-- (simplekvstore.h) does the task in one I/O thread: it appends a record to the last of its files
-- (datanode.h, record.h), and keeps the place of each key's record in an index
-- (simplekvindex.h). Bounded queues (queue.h) hand the tasks on between the layers.
--
-- The files of this library, and the code that each is about:
--   Base            shared names, lists over native numbers, byte strings and association lists,
--                   32-bit integers as bytes, arrays used as rings, text constants
--   TaskQueue       simplekvsvr_v2/queue.h; TaskQueue/Fifo has the invariant under interleaving
--   DataNode        simplekvsvr_v2/datanode.h and record.h; DataNode/Log, Room and Scan are about
--                   reading what was appended
--   Index           simplekvsvr_v2/simplekvindex.h and recordoffset.h
--   Store           simplekvsvr_v2/simplekvstore.h and task.h: `check`, `get_val`, `set_val`, `del_val`,
--                   `process_task`, and `serve` for diskIO. Store/Holds, Append, Refine, Alone and Serve show
--                   that it implements a dictionary; Store/Load is initlization; Store/Rebuild is
--                   reBuild and rebuildFile
--   LruCache        simplekvsvr_v2/cache.h and linkedlist.h, over a heap of nodes. LruCache/Recent is the
--                   list of tasks that it stands for; Links, Front and Sequence are about the doubly
--                   linked list, Holds and Adding about the methods, Session about runs of calls
--   Logic           simplekvsvr_v2/kvlogiclayer.h: `parse` is inThread, `respond` is outThread, and
--                   `handle_line` is a line's way through the layers and the store
--   Network         simplekvsvr_v2/basetcpsocket.h and kvnetworklayer.h: `readline`, `readn`, `sendn`,
--                   `input_action` and `input_tasks` for inputThread, `output_task` for outputThread.
--                   Network/Lines is about lines, Network/Sending and Receiving about `sendn` and
--                   `readn`
--   ShmQueue        simplekvsvr_v3/taskpool/shm_cqueue.h and .cpp: a ring of 512-byte nodes in shared
--                   memory, through which processes pass byte strings. ShmQueue/Nodes is about the
--                   loops over nodes, Messages, Receive and Order about the messages, and
--                   ShmQueue/Alloc about CShareQueueAlloc
--   ProcessPool     simplekvsvr_v3/processpool.h and .cpp: processes over fork, kill and waitpid, and the
--                   pool that hands tasks to them through ShmQueue. ProcessPool/Tasks is about the tasks,
--                   ProcessPool/Signals about the children
--   SlotIndex       simplekvsvr/NewKVIndex.h and DataNode.h, the index and the store of the first server:
--                   `set`, `delete`, `resize` and `erase_cache`. SlotIndex/Cache is Get, Exist and
--                   GetStats, SlotIndex/Disk is Start and MemoryRecycle. SlotIndex/Entries, Holds,
--                   Methods and Setting show that it implements a dictionary, SlotIndex/Durable and
--                   SlotIndex/Disk/Loading what the slots keep of it, SlotIndex/Missing what Delete does
--                   without its key
--   FreeIndex       simplekvsvr/KVIndex.h, the index that NewKVIndex.h replaces in main.cpp: values as
--                   strings in one file, with a list of the free parts. It has `insert`, `delete`,
--                   `set` and `resize`; FreeIndex/Cache is Get, Exist and GetStats, FreeIndex/Disk is
--                   Quit and Start. FreeIndex/Blocks sees the file as free parts and values side by
--                   side; Filling, Growing, Releasing and Ring are about the parts of a method,
--                   Holds, Rounds, Inserting and Space about the index, the modules below FreeIndex/Disk
--                   about a restart, Calls and Session about runs of calls
--   WorkQueue       simplekvsvr/workqueue.h, the queue between the listener and the workers: `step` is a
--                   use of its mutex, WorkQueue/Wakeups is about every order of such steps
--   Worker          simplekvsvr/main.cpp: `process` is a round of KVWorker::Process; Worker/Words is
--                   about strtok_r, Worker/Session about whole sessions over SlotIndex
--   Listener        simplekvsvr/KVSvr.h: `run` is the constructor and Run, `connection` its inner loop;
--                   Listener/Pool is the server with its queue and the five workers of ThreadPool
--                   (simplekvsvr/ThreadPool.h, main.cpp); Listener/Requests and Serving are about
--                   requests on their way through it
--
-- How the state corresponds. A file is the list of its bytes; objects on the C++ heap are numbered by
-- their place in `SimpleKvStore.nodes`, and a deleted one is `none` there; `fileNum` is the
-- length of `file_list`. An `int` that goes to a file is its bit pattern, below 2 ^ 32. A pointer into
-- a buffer is the memory from there to the buffer's end. A result `none` of the store is undefined
-- behaviour of the source: a dangling pointer, or a write past the end of an array. What the
-- operating system does is an argument: how much of a `write` reaches the file, whether a `read` or
-- an `lseek` succeeds. Writes to the manifest are taken to succeed (the source only prints an error).
-- A record whose length field has its sign bit set is taken as one that the file is too short for.
--
-- The calls of ShmQueue hold one mutex throughout, except while they wait: a pass of a call is one
-- step, and `wait` stands for a call that is put to sleep with the queue unchanged. The number of nodes
-- is an `int` in the source's constructor, so below 2 ^ 31. A segment whose size has wrapped is `too_small`, and
-- its queue has no model. The processes of ProcessPool share one queue, and a list says whose call of Dequeue is
-- next.
--
-- `recv` and `send` are parameters of Network; what the theorems use of a stream socket is the record
-- `IsStream`. `input_tasks` is the rounds of inputThread that are about one socket.
--
-- In Listener, what `select`, `recv` and `accept` give is an argument, a list of rounds for each connection; the
-- loops run over these lists, and End and Visit tell where the code waits for more. WorkQueue's queue is the list of
-- the effects `push` there. In Listener/Pool a worker's round of Process is one step, which is possible
-- only while no other worker has a task: rounds that mix, with an Exist of one worker, a Delete of another and a
-- Get of the first, have no result there. `process_all` of Worker is rounds one after the other, too.
--
-- In SlotIndex a map entry carries the address `node` of its element, so that an iterator of the ring
-- is an address, which dangles when no entry has it; a slot's key and value are strings that end at the
-- first zero byte and fit the field; `cache_turn` is cache_index_ + 1. `none` is undefined
-- behaviour there too: a place outside the mapping, or a dangling iterator that is used. The counts of
-- requests do not overflow.
--
-- FreeIndex uses the same map entries, with the offset of the value for `slot`, and addresses; its cached
-- strings are those that the pointers lead to. An element of `mem_list` has the first and the last place of a
-- free part. A `map` is gone through in the order of its keys, which `by_key` gives. `cin >> offset` stops at
-- a sign here, which Quit never writes. Sizes of the file stay below 2 ^ 31; whether the system calls of Resize succeed is a function of the size of the file.
--
-- In LruCache an address is a number, 0 that of lruHead, and the heap is a function from addresses to
-- nodes, with `none` for what is not allocated; `new` gives an address that was never used. A copy of a task has its
-- pointers in the buffers of the task that was copied, which may be deleted (`gone`). `none` as a
-- result is the use of a null pointer, of a deleted node, or of a key in such a buffer.
--
-- Fuel. The loops over a file recur on fuel; each record has at least 12 bytes, and the callers give one
-- more than the bytes of the file. `itoa` recurs on fuel that is the number itself.
-- `input_tasks` recurs on the number of rounds, and `sendn` and `readn` on what the calls of `send` and `recv` return.
-- `insert` in FreeIndex recurs on rounds: the file doubles in each, so the bytes of the value and three more are
-- enough; `read_pairs` recurs on the bytes of the text, since each pair takes some.
--
-- Not modelled. The thread of rebuildFile runs alone in Store/Rebuild, not between the tasks of the I/O
-- thread: `serve` and `handle_lines` have no result from where `check` starts it, which is when the last file has grown
-- past OFFLIMIT. The set-up of the network layer, the destructor of the cache, and the
-- join of the threads of the first server (simplekvsvr/ThreadPool.h) have no model.
-- The methods of simplekvsvr/KVIndex.h that only print have none either. Opening and closing
-- of descriptors, sockets, thread start and messages on the console are pure input and output.
pub mod Base
pub mod ShmQueue
pub mod ProcessPool
pub mod SlotIndex
pub mod FreeIndex
pub mod LruCache
pub mod TaskQueue
pub mod WorkQueue
pub mod Worker
pub mod Listener
pub mod DataNode
pub mod Index
pub mod Network
pub mod Store
pub mod Logic
