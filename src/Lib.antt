-- ===== src/Lib.antt =====
-- homekit-bridge connects devices to HomeKit by Lua programs. Its C code gives the programs a
-- platform (storage, sockets, timers) and bindings; this library models parts of it that keep
-- state of their own, and what makes them correct.
--
-- The files and the code they model:
--
--   Mq: bridge/src/lmqlib.c, the message queue of Lua coroutines. `send` is lmq_obj_send, `recv`
--     is lmq_obj_recv, `create` is lmq_create. Mq/Ring relates the ring to a list of messages;
--     Mq/Fifo, Mq/Overrun and Mq/Wait describe single calls, Mq/Runs sequences of them.
--   Embedfs: bridge/src/embedfs.c, the tree of embedded files, and the module searcher of
--     bridge/src/app.c that looks Lua code up in it. A search that has used up its rounds or
--     leaves its array has results of its own. Embedfs/Search is about the binary search,
--     Embedfs/Resolve about paths, Embedfs/Modules about module names.
--   Nvs: platform/posix/src/nvs.c, the key-value store. Nvs is a handle's items, Nvs/Io the
--     calls of read and write, Nvs/Codec the bytes that a commit writes, Nvs/Load how an open
--     reads them, Nvs/Store the files and the list of open handles (pal_nvs_init, pal_nvs_open,
--     pal_nvs_commit, pal_nvs_close, pal_nvs_deinit).
--   Socket: platform/posix/src/socket.c, the non-blocking sockets. Socket is the object,
--     Socket/Send, Socket/Connect and Socket/Receive are the calls with their handlers,
--     Socket/Events is what the run loop calls. Socket/Stream, Socket/Stuck and Socket/Reports
--     are about the queue of buffers and its callbacks, Socket/Phases about the states of a TCP
--     socket, for which Socket/Phases/Reachable has the step relation.
--   RunLoop: platform/esp/components/homekit_adk/port/src/HAPPlatformRunLoop.c. RunLoop/Timers
--     are HAPPlatformTimerRegister, HAPPlatformTimerDeregister and ProcessExpiredTimers
--     (`register`, `deregister`, `expire`); RunLoop/Handles are HAPPlatformFileHandleRegister,
--     HAPPlatformFileHandleUpdateInterests, HAPPlatformFileHandleDeregister and
--     ProcessSelectedFileHandles (`register`, `update_interests`, `deregister`, `process`);
--     RunLoop/Loop is HAPPlatformRunLoopRun with both (`run`, of the iterations `iterate`) and
--     HAPPlatformRunLoopStop; RunLoop/Loopback are HAPPlatformRunLoopScheduleCallback and
--     HandleLoopbackFileHandleCallback (`schedule`, `handle_loopback`); RunLoop/Life are
--     HAPPlatformRunLoopCreate and HAPPlatformRunLoopRelease.
--   LuaTime: bridge/src/ltimelib.c, the timer objects and sleeping coroutines of Lua programs,
--     on the timers of RunLoop. LuaTime/Valid says how objects and timers belong together,
--     LuaTime/Calls and LuaTime/Rounds are about single calls and rounds, LuaTime/Safe about
--     sequences.
--   TcpStreams: platform/esp/components/homekit_adk/port/src/HAPPlatformTCPStreamManager.c, the
--     listener and the streams of HomeKit's server, on the file handles of RunLoop.
--     `open_listener`, `accept`, `close` and `update_interests` are the functions of these
--     names, `handle_stream` and `handle_listener` the callbacks of the file handles.
--     TcpStreams/Listeners has the opening and closing of the listener, TcpStreams/Traffic
--     reading, writing and the callbacks. TcpStreams/Valid says how streams and file handles
--     belong together, TcpStreams/Kept what a change of one file handle leaves of that,
--     TcpStreams/Calls, TcpStreams/Accepts and TcpStreams/Closes are about single calls,
--     TcpStreams/Safe about sequences, TcpStreams/Dispatch about the callbacks.
--   Hap: bridge/src/lhaplib.c, the descriptor of the accessories that a Lua program has made:
--     lhap_init, lhap_deinit, lhap_add_bridged_accessory, lhap_start, lhap_stop and
--     lhap_raise_event (`init`, `deinit`, `add_bridged_accessory`, `start`, `stop`,
--     `raise_event`). Hap/Server has the start and the stop of the server, Hap/Raise the events.
--     Hap/Memory is about the block of the bridged accessories, Hap/Room, Hap/Bridged,
--     Hap/Adding, Hap/Starting and Hap/Serving about single calls, Hap/Life about sequences,
--     Hap/Events about events. Hap/Values are lhap_tointegerx, the constraints of values and
--     lhap_char_number_handleRead (`tointegerx`, `constraint_val`, `number_handle_read`), with
--     what Lua's library tells of a value as the parameter `Lua`. The server's callbacks are
--     read from their table by `traverse_table` of Lc; of an accessory's table, what its
--     traversal ends in is an argument, a key that is no text included.
--   KeyValueStore: platform/esp/components/homekit_adk/port/src/HAPPlatformKeyValueStore.c, the
--     domains and keys of HomeKit in the storage library of ESP-IDF. The library is the
--     parameter `Library`; KeyValueStore/Documented says what its documentation promises.
--   Lc: bridge/src/lc.c, the traversal of Lua tables (`traverse_table`, `traverse_array`),
--     tables of enumerations, and the registry's hold of coroutines (`startthread`,
--     `resumethread`).
--   Base: what the components share: tests on numbers, lists, byte strings with strcmp, and
--     results that can abort.
--
-- The store's file functions call Io for every read and write, through Load and Codec; the
-- bindings for Lua that call Nvs, and the coroutines that a queue resumes, are outside of the
-- model, the latter as a parameter of `send`; where `send` looks for a further coroutine in what
-- one has left on the stack, its result is `misread`. A socket's handlers call back last, so a
-- callback's calls are the next steps of the socket.
--
-- A failed HAPAssert or HAPPrecondition is the result `abort`; in Hap, an access behind a block
-- of memory or through a null pointer is the result `wrong`, and a Lua error leaves a
-- descriptor. An address that the allocator gives is in use nowhere else; this is a condition of
-- the theorems that need it. The answers of system calls and of the allocator are arguments of
-- the operations, so a theorem holds for all of them: a list of answers for repeated reads and
-- writes, a Boolean for a call that succeeds or fails. An interrupted call that the code repeats
-- at once is answered by the outcome of its last try.
--
-- size_t has 64 bits and is written in memory with the least significant byte first; `int` and
-- `ssize_t` values stay small enough not to overflow. Bounds on rounds: the binary search has
-- one more round than the array has elements, and the reading of a store file one more round
-- than the file has bytes; each round of the latter consumes a byte. The receiver of scheduled
-- callbacks has one more round than its buffer holds bytes, since a message has more bytes than
-- none. The rounds of the loops over timers and over file handles are arguments, of which the
-- results say how many are needed.
--
-- Not modelled: reading and writing of logs, the release of memory, the closing of file
-- descriptors, and the contents of files after a crash of the system between two calls. LuaTime
-- and TcpStreams use RunLoop, and Hap uses Lc; the files of other directories do not interact.
-- Of the bindings for HomeKit, the reading of accessories from their tables, the handlers of
-- writes and of values that are not numbers are left out, and of the TCP streams the system's
-- calls. Callbacks of the run loop are functions on its state; that other threads schedule
-- callbacks meanwhile is left out of the loop, and the loopback's receiver is described by
-- itself. Of a socket, its destruction, binding and broadcast option are left out. The other
-- parts of the program are not modelled.
pub mod Base
pub mod Embedfs
pub mod Hap
pub mod KeyValueStore
pub mod Lc
pub mod LuaTime
pub mod Mq
pub mod Nvs
pub mod RunLoop
pub mod Socket
pub mod TcpStreams
