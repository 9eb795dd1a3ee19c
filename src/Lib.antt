-- ===== src/Lib.antt =====
-- FusionFS with ZHT, a distributed file system over a distributed hash table: a model of its C and
-- C++ components, with the theorems on them. Paths are those of the repository.
--
-- Parts, and the files that model them:
--
-- - NoVoHT, the hash table under each ZHT server (src/zht/src/common/novoht.cpp,
--   src/zht/inc/novoht.h). Novoht/Hash is `hash`. Novoht/Chain is the linked list of a bucket:
--   `find`, `replace` and `erase` are the walks of get, put and remove. Novoht/Disk is the database
--   file, bytes and an offset, with `write`, `mark` and `readTabString`. Novoht/Table is the class:
--   put, get, remove, resize, writeFile, readFile and the constructor with a load factor. Proofs:
--   Novoht/Placed (nodes in their buckets), Novoht/Resize, Novoht/Saved (writeFile), Novoht/Refines
--   with Put and Remove (each operation against the map), Novoht/Reload (readFile), Novoht/History
--   (sequences of calls against a map).
-- - The ZHT server (src/zht/src/server_general.cpp). Zht/Server: `data_service` is dataService, with
--   `dispatch` for its switch, `serve_lookup`, `serve_remove` and `serve_insert` for the cases,
--   `forward` for the part behind the switch. Zht/Server/Storing and Zht/Server/Replication have the
--   proofs.
-- - The ZHT client (src/zht/src/cpp_zhtclient.cpp) in Zht/Client, with proofs in Zht/Client/Requests
--   and Zht/Client/Answers, and its C interface (src/zht/src/c_zhtclient.cpp) in Zht/Interface, with
--   Zht/Interface/Reading on what a lookup gives its caller. The configuration that client and
--   server read is in Zht/Config.
-- - The list of servers and the choice of a server by key (src/zht/src/common/zht_util.cpp) in
--   Zht/Members, with Zht/Members/Listed and Zht/Members/Cut on what getMembership reads, and
--   Zht/Hashing. The message (src/zht/src/misc/meta.proto) in Zht/Package.
-- - The socket helpers (src/zht/src/common/net_util.cpp) in Net, with Net/Sends on what they send,
--   Net/Contacts on whom they look up and over which socket they send, and Net/Sockets on what they
--   close.
-- - The file transfer: the client (src/ffsnet/ffsnet.cpp) in Ffsnet/Client, the daemon's thread
--   (src/ffsnet/ffsnetd.cpp) in Ffsnet/Daemon. Ffsnet/Protocol joins the two by the messages that
--   they exchange; Ffsnet/Sockets is on connections and undefined behaviour.
-- - The cache queues. Cache/Heap has the nodes (struct _inode_t of src/params.h) at addresses, with
--   malloc, free, insque and remque. Cache/Clock is src/clock.c: `insque_clock`, `remque_clock` and
--   `rmelem_clock` over `ins_Q` and `rem_Q`. Cache/Lru and Cache/Lfu are the queues of src/util.c:
--   insertion, `remque_lru`, `rmelem_lru`, `get_pos_lfu`. What the queues stand for: Cache/Ring
--   (cyclic lists, and what writes do to them in its children), Cache/Names, Cache/Marks,
--   Cache/Chance and Cache/Chosen (the second-chance rule), Cache/Request, Cache/Lfu/Position (order
--   by frequency). Proofs: the children of Cache/Clock, Cache/Lru and Cache/Lfu, Cache/Walk (the
--   loops) and Cache/Protection.
-- - The FUSE side (src/fusion.c, src/util.c), with MODE_Clock, which src/params.h sets. Fusion/Os
--   has `struct fusion_state` with ZHT's state and the history of the calls on the system and the
--   file transfer, and the actions of the handlers over it. Fusion/Paths has the paths on the two
--   disks and `real_ip`; Fusion/Disk the moves between the disks, `ssd_is_full`, `is_symlink_ssd`
--   and `net_getmyip`; Fusion/Directory what `zht_update`, `zht_append` and `zht_delete` do to ZHT
--   and to the text of a directory; Fusion/Room the loop that fusion_open, fusion_create and
--   fusion_release share, which moves files to the HDD while the SSD is full. The handlers:
--   Fusion/Files (getattr, open, create, release), Fusion/Entries (mkdir, rmdir, unlink, rename,
--   readdir), Fusion/Redirect (chmod, chown, utime, truncate, statfs, link, extended attributes,
--   fsync), Fusion/Descriptors (the rest), Fusion/Mount (what main sets up). Proofs: the children of
--   these modules; Fusion/Directory/Listing is on the text of a directory, Fusion/Directory/History
--   and Fusion/Directory/Keys on ZHT against lists of names.
--
-- How they interact: the client picks the server of a key by `myhash` over its list and sends a
-- package; the server's dataService calls its NoVoHT table, answers, and forwards copies to its
-- replicas. A FUSE handler looks a path up in ZHT, calls the file transfer when another node has the
-- file, puts a file that is used into the clock queue, and evicts files by it when the SSD is full.
-- In the model of the handlers ZHT and the file transfer stand behind their interfaces; the clock
-- queue is that of Cache/Clock.
--
-- Conventions. Io has the programs that call the operating system or UDT: a program is a tree of
-- calls, and a run takes the replies of the environment from a function of the call's position.
-- `fault` is undefined behaviour, an exception that nobody catches, or a wait that does not end. A
-- table operation that would wait on a held lock, divide by zero, double its size past what an `int`
-- holds, or write past a buffer gives `none`. Bytes are lists of native numbers; machine words keep
-- their `% 2 ^ 64`. `read_file` runs on fuel, as much as the file has bytes and one more, and each
-- round of its loop takes a byte or ends; so does `get_membership`, but for a port that is not a
-- number, where the code's loop never ends. The loops of the cache queues take any fuel: one round
-- for a search, and one round and one more step for the hand, are enough; the loop that makes room
-- takes one more round than the queue has files. In the handlers an environment answers each call by
-- the history of the calls; what the stack holds in memory that the code does not set is an answer,
-- too.
--
-- Parameters: the encoding of packages (Protocol Buffers) with the law that parsing reads what was
-- serialized; the connection cache of the client, without a law; the floating-point test of the load
-- factor, of which the theorem on sequences of calls asks that it is off or at least 0.5; for the
-- handlers, ZHT as a record of operations with the laws of a map, and the answers of the system
-- calls and of the file transfer; of these some theorems ask that the node keeps its address, or
-- that lstat answers the same throughout. A new node of the queue comes at an address that a theorem
-- takes as unused.
--
-- Not modelled: of src/fusion.c, the branches for the LRU and LFU queues, which are never taken, the
-- options of main and its call of fuse_main, and what fusion_open and fusion_create write into a
-- node that they never use, but for the length of its name; the buffers that read, readlink and the
-- attributes fill; of src/util.c, the wrappers of the ZHT client, the hash table that nothing uses,
-- and the prints; the log; the event loops of the two daemons, which accept connections and start
-- threads; the bridge to C (src/ffsnet/ffsnet_bridger.cpp), which passes calls on; generated code;
-- UDT, which is the copy of another project. Diagnostics are left out everywhere. Checks has tests
-- and examples.
pub mod Prelude
pub mod Io
pub mod Novoht
pub mod Net
pub mod Ffsnet
pub mod Zht
pub mod Cache
pub mod Fusion
pub mod Checks
