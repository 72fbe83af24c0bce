-- ===== src/Lib.antt =====
-- The storage node of the distributed file system, and the parts of the master that ask it, read its
-- messages and keep what it told.
--
-- A storage node (storageLayer) keeps chunks of files under data/<filename>/<chunk id>, and in
-- memory a table of which chunks it has. An HTTP server takes chunks, gives them out and removes
-- files; a TCP connection tells the master (workspace/master) the table whenever it asks. Both
-- threads use the one table, under a mutex. The client (client) cuts files into chunks and asks the
-- master where to put them and where they are.
--
-- Files of the development, and the code that each is about:
--   * Base, Base/*: lists measured by native numbers, Boolean tests, texts as lists of character
--     codes, the C type int.
--   * Decimal, Decimal/RoundTrip: `atoi`, and what `%d` and `%zu` print. `strtol` saturates at the
--     ends of a 64-bit long, and `atoi` keeps the low 32 bits.
--   * Proto: the messages of storageLayer/data.proto, and protobuf-c as a parameter. Proto/Structs is
--     storageLayer/proto/data.pb-c.h; Proto/Join, Mappings, Health, FromMaster and FromStorage are the
--     functions and descriptors of storageLayer/proto/data.pb-c.c, one file for each message, with
--     Casts and Asserts on their assertions and Generated on how the node calls them.
--   * State: the structs of storageLayer/headers/fileState.h and storageLayer/state/fileState.c.
--     State/Insert is `insert_to_struct` with `push_chunk_id`, State/Remove `remove_from_struct`,
--     State/Print `print_storage_state`, State/Encode `return_current_state_encoded_in_protobufs`,
--     State/Destroy `storage_state_destroy`; their children Steps, Shift and Laws hold the proofs.
--   * Disk, Disk/Memory: the file system as a parameter, with its documented behaviour, and a disk
--     in memory that behaves so. A write has a buffer, which `fclose` writes out or fails to; a file is
--     told apart from the texts that name it.
--   * FileOperation: storageLayer/state/fileOperation.c, with Paths on `createDirectories` and the
--     path of a chunk, Save and Retry on `saveChunkToFile`, Next on `getNextChunkNumber`.
--   * GetFileDescriptor, DeleteFile, HandleNewChunk: the files of these names in
--     storageLayer/httpServer.
--   * HttpMain: `answer_to_connection` and `request_completed` of
--     storageLayer/httpServer/httpMain.c, with Upload on the pieces of a body, Chunks and Misplaced
--     on an upload and a download after it, Removed on a removal, Invariant on every call. Server is
--     `httpServer`.
--   * TcpClient: storageLayer/tcpClient/client.c and storageLayer/tcpClient/protoHandler/serialize.c,
--     with Send on `send_all`, Framing and Patience on a message behind its size, Receive on
--     `receive_messages`, and Connect, which is `create_socket`, `connect_to_server` and `cleanup`
--     with the constants of storageLayer/headers/tcpClient.h.
--   * TcpHandler: workspace/master/src/tcp_connection_to_storage/tcp_handler.rs, how a message is
--     read. Tasks is `accept_connections`, the tasks of the connections over the one state; Turns and
--     Running are on the connections that have ended, Apart, Others and Alone on one task among the
--     others, Fresh and Told on the task of a storage node, Located on what a client is answered
--     about it.
--   * HealthCheck: workspace/master/src/tcp_connection_to_storage/loop_health_check_sender.rs, with
--     Heard on what a node makes of its messages.
--   * StorageUnit: workspace/master/src/state/storage_unit.rs and connection_data_internal.rs, with
--     Rotation on the addresses to write to, Location on where a chunk is, Reports on what a health
--     message changes and on where a file is, ChunkIds and FileList on the lists of them.
--   * HttpHandlers: workspace/master/src/http_handlers, with ServerToWrite on the addresses to write to.
--   * Client: client/client, with RoundTrip on a file that is inserted and read, Remove on `deleteFile`.
--   * Main: storageLayer/main.c, the two threads as a step relation, with Held on what the mappings of
--     a health message point to, Reachability on every run and Start on how `main` comes to its threads.
--   * Tests: examples on concrete nodes.
--
-- How state and operations correspond. A function that changes the table or the disk takes the state
-- and returns the new one; `Node` is a table with a disk, `Connection` a node with the `*con_cls` of
-- a request. An array is a list of at least as many elements as its count says. The mutex is a flag:
-- to lock it twice is a fault. A fault is `none`: an access outside an array, a NULL that is read or
-- written through or printed, a lock that is held, an int that overflows. What a `malloc` or
-- `realloc` of a call returns is an argument (`Allocations`, `Resources`, `text_ok`, `allocated`).
-- The specification of the table is the list of `FileMappings` that `catalogue` reads off it, with
-- `inserted`, `without_file` and `has_chunk` as its operations; `IsValid` is its invariant.
--
-- Bounds and fuel. Loops over an array take the rounds that are left, which is the count less the
-- index, as the C loop does. `remove_directory` takes a depth, 1001 from `delete_file`: an entry's
-- path is longer than its directory's, so that where no directory that it comes to has a path of more
-- than 1000 bytes the depth is never used up. `read_messages` takes as many rounds as there may be
-- messages. `send_all` runs along the answers of the kernel, and waits where none is left. Counts
-- (num_chunks, num_file_count, sizes) are natural numbers: they do not reach 2 ^ 31. Chunk ids are
-- ints.
--
-- Threads. A call of the HTTP handler is one step: its daemon has one thread, and the other thread
-- takes the table under the lock. A health message is two steps, with calls in between. Its mappings
-- point into the table: `harms` in Main says which calls free or move what they point to, and packing
-- is a fault after one of them. The frees read the count of files again and again, as `count`.
-- The tasks of the master's connections take turns in any order: a turn reads one message and handles
-- it, since a task holds the lock for one call at a time. The stream of a task is all the bytes that
-- come on its connection, and the connection ends behind them. The ids are random, and no two
-- connections get the same one.
--
-- A lock that is taken in each round of a loop, as `return_server_to_write_chunk` takes it, is taken
-- once: the master is started with the replication factor 1. A message is packed in one step, and a
-- call that comes while it is packed is taken to come before or after.
--
-- Not modelled: a NULL from `MHD_create_response_from_buffer`, which is queued and destroyed like a
-- response; memory that is freed, other than what a health message points to; libmicrohttpd,
-- protobuf-c, prost, tokio, axios and the kernel, which are parameters; the start and the end of the
-- master's servers; state/message.rs of the master and client/master/singleChunkLocation.ts, which
-- nothing uses. The order of a `HashSet` is a parameter.
pub mod Base
pub mod Decimal
pub mod Proto
pub mod State
pub mod Disk
pub mod FileOperation
pub mod GetFileDescriptor
pub mod Client
pub mod DeleteFile
pub mod HandleNewChunk
pub mod HealthCheck
pub mod HttpHandlers
pub mod HttpMain
pub mod StorageUnit
pub mod TcpHandler
pub mod TcpClient
pub mod Main
pub mod Tests
