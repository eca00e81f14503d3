-- ===== src/Lib.antt =====
-- The protocol toolkit: memory, buffers, serialization, arrays, threads and command lines
-- (src/include, src/lib), the Modbus library built on them (src/examples/modbus/lib), a Modbus
-- server and client (src/examples/modbus/server, src/examples/modbus/client), and the discovery of
-- EtherNet/IP devices (src/examples/ethernetip).
--
-- The parts and their files:
--   Err: the error codes (src/include/ptk_err.h).
--   Alloc: ptk_alloc, ptk_realloc and ptk_free (src/lib/ptk_alloc.c) over a C library that is a
--     parameter: what it answers to each call is open, its documented behaviour is a hypothesis.
--     Heap is the contract by which the other code uses the allocator.
--   Buf: struct ptk_buf, its cursors, ptk_buf_move_block, ptk_buf_alloc, ptk_buf_alloc_from_data
--     and ptk_buf_realloc (src/lib/ptk_buf.c). Buf/Inv has the invariant and the view of a buffer
--     as a queue of the bytes between start and end.
--   Codec: ptk_buf_serialize_impl and ptk_buf_deserialize_impl (src/lib/ptk_buf.c) with their type
--     tags. The host's byte order and its conversion from double to float are a parameter.
--   Array: the functions of PTK_ARRAY_DECLARE (src/include/ptk_array.h) for any element type.
--   Thread: mutexes, condition variables and threads (src/lib/ptk_thread.c) on POSIX, whose
--     functions are a parameter. Thread/Lock has the loop of the timed lock, Thread/Deadline the
--     arithmetic on times.
--   Config: the parser of command lines (src/lib/ptk_config.c). What getopt_long answers is a
--     parameter, and so are strtol, strtoul and the comparisons of texts.
--   Eip: the List Identity request and response
--     (src/examples/ethernetip/ethernetip_find_devices/ethernetip_find_devices.c). Eip/Wire and
--     Eip/Device have the format of a response; Eip/Reads, Eip/Name and Eip/Safe are about a
--     response of any bytes.
--   Server: the threaded Modbus server (src/examples/modbus/server/modbus_server_threaded.c). The
--     functions that receive a request and send a response are not in the repository and are a
--     parameter. Server/Spec is what a server promises, Server/Refine relates the handler to it.
--     Server/Create makes the tables, with mutexes of Thread and memory of Heap; Server/Args reads
--     the command line with Config. Server/Threads has the accept loop, the client threads and the
--     signal as a step relation: Inv about the count of clients, Tables about the store, Stop
--     and Drain about the end after a signal, Made about a server from its creation on.
--   Client: the Modbus client (src/examples/modbus/client/modbus_client_old.c): its arguments, and
--     in Client/Run its operations, over parameters for the texts and for the functions that send a
--     request and receive a response.
--   Modbus/Common, Modbus/BitArray: modbus_common.c and modbus_bit_array.c.
--   Modbus/Message, Modbus/Loops: what the messages share. Modbus/Pdu has a module per message
--     type of modbus.h, with its create, serialize, deserialize and send functions; Modbus/Pdu
--     itself joins the eleven of fixed length, Format has their bytes.
--   Tests: the theorems at concrete values.
--
-- How it is modelled. A function that changes an object returns the new one, beside the error it
-- returns or stores. A pointer that may be NULL is an Option. An outer `none` stands for what C
-- leaves undefined: an access outside a block, or the use of a value that was not returned; so a
-- theorem that gives a result in `some` also says that no such access happens. Numbers are natural
-- numbers, and where the code's types wrap, the remainder is written out. Bytes are numbers below
-- 256. Loops recurse on their own count or on their input, but for the timed lock, which has fuel:
-- one round more than the round in which the clock has passed the timeout is enough. Pointers and
-- size_t have 64 bits, buf_size_t 16. Each call of the allocator is numbered, and may fail.
-- A block is taken to end with the bytes that were asked for, but for the one into which the
-- deserialize method of a request to write several coils reads, which ends with them rounded up to
-- 16. What a block holds behind the bytes that were asked for, which ptk_realloc keeps, is any
-- (`slack`, `stale`). Timeouts are integers, which may be negative.
--
-- Not modelled: the dispose functions, which do nothing, log output and all that is printed, the
-- destructors of array elements, the default methods of the messages' base, and the parents of the
-- allocator that the Modbus library is written for. Of the server, the parsing of the address to
-- listen on and the connection it opens are left out, and so is the client's connection; of the
-- device discovery, the look-ups of names, the helper functions that nothing calls, and the thread
-- that broadcasts. Nothing models sockets, atomics, the Windows code, the transport stubs,
-- sketches, or the sources in attic folders.
pub mod Prelude
pub mod Err
pub mod Alloc
pub mod Heap
pub mod Buf
pub mod Codec
pub mod Array
pub mod Thread
pub mod Config
pub mod Eip
pub mod Client
pub mod Server
pub mod Modbus
pub mod Tests
