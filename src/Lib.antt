-- ===== src/Lib.antt =====
-- LinuSE: three servers and their clients. SUSE (suse/) schedules the threads of programs that use
-- the hilolay library, MUSE (muse/) gives programs a segmented and paged memory with a swap area,
-- and SAC (SAC-server/) keeps a file system in an image that is mapped into memory. Each server has
-- a thread for every client, which reads messages and calls one operation for each; the servers do
-- not talk to one another.
--
-- Base: what the modules share. Lists, searches and tests on native numbers, integers (Base.Int).
-- Protocol: shared/shared/protocol.h is Protocol.Head (the numbers of the messages);
--   shared/shared/protocol.c is Protocol.Mensaje, over a socket that is a list of bytes.
-- Suse: suse/src/suse.h is Suse.State; suse/src/suse.c is Suse.Ops (searches, scheduling) and
--   Suse.Calls (the operations behind the messages, and the handler). `atender` is a turn of the
--   handler's loop, and `correr` runs the turns of all handlers in a given order; Suse.Servidor is
--   the handler over a connection, cargarSemaforos is Suse.Inicio, and the loop of main is
--   Suse.Historia, in which the connections come between the turns. The calls of
--   hilolay/example_alumnos.c are Suse.Hilolay. The names are those of the code
--   in snake case: suseScheduleNext is `suse_schedule_next`.
-- Muse: muse/src/estructuras.h and the globals of muse/src/muse.h are Muse.State; muse/src/utils.c
--   is Muse.Clock (the searches of the modified clock), Muse.Paginacion (frames, swap area, page
--   faults), Muse.Segmentos (searches in segments, pages of mapped files) and, with muse_unmap and
--   muse_close of muse/src/muse.c, Muse.Cierre; muse_get and muse_cpy of muse/src/muse.c are
--   Muse.Acceso; muse_alloc is Muse.Reserva (new segments) and Muse.Alloc, over Muse.Metadata (the
--   headers of blocks in the pages); merge and muse_free are Muse.Merge; muse_map and muse_sync are
--   Muse.Mapa. `handler_clients` of muse/src/muse.c is Muse.Servidor (cases) and Muse.Atencion (the
--   others and the loop), inicializarEstructuras is Muse.Inicio, and libmuse/libmuse/libmuse.c is
--   Muse.Libmuse.
-- Sac: SAC-server/src/nodes.h is Sac.State; SAC-server/src/nodes.c is Sac.Nodes;
--   SAC-server/src/operations.c is Sac.Bloques (delete_blocks), Sac.Datos (read, write, truncate) and
--   Sac.Operations (the others); `fill_path` of SAC-server/src/aux.c and `listen_sac_cli` of
--   SAC-server/src/SAC-server.c are Sac.Wire; SAC-cli/src/SAC-cli.c is Sac.Cliente, whose callbacks
--   take the connection as an argument. Sac.Remoto joins the two: the bytes of a callback are all that
--   the thread of the server gets.
--
-- How state is modelled. A pointer to a shared cell is a number, and a store maps it to the cell:
-- the threads and programs of SUSE, the pages of MUSE; a frame or a place of the swap area is named
-- by its position in its bitmap. Memory, the swap area and the blocks of the image are maps from an
-- offset to a byte. An operation takes the state and returns the new one; `none` stands for a fault,
-- which is what the code does through NULL or a variable without a value. The lists, queues and bit
-- arrays of the commons library are lists, with the documented behaviour: `list_find` and
-- `list_remove_by_condition` take the first element that satisfies the condition, a queue is served
-- from its front. Operations run one at a time. In SUSE, `suseWait` and `suseSignal` hold
-- a mutex throughout; the other turns of its handlers can overlap, and what is shown of them is of the
-- runs in which they do not, but for the loading of threads, which Suse.Carrera takes apart into its
-- steps. In Sac a C int is held by its 32 bits, and the pointers of a node are a map from any index.
--
-- What is a parameter: the operations of C's double (Suse.State.Double), with the order that IEEE
-- 754 gives to numbers that are not NaN (`IsTotal`) where a theorem needs it; `string_split` of
-- commons on "/", the time, the answer of `send` and the bytes that the client leaves unwritten, in
-- Sac; `string_equals_ignore_case` of commons, the contents of a mapped file, the machine
-- (`Maquina`: fresh memory, floats and what malloc finds) and `string_itoa` of commons, in Muse, with
-- floats of 24 bits (`FloatBueno`) where a theorem needs them; the string of some bytes in the
-- handlers, and `atoi` in Suse.Inicio.
--
-- Bounds and fuel. The loops over lists are structural. `search_node` is on the length of the path,
-- which grows shorter at each call, and the copy of `muse_cpy` on the count of bytes. The loop of
-- `calcularFramesNecesarios` has twice the count of bytes as fuel, and a quotient of floats is less
-- than twice that of the numbers. The loop of `sac_truncate` takes its
-- fuel as an argument, since its counter wraps around, and says when there would be more rounds.
-- The loops of the threads for the clients have a count of turns; more turns than there are bytes on
-- the socket are enough, since each message that is not an end takes a byte at least.
-- Sizes of files wrap around at 2^32, and the difference of sizes in `sac_truncate` at 2^64. The
-- counters of SUSE are unbounded integers, as no run gets near 2^31.
--
-- What is not modelled: opening sockets, logging, the files of the configuration and of the swap area,
-- and the start-up of the servers but for the state that it leaves; the test programs and the
-- generated make files.
pub mod Base
pub mod Protocol
pub mod Suse
pub mod Muse
pub mod Sac
