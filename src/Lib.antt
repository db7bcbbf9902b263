-- ===== src/Lib.antt =====
-- Delibird: a system of four kinds of process that exchange messages about pokemon. The Broker
-- keeps the messages in a memory of its own and hands them to the subscribers; the Team catches
-- the pokemon, the Game-Card keeps them in a file system of its own, and the Game-Boy is a client.
--
-- What is modelled:
--
-- - Universo: OurLibraries/UniversoPokemon, the payloads and their sizes (`tamanio_*`).
-- - Sockets: OurLibraries/Sockets. `Codigos` has the operation codes, `Bytes` the copies into a
--   block and the reads from a connection, `Serializacion` and `Deserializacion` the functions of
--   those names in sockets.c, `Envio` the functions `enviar_*` of mensajes.c and sockets.c. The
--   children `Copia`, `Viaje`, `Campos`, `IdaYVuelta`, `Localizada` and `Envio/*` are proofs.
-- - Particiones: Broker/src/Particiones.c, the memory of the Broker. `Tabla` has the entries and
--   the operations on one of them, `Ajuste` the choice of a partition and of a victim,
--   `Consolidacion` the joining of free neighbours, `Liberacion` the eviction and the compaction,
--   `Dinamica` the split, `guardarMensaje` and `algoritmoParticionDinamica`. `Forma` says what a
--   well-formed table is, and has the abstract view of a table as the list of its messages;
--   `Punteros` and the children of the others are proofs.
--   `Buddy` has the buddy system, and `Rastro` where the entries of a table come from.
-- - Broker: Broker/src/Broker.c and Broker.h. `Estado` has the messages, the subscribers and the
--   globals, `Tamanios` the functions `getSizeMensaje*`, `Consultas` the look-ups up to
--   `getMensajesAEnviar`, `Recepcion` the functions `recibirMensaje*` and `manejoMensaje`, `Envio`
--   and `Suscripcion` `enviarMensaje` and `manejoSuscripcion*`, `Servidor` the start, the loop of
--   `main` and the dump. `Pasos` has the threads as steps on the shared state, and `Sistema` also
--   the steps by which they take an id and enter a message. The others are proofs.
-- - Team: team/src, `Entrenador` the data, `Pokemones` and `Enteros` the lists of pokemon_utils.c,
--   `Objetivos` what utils.c says is needed, `Cercania` the nearest trainer and pokemon, and
--   `Marcha` the steps and turns of a trainer in team.c and `Deadlock` the tests of its deadlocks.
--   `Nombres` and the children are proofs.
-- - GameBoy: Game-Boy/src/Game-Boy.c. `Cliente` has what each mode sends, `Principal` the mode of a
--   subscriber and `main`; `Cabeceras` and `Conversa` are proofs about it and the loop of the
--   Broker.
-- - Pruebas: runs and the theorems at concrete inputs.
--
-- How the state corresponds. The globals `tabla_particiones` and `id_particion` are a record
-- `Memoria` that the functions take and return. A `t_list` is a list; `list_get`, `list_add`,
-- `list_add_in_index`, `list_remove` and `list_filter` of the commons library are its operations
-- with an index in range. A `t_particion*` is the index of its entry in the table. A function that
-- may read through NULL returns an `Option`, whose `none` is that fault; the functions of
-- sockets.c return `none` for a write outside the block, a read past the end of a name, and a
-- connection that ends too soon. `malloc` and `atoi` are parameters: the theorems ask that a block
-- has the size asked and that a number fits in 32 bits. `string_itoa` and `string_contains` are
-- parameters too. In the Team `string_equals_ignore_case` is
-- a parameter, of which the theorems ask that it is an equivalence.
-- Nothing is taken out of the Broker's list of messages, so that an `info_mensaje*` is the index of
-- its entry. Its threads run in two ways here: each one alone, as the code has it, and all of them
-- as steps in any order, where what a mutex guards is one step. `get_id` reads the global after it
-- has unlocked its mutex, so that its increment, its read and the entry of the message in the list
-- are three steps, and two messages may have the same id. `actualizarID` runs under no mutex: its
-- writes to the ids of the partitions come between any two steps. That they come while another
-- thread is in the middle of a change of the table, and what the table is then, is not modelled.
--
-- Bounds and fuel. The quantities of the memory are natural numbers: none is negative in C, except
-- the code -1 of a free partition, which is `none`. The counter of ids does not wrap, as the
-- overflow of an `int32_t` has no meaning in C. The integers on the wire are the numbers of their
-- 32 bits, the lowest byte first. The loop of `algoritmoParticionDinamica` takes fuel for two
-- rounds more than the table has entries; each round that does not end it counts a freed partition,
-- and the loop stops by itself once that count passes the number of entries. The outer loop of
-- `algoritmoBuddySystem` has the same fuel; its inner loop halves the partition that it takes, and
-- has the bytes of the memory for fuel. `tamanioMinimo` doubles in 32 bits, and has the bytes of
-- the message, enough up to 2 ^ 30; beyond, the loop of the code does not end. The walk of
-- `ejecutar_fifo` has one round more than the distance. A thread `manejoSuscripcion*` has one round
-- more than its semaphore `primer*` counts.
--
-- What is not modelled: the set-up of connections, threads and semaphores, logging, the reading of
-- configuration files, the release of memory, the semaphore `writer` with its counter `reader`,
-- and so far the choice of the next trainer and the search for deadlocks of the Team, and the
-- Game-Card.
pub mod Base
pub mod Universo
pub mod Sockets
pub mod Particiones
pub mod Broker
pub mod GameBoy
pub mod Team
pub mod Pruebas
