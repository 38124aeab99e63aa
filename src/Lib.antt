-- ===== src/Lib.antt =====
-- A verification library of insight-io: the shared-memory rings, the serving runtimes, the catalog,
-- the addresses, the names, the direct sessions and the RTSP publication plans of its C++ backend.
--
-- The program. Discovery finds devices; the catalog gives each stream a name and a URI
-- (`insightos://host/device/stream`); a session asks for a stream. All sessions of one stream share
-- one serving runtime, which `ServingRuntimeRegistry` keeps: a capture worker writes frames into a ring
-- of shared memory per channel, local clients read the ring, and an RTSP publisher is run while some
-- session wants one.
--
-- The files and what they model:
--   Base     the names that all modules share: tests, lists, text as lists of codes, maps from numbers,
--            and `Error` and `Result` of backend/include/insightio/backend/result.hpp.
--   Types    backend/src/types.cpp and types.hpp; `normalize_stream_public_name` of
--            backend/src/catalog.cpp (Types/Slug). Types/Decimal is `std::to_string`.
--   Json     the JSON library that the backend calls: a record of its operations, and the laws that
--            the backend relies on (Json/Laws).
--   Ipc      backend/src/ipc/ipc.cpp and ipc.hpp. Ipc/Ring is `Writer::write`, `Writer::reset` and
--            `Reader::read` on the mapped memory, a header and a list of slots; each atomic store is a
--            definition, `write` composes them in the order of the code. Ipc/Channel is
--            `create_channel`, `attach_writer` and `attach_reader`; the system calls are the record
--            `Os`, and the descriptors that are opened and closed are a list of events.
--   Uri      `parse_insight_uri`, `derive_uri`, `derive_rtsp_url` and `validate_local_uri_host` of
--            backend/src/session_service.cpp, `rtsp_host_from_url` of backend/src/catalog.cpp.
--   Rtsp     the publication plan of backend/src/publication/rtsp_publisher.cpp.
--   Catalog  backend/src/catalog.cpp, with the tables `devices` and `streams` of
--            backend/schema/001_initial.sql. Catalog/Unique is `unique_public_name`; Catalog/Caps the
--            choice of capabilities (Catalog/Profiles is the map by profile); Catalog/Sources
--            `build_sources_for_device` (Orbbec cameras in Catalog/Sources/Orbbec); Catalog/Tables the
--            rows and the statements that write them; Catalog/Repository `replace_catalog` and the
--            aliases, Catalog/Repository/Load what is read back; Catalog/Refresh `CatalogService`.
--   Runtime  `ServingRuntimeRegistry` of backend/src/session_service.cpp. Runtime/State is its state;
--            Runtime/Plan `build_runtime_plan` and `create_worker`, with `payload_size_for_caps`
--            in Runtime/Plan/Payload; Runtime/Publication `reconcile_rtsp_publication_locked` and its
--            helpers, with the frames that arrive while it waits for a worker; Runtime/Realize `realize_runtime_locked`; Runtime/Connections the ends of connections;
--            Runtime/Clients `attach_ipc_consumer_locked`, `register_connection_locked` and `clear`;
--            Runtime/Sessions `attach`, with its exit by an exception (`begin_entry`), and `detach`;
--            Runtime/Frames the worker's frame callback;
--            Runtime/Views `view_for_session` and `snapshot`.
--   Direct   `SessionService` of backend/src/session_service.cpp. Direct/Rows is the tables `sessions`,
--            `app_sources` and `session_logs` and what is read of them; Direct/Service the statements
--            and lookups; Direct/Lifecycle `create_direct_session` with `attach_session_runtime`;
--            Direct/Changes `start_session`, `stop_session`, `delete_session`, `ensure_session_rtsp`.
--   Examples runs of the theorems on small inputs.
--
-- Choices. A 64-bit or 32-bit word is a native number with its wrap-around written out. Timestamps are
-- their 64-bit patterns. `std::map` is a list of entries in the order of its keys;
-- an `unordered_map` that is only looked up is a list whose newest entry counts. What lies outside
-- the code is a parameter: the operating system (`Os`, `System`, `Grants`), and how workers and
-- publishers answer when they are started (`Answers`); the JSON library (`JsonApi`); the database engine
-- (`Sqlite`), which may refuse to prepare or to run any statement, while the constraints of the schema
-- are written out; the probe of the Orbbec library. The registry takes the result of
-- `build_runtime_plan` as a field of the session; `runtime_plan` makes that field of a plan. A member
-- of a JSON object that has another type than is asked for, where the library throws, is not told
-- apart from the value the library record returns. `unique_public_name` tries suffixes without end;
-- one round more than there are used names is enough, and its suffix is taken as a natural number.
-- The registry holds its lock during each operation, so that its behaviour is a sequence
-- of operations (Runtime/Sessions/Served). A ring has no lock: Ipc/Ring/Torn puts a read between two
-- stores of a write. `read_all` takes the number of rounds; as many as there are frames are enough.
--
-- Not modelled: threads and processes of the workers and of ffmpeg, the socket protocol,
-- `initialize`, `list_sessions` and `runtime_status` of `SessionService`, the rollbacks
-- that SQLite makes of itself, the tables of apps, the HTTP server, device discovery and the client SDK.
pub mod Base
pub mod Types
pub mod Json
pub mod Ipc
pub mod Uri
pub mod Rtsp
pub mod Catalog
pub mod Runtime
pub mod Direct
pub mod Examples
