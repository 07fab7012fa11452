-- ===== src/Lib.antt =====
-- WebCloudDisk: a cloud disk of four programs. The API gateway turns HTTP requests into remote calls;
-- the user service keeps accounts in MySQL; the file service keeps the files' records in MySQL and
-- their contents on a local disk under their hashes; the backup worker takes tasks that the file
-- service puts on a RabbitMQ queue and copies contents to a bucket. Consul tells the gateway where
-- the services are.
--
-- What a request does is a tree (Flow): the requests to its surroundings in order, and for each
-- reply the rest. Backend lists these requests. A result is a value or an error with an HTTP status
-- (Base/Outcome, from src/common/Result.h). Texts are lists of bytes.
--
--   Base, Numbers           shared types and tests, lemmas on them, and what the program takes from
--                           the C++ library: std::from_chars, std::to_string, hexadecimal digits;
--                           Decimal says which texts are numbers
--   Flow                    src/common/TaskScheduler.h and the callbacks
--   CommandLine             src/common/ConfigCommandLine.cc
--   Config                  src/config/Config.cc: Types (the sections), Values, Sections and Load (the
--                           reading), Summary (the texts); WellFormed and Accepted say what holds of
--                           settings that are loaded; Origin (Consul's address), Unsigned, Bounds
--                           and Secrecy have proofs
--   Model                   src/model/User.h and FileInfo.h
--   Repository              src/repository: the SQL texts and the readings of the replies
--   Security                src/security: Password, Jwt and Sha256; Crypto says what OpenSSL does
--   Service                 src/service: Auth (registration, login), Users, Files (upload, download);
--                           Instances has what the services are made of; Files/Granted,
--                           Files/Interleaved and Files/Store are about uploads at the same time
--   Storage                 src/storage: Local over Disk, on which other requests act between any two
--                           steps, and Oss; Interleaving runs requests at the same time, one step of
--                           one of them after the other
--   Messaging               src/messaging: BackupTask and Publisher
--   Database                src/database/MySqlClient.cc: Urls is about the URL
--   Discovery               src/discovery: Endpoints, RoundRobin, Registrar, and Client, the settings
--   Rpc                     src/rpc: the handlers with the responses they fill in; Integrity is about
--                           the contents that downloads deliver, RoundTrip about uploads and then
--                           downloads
--   Worker                  src/worker/BackupWorker.cc: the loop, and Creation; Contents is about what is
--                           copied
--   Http                    src/http: AuthMiddleware and ApiResponse
--   Gateway                 src/gateway/GatewayApplication.cc: Handlers has the six handlers; the clock is
--                           read at the start of a handler that checks a token; Routes has the table
--                           of routes and the limit on requests; Replies is about the callbacks of its
--                           calls, Trust and Relay join it with the services
--   Logging                 src/log: the set-up of the log
--   Programs                the four main functions, src/user_service/main.cc and the others, with the
--                           start and stop of the gateway; Lifecycle says where a command line starts
--                           them and in which order they make their requests, Sound which values
--                           these may carry
--   Examples                the theorems at concrete values, with stand-ins for the libraries
--
-- OpenSSL, jwt-cpp, nlohmann::json, the INI reader, MySQL's escaping and the file system's answers
-- are parameters, with the behaviour that is relied on as records of laws (CryptoLaws, JwtLaws,
-- CompactLaws, JsonLaws, UrlLaws), as the relation Effect of Storage/Disk, and, for a database
-- that keeps what it confirmed, as the relations Remembers and RemembersFiles. Machine integers
-- keep their bounds where the code tests or cuts them. The clock that tokens are made and checked
-- with counts nanoseconds; jwt-cpp keeps only whole seconds of a token's times (JwtLaws). The
-- worker's loop has a number of rounds, one for each test of its stop flag; the statements on it
-- are for any number. A list or a text drives all other recursion.
--
-- Not modelled: what is logged, and what the servers of srpc and wfrest, Consul's client, the broker's
-- and spdlog do between a request to them and its reply.
pub mod Base
pub mod Flow
pub mod Numbers
pub mod Security
pub mod Model
pub mod Backend
pub mod Repository
pub mod Storage
pub mod Messaging
pub mod Database
pub mod Discovery
pub mod CommandLine
pub mod Config
pub mod Logging
pub mod Programs
pub mod Worker
pub mod Service
pub mod Rpc
pub mod Http
pub mod Gateway
pub mod Examples
