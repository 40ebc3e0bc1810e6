-- ===== src/Lib.antt =====
-- A model of the MAVLink companion log service, and the theorems that make it correct.
--
-- The service runs on a companion computer of a drone. It watches the flight controller's heartbeats; after
-- each disarm it lists the flight controller's logs, downloads those that its catalog does not have, verifies
-- and stores them, and then erases the flight controller, if configured. A phone asks for such jobs over UDP.
-- The sources are in src/ and include/mcls/.
--
-- The files, with the code that they model:
--   Base               lists, Boolean tests, bit operations on 32-bit words, counting
--   LogProtocol        include/mcls/MavlinkLogProtocol.hpp: offsets and slots of LOG_DATA
--   ReceivedRanges     src/ReceivedRanges.cpp: the byte intervals of a download (`add`, `gaps`, ...)
--   Crc32              src/Crc32.cpp
--   Coverage           src/ChunkCoverageTracker.cpp: slots and fingerprints of a download
--   Sha256             src/Sha256.cpp: the incremental hash. Digest: the hash of a whole message; Compression and
--                      Standard: what FIPS 180-4 says
--   Types              include/mcls/Types.hpp
--   FlightMonitor      src/FlightMonitor.cpp: `onHeartbeat`, `onLinkTimeout`, with the events they emit
--   Database           src/Database.cpp: the tables as lists, an operation as what its SQL says
--   LogDownloader      src/LogDownloader.cpp. Inbox: `onMessage` and the queue of chunks; Enumerate:
--                      `enumerateLogs`; Archive: `archiveOne` and `archiveAll`. Verified, Recorded,
--                      Cycle, Catalogued, Listed and Queue hold the theorems.
--   StreamDownload     src/StreamDownloadSession.cpp: `processQueuedChunks`; Requests and Begins:
--                      `requestMergedGaps`; Taken, Hashed and Filled: what chunks do to the state, the digest and the file.
--                      Session: `run`, as a function of a schedule, with its waiting loop in Waiting. Inbound,
--                      Judged, Passes, Delivered and Attempts lead up the loops to Outcome; Archived joins a run to
--                      `archiveOne`.
--   CompanionApi       the companion's interface. Json: the JSON library; Snapshot: `buildSnapshot` of
--                      src/DroneLogService.cpp; Request and Reply: src/CompanionProtocol.cpp; Server:
--                      `handleRequest` of src/CompanionUdpServer.cpp. Gate, Answer, Echo and Budget hold what a
--                      datagram changes, whether it is answered, to whom, and how long the replies are.
--   Recorder           src/VideoRecorder.cpp: `start`, `stop`, `snapshot`
--   Storage            src/StorageManager.cpp: `enforceStorageLimit`; Partials: the partial file of a log and
--                      `finalizePartial`; Limit, Moved and Stored hold the theorems; Archived joins a session's
--                      run to the archive that it ends in.
--   Configuration      src/Config.cpp: `loadFromFile`; Sections: the settings of include/mcls/Config.hpp. Settings,
--                      Written and Loaded hold its round trip.
--   DataFlash          src/DataFlashValidator.cpp: `validateBytes`
--   FcSample           src/FcSampleOffsets.cpp: the offsets of the re-read
--   Reread             src/LogDownloader.cpp: `verifyFcSampleReread` and `waitForLogData`. Waited and Sampled: what
--                      a re-read that passes shows; Archived joins it to `archiveOne`; Signed: the comparison on
--                      signed chars.
--   DroneLogService    src/DroneLogService.cpp. Model: the state, `onFlightEvent` and the reconnect policy;
--                      Process: `processState`; Companion: `requestCompanionJob`, the command queue of
--                      include/mcls/CompanionCommandQueue.hpp, `drainCompanionCommands`, `buildFcLogsPage`;
--                      World: all threads as one sequence of actions, the main loop, and the services that can be reached.
--                      CalmSteps, Calm, Safety, Unasked, Erase and Retained lead to the theorems on erasing; Outcome,
--                      Jobs, Listings, Pending, Disarm and Forgotten hold those on the policy, the requests, the
--                      cached list and disarms.
--
-- State is passed on explicitly: each operation is a function from a record to a record. Numbers are
-- natural numbers with the wrap of their C++ type written out where it can occur; the counters of statistics
-- and of cycles do not wrap. Failing operations return an Option. A text is the list of its characters.
--
-- What the code asks of the outside is an argument: `Answers` for one log (the results of its download
-- sessions, of the parse, of the re-read and of finalizePartial, and when another thread cancels), `Window`
-- for what arrives in one attempt of an enumeration, and `Outside` for one step of the main loop (the clock,
-- the transport, the attempts, the answers, the stored files, whether LOG_ERASE is sent). Nothing is assumed
-- of them but in the hypotheses of a theorem. `LogDownloader.Catalogued.Distinct` is one: different logs have
-- different contents, since the catalog's key is the content's hash. Reread and Storage say what two of these
-- answers are: the re-read, over its own schedule of polls, and the file system after finalizePartial.
--
-- Loops are recursion on the list that they run through, or on the number of steps. Fuel is used in five
-- places: the zeros of the padding in Sha256, at most 64; the two loops of StreamDownload/Requests, whose steps
-- add at least one byte, so that the bytes to ask for and one more are enough; the loop of DataFlash, whose passes
-- move on by at least one byte; and the ladder of CompanionApi/Reply, which halves the entries at most as often
-- as there are entries. The random loop of FcSample runs on the source's own bound on attempts.
--
-- The session's run takes a schedule: for each attempt and each pass of its waiting loop the messages that
-- arrive, the clock and whether a cancel has come. A schedule that ends before the code does is told apart from a
-- fault of the code, and a theorem says how long a schedule is always enough.
--
-- The JSON library (nlohmann/json) is a record of the functions that the code calls, `JsonLibrary`, and so is the
-- TOML library (toml++), `Toml`; what is needed of them is a hypothesis.
--
-- Not modelled: sockets, threads and logging, which are I/O; directories and what fsync writes
-- (src/StorageManager.cpp). A handler is one action: races inside one are not in the model.
pub mod Base
pub mod LogProtocol
pub mod ReceivedRanges
pub mod Crc32
pub mod CompanionApi
pub mod Configuration
pub mod Coverage
pub mod Sha256
pub mod Types
pub mod FlightMonitor
pub mod Database
pub mod LogDownloader
pub mod StreamDownload
pub mod Recorder
pub mod Reread
pub mod Storage
pub mod FcSample
pub mod DataFlash
pub mod DroneLogService
