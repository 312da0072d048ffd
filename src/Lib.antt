-- ===== src/Lib.antt =====
-- Trawlarr: the logic that decides what is done to a media file, modelled and verified.
--
-- The server claims files, leases them to workers and folds the end of every run into a ledger; a
-- worker runs the file's flow, a graph of plugins, and asks for a commit before it touches the
-- original. What is modelled is the code that decides: packages/core, the executor's loop in
-- packages/engine, and the statements of packages/server that apply these decisions to rows.
--
-- Prelude          shared: JavaScript texts as lists of UTF-16 units, integers, sorting by a key
-- Json             packages/core/src/canonical-json.ts: canonicalJson
-- Facts            packages/core/src/facts.ts: factsEquivalent, factsHash
-- Ledger           packages/core/src/ledger.ts, with the claiming statement of
--                  packages/server/src/db/media-file-repo.ts, the ledger write of
--                  packages/server/src/scanner/scan-library.ts and the hold of
--                  packages/server/src/api/routes/files.ts
-- Lease            packages/core/src/lease.ts, with decideCommitFor and stepLeaseFor of
--                  packages/server/src/nodes/hub.ts; Lease.Grace: release, reconcile and sweepLeases
--                  of that file, for one lease
-- PathMap          packages/core/src/path-map.ts: validatePathMap, mapPath
-- Schedule         packages/core/src/schedule.ts: evaluateSchedule, validateSchedule
-- Flow             packages/core/src/flow.ts; Flow.Validate: flow-validate.ts beside it;
--                  Flow.Signature: signature.ts beside it; Flow.Run:
--                  packages/engine/src/executor/run-flow.ts: runFlow
-- Alerts           packages/core/src/alerts.ts: createCoalescer
-- WorkerClass      packages/core/src/worker-class.ts: flowRequiredHardware
-- Identity         packages/core/src/identity.ts: matchIdentity
-- Ffmpeg           packages/core/src/ffmpeg-compile.ts: compileFfmpegArgs, with what it reads of
--                  ffmpeg-command.ts beside it; Ffmpeg.Noop: describeCommandChanges of ffmpeg-noop.ts
-- Disk             the calls of node:fs/promises on a machine with other users that may fail any call
--                  or stop before any, and rules for programs that run on it
-- Replace          packages/engine/src/executor/replace-original.ts: moveExclusively (Replace.Move),
--                  stageReplacement, swapIntoPlace and swapLanded (Replace.Swap), the runner that
--                  createReplaceOriginalRunner makes (Replace.Runner); Replace.Recovery:
--                  packages/server/src/library/swap-recovery.ts: recoverInterruptedSwaps, for one note
--
-- A function of the source is a function of the same name here, in lower case with underscores; an
-- object type is a record, a union of literals a data type. A thrown error is a constructor of an
-- error type, or `none`; the wording of messages is left out where nothing reads it. Times are
-- natural numbers of milliseconds. SHA-256, the formatting of instants in a time zone, the table of
-- the files, the loader of plugins and the plugins themselves are arguments, about which nothing is
-- assumed.
--
-- The loop of a run counts its rounds by fuel. runFlow gives the loop one more than maxSteps, which
-- is enough, since every round but the last records a step and the loop stops at maxSteps of them.
-- moveToTrash tries 10000 names, in the source and here. Every other loop that is modelled is a
-- recursion on a list or a text.
--
-- A program on files is a function of the world: the names on the disk and a machine, which decides
-- by the number of a call, for a hard link by a table of its own, whether it is done, fails or is
-- where the program stops, and what others do to the disk before it. A call that fails did nothing,
-- but for a copy, which may leave a part; a missing file is reported only where a file is missing.
--
-- Not modelled: the reading of ffprobe's output and the processes of ffmpeg, the sockets and journals
-- of the nodes, the SQL of the repositories but for the claim, the HTTP interface and the web client.
pub mod Prelude
pub mod Json
pub mod Facts
pub mod Ledger
pub mod Lease
pub mod PathMap
pub mod Schedule
pub mod Flow
pub mod Alerts
pub mod WorkerClass
pub mod Identity
pub mod Disk
pub mod Replace
pub mod Ffmpeg
