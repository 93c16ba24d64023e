-- ===== src/Lib.antt =====
-- mhftp transfers a file in chunks over several connections at a time. This library models the program and
-- proves what makes its parts correct.
--
-- The program keeps, beside each file that it transfers, a metadata file `<name>.mdata`: a header of 2103
-- bytes and a table with the digest, the size and the status of every chunk. The processes of a client, one
-- for each connection, share that file and the local file, and guard the metadata file by a semaphore: each
-- takes the next pending chunk, marks it, asks the server for it by number, writes it at its place, and
-- records the result. The server answers from the file that the header on the connection names.
--
-- The parts, and the files of this library:
-- - Base: lists, the numbers of C, and bytes, little end first.
-- - Posix: strings in buffers, files as lists of bytes, `open`, `read`, `lseek` and `write`, `snprintf("%ld")`
--   and `atoi` (Posix/Decimal), and `read` on a connection (Posix/Socket), which delivers its bytes in segments
--   of any sizes, or fails. These stand for the C library as it is documented. `World` is the state of the
--   file system; `Outcome` tells a result from a call of `exit` and from undefined behaviour (`fault`, or
--   `none` where no file is touched).
-- - Tools: tools.cpp (`CopyString`, `StrCat`, `AbsoluteFile`, `SuffixToInt`).
-- - ConTcp: con_tcp.cpp (`so_read`).
-- - Crypt: crypt/md5Utils.cpp (`md5Buffer`, `md5File`; `digestToStr` in Crypt/Hex). OpenSSL's hash is the
--   parameter `Md5`.
-- - Metadata: protocol/metadata.h, protocol/chunkInfo.h and protocol/metadata.cpp. The record `Metadata` has
--   the fields of the class. Metadata/PayLoad cuts a file into chunks, Metadata/Table is the table of statuses,
--   Metadata/Disk reads and writes the metadata file, Metadata/Create makes one, Metadata/Reset is the
--   recovery, Metadata/Check compares a file with the digests, Metadata/Wire is the header on a connection, and
--   Metadata/Display what `DisplayControlData` and `DisplayControlDataMD5` print, with the colours of Tools/Colors.
-- - Protocol: protocol/mhproto_client.cpp and protocol/mhproto_server.cpp. Protocol/Request is
--   `RequestChunk`, Protocol/Server `SendChunkToClient`, Protocol/Client the reads of the client's loop,
--   and Protocol/Upload `ReceiveChunkFromClient` and what `UploadFileToServer` sends for a chunk.
--   Protocol/Placing is about a part at its place in a file.
-- - Protocol/Turns: the semaphore (protocol/semaphore.cpp), and processes that take turns.
-- - Protocol/Download: the loop of the private `DownloadFileFromServer`, as a step relation of any number of
--   processes over the shared files and the semaphore. Its Invariant is about the state between two steps,
--   Entries, Moved, Marked, Files, Chunks, Changes and Steps are about one step, and Runs, Bounded,
--   Progress, Ends, Settled, Undisturbed and Finishes about runs. Protocol/Joining is what a process does in
--   front of that loop, Protocol/Parent the public `DownloadFileFromServer`, and Parent/Stopping `KillClient`.
-- - Protocol/Sending: the loop of the private `UploadFileToServer`, a step relation of the same kind. A
--   process has its own object, and what it has written on its connection. Its Invariant, Updates and Steps
--   are about one step, Written, Log and Logged relate what is written to the table, and Settled, Runs,
--   Arrives, Ends, Exclusion, Progress and Finishes are about runs.
-- - Protocol/Uploads: the public `UploadFileToServer` with `InitUploadOnServer`. Uploads/Resumed is about a
--   file that has a metadata file, Uploads/Fresh about one that has none yet, and Uploads/Ends and
--   Uploads/Succeeds about a whole upload of such a file by one process.
-- - Protocol/Commands: `RcvCmd`, `SendMetadataToClient` and `InitUpload`, with `DownloadMetadataFromServer`
--   and what `InitUploadOnServer` sends.
-- - Protocol/Session: the process of the server, `core` of mhftp.cpp, and `RcvCmd` with its handlers over
--   the fields of `MhProtoServer`.
-- - MhClient: mhclient.cpp, the loop over the options, `HostPort`, and the names that `DownloadFile` makes.
--   MhClient/Start is `main`, up to the call of `DownloadFile` or `UploadFile`; `tcp_connect` is a parameter.
-- - MhStatus: mhstatus.cpp. InitFile: initFile.cpp.
-- - Tests: runs and examples.
--
-- Bytes are natural numbers below 256 where a file or a connection holds them; an int64_t is an integer in
-- its range (`IsInt64`), written as 8 bytes in two's complement; the size in bytes of the table is cut to
-- an int as in `LoadMetadata`. Structures have the layout of x86-64, with 32 bytes for an entry of the
-- table. The loops on fuel are `md5_file_loop`, where one round more than the file has bytes is enough,
-- `so_read_loop`, where a round for each missing byte is, `serve_loop`, where a round for each request and
-- one more are, `receive_loop`, where a round for each chunk and two more are, `option_loop`, where a round
-- for each option and one more are if the program knows them all, and `core`, where a round for each
-- command and one more are. A run of the processes of a transfer is a list of steps, of any length.
--
-- Not modelled: messages but for those of Metadata/Display, mhstatus and initFile, the creation of sockets,
-- semaphores, shared memory and processes, signals but for what `KillClient` does, `main` of mhftp.cpp, and
-- in mhclient.cpp the calls of the client with what follows them. The processes of an upload start when the
-- parent has forked them all: their steps do not interleave with its own saves of the metadata file, which
-- in the program can undo a mark. The steps of a process that has been sent SIGKILL, and has not ended
-- yet, do not interleave with the recovery that `KillClient` makes. A process of the server has the file
-- system for itself. The buffers of 1024 bytes for the name of a metadata file are taken to be long enough,
-- and an index of the type int over the chunks is a number without a bound: a table whose bytes are
-- counted by an int has fewer than 2^26 entries. Other undefined behaviour is `fault`, and has no further
-- steps.
pub mod Base
pub mod Posix
pub mod Tools
pub mod ConTcp
pub mod Crypt
pub mod Metadata
pub mod Protocol
pub mod MhClient
pub mod MhStatus
pub mod InitFile
pub mod Tests
