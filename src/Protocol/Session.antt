-- ===== src/Protocol/Session.antt =====
-- mhftp.cpp and protocol/mhproto_server.cpp: the process that serves one connection. `core` calls `RcvCmd` until
-- it exits, and `RcvCmd` calls the handler of the command.
pub mod Uploaded
use mathlib.Core.Option
use mhftp.Base.{ℕ, zero, suc, Option, none, some, List, ◌++◌, ◌∷◌}
use mhftp.Base.Int.{ℤ, pos}
use mhftp.Base.Bytes.{int64_bytes, int64_of_bytes}
use mhftp.Posix.{Bytes, World, Outcome, done, exit, fault, ◌>>=◌, pure, c_string}
use mhftp.Posix.Socket.{Socket}
use mhftp.ConTcp.{so_read_into}
use mhftp.Crypt.{Md5}
use mhftp.Metadata.{Metadata}
use mhftp.Metadata.Wire.{read_metadata_header}
use mhftp.Protocol.Server.{Round, stop, go, exits, undefined, ServeState, send_chunk_to_client}
use mhftp.Protocol.Upload.{receive_chunk_from_client}
use mhftp.Protocol.Commands.{
  Upload, Command, download_chunk, download_metadata, upload_chunk, upload_init, ignored, leave,
  chosen_size, send_metadata_to_client, init_upload, rcv_cmd,
}

-- The object of the server: the fields of an upload with `chunk_size_`, `metadata_`, and its connection.
pub record Server : Type 0 where
  pub upload : Upload
  pub metadata : Metadata
  pub input : Socket
  pub output : Bytes

-- What the handlers' variables hold before they are set: a new `Metadata`, the 8 and 2 bytes of a chunk
-- size and of a path's length, a file's size, and the buffer of an upload with its size.
pub record Locals : Type 0 where
  pub object : Metadata
  pub chunk_size : Bytes
  pub path_size : Bytes
  pub file_size : Bytes
  pub buffer : Bytes
  pub buffer_size : ℤ

module _ (md5 : Md5) (junk : ℕ → Bytes) (fuel : ℕ) (locals : Locals) where
  -- `metadata_` behind `ReadMetadataHeader`.
  abbrev header_of : Server → Metadata
  header_of sv = elim (read_metadata_header sv.metadata sv.input) [
    | none ↦ sv.metadata
    | some (m, _) ↦ m
  ]

  abbrev after_chunks : Server → World → Round → Outcome Server
  after_chunks sv w (stop st) =
      done
        (record sv { metadata = header_of sv; input = st.input; output = sv.output ++ st.output }) w
  after_chunks sv w (go st) =
      done
        (record sv { metadata = header_of sv; input = st.input; output = sv.output ++ st.output }) w
  after_chunks sv w exits = exit 1 w
  after_chunks sv w undefined = fault

  -- `chunk_size_` behind the first read of `SendMetadataToClient`.
  abbrev chunk_size_of : Server → ℤ
  chunk_size_of sv = elim (so_read_into locals.chunk_size 8 sv.input) [
    | none ↦ sv.upload.chunk_size
    | some (bs, _) ↦ chosen_size (int64_of_bytes bs)
  ]

  abbrev after_upload : Server → Option (World × Socket) → Outcome Server
  after_upload sv none = fault
  after_upload sv (some (w, s)) = done (record sv { input = s }) w

  -- `switch (cmd)`; `none` means that the fuel of a handler's loop ran out.
  unfoldable pub handle : Command → Server → World → Option (Outcome Server)
  unfolding send_chunk_to_client send_metadata_to_client receive_chunk_from_client init_upload
  handle download_chunk sv w =
      Option.map (after_chunks sv w) (send_chunk_to_client md5 junk fuel sv.metadata sv.input w)
  handle download_metadata sv w = some (
      (send_metadata_to_client md5 locals.object locals.chunk_size locals.path_size sv.input
          >>= λ r. pure (record sv {
            upload = record sv.upload { chunk_size = chunk_size_of sv };
            input = r.1;
            output = sv.output ++ r.0;
          }))
        w)
  handle upload_chunk sv w = Option.map (after_upload sv) (
      receive_chunk_from_client fuel locals.buffer locals.buffer_size sv.upload.chunk_size
        (c_string sv.upload.local_file) sv.input w)
  handle upload_init sv w = some (
      (init_upload sv.upload locals.path_size locals.file_size sv.input >>= λ r.
      pure (record sv { upload = r.0; input = r.1 }))
        w)
  handle ignored sv w = some (done sv w)
  handle leave sv w = some (exit 0 w)

  unfoldable pub rcv_cmd_handled : Server → World → Option (Outcome Server)
  unfolding rcv_cmd handle
  rcv_cmd_handled sv w = elim (rcv_cmd sv.input) [
    | none ↦ some fault
    | some (cmd, s) ↦ handle cmd (record sv { input = s }) w
  ]

  -- `for (;;)`: the first argument bounds the number of commands.
  unfoldable pub core : ℕ → Server → World → Option (Outcome Server)
  unfolding rcv_cmd_handled
  core zero sv w = none
  core (suc rounds) sv w = elim (rcv_cmd_handled sv w) [
    | none ↦ none
    | some (done sv' w') ↦ core rounds sv' w'
    | some (exit c w') ↦ some (exit c w')
    | some fault ↦ some fault
  ]
