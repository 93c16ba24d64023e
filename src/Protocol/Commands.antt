-- ===== src/Protocol/Commands.antt =====
-- protocol/mhproto_server.cpp: the command of a connection (`RcvCmd`), the answer to a client that asks for
-- metadata (`SendMetadataToClient`) and the start of an upload (`InitUpload`); and what the client sends for
-- them (`DownloadMetadataFromServer`, `InitUploadOnServer`).
pub mod Asked
pub mod Answered
pub mod Fetched
use mathlib.Core.Option
use mhftp.Base.{
  ℕ, zero, suc, ◌+◌, ◌-◌, ◌%◌, ◌^◌, ◌==◌, leb, ltb, Bool, true, false, not, Option, none, some,
  List, [], ◌∷◌, ◌++◌, if◌then◌else◌, length, take, drop, replicate,
}
use mhftp.Base.Int.{ℤ, pos, negsuc, eq_ℤ, leb_ℤ}
use mhftp.Base.Bytes.{le_bytes, of_le_bytes, int64_bytes, int64_of_bytes}
use mhftp.Posix.{
  Bytes, FileName, World, done, M, ◌>>=◌, ◌>>◌, lift, pure, exit_unless, c_string, put_string,
  update_file, read_into,
}
use mhftp.Posix.Socket.{Socket}
use mhftp.ConTcp.{so_read, so_read_into}
use mhftp.Tools.{absolute_file, str_cat}
use mhftp.Crypt.{Md5}
use mhftp.Metadata.{Metadata, digest_size, default_chunk_size}
use mhftp.Metadata.PayLoad.{init_control_data}
use mhftp.Metadata.Disk.{save_metadata}
use mhftp.Metadata.Wire.{write_metadata_header, read_metadata_header}
use mhftp.Metadata.Create.{mdata, create}

-- An int16_t of two bytes.
unfoldable pub int16_of_bytes : Bytes → ℤ
unfolding of_le_bytes
int16_of_bytes bs =
    let w = of_le_bytes bs in if ltb w (2 ^ 15) then pos w else negsuc (2 ^ 16 - 1 - w)

-- `int16_t path_size = strlen(path)`
unfoldable pub path_size_bytes : FileName → Bytes
unfolding le_bytes
path_size_bytes path = le_bytes 2 (length path % 2 ^ 16)

-- The read of a path into a buffer of 2048 zeros. A size below zero, or above the buffer's, is undefined.
unfoldable pub read_path : ℤ → Socket → Option (Bytes × Socket)
unfolding so_read
read_path (negsuc _) s = none
read_path (pos size) s =
    if leb size 2048
    then elim (so_read size s) [
      | none ↦ none
      | some r ↦ some (r.bytes ++ replicate (2048 - length r.bytes) 0, r.rest)
    ]
    else none

abbrev pub mh_ok : Bytes
mh_ok = 0 ∷ 0 ∷ []

abbrev pub mh_file_not_found : Bytes
mh_file_not_found = 1 ∷ 0 ∷ []

-- `fileExists`
abbrev pub file_exists : FileName → World → Bool
file_exists name w = elim (w.files name) [ none ↦ false | some _ ↦ true ]

-- The chunk size of the server's object: zero stands for the default.
abbrev pub chosen_size : ℤ → ℤ
chosen_size z = if eq_ℤ z (pos 0) then pos default_chunk_size else z

-- The answer for a path: that the file is missing, or the header of a new object, which is not stored.
unfoldable pub answer_metadata : Md5 → Metadata → ℤ → FileName → M Bytes
unfolding create write_metadata_header
answer_metadata md5 m0 chunk_size path w =
    if file_exists path w
    then (create md5 m0 path none chunk_size false >>= λ m. pure (mh_ok ++ write_metadata_header m))
        w
    else done mh_file_not_found w

-- `junk_chunk` and `junk_size` are the variables before the reads, `m0` the object before `create`.
unfoldable pub send_metadata_to_client :
    Md5 → Metadata → Bytes → Bytes → Socket → M (Bytes × Socket)
unfolding answer_metadata read_path so_read_into int16_of_bytes
send_metadata_to_client md5 m0 junk_chunk junk_size s = do
  chunk ← lift (so_read_into junk_chunk 8 s)
  size ← lift (so_read_into junk_size 2 chunk.1)
  path ← lift (read_path (int16_of_bytes size.0) size.1)
  answer ← answer_metadata md5 m0 (chosen_size (int64_of_bytes chunk.0)) (c_string path.0)
  pure (answer, path.1)

-- What the client sends behind the command.
unfoldable pub ask_metadata : ℤ → FileName → Bytes
unfolding path_size_bytes
ask_metadata chunk_size remote_file =
    int64_bytes chunk_size ++ (path_size_bytes remote_file ++ remote_file)

-- `open` with O_CREAT and `close`: a failure is not looked at.
unfoldable pub touch : FileName → M (Unit {0})
unfolding update_file
touch name w = if w.deny name then done tt w else elim (w.files name) [
  | none ↦ done tt (record w { files = update_file w.files name [] })
  | some _ ↦ done tt w
]

-- The file in which `DownloadMetadataFromServer` stores the metadata; `abs_file` is the buffer before.
unfoldable pub abs_file_name : Bytes → FileName → FileName
unfolding put_string str_cat c_string
abs_file_name abs_file remote_file =
    c_string (str_cat (put_string abs_file (absolute_file remote_file)) mdata)

-- `DownloadMetadataFromServer` behind the request: the answer, and a metadata file with a new table.
unfoldable pub receive_metadata : Metadata → Bytes → Bytes → FileName → Socket → M Socket
unfolding int16_of_bytes abs_file_name touch
receive_metadata m0 junk_response abs_file remote_file s = do
  response ← lift (so_read_into junk_response 2 s)
  exit_unless (not (eq_ℤ (int16_of_bytes response.0) (pos 1))) 1
  touch (abs_file_name abs_file remote_file)
  header ← lift (read_metadata_header m0 response.1)
  m ← lift (init_control_data header.0)
  save_metadata m (abs_file_name abs_file remote_file)
  pure header.1

-- The fields of the server's object that an upload uses.
pub record Upload : Type 0 where
  pub local_file : Bytes
  pub chunk_size : ℤ
  pub upload_digest : Bytes

-- `InitUpload`: the file is made, if it is not there. The number of bytes of the file is read, and not used.
unfoldable pub init_upload : Upload → Bytes → Bytes → Socket → M (Upload × Socket)
unfolding read_path so_read_into int16_of_bytes put_string touch
init_upload st junk_size junk_file_size s = do
  size ← lift (so_read_into junk_size 2 s)
  path ← lift (read_path (int16_of_bytes size.0) size.1)
  chunk ← lift (so_read_into (int64_bytes st.chunk_size) 8 path.1)
  file_size ← lift (so_read_into junk_file_size 8 chunk.1)
  digest ← lift (so_read_into st.upload_digest digest_size file_size.1)
  let local_file = put_string st.local_file (absolute_file (c_string path.0))
  touch (c_string local_file)
  pure (
    record {
      local_file = local_file;
      chunk_size = int64_of_bytes chunk.0;
      upload_digest = digest.0;
    },
    digest.1,
  )

-- What `InitUploadOnServer` sends behind the command.
unfoldable pub ask_upload : FileName → ℤ → ℤ → Bytes → Bytes
unfolding path_size_bytes
ask_upload local_file chunk_size file_size digest =
    path_size_bytes local_file
    ++ (local_file ++ (int64_bytes chunk_size ++ (int64_bytes file_size ++ digest)))

-- What `RcvCmd` does next: a handler, nothing for another byte, or `exit(0)` without one.
pub data Command : Type 0 where
  download_chunk : Command
  download_metadata : Command
  upload_chunk : Command
  upload_init : Command
  ignored : Command
  leave : Command

abbrev pub command_of : ℕ → Command
command_of cmd =
    if cmd == 1
    then download_chunk
    else if cmd == 2
    then download_metadata
    else if cmd == 3
    then upload_chunk
    else if cmd == 4
    then upload_init
    else ignored

unfoldable pub rcv_cmd : Socket → Option (Command × Socket)
unfolding so_read
rcv_cmd s = elim (so_read 1 s) [
  | none ↦ none
  | some r ↦ elim r.bytes [ [] ↦ some (leave, r.rest) | cmd ∷ _ ↦ some (command_of cmd, r.rest) ]
]
