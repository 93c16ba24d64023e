-- ===== src/Protocol/Uploads.antt =====
-- protocol/mhproto_client.cpp: the parent of an upload, the public `UploadFileToServer`, and
-- `InitUploadOnServer`. What the monitor process shows is left out.
pub mod Resumed
pub mod Fresh
pub mod Ends
pub mod Succeeds
use mhftp.Base.{ℕ, zero, suc, Bool, true, false, none, List, [], ◌∷◌, ◌&&◌, if◌then◌else◌}
use mhftp.Base.Int.{ℤ, pos, leb_ℤ}
use mhftp.Posix.{Bytes, FileName, M, ◌>>=◌, ◌>>◌, pure, exit_unless}
use mhftp.Crypt.{Md5}
use mhftp.Metadata.{Metadata}
use mhftp.Metadata.Disk.{save_metadata}
use mhftp.Metadata.Create.{create, has_metadata_file}
use mhftp.Protocol.Commands.{ask_upload}
use mhftp.Protocol.Parent.{nproc, mark_in_use}

-- UPLOAD_INIT
abbrev pub upload_init_command : ℕ
upload_init_command = 4

-- `if (create && !HasMetadataFile(...)) create(...)`
unfoldable pub ready_metadata : Md5 → Metadata → FileName → ℤ → Bool → M Metadata
unfolding has_metadata_file create
ready_metadata md5 m local_file chunk_size false = pure m
ready_metadata md5 m local_file chunk_size true = has_metadata_file m local_file true >>= λ r.
    if r.0 then pure r.1 else create md5 r.1 local_file none chunk_size true

-- The object, and what goes to the server.
unfoldable pub init_upload_on_server : Md5 → Metadata → FileName → ℤ → Bool → M (Metadata × Bytes)
unfolding ready_metadata ask_upload
init_upload_on_server md5 m local_file chunk_size create =
    ready_metadata md5 m local_file chunk_size create >>= λ m'.
    pure (m', upload_init_command ∷ ask_upload local_file chunk_size m'.file_size m'.digest)

-- The loop that starts the processes, each behind its connection's bytes; `first` is `i == 0`. The process
-- is forked with the object of its round.
unfoldable pub upload_loop : Md5 → FileName → ℤ → ℕ → Bool → Metadata → M (Metadata × List Bytes)
unfolding init_upload_on_server
upload_loop md5 local_file chunk_size zero first m = pure (m, [])
upload_loop md5 local_file chunk_size (suc n) first m = do
  (m', sent) ← init_upload_on_server md5 m local_file chunk_size first
  let m2 = record m' { in_use = 2 }
  save_metadata m2 m2.file_metadata
  (m3, more) ← upload_loop md5 local_file chunk_size n false m2
  pure (m3, sent ∷ more)

unfoldable pub begin_upload : Md5 → Metadata → FileName → ℤ → ℤ → M (Metadata × List Bytes)
unfolding upload_loop
begin_upload md5 m local_file chunk_size num_client = do
  exit_unless (leb_ℤ (pos 0) num_client && leb_ℤ num_client (pos nproc)) 1
  upload_loop md5 local_file chunk_size (number num_client) true m
  where
    number : ℤ → ℕ
    number (pos n) = n
    number _ = 0

-- Behind the last `waitpid`.
unfoldable pub end_upload : Metadata → M Metadata
unfolding mark_in_use
end_upload m = mark_in_use m m.file_metadata 0
