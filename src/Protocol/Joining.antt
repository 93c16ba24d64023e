-- ===== src/Protocol/Joining.antt =====
-- protocol/mhproto_client.cpp: what a process of a download does in front of its loop, in the private
-- `DownloadFileFromServer`.
pub mod Heard
use mhftp.Base.{ℕ, ◌∷◌}
use mhftp.Posix.{Bytes, FileName, M, ◌>>=◌, pure, create_or_exit}
use mhftp.Metadata.{Metadata}
use mhftp.Metadata.Disk.{load_metadata}
use mhftp.Metadata.Wire.{write_metadata_header}

-- DOWNLOAD_CHUNK
abbrev pub download_chunk_command : ℕ
download_chunk_command = 1

-- The object, and what goes to the server.
unfoldable pub join_download : Metadata → FileName → FileName → M (Metadata × Bytes)
unfolding write_metadata_header
join_download m0 meta_file local_file = load_metadata m0 meta_file >>= λ m.
    create_or_exit local_file 1 >>= λ _. pure (m, download_chunk_command ∷ write_metadata_header m)
