-- ===== src/Metadata/Wire.antt =====
-- protocol/metadata.cpp: the header on a connection (`WriteMetadataHeader`, `ReadMetadataHeader`). The
-- numbers of the table are not sent: the reader makes its own by `initControlData`.
pub mod Header
use mhftp.Base.{ℕ, Option, List, ◌∷◌, ◌++◌}
use mhftp.Base.Bytes.{int64_bytes, int64_of_bytes}
use mhftp.Posix.{Bytes}
use mhftp.ConTcp.{Read, ◌>>=◌, pure, so_read_into}
use mhftp.Metadata.{digest_size, fname_size, Metadata}

unfoldable pub write_metadata_header : Metadata → Bytes
write_metadata_header m =
    m.digest
    ++ (int64_bytes m.file_size
        ++ (m.file_full ++ (int64_bytes m.chunk_size ++ int64_bytes m.chunks)))

-- The results of `so_read` are not looked at.
unfoldable pub read_metadata_header : Metadata → Read Metadata
read_metadata_header m = do
  digest ← so_read_into m.digest digest_size
  file_size ← so_read_into (int64_bytes m.file_size) 8
  file_full ← so_read_into m.file_full fname_size
  chunk_size ← so_read_into (int64_bytes m.chunk_size) 8
  chunks ← so_read_into (int64_bytes m.chunks) 8
  pure (record m {
    digest = digest;
    file_size = int64_of_bytes file_size;
    file_full = file_full;
    chunk_size = int64_of_bytes chunk_size;
    chunks = int64_of_bytes chunks;
  })
