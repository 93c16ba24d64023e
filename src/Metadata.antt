-- ===== src/Metadata.antt =====
-- protocol/chunkInfo.h and protocol/metadata.h: the state of a transfer, and its in-memory operations.
pub mod Display
pub mod PayLoad
pub mod Table
pub mod Disk
pub mod Reset
pub mod Wire
pub mod Check
pub mod Create
use mhftp.Base.{ℕ, ◌*◌, ◌^◌, ◌<◌, ◌≡◌, List, length, All, replicate}
use mhftp.Base.Int.{ℤ, pos, IsInt64}
use mhftp.Posix.{Bytes, FileName}

-- The sizes that global.h and metadata.h define.
abbrev pub digest_size : ℕ
digest_size = 16

abbrev pub fname_size : ℕ
fname_size = 2048

abbrev pub header_size : ℕ
header_size = 2103

-- CHUNK_SIZE, the default chunk size
abbrev pub default_chunk_size : ℕ
default_chunk_size = 1048576

pub data ChunkStatus : Type 0 where
  ch_ok ch_pending ch_error ch_download ch_upload : ChunkStatus

pub record ChunkInfo : Type 0 where
  pub md5sum : Bytes  -- unsigned char[16]
  pub size : ℤ  -- int64_t
  pub status : ChunkStatus

-- `file_metadata` is kept as the string in its buffer; the sizes are those of int64_t.
pub record Metadata : Type 0 where
  pub digest : Bytes  -- unsigned char[DIGEST_SIZE]
  pub file_size : ℤ
  pub file_full : Bytes  -- char[FNAME_SIZE], the whole buffer
  pub file_metadata : FileName
  pub chunk_size : ℤ
  pub chunks : ℤ
  pub chunk_info : List ChunkInfo
  pub in_use : ℕ  -- unsigned char

abbrev pub IsChunk : ChunkInfo → Type 0
IsChunk c = (length c.md5sum ≡ digest_size) × IsInt64 c.size

-- The buffers have their sizes, the numbers fit their types, and there are as many entries as
-- `chunks` says. The bound on their number is that of the `int` in `LoadMetadata`.
pub record IsWellFormed (m : Metadata) : Type 0 where
  pub digest_length : length m.digest ≡ digest_size
  pub file_full_length : length m.file_full ≡ fname_size
  pub file_size_fits : IsInt64 m.file_size
  pub chunk_size_fits : IsInt64 m.chunk_size
  pub chunks_counted : m.chunks ≡ pos (length m.chunk_info)
  pub few : 32 * length m.chunk_info < 2 ^ 31
  pub in_use_fits : m.in_use < 256
  pub entries : All IsChunk m.chunk_info
