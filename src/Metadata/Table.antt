-- ===== src/Metadata/Table.antt =====
-- protocol/metadata.cpp: the table of chunks (`getNextPendingChunk`, `setChunkStatus`, the loops of the
-- two resets). An index past the table is undefined behaviour, `none` here.
pub mod Pending
use mathlib.Core.Option
use mhftp.Base.{
  ℕ, zero, suc, Bool, true, false, Option, none, some, List, [], ◌∷◌, if◌then◌else◌, get_elem?, set,
  take,
}
use mhftp.Base.Int.{ℤ, pos, negsuc, pos_part}
use mhftp.Posix.{Bytes}
use mhftp.Metadata.{
  digest_size, ChunkStatus, ch_ok, ch_pending, ch_error, ch_download, ch_upload, ChunkInfo,
  Metadata,
}

-- The test of `getNextPendingChunk`: a chunk in error is pending again.
abbrev pub is_pending : ChunkStatus → Bool
is_pending ch_ok = false
is_pending ch_download = false
is_pending ch_upload = false
is_pending _ = true

unfoldable pub pending_loop : List ChunkInfo → ℕ → ℕ → Option ℤ
pending_loop table zero i = some (negsuc 0)
pending_loop [] (suc n) i = none
pending_loop (c ∷ table) (suc n) i =
    if is_pending c.status then some (pos i) else pending_loop table n (suc i)

-- The first chunk to transfer, or -1.
unfoldable pub get_next_pending_chunk : Metadata → Option ℤ
unfolding pending_loop
get_next_pending_chunk m = pending_loop m.chunk_info (pos_part m.chunks) 0

-- The digest is copied unless the pointer is null.
abbrev pub with_status : ChunkStatus → Option Bytes → ChunkInfo → ChunkInfo
with_status status none c = record c { status = status }
with_status status (some digest) c = record c { status = status; md5sum = take digest_size digest }

unfoldable pub set_status :
    List ChunkInfo → ℕ → ChunkStatus → Option Bytes → Option (List ChunkInfo)
set_status table i status digest =
    Option.map (λ c. set table i (with_status status digest c)) (get_elem? table i)

unfoldable pub set_chunk_status : Metadata → ℕ → ChunkStatus → Option Bytes → Option Metadata
unfolding set_status
set_chunk_status m i status digest =
    Option.map (λ table. record m { chunk_info = table }) (set_status m.chunk_info i status digest)

unfoldable pub get_chunk_pay_load_size : Metadata → ℕ → Option ℤ
get_chunk_pay_load_size m i = Option.map (λ c. ChunkInfo.size c) (get_elem? m.chunk_info i)

-- The body of the loop of `resetDownloadingChunks`.
abbrev pub recovered : ChunkStatus → ChunkStatus
recovered ch_download = ch_pending
recovered ch_error = ch_pending
recovered s = s

-- The body of the loop of `resetAllChunks`.
abbrev pub forgotten : ChunkStatus → ChunkStatus
forgotten _ = ch_pending

-- `for (int i = 0 ; i < chunks_ ; i++)` over the statuses.
unfoldable pub status_loop :
    (ChunkStatus → ChunkStatus) → ℕ → List ChunkInfo → Option (List ChunkInfo)
status_loop f zero table = some table
status_loop f (suc n) [] = none
status_loop f (suc n) (c ∷ table) =
    Option.map (λ t. record c { status = f c.status } ∷ t) (status_loop f n table)
