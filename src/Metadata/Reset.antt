-- ===== src/Metadata/Reset.antt =====
-- protocol/metadata.cpp: `resetDownloadingChunks` and `resetAllChunks`, which mhstatus and the client's
-- signal handler call.
pub mod Effects
pub mod Aborted
use mhftp.Base.{
  ℕ, zero, suc, ◌==◌, Bool, true, false, not, ◌&&◌, ◌||◌, Option, none, some, List, if◌then◌else◌,
}
use mhftp.Base.Int.{ℤ, pos, negsuc, pos_part}
use mhftp.Posix.{FileName, M, ◌>>=◌, ◌>>◌, lift, exit_unless, pure}
use mhftp.Metadata.{Metadata}
use mhftp.Metadata.Table.{recovered, forgotten, status_loop}
use mhftp.Metadata.Disk.{load_metadata, save_metadata}

-- A file in use is refused, unless the caller forces the reset.
unfoldable pub reset_downloading_chunks : Metadata → FileName → ℕ → M Metadata
reset_downloading_chunks m0 meta_file force = do
  m ← load_metadata m0 meta_file
  exit_unless (not (not (m.in_use == 0) && force == 0)) 1
  table ← lift (status_loop recovered (pos_part m.chunks) m.chunk_info)
  let m' = record m { in_use = 0; chunk_info = table }
  save_metadata m' meta_file
  pure m'

-- The part behind the guard.
unfoldable pub forget_all : Metadata → FileName → M (ℤ × Metadata)
forget_all m meta_file = do
  table ← lift (status_loop forgotten (pos_part m.chunks) m.chunk_info)
  let m' = record m { in_use = 0; chunk_info = table }
  save_metadata m' meta_file
  pure (pos 0, m')

-- Here the refusal is a result, -1.
unfoldable pub reset_all_chunks : Metadata → FileName → ℕ → M (ℤ × Metadata)
unfolding forget_all
reset_all_chunks m0 meta_file force = do
  m ← load_metadata m0 meta_file
  if force == 0 && not (m.in_use == 0) then pure (negsuc 0, m) else forget_all m meta_file
