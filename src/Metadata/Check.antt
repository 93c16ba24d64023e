-- ===== src/Metadata/Check.antt =====
-- protocol/metadata.cpp: `CheckDataChunks`, which compares the chunks of a local file with their digests.
pub mod Verdicts
use mathlib.Core.Option
use mhftp.Base.{
  ℕ, zero, suc, ◌+◌, ◌==◌, Bool, true, false, Option, none, some, List, [], ◌∷◌, if◌then◌else◌,
  length, take, drop,
}
use mhftp.Base.Int.{ℤ, pos, negsuc, pos_part, leb_ℤ, ◌-ℤ◌}
use mhftp.Posix.{Bytes, FileName, M, ◌>>=◌, ◌>>◌, lift, pure, bytes_eq, open_or_exit}
use mhftp.Crypt.{Md5, md5_buffer}
use mhftp.Metadata.{ch_ok, ch_error, ChunkStatus, ChunkInfo, Metadata}
use mhftp.Metadata.Disk.{load_metadata, save_metadata}

abbrev pub is_ok : ChunkStatus → Bool
is_ok ch_ok = true
is_ok _ = false

-- `lseek(fd, offset, SEEK_CUR)`: a position below zero is refused.
abbrev pub seek_cur : ℕ → ℤ → ℕ
seek_cur position (pos n) = position + n
seek_cur position (negsuc n) = elim (pos position -ℤ pos (suc n)) [
  | pos p ↦ p
  | negsuc _ ↦ position
]

module _ (md5 : Md5) where
  -- The comparison of what was read of a chunk.
  abbrev pub compared : ℕ → ChunkInfo → Bytes → ChunkInfo × ℕ
  compared position c bytes = (
    if bytes_eq (md5_buffer md5 bytes) c.md5sum then c else record c { status = ch_error },
    position + length bytes,
  )

  -- A round of the loop at a position in the file: the entry afterwards, and the new position. A size
  -- below zero, or above the size of the buffer, is undefined.
  unfoldable pub check_chunk : ℤ → Bytes → ℕ → ChunkInfo → Option (ChunkInfo × ℕ)
  check_chunk chunk_size file position c =
      if is_ok c.status
      then elim c.size [
        | negsuc _ ↦ none
        | pos cs ↦
            if leb_ℤ (pos cs) chunk_size
            then some (compared position c (take cs (drop position file)))
            else none
      ]
      else some (c, seek_cur position c.size)

  abbrev checked_rest : ChunkInfo × ℕ → (ℕ → Option (List ChunkInfo)) → Option (List ChunkInfo)
  checked_rest r rest = Option.map (λ table. r.0 ∷ table) (rest r.1)

  unfoldable pub check_loop : ℤ → Bytes → ℕ → ℕ → List ChunkInfo → Option (List ChunkInfo)
  unfolding check_chunk Option.bind
  check_loop chunk_size file position zero table = some table
  check_loop chunk_size file position (suc n) [] = none
  check_loop chunk_size file position (suc n) (c ∷ table) =
      Option.bind (check_chunk chunk_size file position c)
        (λ r. checked_rest r (λ p. check_loop chunk_size file p n table))

  -- The new statuses are saved only in a file that is not in use.
  abbrev pub save_unless_used : Metadata → FileName → M (Unit {0})
  save_unless_used m meta_file = if m.in_use == 0 then save_metadata m meta_file else pure tt

  unfoldable pub check_data_chunks : Metadata → FileName → FileName → M Metadata
  unfolding check_loop
  check_data_chunks m0 meta_file file_name = do
    m ← load_metadata m0 meta_file
    file ← open_or_exit file_name 1
    table ← lift (check_loop m.chunk_size file 0 (pos_part m.chunks) m.chunk_info)
    let m' = record m { chunk_info = table }
    save_unless_used m' meta_file
    pure m'
