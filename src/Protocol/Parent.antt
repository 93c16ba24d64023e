-- ===== src/Protocol/Parent.antt =====
-- protocol/mhproto_client.cpp: the parent of a download, the public `DownloadFileFromServer`, before it
-- forks the processes and after it has waited for them. What the monitor process shows is left out.
pub mod Started
pub mod Whole
pub mod Succeeds
pub mod Stopping
pub mod Stopped
use mhftp.Base.{ℕ, ◌+◌, true, false, Bool, Option, none, some, ◌&&◌, if◌then◌else◌, ltb}
use mhftp.Base.Int.{ℤ, pos, leb_ℤ}
use mhftp.Posix.{
  Bytes, FileName, World, done, M, ◌>>=◌, ◌>>◌, lift, pure, exit_unless, open_file, bytes_eq,
}
use mhftp.Crypt.{Md5, md5_file}
use mhftp.Metadata.{Metadata}
use mhftp.Metadata.Disk.{load_metadata, save_metadata}
use mhftp.Metadata.Reset.{reset_downloading_chunks}
use mhftp.Protocol.Download.{Pc, waiting, finished, System}

-- `LoadMetadata`, `setInUse` and `SaveMetadata`.
unfoldable pub mark_in_use : Metadata → FileName → ℕ → M Metadata
mark_in_use m0 meta_file in_use = do
  m ← load_metadata m0 meta_file
  let m' = record m { in_use = in_use }
  save_metadata m' meta_file
  pure m'

-- NPROC
abbrev pub nproc : ℕ
nproc = 10

unfoldable pub begin_download : ℤ → Metadata → FileName → M Metadata
unfolding mark_in_use
begin_download num_client m0 meta_file = do
  m ← mark_in_use m0 meta_file 1
  exit_unless (leb_ℤ (pos 0) num_client && leb_ℤ num_client (pos nproc)) 1
  pure m

-- The processes that the parent forks, each with the parent's object.
abbrev pub forked : ℕ → Metadata → World → System
forked num_client m w = record {
  world = w;
  lock = none;
  pc = λ j. if ltb j num_client then waiting m else finished;
}

-- `md5File` by name: an `open` that fails leaves the digest as it was.
unfoldable pub md5_of_file : Md5 → Bytes → FileName → M Bytes
md5_of_file md5 digest name w = elim (open_file name w) [
  | none ↦ done digest w
  | some content ↦ lift (md5_file md5 content) w
]

-- Behind the last `waitpid`, with the digest buffer of `md5download`: whether the digests agree. The program says
-- that the file is corrupted when they do not.
unfoldable pub end_download : Md5 → Bytes → Metadata → FileName → FileName → M (Metadata × Bool)
unfolding mark_in_use md5_of_file
end_download md5 digest m0 meta_file local_file = do
  m ← mark_in_use m0 meta_file 0
  d ← md5_of_file md5 digest local_file
  pure (m, bytes_eq m.digest d)
