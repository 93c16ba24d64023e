-- ===== src/Protocol/Download/Invariant.antt =====
-- What holds of the files and of every process of a download between two steps.
use mhftp.Base.{
  ℕ, ◌^◌, ◌<◌, ◌≤◌, ◌≡◌, Bool, true, false, Option, some, List, length, get_elem?, set,
}
use mhftp.Base.Int.{pos}
use mhftp.Posix.{Bytes, FileName, World, bytes_eq}
use mhftp.Crypt.{Md5, md5_buffer}
use mhftp.Metadata.{ChunkInfo, ch_ok, ch_download, Metadata, IsWellFormed}
use mhftp.Metadata.PayLoad.{chunk_count}
use mhftp.Metadata.Table.{is_pending, with_status}
use mhftp.Metadata.Disk.RoundTrip.{Holds}
use mhftp.Metadata.Disk.Update.{with_table}
use mhftp.Protocol.Server.Answers.{slice}
use mhftp.Protocol.Client.{max_chunk_size}
use mhftp.Protocol.Download.{
  Pc, claiming, publishing, claimed, receiving, received, written, reloading, recording, critical,
  owns,
}
use mhftp.Protocol.Download.Entries.{UnderWay, InPlace}
use mhftp.Base.{none}

-- An object that has the table of the file.
abbrev pub Current : ℕ → List ChunkInfo → Metadata → Type 0
Current c table m = IsWellFormed m × (m.chunk_info ≡ table) × (m.chunk_size ≡ pos c)

module _ (md5 : Md5) (remote : Bytes) (c : ℕ) where
  -- The digest of a part is that of the remote file's.
  abbrev pub Digest : Bytes → ℕ → Type 0
  Digest d i = d ≡ md5_buffer md5 (slice remote c i)

  -- What a process has brought of its chunk: the part in its place, unless the connection broke.
  abbrev pub Brought : Bytes → ℕ → Bool → Bytes → Type 0
  Brought content i err d =
      (length d ≡ 16) × (err ≡ false → InPlace remote c content i × Digest d i)

  -- What the variables of a process say of the files.
  abbrev pub Local : List ChunkInfo → Bytes → Pc → Type 0
  Local table content (claiming m) = Current c table m
  Local table content (publishing m i) =
      (e : ChunkInfo) × (get_elem? table i ≡ some e)
      × (is_pending e.status ≡ true)
      × Current c (set table i (with_status ch_download none e)) m
  Local table content (claimed m i) = UnderWay table i × (m.chunk_size ≡ pos c)
  Local table content (receiving m i) = UnderWay table i × (m.chunk_size ≡ pos c)
  Local table content (received m i d part) =
      UnderWay table i × (m.chunk_size ≡ pos c) × (part ≡ slice remote c i) × Digest d i
  Local table content (written m i err d) = UnderWay table i × Brought content i err d
  Local table content (reloading m i err d) = UnderWay table i × Brought content i err d
  Local table content (recording m i err d) =
      UnderWay table i × Brought content i err d × Current c table m
  Local table content _ = Unit

  -- A chunk in CH_OK is in its place, with its digest.
  abbrev pub Sound : List ChunkInfo → Bytes → Type 0
  Sound table content =
      (i : ℕ) (e : ChunkInfo)
      → get_elem? table i ≡ some e
      → e.status ≡ ch_ok
      → InPlace remote c content i × Digest e.md5sum i

  -- What a download starts from and never changes: two files, and a header with the size of the remote file and
  -- the count of its parts, from which the server has the sizes of the parts that it sends.
  pub record Setting (meta_file local_file : FileName) (header : Metadata) (k : ℕ) : Type 0 where
    pub apart : (bytes_eq meta_file local_file ≡ false) × (bytes_eq local_file meta_file ≡ false)
    pub sized : header.chunk_size ≡ pos c
    pub positive : 0 < c
    pub fits : c ≤ max_chunk_size
    pub measured : header.file_size ≡ pos (length remote)
    pub cut : chunk_count (length remote) (pos c) ≡ some (pos k)
    pub few : k ≤ 10 ^ 6

  pub record Inv (meta_file local_file : FileName) (header : Metadata) (k : ℕ)
      (table : List ChunkInfo) (content : Bytes) (w : World) (lock : Option ℕ) (pc : ℕ → Pc)
      : Type 0 where
    pub well_formed : IsWellFormed (with_table header table)
    pub holds : Holds w meta_file (with_table header table)
    pub counted : length table ≡ k
    pub stored : w.files local_file ≡ some content
    pub short : length content ≤ length remote
    pub sound : Sound table content
    pub locked : (j : ℕ) → critical (pc j) ≡ true → lock ≡ some j
    pub unique : (i j a : ℕ) → owns (pc i) ≡ some a → owns (pc j) ≡ some a → i ≡ j
    pub locals : (j : ℕ) → Local table content (pc j)
    pub owned :
        (a : ℕ) (e : ChunkInfo)
        → get_elem? table a ≡ some e
        → e.status ≡ ch_download
        → (j : ℕ) × (owns (pc j) ≡ some a)
