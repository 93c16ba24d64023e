-- ===== src/Protocol/Parent/Succeeds.antt =====
-- A download that nothing disturbs, from the parent's first step to its last.
use mhftp.Base.{
  ℕ, ◌<◌, ◌≤◌, ◌≡◌, ◌≢◌, sym, ap, ◌∙◌, true, false, some, List, arith, length, get_elem?,
}
use mhftp.Base.Int.{pos}
use mhftp.Posix.{Bytes, FileName, World, done}
use mhftp.Crypt.{Md5, md5_buffer}
use mhftp.Metadata.{ChunkInfo, ch_ok, ch_download, Metadata, IsWellFormed}
use mhftp.Metadata.Disk.RoundTrip.{Holds, with_file-Holds, with_file-other}
use mhftp.Protocol.Download.{System, Reach, finished}
use mhftp.Protocol.Download.Invariant.{Sound, Setting, Inv}
use mhftp.Protocol.Download.Files.{load-Current}
use mhftp.Protocol.Download.Settled.{Every, Unsent}
use mhftp.Protocol.Download.Undisturbed.{Calm, Calm-Every}
use mhftp.Protocol.Parent.{nproc, begin_download, forked, end_download}
use mhftp.Protocol.Parent.Started.{
  marked_as, after_mark, marked_as-IsWellFormed, begin_download_lem, forked-Inv, forked-Settled,
}
use mhftp.Protocol.Parent.Whole.{Complete, begun-Setting, ended}

module _ {md5 : Md5} {remote : Bytes} {c k : ℕ} {meta_file local_file : FileName}
    {header : Metadata} (setting : Setting md5 remote c meta_file local_file header k) where
  -- A table with every chunk in CH_OK is one as `LoadMetadata` reads it.
  Every-Complete :
      {table : List ChunkInfo} {content : Bytes} (t : System)
      → Inv md5 remote c meta_file local_file header k table content t.world t.lock t.pc
      → Every (λ s. s ≡ ch_ok) table
      → Complete meta_file t.world
  Every-Complete {table} t inv all_ok m m' w' e a entry at =
      let ((_, same, _), _) =
        load-Current header setting.sized table m m' t.world w' inv.well_formed inv.holds e in
      all_ok a entry (ap (λ u. get_elem? u a) (sym same) ∙ at)

module _ {md5 : Md5} {remote : Bytes} {c k : ℕ} {meta_file local_file : FileName}
    {header : Metadata} (setting : Setting md5 remote c meta_file local_file header k)
    (m0 : Metadata) where
  -- A download of a remote file whose digest, size and count of parts stand in the metadata file, by one to
  -- NPROC processes. The metadata file, of a well-formed object, has an entry for every part of the remote
  -- file, at most 10^6, each of at most MAX_CHUNK_SIZE bytes, and no chunk is in CH_DOWNLOAD or CH_UPLOAD.
  -- The local file, another one, exists, and is not longer than the remote file; for every chunk in CH_OK,
  -- it has the bytes of that part and the entry has its digest. Then the parent's first part ends; and
  -- however the processes are interleaved, if no connection breaks and the user does not stop the client,
  -- then, when they have finished, the local file is the remote file, and the parent's last part, if it may
  -- open that file, ends, finds the digests equal and marks the metadata file as free.
  pub download_succeeds :
      (w : World) (content digest : Bytes) (n : ℕ)
      → 0 < n
      → n ≤ nproc
      → header.digest ≡ md5_buffer md5 remote
      → IsWellFormed header
      → Holds w meta_file header
      → length header.chunk_info ≡ k
      → w.files local_file ≡ some content
      → length content ≤ length remote
      → Sound md5 remote c header.chunk_info content
      → Every (λ s. s ≢ ch_download) header.chunk_info
      → Every Unsent header.chunk_info
      → (m1 : Metadata) × (w1 : World) × (begin_download (pos n) m0 meta_file w ≡ done m1 w1)
        × ((t : System) (run : Reach md5 meta_file local_file remote c n (forked n m1 w1) t)
            → Calm run
            → ((j : ℕ) → t.pc j ≡ finished)
            → t.world.deny local_file ≡ false
            → (t.world.files local_file ≡ some remote)
              × (m2 : Metadata) × (w2 : World) × (end_download md5 digest m0 meta_file local_file
                    t.world
                  ≡ done (m2, true) w2)
              × (m2.in_use ≡ 0)
              × (w2.files local_file ≡ some remote)
              × Holds w2 meta_file m2)
  download_succeeds w content digest n some_process few same wf h many stored short sound quiet
        unsent =
      let first = marked_as header m0 1 in
      let w1 = after_mark header first w meta_file h.rest in
      let inv =
        forked-Inv (begun-Setting setting m0) n first w1 content
          (marked_as-IsWellFormed header m0 1 (omega arith) wf)
          (with_file-Holds w meta_file first _ h.allowed) many
          (with_file-other w meta_file local_file _ setting.apart.0 ∙ stored) short sound quiet in
      (
        first,
        w1,
        begin_download_lem header m0 meta_file w wf h n few,
        λ t run calm all_done may.
            let (_, _, inv', all_ok) =
              Calm-Every (begun-Setting setting m0) some_process
                (
                  header.chunk_info,
                  content,
                  inv,
                  forked-Settled n first w1 header.chunk_info unsent,
                )
                run calm all_done in
            ended setting m0 digest t (header.chunk_info, content, inv) run same
              (Every-Complete (begun-Setting setting m0) t inv' all_ok) may,
      )
