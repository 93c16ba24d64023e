-- ===== src/Protocol/Parent/Whole.antt =====
-- A download from the parent's first step to its last.
use mhftp.Base.{ℕ, ◌≤◌, ◌≡◌, ◌≢◌, refl, ◌∙◌, true, false, some, arith, length, get_elem?}
use mhftp.Base.Int.{pos}
use mhftp.Posix.{Bytes, FileName, World, done, bytes_eq, bytes_eq_refl, open_file, ◌>>=◌}
use mhftp.Crypt.{Md5, md5_buffer}
use mhftp.Crypt.Stream.{md5_file-md5_buffer}
use mhftp.Metadata.{ChunkInfo, ch_ok, ch_download, Metadata, IsWellFormed}
use mhftp.Metadata.Disk.{load_metadata}
use mhftp.Metadata.Disk.RoundTrip.{Holds, with_file-Holds, with_file-other, load_metadata-Holds}
use mhftp.Metadata.Disk.Update.{with_table}
use mhftp.Protocol.Download.{System, Reach}
use mhftp.Protocol.Download.Invariant.{Sound, Setting}
use mhftp.Protocol.Download.Runs.{Holding, Reach-Holding, local_file_whole}
use mhftp.Protocol.Parent.{nproc, begin_download, forked, md5_of_file, end_download}
use mhftp.Protocol.Parent.Started.{
  marked_as, after_mark, marked_as-IsWellFormed, mark_in_use_lem, begin_download_lem,
  forked-Holding,
}

-- Every chunk in the file of that name is in CH_OK, as `LoadMetadata` reads it.
abbrev pub Complete : FileName → World → Type 0
Complete name w =
    (m m' : Metadata) (w' : World)
    → load_metadata m name w ≡ done m' w'
    → (a : ℕ) (e : ChunkInfo) → get_elem? m'.chunk_info a ≡ some e
    → e.status ≡ ch_ok

module _ (md5 : Md5) (digest : Bytes) (m m0 : Metadata) (meta_file local_file : FileName)
    (w : World) (wf : IsWellFormed m) (h : Holds w meta_file m) where
  -- On a local file whose digest is the one of the metadata, `end_download` says so, and marks the metadata
  -- file as free.
  pub end_download_lem :
      (content : Bytes)
      → bytes_eq meta_file local_file ≡ false
      → w.files local_file ≡ some content
      → w.deny local_file ≡ false
      → m.digest ≡ md5_buffer md5 content
      → end_download md5 digest m0 meta_file local_file w
        ≡ done (marked_as m m0 0, true) (after_mark m (marked_as m m0 0) w meta_file h.rest)
  unfolding end_download md5_of_file open_file
  end_download_lem content apart stored allowed same =
      let kept : (after_mark m (marked_as m m0 0) w meta_file h.rest).files local_file
          ≡ some content =
        with_file-other w meta_file local_file _ apart ∙ stored in
      rw
        (
          mark_in_use_lem m m0 meta_file w wf h 0 (omega arith),
          ◌>>=◌,
          allowed,
          kept,
          md5_file-md5_buffer md5 content,
          same,
          bytes_eq_refl (md5_buffer md5 content),
        )
        refl

module _ {md5 : Md5} {remote : Bytes} {c k : ℕ} {meta_file local_file : FileName}
    {header : Metadata} (setting : Setting md5 remote c meta_file local_file header k)
    (m0 : Metadata) where
  abbrev begun : Metadata
  begun = marked_as header m0 1

  pub begun-Setting : Setting md5 remote c meta_file local_file begun k
  begun-Setting = record {
    apart = setting.apart;
    sized = setting.sized;
    positive = setting.positive;
    fits = setting.fits;
    measured = setting.measured;
    cut = setting.cut;
    few = setting.few;
  }

  -- The parent's last part, after a run that left all chunks in CH_OK.
  pub ended :
      {n : ℕ} {s : System} (digest : Bytes) (t : System)
      → Holding begun-Setting s
      → Reach md5 meta_file local_file remote c n s t
      → header.digest ≡ md5_buffer md5 remote
      → Complete meta_file t.world
      → t.world.deny local_file ≡ false
      → (t.world.files local_file ≡ some remote)
        × (m2 : Metadata) × (w2 : World) × (end_download md5 digest m0 meta_file local_file t.world
            ≡ done (m2, true) w2)
        × (m2.in_use ≡ 0)
        × (w2.files local_file ≡ some remote)
        × Holds w2 meta_file m2
  ended digest t held run same ok may =
      let (table, content, inv) = Reach-Holding begun-Setting held run in
      let m = with_table begun table in
      let read = load_metadata-Holds m m0 meta_file t.world inv.well_formed inv.holds in
      let there =
        local_file_whole begun-Setting held run m0 _ t.world read (ok m0 _ t.world read) in
      (
        there,
        marked_as m m0 0,
        after_mark m (marked_as m m0 0) t.world meta_file inv.holds.rest,
        end_download_lem md5 digest m m0 meta_file local_file t.world inv.well_formed inv.holds
            remote setting.apart.0 there may same,
        refl,
        with_file-other t.world meta_file local_file _ setting.apart.0 ∙ there,
        with_file-Holds t.world meta_file (marked_as m m0 0) _ inv.holds.allowed,
      )

  -- A download of a remote file whose digest, size and count of parts stand in the metadata file, by at
  -- most NPROC processes. The metadata file, of a well-formed object, has an entry for every part of the
  -- remote file, at most 10^6, each of at most MAX_CHUNK_SIZE bytes, and no chunk is in CH_DOWNLOAD. The
  -- local file, another one, exists, and is not longer than the remote file; for every chunk in CH_OK, it
  -- has the bytes of that part and the entry has its digest. Then the parent's first part ends; and after
  -- every interleaving of the processes, with broken connections and stops by the user, that leaves all
  -- chunks in CH_OK, the local file is the remote file, and the parent's last part, if it may open that
  -- file, ends, finds the digests equal and marks the metadata file as free.
  pub download_whole :
      (w : World) (content digest : Bytes) (n : ℕ)
      → n ≤ nproc
      → header.digest ≡ md5_buffer md5 remote
      → IsWellFormed header
      → Holds w meta_file header
      → length header.chunk_info ≡ k
      → w.files local_file ≡ some content
      → length content ≤ length remote
      → Sound md5 remote c header.chunk_info content
      → ((a : ℕ) (e : ChunkInfo) → get_elem? header.chunk_info a ≡ some e → e.status ≢ ch_download)
      → (m1 : Metadata) × (w1 : World) × (begin_download (pos n) m0 meta_file w ≡ done m1 w1)
        × ((t : _)
            → Reach md5 meta_file local_file remote c n (forked n m1 w1) t
            → Complete meta_file t.world
            → t.world.deny local_file ≡ false
            → (t.world.files local_file ≡ some remote)
              × (m2 : Metadata) × (w2 : World) × (end_download md5 digest m0 meta_file local_file
                    t.world
                  ≡ done (m2, true) w2)
              × (m2.in_use ≡ 0)
              × (w2.files local_file ≡ some remote)
              × Holds w2 meta_file m2)
  download_whole w content digest n few same wf h many stored short sound quiet =
      let w1 = after_mark header begun w meta_file h.rest in
      let held =
        forked-Holding begun-Setting n begun w1 content
          (marked_as-IsWellFormed header m0 1 (omega arith) wf)
          (with_file-Holds w meta_file begun _ h.allowed) many
          (with_file-other w meta_file local_file _ setting.apart.0 ∙ stored) short sound quiet in
      (
        begun,
        w1,
        begin_download_lem header m0 meta_file w wf h n few,
        λ t run ok may. ended digest t held run same ok may,
      )
