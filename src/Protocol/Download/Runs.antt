-- ===== src/Protocol/Download/Runs.antt =====
-- What holds after any interleaving of the processes of a download.
use native.Mathlib.Nat.{div-add-mod, mod-lt}
use mhftp.Base.{
  ℕ, ◌/◌, ◌<◌, ◌≤◌, ◌≡◌, ◌≢◌, inl, inr, refl, sym, ap, ◌∙◌, some, List, arith, length, get_elem?,
  get_elem?-none, get_elem?-some, ext,
}
use mhftp.Posix.{Bytes, FileName, World, done}
use mhftp.Crypt.{Md5}
use mhftp.Metadata.{ChunkInfo, ch_ok, ch_download, Metadata}
use mhftp.Metadata.Disk.{load_metadata}
use mhftp.Protocol.Server.Answers.{length-slice}
use mhftp.Protocol.Placing.{place}
use mhftp.Protocol.Download.{finished, owns, System, Step, pick, Reach, start, later}
use mhftp.Protocol.Download.Entries.{InPlace}
use mhftp.Metadata.PayLoad.Tiling.{chunk_of_byte}
use mhftp.Protocol.Download.Invariant.{Setting, Inv}
use mhftp.Protocol.Download.Files.{load-Current}
use mhftp.Protocol.Download.Steps.{Move-Inv}

module _ {md5 : Md5} {remote : Bytes} {c k : ℕ} {meta_file local_file : FileName}
    {header : Metadata} (setting : Setting md5 remote c meta_file local_file header k) where
  -- The invariant, for some table and some local file.
  abbrev pub Holding : System → Type 0
  Holding s =
      (table : List ChunkInfo) × (content : Bytes) × Inv md5 remote c meta_file local_file header k
        table content s.world s.lock s.pc

  pub Step-Holding :
      {n : ℕ} {s t : System} → Step md5 meta_file local_file remote c n s t → Holding s → Holding t
  Step-Holding (pick me _ move) (table, content, inv) =
      let (table', content', inv', _) = Move-Inv setting inv me move refl in
      (table', content', inv')

  -- From a state with the invariant, every interleaving of the processes of a download keeps it: the
  -- metadata file holds the header with a well-formed table, what a process knows of its chunk is so,
  -- every chunk under way has one owner, and every chunk in CH_OK is in its place in the local file.
  pub Reach-Holding :
      {n : ℕ} {s t : System} → Holding s → Reach md5 meta_file local_file remote c n s t → Holding t
  Reach-Holding h start = h
  Reach-Holding h (later run step) = Step-Holding step (Reach-Holding h run)

  -- However the processes of a download are interleaved, from a state with the invariant: no chunk is
  -- marked by two processes at a time.
  pub owners_apart :
      {n : ℕ} {s t : System}
      → Holding s
      → Reach md5 meta_file local_file remote c n s t
      → (i j a : ℕ) → i ≢ j
      → owns (t.pc i) ≡ some a
      → owns (t.pc j) ≢ some a
  owners_apart h run i j a apart mine theirs =
      let (table, content, inv) = Reach-Holding h run in apart (inv.unique i j a mine theirs)

  -- The bytes of the part of byte `j` are in place.
  in_place :
      (content : Bytes) (j : ℕ)
      → j < length remote
      → InPlace remote c content (j / c)
      → get_elem? content j ≡ get_elem? remote j
  in_place content j h placed =
      placed j (omega (arith, div-add-mod j c))
        (omega (arith, div-add-mod j c, mod-lt j setting.positive, length-slice remote c (j / c)))

  parts_whole :
      (content : Bytes)
      → length content ≤ length remote
      → ((a : ℕ) → a < k → InPlace remote c content a)
      → content ≡ remote
  parts_whole content short placed = ext content remote by_place
    where
      by_place : (j : ℕ) → get_elem? content j ≡ get_elem? remote j
      by_place j = elim (place 0 (length remote) j) [
        | inl (_, within) ↦
            let inside : j < length remote = omega arith in
            in_place content j inside (
              placed (j / c)
                (chunk_of_byte (length remote) c k setting.positive setting.cut j inside))
        | inr (inl below) ↦ absurd (omega arith)
        | inr (inr beyond) ↦
            get_elem?-none content j (omega arith) ∙ sym (get_elem?-none remote j (omega arith))
      ]

  -- However the processes of a download are interleaved, from a state with the invariant: when `LoadMetadata`
  -- reads a table in which every chunk is in CH_OK, the local file is the remote file.
  pub local_file_whole :
      {n : ℕ} {s t : System}
      → Holding s
      → Reach md5 meta_file local_file remote c n s t
      → (m m' : Metadata) (w' : World) → load_metadata m meta_file t.world ≡ done m' w'
      → ((a : ℕ) (e : ChunkInfo) → get_elem? m'.chunk_info a ≡ some e → e.status ≡ ch_ok)
      → t.world.files local_file ≡ some remote
  local_file_whole {t} h run m m' w' e all_ok =
      let (table, content, inv) = Reach-Holding h run in
      let ((_, same, _), _) =
        load-Current header setting.sized table m m' t.world w' inv.well_formed inv.holds e in
      inv.stored
      ∙ ap some (
          parts_whole content inv.short (λ a lt.
            let (entry, at) = get_elem?-some table a (omega (arith, inv.counted)) in
            (inv.sound a entry at (all_ok a entry (ap (λ u. get_elem? u a) same ∙ at))).0))

  -- However the processes of a download are interleaved, from a state with the invariant: when all have
  -- finished, no chunk of the table that `LoadMetadata` reads is in CH_DOWNLOAD.
  pub none_under_way :
      {n : ℕ} {s t : System}
      → Holding s
      → Reach md5 meta_file local_file remote c n s t
      → ((j : ℕ) → t.pc j ≡ finished)
      → (m m' : Metadata) (w' : World) → load_metadata m meta_file t.world ≡ done m' w'
      → (a : ℕ) (e : ChunkInfo) → get_elem? m'.chunk_info a ≡ some e
      → e.status ≢ ch_download
  none_under_way {t} h run all_done m m' w' e a entry at status =
      let (table, content, inv) = Reach-Holding h run in
      let ((_, same, _), _) =
        load-Current header setting.sized table m m' t.world w' inv.well_formed inv.holds e in
      let (j, mine) = inv.owned a entry (ap (λ u. get_elem? u a) (sym same) ∙ at) status in
      let out : owns finished ≡ some a = ap owns (sym (all_done j)) ∙ mine in cc
