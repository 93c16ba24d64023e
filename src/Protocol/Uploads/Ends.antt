-- ===== src/Protocol/Uploads/Ends.antt =====
-- An upload by one process can go on to its end.
use mhftp.Base.{ℕ, ◌≡◌, refl, ap, ◌∙◌, false, some, List, arith, length}
use mhftp.Posix.{Bytes, FileName, World, open_file}
use mhftp.Metadata.{ChunkInfo, Metadata, IsWellFormed}
use mhftp.Metadata.Disk.{load_metadata}
use mhftp.Metadata.Disk.RoundTrip.{Holds, load_metadata-Holds}
use mhftp.Metadata.Disk.Update.{with_table}
use mhftp.Protocol.Sending.{finished, System, begin, pick, Reach, start, later}
use mhftp.Protocol.Sending.Invariant.{Setting}
use mhftp.Protocol.Sending.Log.{IsOk}
use mhftp.Protocol.Sending.Runs.{Reach-trans}
use mhftp.Protocol.Sending.Arrives.{Unmarked, at_fork, at_fork-Going}
use mhftp.Protocol.Sending.Finishes.{upload_can_finish}

module _ {meta_file local_file : FileName} {header : Metadata} {file : Bytes} {c k : ℕ}
    (setting : Setting meta_file local_file header file c k) where
  -- From the fork there is a run in which the process begins, and ends because no chunk is pending.
  pub one_ends :
      (table : List ChunkInfo) (m : Metadata) (w : World)
      → IsWellFormed (with_table header table)
      → Holds w meta_file (with_table header table)
      → length table ≡ k
      → w.files local_file ≡ some file
      → w.deny local_file ≡ false
      → m.file_metadata ≡ meta_file
      → Unmarked setting table
      → (u : System) × Reach local_file 1 (at_fork m w) u × ((u.pc 0).at ≡ finished)
  unfolding open_file
  one_ends table m w wf holds counted stored allowed name unmarked =
      let begins : Reach local_file 1 (at_fork m w) _ = later start (
        pick 0 (omega arith) (
          begin (record header { chunk_info = table; file_metadata = m.file_metadata }) file w refl
            (ap (λ f. load_metadata m f w) name
              ∙ load_metadata-Holds (with_table header table) m meta_file w wf holds)
            (rw (allowed, stored) refl))) in
      let (u, rest, _, left) =
        upload_can_finish setting (IsOk table)
          (at_fork-Going setting 1 table m w wf holds counted stored name unmarked) (λ j e. cc)
          begins in
      (u, Reach-trans begins rest, left 0 (omega arith) refl)
