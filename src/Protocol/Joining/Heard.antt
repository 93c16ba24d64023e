-- ===== src/Protocol/Joining/Heard.antt =====
-- The first bytes of a process of a download, and what the server takes them for.
use mhftp.Base.{◌≡◌, refl, sym, ap, ◌∙◌, subst, false, Option, none, some, [], ◌∷◌, ◌++◌, arith}
use mhftp.Base.Int.{IsInt64, pos}
use mhftp.Posix.{Bytes, FileName, World, done, ◌>>=◌, bytes_eq, create_or_exit}
use mhftp.Posix.Socket.{Socket, IsStream}
use mhftp.ConTcp.{so_read}
use mhftp.ConTcp.Reassembly.{so_read-IsStream}
use mhftp.Metadata.{Metadata, IsWellFormed}
use mhftp.Metadata.Disk.RoundTrip.{
  Holds, with_file, with_file-files, with_file-other, load_metadata-Holds,
}
use mhftp.Metadata.Wire.{write_metadata_header, read_metadata_header}
use mhftp.Metadata.Wire.Header.{with_header, read_metadata_header-write_metadata_header}
use mhftp.Protocol.Commands.{download_chunk, rcv_cmd}
use mhftp.Protocol.Joining.{download_chunk_command, join_download}

-- `open` with O_CREAT of a file that may be opened, beside another one.
opened :
    (w : World) (name other : FileName)
    → bytes_eq name other ≡ false
    → w.deny name ≡ false
    → (content : Bytes) × (w1 : World) × (create_or_exit name 1 w ≡ done content w1)
      × (w1.files name ≡ some content)
      × (w1.files other ≡ w.files other)
      × (w1.deny ≡ w.deny)
unfolding create_or_exit
opened w name other apart allowed = by_old (w.files name) refl
  where
    by_old :
        (r : Option Bytes)
        → w.files name ≡ r
        → (content : Bytes) × (w1 : World) × (create_or_exit name 1 w ≡ done content w1)
          × (w1.files name ≡ some content)
          × (w1.files other ≡ w.files other)
          × (w1.deny ≡ w.deny)
    by_old none e = (
      [],
      with_file w name [],
      rw (allowed, e) refl,
      with_file-files w name [],
      with_file-other w name other [] apart,
      refl,
    )
    by_old (some old) e = (old, w, rw (allowed, e) refl, e, refl, refl)

heard :
    (m m1 : Metadata) (rest : Bytes) (s : Socket)
    → IsWellFormed m
    → IsStream s ((download_chunk_command ∷ write_metadata_header m) ++ rest)
    → (s1 : Socket) × (s2 : Socket) × (rcv_cmd s ≡ some (download_chunk, s1))
      × (read_metadata_header m1 s1 ≡ some (with_header m1 m, s2))
      × IsStream s2 rest
unfolding rcv_cmd
heard m m1 rest s wf h =
    let (s1, e1, h1) =
      so_read-IsStream (download_chunk_command ∷ []) (write_metadata_header m ++ rest) s h in
    let one : so_read 1 s
        ≡ some (record { count = pos 1; bytes = download_chunk_command ∷ []; rest = s1 }) =
      e1 in
    let counted : IsInt64 m.chunks =
      subst IsInt64 (sym wf.chunks_counted) (omega (arith, wf.few)) in
    let (s2, e2, h2) =
      read_metadata_header-write_metadata_header m m1 rest s1 wf.digest_length wf.file_full_length
        wf.file_size_fits wf.chunk_size_fits counted h1 in
    (s1, s2, rw (rcv_cmd, one) refl, e2, h2)

-- In front of its loop, a process of a download whose metadata file holds a well-formed object, and whose
-- local file is another one and may be opened, has that object, and the local file exists. On a connection
-- where no call fails, the server takes the bytes that the process sent for the command DOWNLOAD_CHUNK and
-- the header of that object, and the stream goes on behind them.
pub rcv_cmd-join_download :
    (m m0 m1 : Metadata) (meta_file local_file : FileName) (w : World)
    → IsWellFormed m
    → Holds w meta_file m
    → bytes_eq local_file meta_file ≡ false
    → w.deny local_file ≡ false
    → (content : Bytes) × (w1 : World) × (sent : Bytes) × (join_download m0 meta_file local_file w
        ≡ done (record m { file_metadata = m0.file_metadata }, sent) w1)
      × (w1.files local_file ≡ some content)
      × Holds w1 meta_file m
      × ((rest : Bytes) (s : Socket)
          → IsStream s (sent ++ rest)
          → (s1 : Socket) × (s2 : Socket) × (rcv_cmd s ≡ some (download_chunk, s1))
            × (read_metadata_header m1 s1 ≡ some (with_header m1 m, s2))
            × IsStream s2 rest)
unfolding join_download
rcv_cmd-join_download m m0 m1 meta_file local_file w wf h apart allowed =
    let (content, w1, e, there, same, may) = opened w local_file meta_file apart allowed in
    (
      content,
      w1,
      download_chunk_command ∷ write_metadata_header m,
      rw (load_metadata-Holds m m0 meta_file w wf h, ◌>>=◌, e) refl,
      there,
      record {
        rest = h.rest;
        stored = same ∙ h.stored;
        allowed = ap (λ d. d meta_file) may ∙ h.allowed;
      },
      λ rest s streams. heard m m1 rest s wf streams,
    )
