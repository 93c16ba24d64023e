-- ===== src/Protocol/Commands/Fetched.antt =====
-- The metadata file that a client makes of the server's answer.
use mhftp.Base.{
  ℕ, ◌*◌, ◌^◌, ◌<◌, ◌≡◌, refl, false, Option, none, some, [], ◌++◌, arith, length, drop,
}
use mhftp.Base.Int.{pos}
use mhftp.Base.Bytes.{of_le_bytes}
use mhftp.Posix.{Bytes, FileName, World, done, exit, ◌>>=◌}
use mhftp.Posix.Socket.{Socket, IsStream}
use mhftp.ConTcp.Reassembly.{so_read_into-IsStream}
use mhftp.Metadata.{Metadata}
use mhftp.Metadata.PayLoad.{chunk_count, new_table, init_control_data}
use mhftp.Metadata.Disk.{load_metadata}
use mhftp.Metadata.Disk.RoundTrip.{
  image, with_file, with_file-files, with_file-Holds, load_metadata-Holds, save_metadata_lem,
}
use mhftp.Metadata.Wire.{write_metadata_header}
use mhftp.Metadata.Wire.Header.{read_metadata_header-write_metadata_header}
use mhftp.Metadata.Create.Stored.{fresh, fresh-IsWellFormed}
use mhftp.Protocol.Commands.{
  int16_of_bytes, mh_ok, mh_file_not_found, touch, abs_file_name, receive_metadata,
}

touched :
    (w : World) (name : FileName)
    → w.deny name ≡ false
    → (old : Bytes) × (w1 : World) × (touch name w ≡ done tt w1)
      × (w1.files name ≡ some old)
      × (w1.deny name ≡ false)
unfolding touch
touched w name allowed = by_old (w.files name) refl
  where
    by_old :
        (r : Option Bytes)
        → w.files name ≡ r
        → (old : Bytes) × (w1 : World) × (touch name w ≡ done tt w1)
          × (w1.files name ≡ some old)
          × (w1.deny name ≡ false)
    by_old none e =
        ([], with_file w name [], rw (allowed, e) refl, with_file-files w name [], allowed)
    by_old (some old) e = (old, w, rw (allowed, e) refl, e, allowed)

-- The answer that the file is missing ends `DownloadMetadataFromServer` with 1, and no file changes.
pub receive_metadata_missing :
    (m0 : Metadata) (junk abs_file : Bytes) (remote_file : FileName) (rest : Bytes) (s : Socket)
    (w : World)
    → IsStream s (mh_file_not_found ++ rest)
    → receive_metadata m0 junk abs_file remote_file s w ≡ exit 1 w
unfolding receive_metadata int16_of_bytes of_le_bytes
receive_metadata_missing m0 junk abs_file remote_file rest s w h =
    let (s1, e, _) = so_read_into-IsStream junk mh_file_not_found rest 2 s refl h in
    rw (e, ◌>>=◌) refl

-- The fields of a header, over the ones that the client's object had.
abbrev pub header_of : Metadata → ℕ → ℕ → ℕ → Metadata
header_of m f c n = record m { file_size = pos f; chunk_size = pos c; chunks = pos n }

-- `DownloadMetadataFromServer`, on a connection where no call fails, that brings the answer MH_OK and the
-- header of an object: the client's metadata file, which may be opened, then holds that header and a new
-- table, so that `LoadMetadata` reads them. The header's buffers have their sizes, its count is the one of
-- `chunk_count`, the numbers are in their ranges, and the client's mark of use is a byte.
pub receive_metadata-write_metadata_header :
    (m m0 m1 : Metadata) (junk abs_file : Bytes) (remote_file : FileName) (rest : Bytes)
    (s : Socket) (w : World) (f c n : ℕ)
    → length m.digest ≡ 16
    → length m.file_full ≡ 2048
    → m0.in_use < 256
    → f < 2 ^ 63
    → 0 < c
    → c < 2 ^ 63
    → chunk_count f (pos c) ≡ some (pos n)
    → n * 32 < 2 ^ 31
    → w.deny (abs_file_name abs_file remote_file) ≡ false
    → IsStream s (mh_ok ++ (write_metadata_header (header_of m f c n) ++ rest))
    → (s' : Socket) × (w' : World) × (receive_metadata m0 junk abs_file remote_file s w
        ≡ done s' w')
      × (load_metadata m1 (abs_file_name abs_file remote_file) w'
          ≡ done
              (record (fresh m0 f c n) {
                digest = m.digest;
                file_full = m.file_full;
                file_metadata = m1.file_metadata;
              })
              w')
      × IsStream s' rest
unfolding receive_metadata int16_of_bytes of_le_bytes init_control_data new_table
receive_metadata-write_metadata_header m m0 m1 junk abs_file remote_file rest s w f c n d u b ff
      positive cc counted few allowed h =
    let name = abs_file_name abs_file remote_file in
    let (s1, e1, h1) = so_read_into-IsStream junk mh_ok _ 2 s refl h in
    let (old, w1, e2, there, may) = touched w name allowed in
    let (s2, e3, h2) =
      read_metadata_header-write_metadata_header (header_of m f c n) m0 rest s1 d u (omega arith)
        (omega arith) (omega arith) h1 in
    let base = record m0 { digest = m.digest } in
    let new = record (fresh base f c n) { file_full = m.file_full } in
    let wf =
      fresh-IsWellFormed base f c n m.file_full m0.file_metadata d b u ff positive cc counted few in
    let rest' = drop (length (image new [])) old in
    (
      s2,
      with_file w1 name (image new rest'),
      rw (e1, ◌>>=◌, e2, e3, save_metadata_lem new name w1 old wf there may) refl,
      load_metadata-Holds new m1 name _ wf (with_file-Holds w1 name new rest' may),
      h2,
    )
