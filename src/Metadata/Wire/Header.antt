-- ===== src/Metadata/Wire/Header.antt =====
-- The header that is read is the header that was written.
use mathlib.Core.List.{append_assoc}
use mhftp.Base.{◌≡◌, refl, subst, some, ◌++◌, length}
use mhftp.Base.Int.{IsInt64}
use mhftp.Base.Bytes.{int64_bytes, length-int64_bytes, int64_of_bytes-int64_bytes}
use mhftp.Posix.{Bytes}
use mhftp.Posix.Socket.{Socket, IsStream}
use mhftp.ConTcp.{◌>>=◌}
use mhftp.ConTcp.Reassembly.{so_read_into-IsStream}
use mhftp.Metadata.{Metadata}
use mhftp.Metadata.Wire.{write_metadata_header, read_metadata_header}

-- The object `m0` after the header of `m`.
abbrev pub with_header : Metadata → Metadata → Metadata
with_header m0 m = record m0 {
  digest = m.digest;
  file_size = m.file_size;
  file_full = m.file_full;
  chunk_size = m.chunk_size;
  chunks = m.chunks;
}

-- However a connection where no call fails cuts the header of `m` into segments, `ReadMetadataHeader`
-- gets the five fields that `WriteMetadataHeader` sent and keeps its other ones, and the stream goes on
-- behind the header. The buffers of `m` have their sizes and its numbers fit an int64_t.
pub read_metadata_header-write_metadata_header :
    (m m0 : Metadata) (rest : Bytes) (s : Socket)
    → length m.digest ≡ 16
    → length m.file_full ≡ 2048
    → IsInt64 m.file_size
    → IsInt64 m.chunk_size
    → IsInt64 m.chunks
    → IsStream s (write_metadata_header m ++ rest)
    → (s' : Socket) × (read_metadata_header m0 s ≡ some (with_header m0 m, s')) × IsStream s' rest
unfolding write_metadata_header read_metadata_header
read_metadata_header-write_metadata_header m m0 rest s hd hf fs cs ch h =
    let h0 : IsStream s (
        m.digest
        ++ (int64_bytes m.file_size
            ++ (m.file_full ++ (int64_bytes m.chunk_size ++ (int64_bytes m.chunks ++ rest))))) =
      subst (IsStream s) (simp (append_assoc) refl) h in
    let (s1, e1, h1) = so_read_into-IsStream m0.digest m.digest _ 16 s hd h0 in
    let (s2, e2, h2) =
      so_read_into-IsStream (int64_bytes m0.file_size) (int64_bytes m.file_size) _ 8 s1
        (length-int64_bytes _) h1 in
    let (s3, e3, h3) = so_read_into-IsStream m0.file_full m.file_full _ 2048 s2 hf h2 in
    let (s4, e4, h4) =
      so_read_into-IsStream (int64_bytes m0.chunk_size) (int64_bytes m.chunk_size) _ 8 s3
        (length-int64_bytes _) h3 in
    let (s5, e5, h5) =
      so_read_into-IsStream (int64_bytes m0.chunks) (int64_bytes m.chunks) rest 8 s4
        (length-int64_bytes _) h4 in
    (
      s5,
      rw
          (
            e1,
            ◌>>=◌,
            e2,
            e3,
            e4,
            e5,
            int64_of_bytes-int64_bytes m.file_size fs,
            int64_of_bytes-int64_bytes m.chunk_size cs,
            int64_of_bytes-int64_bytes m.chunks ch,
          )
          refl,
      h5,
    )
