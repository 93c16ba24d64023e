-- ===== src/Metadata/Disk/Update.antt =====
-- What `LoadMetadata` reads behind `UpdateControlData`.
use mathlib.Core.List.{append_assoc}
use mhftp.Base.{◌≡◌, refl, sym, ap, ◌∙◌, List, [], ◌++◌, arith, length, length-append, drop-append}
use mhftp.Base.Int.{pos}
use mhftp.Base.Bytes.{length-int64_bytes}
use mhftp.Posix.{Bytes, FileName, World, done, ◌>>=◌, ◌>>◌, open_or_exit_lem}
use mhftp.Posix.Write.{write_at-append}
use mhftp.Metadata.{header_size, ChunkInfo, Metadata, IsWellFormed}
use mhftp.Metadata.Disk.{table_bytes, header_sig, encode_table, load_metadata, update_control_data}
use mhftp.Metadata.Disk.Layout.{length-encode_table, table_bytes_lem}
use mhftp.Metadata.Disk.RoundTrip.{
  Holds, image, body, with_file, with_file-Holds, load_metadata-Holds,
}

abbrev pub header : Metadata → Bytes
header m = header_sig ++ body m []

image-header :
    (m : Metadata) (rest : Bytes) → image m rest ≡ header m ++ (encode_table m.chunk_info ++ rest)
image-header m rest = simp (append_assoc) refl

length-header : (m : Metadata) → IsWellFormed m → length (header m) ≡ header_size
length-header m wf = simp (length-append {0}) (
    omega (
      arith,
      wf.file_full_length,
      wf.digest_length,
      length-int64_bytes m.file_size,
      length-int64_bytes m.chunk_size,
      length-int64_bytes m.chunks,
    ))

-- The object with another table of the same length.
abbrev pub with_table : Metadata → List ChunkInfo → Metadata
with_table m table = record m { chunk_info = table }

-- `UpdateControlData` replaces the table in the file and keeps the header there, whatever the rest of
-- the object says.
pub update_control_data_lem :
    (m m' : Metadata) (name : FileName) (w : World)
    → IsWellFormed m
    → IsWellFormed m'
    → length m'.chunk_info ≡ length m.chunk_info
    → (h : Holds w name m)
    → update_control_data m' name w
      ≡ done tt (with_file w name (image (with_table m m'.chunk_info) h.rest))
unfolding update_control_data
update_control_data_lem m m' name w wf wf' same h =
    rw
      (
        open_or_exit_lem w name 1 _ h.stored h.allowed,
        ◌>>=◌,
        ap (λ n. table_bytes n m'.chunk_info) wf'.chunks_counted ∙ table_bytes_lem m'.chunk_info,
        image-header m h.rest,
        write_at-append header_size (header m) (encode_table m'.chunk_info)
            (encode_table m.chunk_info ++ h.rest) (length-header m wf),
        drop-append (encode_table m.chunk_info) h.rest _ tables,
        image-header (with_table m m'.chunk_info) h.rest,
      )
      refl
  where
    tables : length (encode_table m.chunk_info) ≡ length (encode_table m'.chunk_info)
    tables = omega (
      arith,
      length-encode_table m.chunk_info wf.entries,
      length-encode_table m'.chunk_info wf'.entries,
    )

-- The object with the table of another is well-formed, if there are as many entries.
pub with_table-IsWellFormed :
    (m m' : Metadata)
    → IsWellFormed m
    → IsWellFormed m'
    → length m'.chunk_info ≡ length m.chunk_info
    → IsWellFormed (with_table m m'.chunk_info)
with_table-IsWellFormed m m' wf wf' same = record {
  digest_length = wf.digest_length;
  file_full_length = wf.file_full_length;
  file_size_fits = wf.file_size_fits;
  chunk_size_fits = wf.chunk_size_fits;
  chunks_counted = wf.chunks_counted ∙ ap pos (sym same);
  few = wf'.few;
  in_use_fits = wf.in_use_fits;
  entries = wf'.entries;
}

-- What `LoadMetadata` reads after `UpdateControlData` is the header that the file had, with the table of
-- the updating object, whatever that object has for a header. Both objects are well-formed, with as many
-- entries, and the file holds the first.
pub load_metadata-update_control_data :
    (m m' m0 : Metadata) (name : FileName) (w : World)
    → IsWellFormed m
    → IsWellFormed m'
    → length m'.chunk_info ≡ length m.chunk_info
    → (h : Holds w name m)
    → (update_control_data m' name >> load_metadata m0 name) w
      ≡ done
          (record (with_table m m'.chunk_info) { file_metadata = m0.file_metadata })
          (with_file w name (image (with_table m m'.chunk_info) h.rest))
load_metadata-update_control_data m m' m0 name w wf wf' same h =
    rw (update_control_data_lem m m' name w wf wf' same h, ◌>>=◌)
      (load_metadata-Holds (with_table m m'.chunk_info) m0 name _
        (with_table-IsWellFormed m m' wf wf' same) (with_file-Holds w name _ h.rest h.allowed))
