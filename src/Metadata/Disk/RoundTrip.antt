-- ===== src/Metadata/Disk/RoundTrip.antt =====
-- What `LoadMetadata` reads is what `SaveMetadata` wrote.
use mathlib.Core.List.{append_assoc}
use mhftp.Base.{
  ℕ, ◌*◌, ◌/◌, ◌≡◌, refl, sym, ap, subst, ◌∙◌, false, some, [], ◌∷◌, ◌++◌, arith, length, drop,
  replicate, take-append, drop-append,
}
use mhftp.Base.Int.{IsInt64}
use mhftp.Base.Bytes.{int64_bytes, of_le_bytes, length-int64_bytes, int64_of_bytes-int64_bytes}
use mhftp.Posix.{
  Bytes, FileName, World, done, bytes_eq, bytes_eq_refl, ◌>>=◌, ◌>>◌, open_or_exit_lem, read_into,
  write_seq, update_file,
}
use mhftp.Posix.Write.{read_into-append, write_seq-append}
use mhftp.Metadata.{Metadata, IsWellFormed}
use mhftp.Metadata.Disk.{
  header_parts, table_bytes, header_sig, encode_table, decode_table, chunk_array_size, read_fields,
  unread, load_metadata, save_metadata,
}
use mhftp.Metadata.Disk.Layout.{
  length-encode_table, decode_table-encode_table, table_bytes_lem, chunk_array_size_lem,
}

-- What the reads behind the signature see.
abbrev pub body : Metadata → Bytes → Bytes
body m rest =
    m.file_full
    ++ (int64_bytes m.file_size
        ++ (int64_bytes m.chunk_size ++ (int64_bytes m.chunks ++ (m.digest ++ (m.in_use ∷ rest)))))

of_le_bytes_one : (b : ℕ) → of_le_bytes (b ∷ []) ≡ b
unfolding of_le_bytes
of_le_bytes_one b = omega arith

chunks-IsInt64 : (m : Metadata) → IsWellFormed m → IsInt64 m.chunks
chunks-IsInt64 m wf = subst IsInt64 (sym wf.chunks_counted) (omega (arith, wf.few))

array_size :
    (m : Metadata) → IsWellFormed m → chunk_array_size m.chunks ≡ some (32 * length m.chunk_info)
array_size m wf = ap chunk_array_size wf.chunks_counted ∙ chunk_array_size_lem _ wf.few

-- The array of the file, from its bytes.
table_lem :
    (m : Metadata) (rest : Bytes)
    → IsWellFormed m
    → decode_table (32 * length m.chunk_info / 32) (
        read_into
          (replicate (32 * length m.chunk_info) 0)
          (32 * length m.chunk_info)
          (encode_table m.chunk_info ++ rest))
      ≡ some m.chunk_info
table_lem m rest wf =
    let size : 32 * length m.chunk_info / 32 ≡ length m.chunk_info = omega arith in
    rw
      (
        read_into-append (replicate (32 * length m.chunk_info) 0) (encode_table m.chunk_info) rest
            (32 * length m.chunk_info) (length-encode_table m.chunk_info wf.entries),
        size,
      )
      (decode_table-encode_table m.chunk_info wf.entries)

pub read_fields-body :
    (m m0 : Metadata) (rest : Bytes)
    → IsWellFormed m
    → read_fields m0 (body m (encode_table m.chunk_info ++ rest))
      ≡ some (record m { file_metadata = m0.file_metadata })
unfolding read_fields drop
read_fields-body m m0 rest wf =
    rw
      (
        drop-append m.file_full _ 2048 wf.file_full_length,
        drop-append (int64_bytes m.file_size) _ 8 (length-int64_bytes _),
        drop-append (int64_bytes m.chunk_size) _ 8 (length-int64_bytes _),
        drop-append (int64_bytes m.chunks) _ 8 (length-int64_bytes _),
        drop-append m.digest _ 16 wf.digest_length,
        read_into-append m0.file_full m.file_full _ 2048 wf.file_full_length,
        read_into-append (int64_bytes m0.file_size) (int64_bytes m.file_size) _ 8
            (length-int64_bytes _),
        read_into-append (int64_bytes m0.chunk_size) (int64_bytes m.chunk_size) _ 8
            (length-int64_bytes _),
        read_into-append (int64_bytes m0.chunks) (int64_bytes m.chunks) _ 8 (length-int64_bytes _),
        read_into-append m0.digest m.digest _ 16 wf.digest_length,
        read_into-append (m0.in_use ∷ []) (m.in_use ∷ []) _ 1 refl,
        of_le_bytes_one m.in_use,
        int64_of_bytes-int64_bytes m.file_size wf.file_size_fits,
        int64_of_bytes-int64_bytes m.chunk_size wf.chunk_size_fits,
        int64_of_bytes-int64_bytes m.chunks (chunks-IsInt64 m wf),
        array_size m wf,
      )
      (rw (table_lem m rest wf) refl)

-- The file of a metadata object: `rest` is what lies behind it, in a file that was longer before.
abbrev pub image : Metadata → Bytes → Bytes
image m rest = header_sig ++ body m (encode_table m.chunk_info ++ rest)

-- The file of that name holds the object, and may be opened.
pub record Holds (w : World) (name : FileName) (m : Metadata) : Type 0 where
  pub rest : Bytes
  pub stored : w.files name ≡ some (image m rest)
  pub allowed : w.deny name ≡ false

abbrev pub with_file : World → FileName → Bytes → World
with_file w name bs = record w { files = update_file w.files name bs }

pub with_file-files :
    (w : World) (name : FileName) (bs : Bytes) → (with_file w name bs).files name ≡ some bs
unfolding update_file
with_file-files w name bs = rw (bytes_eq_refl name) refl

pub with_file-other :
    (w : World) (name other : FileName) (bs : Bytes)
    → bytes_eq name other ≡ false
    → (with_file w name bs).files other ≡ w.files other
unfolding update_file
with_file-other w name other bs h = rw h refl

-- `LoadMetadata` reads the object that a file holds; the name in the object is left as it was.
pub load_metadata-Holds :
    (m m0 : Metadata) (name : FileName) (w : World)
    → IsWellFormed m
    → Holds w name m
    → load_metadata m0 name w ≡ done (record m { file_metadata = m0.file_metadata }) w
unfolding load_metadata
load_metadata-Holds m m0 name w wf h =
    rw
      (
        open_or_exit_lem w name 1 _ h.stored h.allowed,
        ◌>>=◌,
        take-append header_sig (body m (encode_table m.chunk_info ++ h.rest)) 14 refl,
        bytes_eq_refl header_sig,
        drop-append header_sig (body m (encode_table m.chunk_info ++ h.rest)) 14 refl,
        read_fields-body m (unread m0) h.rest wf,
      )
      refl

-- The writes of `SaveMetadata`, one behind the other.
pub saved :
    (m : Metadata) (old : Bytes)
    → write_seq 0 (header_parts m ++ (encode_table m.chunk_info ∷ [])) old
      ≡ image m (drop (length (image m [])) old)
unfolding header_parts
saved m old =
    write_seq-append 0 [] (header_parts m ++ (encode_table m.chunk_info ∷ [])) old refl
    ∙ simp (append_assoc) refl

-- `SaveMetadata` puts the object into its file, over the front of what was there.
pub save_metadata_lem :
    (m : Metadata) (name : FileName) (w : World) (old : Bytes)
    → IsWellFormed m
    → w.files name ≡ some old
    → w.deny name ≡ false
    → save_metadata m name w ≡ done tt (with_file w name (image m (drop (length (image m [])) old)))
unfolding save_metadata
save_metadata_lem m name w old wf e d =
    rw
      (
        open_or_exit_lem w name 1 old e d,
        ◌>>=◌,
        ap (λ n. table_bytes n m.chunk_info) wf.chunks_counted ∙ table_bytes_lem m.chunk_info,
        saved m old,
      )
      refl

pub with_file-Holds :
    (w : World) (name : FileName) (m : Metadata) (rest : Bytes)
    → w.deny name ≡ false
    → Holds (with_file w name (image m rest)) name m
with_file-Holds w name m rest d = record {
  rest = rest;
  stored = with_file-files w name (image m rest);
  allowed = d;
}

-- The name that the object carries is not part of the file.
pub renamed-IsWellFormed :
    (m : Metadata) (name : FileName)
    → IsWellFormed m
    → IsWellFormed (record m { file_metadata = name })
renamed-IsWellFormed m name wf = record {
  digest_length = wf.digest_length;
  file_full_length = wf.file_full_length;
  file_size_fits = wf.file_size_fits;
  chunk_size_fits = wf.chunk_size_fits;
  chunks_counted = wf.chunks_counted;
  few = wf.few;
  in_use_fits = wf.in_use_fits;
  entries = wf.entries;
}

-- What `LoadMetadata` reads after `SaveMetadata` of a well-formed object, in a file that exists and may
-- be opened, is the saved object, whatever the file held before; the name in the object is the reader's.
pub load_metadata-save_metadata :
    (m m0 : Metadata) (name : FileName) (w : World) (old : Bytes)
    → IsWellFormed m
    → w.files name ≡ some old
    → w.deny name ≡ false
    → (save_metadata m name >> load_metadata m0 name) w
      ≡ done
          (record m { file_metadata = m0.file_metadata })
          (with_file w name (image m (drop (length (image m [])) old)))
load_metadata-save_metadata m m0 name w old wf e d =
    rw (save_metadata_lem m name w old wf e d, ◌>>=◌)
      (load_metadata-Holds m m0 name _ wf (with_file-Holds w name m _ d))
