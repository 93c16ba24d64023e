-- ===== src/Metadata/Disk.antt =====
-- protocol/metadata.cpp: the metadata file (`LoadMetadata`, `SaveMetadata`, `UpdateControlData`). The
-- file is the signature, the header and an array of `struct ChunkInfo`, as they lie in memory.
pub mod Layout
pub mod RoundTrip
pub mod Update
use mathlib.Core.Option
use mhftp.Base.{
  ℕ, zero, suc, ◌+◌, ◌-◌, ◌*◌, ◌/◌, ◌%◌, ◌^◌, Option, none, some, List, [], ◌∷◌, ◌++◌, ltb,
  if◌then◌else◌, length, take, drop, replicate,
}
use mhftp.Base.Int.{ℤ, pos, negsuc}
use mhftp.Base.Bytes.{le_bytes, of_le_bytes, word64, int64_bytes, int64_of_bytes}
use mhftp.Posix.{
  Bytes, FileName, M, ◌>>=◌, ◌>>◌, lift, exit_unless, pure, bytes_eq, open_or_exit, put_file,
  read_into, write_seq, write_at,
}
use mhftp.Metadata.{
  fname_size, header_size, digest_size, ChunkStatus, ch_ok, ch_pending, ch_error, ch_download,
  ch_upload, ChunkInfo, Metadata,
}

-- HEADER_SIG, "MHFTP_METADATA"
abbrev pub header_sig : Bytes
header_sig =
    b'M' ∷ b'H' ∷ b'F' ∷ b'T' ∷ b'P' ∷ b'_' ∷ b'M' ∷ b'E' ∷ b'T' ∷ b'A' ∷ b'D' ∷ b'A' ∷ b'T' ∷ b'A'
    ∷ []

abbrev pub sig_hdr_size : ℕ
sig_hdr_size = 14

-- sizeof(struct ChunkInfo): 16 bytes, an int64_t, an int and four bytes of padding
abbrev pub chunk_info_size : ℕ
chunk_info_size = 32

-- The number that the enumeration gives a status.
abbrev pub status_code : ChunkStatus → ℕ
status_code ch_ok = 0
status_code ch_pending = 1
status_code ch_error = 2
status_code ch_download = 3
status_code ch_upload = 4

-- A number outside the enumeration is left undefined.
unfoldable pub status_of_code : ℕ → Option ChunkStatus
status_of_code zero = some ch_ok
status_of_code (suc zero) = some ch_pending
status_of_code (suc (suc zero)) = some ch_error
status_of_code (suc (suc (suc zero))) = some ch_download
status_of_code (suc (suc (suc (suc zero)))) = some ch_upload
status_of_code (suc (suc (suc (suc (suc n))))) = none

-- The padding is zero, as `memset` left it.
unfoldable pub encode_chunk : ChunkInfo → Bytes
encode_chunk c =
    c.md5sum ++ (int64_bytes c.size ++ (le_bytes 4 (status_code c.status) ++ replicate 4 0))

unfoldable pub decode_chunk : Bytes → Option ChunkInfo
decode_chunk bs =
    Option.map
      (λ s. record {
        md5sum = take digest_size bs;
        size = int64_of_bytes (take 8 (drop digest_size bs));
        status = s;
      })
      (status_of_code (of_le_bytes (take 4 (drop 24 bs))))

unfoldable pub encode_table : List ChunkInfo → Bytes
encode_table [] = []
encode_table (c ∷ table) = encode_chunk c ++ encode_table table

-- `n` entries from the bytes of the array.
unfoldable pub decode_table : ℕ → Bytes → Option (List ChunkInfo)
unfolding Option.bind
decode_table zero bs = some []
decode_table (suc n) bs =
    let rest = decode_table n (drop chunk_info_size bs) in
    Option.bind (decode_chunk (take chunk_info_size bs)) (λ c. Option.map (λ t. c ∷ t) rest)

-- `int chunkArraySize = sizeof(struct ChunkInfo)*getChunks()`: the product in size_t, cut to an int. A
-- negative size makes `malloc` fail, and `memset` writes through the null pointer.
unfoldable pub chunk_array_size : ℤ → Option ℕ
unfolding word64
chunk_array_size chunks =
    let size = chunk_info_size * word64 chunks % 2 ^ 32 in
    if ltb size (2 ^ 31) then some size else none

-- The bytes that `SaveMetadata` and `UpdateControlData` write from the array. More entries than the
-- array has are undefined; a negative size makes `write` fail.
unfoldable pub table_bytes : ℤ → List ChunkInfo → Option Bytes
unfolding encode_table
table_bytes (pos n) table =
    if ltb (length table) n then none else some (encode_table (take n table))
table_bytes (negsuc _) table = some []

-- What the reads of `LoadMetadata` behind the signature leave in the object.
unfoldable pub read_fields : Metadata → Bytes → Option Metadata
unfolding Option.bind
read_fields m r0 =
    let r1 = drop fname_size r0 in
    let r2 = drop 8 r1 in
    let r3 = drop 8 r2 in
    let r4 = drop 8 r3 in
    let r5 = drop digest_size r4 in
    let chunks = int64_of_bytes (read_into (int64_bytes m.chunks) 8 r3) in
    Option.bind (chunk_array_size chunks) λ size.
      Option.map
        (λ table. record {
          digest = read_into m.digest digest_size r4;
          file_size = int64_of_bytes (read_into (int64_bytes m.file_size) 8 r1);
          file_full = read_into m.file_full fname_size r0;
          file_metadata = m.file_metadata;
          chunk_size = int64_of_bytes (read_into (int64_bytes m.chunk_size) 8 r2);
          chunks = chunks;
          chunk_info = table;
          in_use = of_le_bytes (read_into (m.in_use ∷ []) 1 r5);
        })
        (decode_table (size / chunk_info_size) (read_into (replicate size 0) size (drop 1 r5)))

-- The object before the first read.
abbrev pub unread : Metadata → Metadata
unread m = record m { chunk_size = negsuc 0; chunks = negsuc 0; file_full = replicate fname_size 0 }

-- The private name is that of the file; the other fields are those that it holds.
unfoldable pub load_metadata : Metadata → FileName → M Metadata
load_metadata m file_metadata = do
  content ← open_or_exit file_metadata 1
  exit_unless (bytes_eq (take sig_hdr_size content) header_sig) 1
  lift (read_fields (unread m) (drop sig_hdr_size content))

-- The writes that make the header.
unfoldable pub header_parts : Metadata → List Bytes
header_parts m =
    header_sig
    ∷ m.file_full
    ∷ int64_bytes m.file_size
    ∷ int64_bytes m.chunk_size
    ∷ int64_bytes m.chunks
    ∷ m.digest
    ∷ (m.in_use ∷ [])
    ∷ []

unfoldable pub save_metadata : Metadata → FileName → M (Unit {0})
unfolding put_file header_parts
save_metadata m file_metadata = do
  content ← open_or_exit file_metadata 1
  table ← lift (table_bytes m.chunks m.chunk_info)
  put_file file_metadata (write_seq 0 (header_parts m ++ (table ∷ [])) content)

unfoldable pub update_control_data : Metadata → FileName → M (Unit {0})
unfolding put_file
update_control_data m meta_file = do
  content ← open_or_exit meta_file 1
  table ← lift (table_bytes m.chunks m.chunk_info)
  put_file meta_file (write_at header_size table content)
