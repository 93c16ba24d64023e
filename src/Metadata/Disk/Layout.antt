-- ===== src/Metadata/Disk/Layout.antt =====
-- The bytes of the metadata file: where each field lies, and that it is read back.
use mathlib.Core.List.{append_assoc}
use mhftp.Base.{
  ℕ, ◌*◌, ◌^◌, ◌<◌, ◌≡◌, refl, sym, ap, ◌∙◌, some, List, [], ◌∷◌, ◌++◌, arith, false, ltb, length,
  take, drop, replicate, All, length-append, length-replicate, take-append, take_all, drop-append,
}
use mhftp.Base.Int.{pos}
use mhftp.Base.Bytes.{
  le_bytes, int64_bytes, length-le_bytes, of_le_bytes-le_bytes, length-int64_bytes,
  int64_of_bytes-int64_bytes,
}
use mhftp.Posix.{Bytes}
use mhftp.Metadata.{
  ChunkStatus, ch_ok, ch_pending, ch_error, ch_download, ch_upload, ChunkInfo, IsChunk,
}
use mhftp.Metadata.Disk.{
  status_code, status_of_code, encode_chunk, decode_chunk, encode_table, decode_table,
  chunk_array_size, table_bytes,
}

status_of_code-status_code : (s : ChunkStatus) → status_of_code (status_code s) ≡ some s
unfolding status_of_code
status_of_code-status_code ch_ok = refl
status_of_code-status_code ch_pending = refl
status_of_code-status_code ch_error = refl
status_of_code-status_code ch_download = refl
status_of_code-status_code ch_upload = refl

status_code-lt : (s : ChunkStatus) → status_code s < 256 ^ 4
status_code-lt ch_ok = omega arith
status_code-lt _ = omega arith

pub length-encode_chunk : (c : ChunkInfo) → IsChunk c → length (encode_chunk c) ≡ 32
unfolding encode_chunk
length-encode_chunk c h = omega (
  arith,
  length-append {0} c.md5sum
      (int64_bytes c.size ++ (le_bytes 4 (status_code c.status) ++ replicate 4 0)),
  length-append {0} (int64_bytes c.size) (le_bytes 4 (status_code c.status) ++ replicate 4 0),
  length-append {0} (le_bytes 4 (status_code c.status)) (replicate 4 0),
  length-int64_bytes c.size,
  length-le_bytes 4 (status_code c.status),
  length-replicate {0} {A = ℕ} 4 0,
)

module _ (md5 size status padding : Bytes) (h : length md5 ≡ 16) (k : length size ≡ 8) where
  size_field : take 8 (drop 16 (md5 ++ (size ++ (status ++ padding)))) ≡ size
  size_field = rw (drop-append md5 _ 16 h) (take-append size _ 8 k)

  status_field :
      length status ≡ 4 → take 4 (drop 24 (md5 ++ (size ++ (status ++ padding)))) ≡ status
  status_field l =
      ap (λ t. take 4 (drop 24 t)) (sym (append_assoc md5 size (status ++ padding)))
      ∙ ap (take 4) (drop-append (md5 ++ size) _ 24 (omega (arith, length-append {0} md5 size)))
      ∙ take-append status padding 4 l

-- An entry of the table is read back from its 32 bytes.
pub decode_chunk-encode_chunk : (c : ChunkInfo) → IsChunk c → decode_chunk (encode_chunk c) ≡ some c
unfolding decode_chunk encode_chunk
decode_chunk-encode_chunk c (h, k) =
    let size = length-int64_bytes c.size in
    let status = length-le_bytes 4 (status_code c.status) in
    rw
      (
        take-append c.md5sum _ 16 h,
        size_field c.md5sum _ (le_bytes 4 (status_code c.status)) (replicate 4 0) h size,
        status_field c.md5sum (int64_bytes c.size) _ (replicate 4 0) h size status,
        of_le_bytes-le_bytes 4 (status_code c.status) (status_code-lt c.status),
        status_of_code-status_code c.status,
        int64_of_bytes-int64_bytes c.size k,
      )
      refl

pub length-encode_table :
    (table : List ChunkInfo) → All IsChunk table → length (encode_table table) ≡ 32 * length table
unfolding encode_table
length-encode_table [] h = omega arith
length-encode_table (c ∷ table) (h, k) = omega (
  arith,
  length-append {0} (encode_chunk c) (encode_table table),
  length-encode_chunk c h,
  length-encode_table table k,
)

-- The table is read back from its bytes.
pub decode_table-encode_table :
    (table : List ChunkInfo)
    → All IsChunk table
    → decode_table (length table) (encode_table table) ≡ some table
unfolding decode_table encode_table
decode_table-encode_table [] h = refl
decode_table-encode_table (c ∷ table) (h, k) =
    rw
      (
        take-append (encode_chunk c) (encode_table table) 32 (length-encode_chunk c h),
        drop-append (encode_chunk c) (encode_table table) 32 (length-encode_chunk c h),
        decode_chunk-encode_chunk c h,
        decode_table-encode_table table k,
      )
      refl

pub table_bytes_lem :
    (table : List ChunkInfo) → table_bytes (pos (length table)) table ≡ some (encode_table table)
unfolding table_bytes
table_bytes_lem table =
    let e : ltb (length table) (length table) ≡ false = ground arith in
    rw (e, take_all table (length table) (omega arith)) refl

pub chunk_array_size_lem : (n : ℕ) → 32 * n < 2 ^ 31 → chunk_array_size (pos n) ≡ some (32 * n)
unfolding chunk_array_size
chunk_array_size_lem n h = ground arith
