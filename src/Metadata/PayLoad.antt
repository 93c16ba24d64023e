-- ===== src/Metadata/PayLoad.antt =====
-- protocol/metadata.cpp: how a file is cut into chunks (`create`, `getPayLoadArray`,
-- `initControlData`). The source computes in int64_t, and `Tiling` bounds what it computes.
pub mod Tiling
use mathlib.Core.Option
use mhftp.Base.{
  ℕ, zero, suc, ◌+◌, ◌-◌, ◌/◌, ◌%◌, Option, none, some, List, [], ◌∷◌, ◌==◌, if◌then◌else◌,
  replicate,
}
use mhftp.Base.Int.{ℤ, pos, negsuc, pos_part, ◌-ℤ◌, ◌*ℤ◌, leb_ℤ}
use mhftp.Metadata.{digest_size, ChunkInfo, ch_pending, Metadata}

-- `fileSize_ / chunkSize`, one more if there is a remainder. The division truncates towards zero, and
-- one by zero is undefined. `st_size` of a file is not negative.
unfoldable pub chunk_count : ℕ → ℤ → Option ℤ
chunk_count file_size (pos zero) = none
chunk_count file_size (pos (suc c)) =
    some (pos (file_size / suc c + (if file_size % suc c == 0 then 0 else 1)))
chunk_count file_size (negsuc c) =
    let quotient = pos 0 -ℤ pos (file_size / suc c) in
    some (if file_size % suc c == 0 then quotient else (quotient -ℤ negsuc 0))

-- The bytes of chunk `i` by the loop of `getPayLoadArray` and of `initControlData`.
unfoldable pub pay_load : ℤ → ℤ → ℕ → ℤ
unfolding ◌-ℤ◌ ◌*ℤ◌
pay_load file_size chunk_size i =
    let remain = file_size -ℤ chunk_size *ℤ pos i in
    if leb_ℤ chunk_size remain then chunk_size else remain

pay_load_loop : ℤ → ℤ → ℕ → ℕ → List ℤ
pay_load_loop file_size chunk_size zero i = []
pay_load_loop file_size chunk_size (suc n) i =
    pay_load file_size chunk_size i ∷ pay_load_loop file_size chunk_size n (suc i)

-- The loop makes no round where the count is negative.
unfoldable pub get_pay_load_array : ℤ → ℤ → ℤ → List ℤ
unfolding pay_load_loop
get_pay_load_array file_size chunk_size n_chunks =
    pay_load_loop file_size chunk_size (pos_part n_chunks) 0

-- A new entry: zeros by `memset`, then its status and its size.
abbrev pub new_chunk : ℤ → ChunkInfo
new_chunk size = record { md5sum = replicate digest_size 0; size = size; status = ch_pending }

unfoldable pub init_loop : ℤ → ℤ → ℕ → ℕ → List ChunkInfo
unfolding pay_load
init_loop file_size chunk_size zero i = []
init_loop file_size chunk_size (suc n) i =
    new_chunk (pay_load file_size chunk_size i) ∷ init_loop file_size chunk_size n (suc i)

-- A negative count makes `malloc` fail, and `memset` writes through the null pointer.
unfoldable pub new_table : ℤ → ℤ → ℤ → Option (List ChunkInfo)
unfolding init_loop
new_table file_size chunk_size (pos n) = some (init_loop file_size chunk_size n 0)
new_table file_size chunk_size (negsuc _) = none

unfoldable pub init_control_data : Metadata → Option Metadata
unfolding new_table
init_control_data m =
    Option.map (λ table. record m { chunk_info = table })
      (new_table m.file_size m.chunk_size m.chunks)
