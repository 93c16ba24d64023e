-- ===== src/Tests/Tables.antt =====
-- Examples for the metadata.
use Prim.Native.Nat.{min}
use mhftp.Base.{
  ℕ, inr, ◌≢◌, ◌+◌, ◌-◌, ◌*◌, ◌≤◌, ◌≡◌, refl, some, [], ◌∷◌, arith, length, drop, get_elem?,
}
use mhftp.Base.Int.{ℤ, pos}
use mhftp.Posix.{World, done, ◌>>◌}
use mhftp.Metadata.{Metadata}
use mhftp.Metadata.PayLoad.{chunk_count, pay_load, get_pay_load_array}
use mhftp.Metadata.PayLoad.Tiling.{get_pay_load_array_entry}
use mhftp.Metadata.Table.{get_next_pending_chunk}
use mhftp.Metadata.Disk.{load_metadata, save_metadata, update_control_data}
use mhftp.Metadata.Disk.RoundTrip.{image, with_file, load_metadata-save_metadata}
use mhftp.Metadata.Disk.Update.{with_table, load_metadata-update_control_data}
use mhftp.Metadata.Reset.{reset_downloading_chunks}
use mhftp.Metadata.Reset.Aborted.{reset_downloading_chunks-upload}
use mhftp.Tests.Fixtures.{five, five-IsWellFormed, five-Holds, meta_name, one_file, three_chunks}

five_in_three : chunk_count 5 (pos 2) ≡ some (pos 3)
unfolding chunk_count
five_in_three = refl

sizes_of_five : get_pay_load_array (pos 5) (pos 2) (pos 3) ≡ pos 2 ∷ pos 2 ∷ pos 1 ∷ []
unfolding get_pay_load_array pay_load
sizes_of_five = refl

get_pay_load_array_entry_example :
    (size : ℕ) × (get_elem? (get_pay_load_array (pos 5) (pos 2) (pos 3)) 2 ≡ some (pos size))
    × (1 ≤ size)
    × (size ≤ 2)
    × (2 * 2 + size ≤ 5)
    × (size ≡ min 2 (5 - 2 * 2))
get_pay_load_array_entry_example =
    get_pay_load_array_entry 5 2 3 (omega arith) five_in_three 2 (omega arith)

load_metadata-save_metadata_example :
    (save_metadata five meta_name >> load_metadata five meta_name) (one_file (1 ∷ 2 ∷ []))
    ≡ done
        (record five { file_metadata = b'f' ∷ [] })
        (with_file
          (one_file (1 ∷ 2 ∷ []))
          meta_name
          (image five (drop (length (image five [])) (1 ∷ 2 ∷ []))))
load_metadata-save_metadata_example =
    load_metadata-save_metadata five five meta_name (one_file (1 ∷ 2 ∷ [])) (1 ∷ 2 ∷ [])
      five-IsWellFormed refl refl

load_metadata-update_control_data_example :
    (update_control_data five meta_name >> load_metadata five meta_name) (one_file (image five []))
    ≡ done
        (record (with_table five three_chunks) { file_metadata = b'f' ∷ [] })
        (with_file (one_file (image five [])) meta_name (image (with_table five three_chunks) []))
load_metadata-update_control_data_example =
    load_metadata-update_control_data five five five meta_name (one_file (image five []))
      five-IsWellFormed five-IsWellFormed refl five-Holds

reset_downloading_chunks-upload_example :
    (m1 : Metadata) × (w1 : World) × (reset_downloading_chunks five meta_name 1
        (one_file (image five []))
      ≡ done m1 w1)
    × (load_metadata five meta_name w1 ≡ done m1 w1)
    × (get_elem? m1.chunk_info 1 ≡ get_elem? three_chunks 1)
    × (r : ℤ) × (get_next_pending_chunk m1 ≡ some r)
    × (r ≢ pos 1)
reset_downloading_chunks-upload_example =
    reset_downloading_chunks-upload five five meta_name (one_file (image five [])) 1
      five-IsWellFormed five-Holds (inr (λ e. absurd (omega arith))) 1 _ refl refl
