-- ===== src/Tests/Commands.antt =====
-- Examples for the command lines of mhstatus and initFile, and for what they show.
use mhftp.Base.{
  length, ◌≡◌, ◌≢◌, inl, inr, refl, false, true, none, some, [], ◌∷◌, ◌++◌, arith, replicate,
}
use mhftp.Base.Int.{pos}
use mhftp.Posix.{Bytes, World, done, exit, ◌>>=◌, c_string}
use mhftp.Posix.Decimal.{atoi}
use mhftp.Tools.{str_cat}
use mhftp.Tools.Colors.{strip_colors}
use mhftp.Metadata.PayLoad.{chunk_count}
use mhftp.Metadata.Disk.{load_metadata}
use mhftp.Metadata.Disk.RoundTrip.{image}
use mhftp.Metadata.Reset.Effects.{after_reset}
use mhftp.Metadata.Create.{stored_name}
use mhftp.Metadata.Create.Stored.{fresh}
use mhftp.Metadata.Display.{display_control_data}
use mhftp.Metadata.Display.Letters.{
  statuses_of_letters, statuses, heading, use_of_word, known_use, display_control_data_lem,
}
use mhftp.MhStatus.{short_recover, long_force, status_main}
use mhftp.MhStatus.Recovered.{after_recovery, status_main-recover}
use mhftp.InitFile.{create_word, init_file_main}
use mhftp.Metadata.Create.Described.{described}
use mhftp.InitFile.Created.{init_file_main-create}
use mhftp.Tests.Fixtures.{
  five, five-IsWellFormed, five-Holds, busy, busy-IsWellFormed, busy-Holds, meta_name, one_file,
  toy_md5, five_bytes,
}

display_control_data_lem_example :
    (word text : Bytes) × (display_control_data false busy meta_name (one_file (image five []))
      ≡ done
          (
            record five { file_metadata = busy.file_metadata },
            (heading (length five.chunk_info) ++ word) ++ text,
          )
          (one_file (image five [])))
    × (use_of_word word ≡ known_use five.in_use)
    × (statuses_of_letters (strip_colors false text) ≡ statuses five.chunk_info)
display_control_data_lem_example =
    display_control_data_lem false five busy meta_name (one_file (image five [])) five-IsWellFormed
      five-Holds

abbrev busy_world : World
busy_world = one_file (image busy [])

abbrev mhstatus : Bytes
mhstatus = b's' ∷ []

status_main-recover_example :
    (busy.in_use ≢ 0
      → status_main true toy_md5 five (mhstatus ∷ short_recover ∷ meta_name ∷ []) busy_world
        ≡ exit 1 busy_world)
    × (w' : World) × (busy.in_use ≡ 0
        → status_main true toy_md5 five (mhstatus ∷ short_recover ∷ meta_name ∷ []) busy_world
          ≡ done [] w')
    × (status_main true toy_md5 five
          (mhstatus ∷ short_recover ∷ long_force ∷ meta_name ∷ [])
          busy_world
        ≡ done [] w')
    × (load_metadata five meta_name w' ≡ done (after_reset after_recovery busy) w')
status_main-recover_example =
    status_main-recover true toy_md5 busy five mhstatus short_recover long_force meta_name
      busy_world busy-IsWellFormed busy-Holds (inr refl) (inl refl)

five_in_threes : chunk_count 5 (pos 3) ≡ some (pos 2)
unfolding chunk_count
five_in_threes = refl

three : atoi (b'3' ∷ []) ≡ pos 3
unfolding atoi
three = refl

init_file_main-create_example :
    (w' : World) × ((init_file_main toy_md5 five
            (mhstatus ∷ create_word ∷ (b'f' ∷ []) ∷ (b'3' ∷ []) ∷ [])
          >>= λ _. load_metadata busy (c_string (stored_name (b'f' ∷ []) none)))
        (one_file five_bytes)
      ≡ done
          (record (fresh (described toy_md5 five (b'f' ∷ []) five_bytes) 5 3 2) {
            file_full = str_cat (replicate 2048 0) (b'f' ∷ []);
            file_metadata = busy.file_metadata;
          })
          w')
init_file_main-create_example =
    init_file_main-create toy_md5 five busy mhstatus (b'f' ∷ []) five_bytes (one_file five_bytes) 3
      2 refl refl (omega arith) five_in_threes
      (mhstatus ∷ create_word ∷ (b'f' ∷ []) ∷ (b'3' ∷ []) ∷ []) (inr (b'3' ∷ [], refl, three))
      (omega arith) (omega arith, tt) (omega arith) (omega arith) (omega arith) refl
