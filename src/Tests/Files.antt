-- ===== src/Tests/Files.antt =====
-- Examples for the files that the program makes and checks, and for the processes of a download.
use mhftp.Base.{
  ℕ, suc, ◌≡◌, refl, ap, ◌∙◌, false, none, some, [], ◌∷◌, arith, length, replicate,
  length-replicate, if◌then◌else◌,
}
use mhftp.Base.Int.{pos}
use mhftp.Protocol.Turns.{update}
use mhftp.Posix.{FileName, World, done, ◌>>=◌, bytes_eq, c_string}
use mhftp.Tools.{str_cat}
use mhftp.Tools.Path.{str_cat_lem}
use mhftp.Metadata.{Metadata}
use mhftp.Metadata.PayLoad.{chunk_count}
use mhftp.Metadata.Disk.{load_metadata}
use mhftp.Metadata.Disk.RoundTrip.{Holds, image}
use mhftp.Metadata.Create.{stored_name, store_metadata}
use mhftp.Metadata.Create.Stored.{fresh, asked, load_metadata-store_metadata}
use mhftp.Protocol.Download.{System, waiting, selecting, get_lock, pick, Reach, start, later}
use mhftp.Protocol.Download.Exclusion.{HoldsLock, mutual_exclusion}
use mhftp.Tests.Fixtures.{busy, five, meta_name, one_file, toy_md5, five_bytes}

abbrev data_name : FileName
data_name = b'f' ∷ []

-- A world with a metadata file and the file of the data.
unfoldable two_files : Metadata → World
two_files m = record {
  files = λ name. if bytes_eq name meta_name then some (image m []) else some five_bytes;
  deny = λ _. false;
}

abbrev two_files-Holds : (m : Metadata) → Holds (two_files m) meta_name m
unfolding two_files bytes_eq
two_files-Holds m = record { rest = []; stored = refl; allowed = refl }

five_by_two : chunk_count 5 (pos 2) ≡ some (pos 3)
unfolding chunk_count
five_by_two = refl

full_name : length (str_cat (replicate 2048 0) data_name) ≡ 2048
unfolding replicate
full_name =
    (str_cat_lem [] data_name (replicate 2047 0) tt (omega arith, tt)
      (omega (arith, length-replicate {0} {A = ℕ} 2047 0))).1
    ∙ ap suc (length-replicate {0} {A = ℕ} 2047 0)

load_metadata-store_metadata_example :
    (w' : World) × ((store_metadata (asked five 2 3) data_name none >>= λ _.
    load_metadata busy (c_string (stored_name data_name none)))
        (one_file five_bytes)
      ≡ done
          (record (fresh five 5 2 3) {
            file_full = str_cat (replicate 2048 0) data_name;
            file_metadata = b'f' ∷ [];
          })
          w')
load_metadata-store_metadata_example =
    load_metadata-store_metadata five busy data_name none (one_file five_bytes) five_bytes 2 3 refl
      (omega arith) full_name (omega arith) (omega arith) (omega arith) five_by_two (omega arith)
      refl refl

-- Two processes that wait, and the first of them with the semaphore.
abbrev both_wait : System
both_wait = record { world = one_file five_bytes; lock = none; pc = λ _. waiting five }

abbrev first_has_it : System
first_has_it = record both_wait { lock = some 0; pc = update both_wait.pc 0 (selecting five) }

both_wait-HoldsLock : HoldsLock both_wait
both_wait-HoldsLock j e = absurd cc

first_takes_it : Reach toy_md5 meta_name data_name five_bytes 2 2 both_wait first_has_it
first_takes_it = later start (pick 0 (omega arith) (get_lock five (some 0) refl))

mutual_exclusion_example : ◌≡◌ {A = ℕ} 0 0
mutual_exclusion_example = mutual_exclusion both_wait-HoldsLock first_takes_it 0 0 refl refl
