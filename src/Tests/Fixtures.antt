-- ===== src/Tests/Fixtures.antt =====
-- A file of five bytes in chunks of two, its metadata, and a stand-in for the hash.
use mathlib.Core.List.{append-nil, append_assoc}
use mhftp.Base.{
  ℕ, suc, ◌≡◌, false, refl, sym, ap, some, List, [], ◌∷◌, ◌++◌, arith, length, take, replicate,
  length-append, length-take, length-replicate,
}
use mhftp.Base.Int.{pos}
use mhftp.Posix.{Bytes, FileName, World}
use mhftp.Crypt.{Md5}
use mhftp.Metadata.{ChunkInfo, ch_ok, ch_error, ch_upload, Metadata, IsWellFormed}
use mhftp.Metadata.Disk.RoundTrip.{Holds, image}

abbrev pub five_bytes : Bytes
five_bytes = 10 ∷ 20 ∷ 30 ∷ 40 ∷ 50 ∷ []

abbrev pub digest16 : Bytes
digest16 = 1 ∷ 2 ∷ 3 ∷ 4 ∷ 5 ∷ 6 ∷ 7 ∷ 8 ∷ 9 ∷ 10 ∷ 11 ∷ 12 ∷ 13 ∷ 14 ∷ 15 ∷ 16 ∷ []

abbrev pub three_chunks : List ChunkInfo
three_chunks =
    record { md5sum = digest16; size = pos 2; status = ch_ok }
    ∷ record { md5sum = digest16; size = pos 2; status = ch_upload }
    ∷ record { md5sum = digest16; size = pos 1; status = ch_error }
    ∷ []

abbrev pub five : Metadata
five = record {
  digest = digest16;
  file_size = pos 5;
  file_full = b'f' ∷ replicate 2047 0;
  file_metadata = b'f' ∷ [];
  chunk_size = pos 2;
  chunks = pos 3;
  chunk_info = three_chunks;
  in_use = 0;
}

pub five-IsWellFormed : IsWellFormed five
five-IsWellFormed = record {
  digest_length = refl;
  file_full_length = ap suc (length-replicate 2047 0);
  file_size_fits = omega arith;
  chunk_size_fits = omega arith;
  chunks_counted = refl;
  few = omega arith;
  in_use_fits = omega arith;
  entries = ((refl, omega arith), ((refl, omega arith), ((refl, omega arith), tt)));
}

abbrev pub meta_name : FileName
meta_name = b'f' ∷ b'.' ∷ b'm' ∷ []

-- A world in which every file holds the same bytes.
abbrev pub one_file : Bytes → World
one_file bs = record { files = λ _. some bs; deny = λ _. false }

abbrev pub five-Holds : Holds (one_file (image five [])) meta_name five
five-Holds = record { rest = []; stored = refl; allowed = refl }

-- The same file, marked as in use.
abbrev pub busy : Metadata
busy = record five { in_use = 1 }

pub busy-IsWellFormed : IsWellFormed busy
busy-IsWellFormed = record {
  digest_length = refl;
  file_full_length = five-IsWellFormed.file_full_length;
  file_size_fits = omega arith;
  chunk_size_fits = omega arith;
  chunks_counted = refl;
  few = omega arith;
  in_use_fits = omega arith;
  entries = five-IsWellFormed.entries;
}

abbrev pub busy-Holds : Holds (one_file (image busy [])) meta_name busy
busy-Holds = record { rest = []; stored = refl; allowed = refl }

-- The first 16 bytes of a message, for a hash.
unfoldable pub first_16 : Bytes → Bytes
first_16 bs = take 16 (bs ++ replicate 16 0)

pub length-first_16 : (bs : Bytes) → length (first_16 bs) ≡ 16
unfolding first_16
length-first_16 bs = omega (
  arith,
  length-take {0} 16 (bs ++ replicate 16 0),
  length-append {0} bs (replicate 16 0),
  length-replicate {0} {A = ℕ} 16 0,
)

abbrev pub toy_md5 : Md5
toy_md5 = record {
  Context = Bytes;
  init = [];
  update = λ c bs. c ++ bs;
  final = first_16;
  update_nil = append-nil;
  update-append = λ c xs ys. sym (append_assoc c xs ys);
  length-final = length-first_16;
}
