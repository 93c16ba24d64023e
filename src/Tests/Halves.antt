-- ===== src/Tests/Halves.antt =====
-- A download of five bytes whose first chunk has been brought, and one that is whole.
use mhftp.Base.{
  ℕ, zero, suc, ◌≡◌, ◌≢◌, refl, ap, sym, ◌∙◌, false, some, [], ◌∷◌, arith, get_elem?, if◌then◌else◌,
}
use mhftp.Base.Int.{pos}
use mhftp.Metadata.PayLoad.{chunk_count}
use mhftp.Posix.{Bytes, FileName, World, bytes_eq}
use mhftp.Crypt.{md5_buffer}
use mhftp.Metadata.{
  ChunkInfo, ch_ok, ch_pending, ch_error, ch_download, ch_upload, Metadata, IsWellFormed,
}
use mhftp.Metadata.Disk.RoundTrip.{Holds, image}
use mathlib.Core.Option.{some-injective}
use mhftp.Protocol.Server.Answers.{slice, length-slice}
use mhftp.Protocol.Download.Entries.{InPlace}
use mhftp.Protocol.Download.Invariant.{Sound, Setting}
use mhftp.Protocol.Download.Settled.{Every, Unsent}
use mhftp.Tests.Fixtures.{digest16, five, five-IsWellFormed, meta_name, toy_md5, five_bytes}

abbrev pub local_name : FileName
local_name = b'f' ∷ []

-- A world with a metadata file and a local file.
unfoldable pub with_local : Metadata → Bytes → World
with_local m content = record {
  files = λ name. if bytes_eq name meta_name then some (image m []) else some content;
  deny = λ _. false;
}

unfoldable pub with_local-Holds :
    (m : Metadata) (content : Bytes) → Holds (with_local m content) meta_name m
unfolding with_local bytes_eq
with_local-Holds m content = record { rest = []; stored = refl; allowed = refl }

pub with_local-local :
    (m : Metadata) (content : Bytes) → (with_local m content).files local_name ≡ some content
unfolding with_local bytes_eq
with_local-local m content = refl

abbrev pub brought : ℕ → ChunkInfo
brought i = record {
  md5sum = md5_buffer toy_md5 (slice five_bytes 2 i);
  size = pos 2;
  status = ch_ok;
}

-- The first chunk has been brought.
abbrev pub half : Metadata
half = record five {
  digest = md5_buffer toy_md5 five_bytes;
  chunk_info =
      brought 0
      ∷ record { md5sum = digest16; size = pos 2; status = ch_pending }
      ∷ record { md5sum = digest16; size = pos 1; status = ch_error }
      ∷ [];
}

-- All have been.
abbrev pub full : Metadata
full = record half { chunk_info = brought 0 ∷ brought 1 ∷ brought 2 ∷ [] }

pub half-IsWellFormed : IsWellFormed half
half-IsWellFormed = record {
  digest_length = toy_md5.length-final _;
  file_full_length = five-IsWellFormed.file_full_length;
  file_size_fits = omega arith;
  chunk_size_fits = omega arith;
  chunks_counted = refl;
  few = omega arith;
  in_use_fits = omega arith;
  entries =
      ((toy_md5.length-final _, omega arith), ((refl, omega arith), ((refl, omega arith), tt)));
}

pub full-IsWellFormed : IsWellFormed full
full-IsWellFormed = record {
  digest_length = toy_md5.length-final _;
  file_full_length = five-IsWellFormed.file_full_length;
  file_size_fits = omega arith;
  chunk_size_fits = omega arith;
  chunks_counted = refl;
  few = omega arith;
  in_use_fits = omega arith;
  entries = (
    (toy_md5.length-final _, omega arith),
    ((toy_md5.length-final _, omega arith), ((toy_md5.length-final _, omega arith), tt)),
  );
}

names_apart : (bytes_eq meta_name local_name ≡ false) × (bytes_eq local_name meta_name ≡ false)
unfolding bytes_eq
names_apart = (refl, refl)

in_twos : chunk_count 5 (pos 2) ≡ some (pos 3)
unfolding chunk_count
in_twos = refl

pub half-Setting : Setting toy_md5 five_bytes 2 meta_name local_name half 3
half-Setting = record {
  apart = names_apart;
  sized = refl;
  positive = omega arith;
  fits = omega arith;
  measured = refl;
  cut = in_twos;
  few = omega arith;
}

pub full-Setting : Setting toy_md5 five_bytes 2 meta_name local_name full 3
full-Setting = record {
  apart = names_apart;
  sized = refl;
  positive = omega arith;
  fits = omega arith;
  measured = refl;
  cut = in_twos;
  few = omega arith;
}

first_two : InPlace five_bytes 2 (10 ∷ 20 ∷ []) 0
first_two zero low high = refl
first_two (suc zero) low high = refl
first_two (suc (suc j)) low high = absurd (omega (arith, high, length-slice five_bytes 2 0))

the_digest : (x e : ChunkInfo) → some x ≡ some e → e.md5sum ≡ x.md5sum
the_digest x e there = ap ChunkInfo.md5sum (some-injective _ _ (sym there))

the_status : (x e : ChunkInfo) → some x ≡ some e → x.status ≡ e.status
the_status x e there = ap ChunkInfo.status (some-injective _ _ there)

pub half-Sound : Sound toy_md5 five_bytes 2 half.chunk_info (10 ∷ 20 ∷ [])
half-Sound zero e there ok = (first_two, the_digest (brought 0) e there)
half-Sound (suc zero) e there ok = let other : ch_pending ≡ ch_ok = the_status _ e there ∙ ok in cc
half-Sound (suc (suc zero)) e there ok =
    let other : ch_error ≡ ch_ok = the_status _ e there ∙ ok in cc
half-Sound (suc (suc (suc i))) e there ok = cc

pub full-Sound : Sound toy_md5 five_bytes 2 full.chunk_info five_bytes
full-Sound zero e there ok = (λ j _ _. refl, the_digest (brought 0) e there)
full-Sound (suc zero) e there ok = (λ j _ _. refl, the_digest (brought 1) e there)
full-Sound (suc (suc zero)) e there ok = (λ j _ _. refl, the_digest (brought 2) e there)
full-Sound (suc (suc (suc i))) e there ok = cc

full-all_ok : (a : ℕ) (e : ChunkInfo) → get_elem? full.chunk_info a ≡ some e → e.status ≡ ch_ok
full-all_ok zero e there = sym (the_status _ e there)
full-all_ok (suc zero) e there = sym (the_status _ e there)
full-all_ok (suc (suc zero)) e there = sym (the_status _ e there)
full-all_ok (suc (suc (suc i))) e there = cc

pub half_quiet :
    (a : ℕ) (e : ChunkInfo) → get_elem? half.chunk_info a ≡ some e → e.status ≢ ch_download
half_quiet zero e there down = let other : ch_ok ≡ ch_download = the_status _ e there ∙ down in cc
half_quiet (suc zero) e there down =
    let other : ch_pending ≡ ch_download = the_status _ e there ∙ down in cc
half_quiet (suc (suc zero)) e there down =
    let other : ch_error ≡ ch_download = the_status _ e there ∙ down in cc
half_quiet (suc (suc (suc i))) e there down = cc

pub full_quiet :
    (a : ℕ) (e : ChunkInfo) → get_elem? full.chunk_info a ≡ some e → e.status ≢ ch_download
full_quiet a e there down =
    let other : ch_ok ≡ ch_download = sym (full-all_ok a e there) ∙ down in cc

pub none_sent : Every Unsent half.chunk_info
none_sent zero e there sent = let other : ch_ok ≡ ch_upload = the_status _ e there ∙ sent in cc
none_sent (suc zero) e there sent =
    let other : ch_pending ≡ ch_upload = the_status _ e there ∙ sent in cc
none_sent (suc (suc zero)) e there sent =
    let other : ch_error ≡ ch_upload = the_status _ e there ∙ sent in cc
none_sent (suc (suc (suc i))) e there sent = cc
