-- ===== src/Protocol/Parent/Started.antt =====
-- The parent marks the metadata file, and the state in which the processes of a download start.
use mhftp.Base.{
  ℕ, ◌<◌, ◌≤◌, ◌≡◌, ◌≢◌, refl, sym, ap, ◌∙◌, Bool, true, false, none, some, List, [], arith, length,
  get_elem?, drop, ltb, ◌&&◌, if◌then◌else◌,
}
use mhftp.Base.Int.{pos, leb_ℤ}
use mhftp.Posix.{Bytes, FileName, World, done, ◌>>=◌}
use mhftp.Crypt.{Md5}
use mhftp.Metadata.{ChunkInfo, ch_download, Metadata, IsWellFormed}
use mhftp.Metadata.Disk.RoundTrip.{Holds, image, with_file, load_metadata-Holds, save_metadata_lem}
use mhftp.Protocol.Download.{Pc, waiting, finished, critical, owns}
use mhftp.Protocol.Download.Invariant.{Local, Sound, Setting, Inv}
use mhftp.Protocol.Download.Runs.{Holding}
use mhftp.Protocol.Download.Bounded.{Bounded}
use mhftp.Protocol.Download.Settled.{Every, Unsent, Settled, gone, unbroken}
use mhftp.Protocol.Parent.{mark_in_use, nproc, begin_download, forked}

-- The object that `mark_in_use` saves.
abbrev pub marked_as : Metadata → Metadata → ℕ → Metadata
marked_as m m0 in_use = record m { file_metadata = m0.file_metadata; in_use = in_use }

pub marked_as-IsWellFormed :
    (m m0 : Metadata) (in_use : ℕ)
    → in_use < 256
    → IsWellFormed m
    → IsWellFormed (marked_as m m0 in_use)
marked_as-IsWellFormed m m0 in_use small wf = record {
  digest_length = wf.digest_length;
  file_full_length = wf.file_full_length;
  file_size_fits = wf.file_size_fits;
  chunk_size_fits = wf.chunk_size_fits;
  chunks_counted = wf.chunks_counted;
  few = wf.few;
  in_use_fits = small;
  entries = wf.entries;
}

-- The image of the object over the file of another.
abbrev pub after_mark : Metadata → Metadata → World → FileName → Bytes → World
after_mark m m' w name rest =
    with_file w name (image m' (drop (length (image m' [])) (image m rest)))

module _ (m m0 : Metadata) (name : FileName) (w : World) (wf : IsWellFormed m)
    (h : Holds w name m) where
  pub mark_in_use_lem :
      (in_use : ℕ)
      → in_use < 256
      → mark_in_use m0 name in_use w
        ≡ done (marked_as m m0 in_use) (after_mark m (marked_as m m0 in_use) w name h.rest)
  unfolding mark_in_use
  mark_in_use_lem in_use small =
      rw
        (
          load_metadata-Holds m m0 name w wf h,
          ◌>>=◌,
          save_metadata_lem (marked_as m m0 in_use) name w _
              (marked_as-IsWellFormed m m0 in_use small wf) h.stored h.allowed,
        )
        refl

  pub begin_download_lem :
      (n : ℕ)
      → n ≤ nproc
      → begin_download (pos n) m0 name w
        ≡ done (marked_as m m0 1) (after_mark m (marked_as m m0 1) w name h.rest)
  unfolding begin_download
  begin_download_lem n few =
      let allowed : (leb_ℤ (pos 0) (pos n) && leb_ℤ (pos n) (pos nproc)) ≡ true = ground arith in
      rw (mark_in_use_lem 1 (omega arith), ◌>>=◌, allowed) refl

-- A process that was forked waits or, above the count, does nothing.
forked_pc :
    (P : Pc → Type 0) (n : ℕ) (m : Metadata)
    → P (waiting m)
    → P finished
    → (w : World) (j : ℕ) → P ((forked n m w).pc j)
forked_pc P n m a b w j = by_test (ltb j n)
  where
    by_test : (t : Bool) → P (if t then waiting m else finished)
    by_test true = a
    by_test false = b

pub forked-Bounded : (n : ℕ) (m : Metadata) (w : World) → Bounded n (forked n m w)
forked-Bounded n m w = record {
  held = λ j e. absurd cc;
  idle = λ j le. let out : ltb j n ≡ false = ground arith in rw out refl;
}

module _ {md5 : Md5} {remote : Bytes} {c k : ℕ} {meta_file local_file : FileName}
    {header : Metadata} (setting : Setting md5 remote c meta_file local_file header k) where
  -- The processes start with the invariant, if the table is sound and has no chunk under way.
  pub forked-Inv :
      (n : ℕ) (m : Metadata) (w : World) (content : Bytes)
      → IsWellFormed header
      → Holds w meta_file header
      → length header.chunk_info ≡ k
      → w.files local_file ≡ some content
      → length content ≤ length remote
      → Sound md5 remote c header.chunk_info content
      → ((a : ℕ) (e : ChunkInfo) → get_elem? header.chunk_info a ≡ some e → e.status ≢ ch_download)
      → Inv md5 remote c meta_file local_file header k header.chunk_info content w none
          (forked n m w).pc
  forked-Inv n m w content wf h many stored short sound quiet = record {
    well_formed = wf;
    holds = h;
    counted = many;
    stored = stored;
    short = short;
    sound = sound;
    locked = λ j e. absurd (outside j e);
    unique = λ i j a mine theirs. absurd (free a i mine);
    locals = forked_pc (Local md5 remote c header.chunk_info content) n m tt tt w;
    owned = λ a e there status. absurd (quiet a e there status);
  }
    where
      free : (a j : ℕ) → owns ((forked n m w).pc j) ≡ some a → ⊥
      free a j = forked_pc (λ p. owns p ≡ some a → ⊥) n m (λ e. cc) (λ e. cc) w j

      outside : (j : ℕ) → critical ((forked n m w).pc j) ≡ true → ⊥
      outside j = forked_pc (λ p. critical p ≡ true → ⊥) n m (λ e. cc) (λ e. cc) w j

  pub forked-Holding :
      (n : ℕ) (m : Metadata) (w : World) (content : Bytes)
      → IsWellFormed header
      → Holds w meta_file header
      → length header.chunk_info ≡ k
      → w.files local_file ≡ some content
      → length content ≤ length remote
      → Sound md5 remote c header.chunk_info content
      → ((a : ℕ) (e : ChunkInfo) → get_elem? header.chunk_info a ≡ some e → e.status ≢ ch_download)
      → Holding setting (forked n m w)
  forked-Holding n m w content wf h many stored short sound quiet =
      (header.chunk_info, content, forked-Inv n m w content wf h many stored short sound quiet)

-- Before their first steps, the processes below `n` are in their loops.
pub forked-Settled :
    (n : ℕ) (m : Metadata) (w : World) (table : List ChunkInfo)
    → Every Unsent table
    → Settled n table (forked n m w).pc
forked-Settled n m w table unsent = record {
  unsent = unsent;
  over = λ j lt g.
      let inside : ltb j n ≡ true = ground arith in
      let waits : (forked n m w).pc j ≡ waiting m = rw inside refl in
      let out : gone (waiting m) ≡ true = ap gone (sym waits) ∙ g in cc;
  whole = λ j. forked_pc (λ p. unbroken p ≡ true) n m refl refl w j;
}
