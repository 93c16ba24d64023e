-- ===== src/Protocol/Download/Marked.antt =====
-- The invariant after a step that changes an entry of the table, by the process that has the semaphore.
use mathlib.Core.Option.{some-injective}
use mhftp.Base.{
  ℕ, subst, ◌≡◌, ◌≢◌, inl, inr, refl, sym, ap, ◌∙◌, true, false, Option, some, List, arith,
  get_elem?, set, ◌==◌, Bool-cases, ==_iff, All, length-set,
}
use mhftp.Protocol.Turns.{after_turn, update, update-owns, update_all, update_unique}
use mhftp.Posix.{Bytes, FileName, World}
use mhftp.Crypt.{Md5}
use mhftp.Base.Int.{pos}
use mhftp.Metadata.{ChunkInfo, ch_ok, ch_download, Metadata, IsChunk, IsWellFormed}
use mhftp.Metadata.Disk.RoundTrip.{Holds}
use mhftp.Metadata.Disk.Update.{with_table}
use mhftp.Protocol.Download.{Pc, critical, owns}
use mhftp.Protocol.Download.Entries.{InPlace, set_self, set_other, set_other_back}
use mhftp.Protocol.Download.Invariant.{Local, Digest, Inv}
use mhftp.Protocol.Download.Moved.{Local-table}

-- An object with a changed table of the same length is well-formed.
pub set-IsWellFormed :
    (m : Metadata) (i : ℕ) (v : ChunkInfo)
    → IsWellFormed m
    → All IsChunk (set m.chunk_info i v)
    → IsWellFormed (with_table m (set m.chunk_info i v))
set-IsWellFormed m i v wf h = record {
  digest_length = wf.digest_length;
  file_full_length = wf.file_full_length;
  file_size_fits = wf.file_size_fits;
  chunk_size_fits = wf.chunk_size_fits;
  chunks_counted = wf.chunks_counted ∙ ap pos (sym (length-set m.chunk_info i v));
  few = omega (arith, wf.few, length-set m.chunk_info i v);
  in_use_fits = wf.in_use_fits;
  entries = h;
}

module _ {md5 : Md5} {remote : Bytes} {c : ℕ} {meta_file local_file : FileName} {header : Metadata}
    {k : ℕ} {table : List ChunkInfo} {content : Bytes} {w : World} {lock : Option ℕ} {pc : ℕ → Pc}
    (inv : Inv md5 remote c meta_file local_file header k table content w lock pc) (me : ℕ) where
  -- Nobody else is in its critical section.
  others_out : critical (pc me) ≡ true → (j : ℕ) → me ≢ j → critical (pc j) ≡ false
  others_out mine j other = elim (Bool-cases (critical (pc j))) [
    | inl theirs ↦
        absurd (other (some-injective _ _ (sym (inv.locked me mine) ∙ inv.locked j theirs)))
    | inr out ↦ out
  ]

  module _ (i : ℕ) (e v : ChunkInfo) (there : get_elem? table i ≡ some e) where
    sound_after :
        (v.status ≡ ch_ok → InPlace remote c content i × Digest md5 remote c v.md5sum i)
        → (a : ℕ) (e' : ChunkInfo) → get_elem? (set table i v) a ≡ some e'
        → e'.status ≡ ch_ok
        → InPlace remote c content a × Digest md5 remote c e'.md5sum a
    sound_after new a e' q status = elim (Bool-cases (i == a)) [
      | inl t ↦
          let same : i ≡ a = (==_iff i a).0 t in
          let entry : v ≡ e' =
            some-injective _ _
              (sym (set_self table i e there v) ∙ ap (get_elem? (set table i v)) same ∙ q) in
          subst
            (λ u. u.status ≡ ch_ok → InPlace remote c content a × Digest md5 remote c u.md5sum a)
            entry
            (subst
              (λ b. v.status ≡ ch_ok → InPlace remote c content b × Digest md5 remote c v.md5sum b)
              same new)
            status
      | inr t ↦
          inv.sound a e'
            (set_other table i a v e' (λ same. let u : (i == a) ≡ true = (==_iff i a).1 same in cc)
              q)
            status
    ]

    owned_after :
        (p' : Pc)
        → (v.status ≡ ch_download → owns p' ≡ some i)
        → ((a : ℕ) → i ≢ a → owns (pc me) ≡ some a → owns p' ≡ some a)
        → (a : ℕ) (e' : ChunkInfo) → get_elem? (set table i v) a ≡ some e'
        → e'.status ≡ ch_download
        → (j : ℕ) × (owns (update pc me p' j) ≡ some a)
    owned_after p' down kept a e' q status = elim (Bool-cases (i == a)) [
      | inl t ↦
          let same : i ≡ a = (==_iff i a).0 t in
          let entry : v ≡ e' =
            some-injective _ _
              (sym (set_self table i e there v) ∙ ap (get_elem? (set table i v)) same ∙ q) in
          (
            me,
            update_all (λ j x. me ≡ j → owns x ≡ some a) pc me p'
                (λ _. down (ap ChunkInfo.status entry ∙ status) ∙ ap some same)
                (λ j other eq. absurd (other eq)) me refl,
          )
      | inr t ↦
          let apart : i ≢ a = λ same. let u : (i == a) ≡ true = (==_iff i a).1 same in cc in
          let (j, mine) = inv.owned a e' (set_other table i a v e' apart q) status in
          (j, update-owns pc me p' owns a j (kept a apart) mine)
    ]

    pub marked :
        (p' : Pc) (w' : World)
        → critical (pc me) ≡ true
        → critical p' ≡ true
        → IsWellFormed (with_table header (set table i v))
        → Holds w' meta_file (with_table header (set table i v))
        → w'.files local_file ≡ some content
        → ((j : ℕ) → me ≢ j → owns (pc j) ≢ some i)
        → (v.status ≡ ch_ok → InPlace remote c content i × Digest md5 remote c v.md5sum i)
        → ((a : ℕ) → owns p' ≡ some a → i ≡ a)
        → (v.status ≡ ch_download → owns p' ≡ some i)
        → ((a : ℕ) → i ≢ a → owns (pc me) ≡ some a → owns p' ≡ some a)
        → Local md5 remote c (set table i v) content p'
        → Inv md5 remote c meta_file local_file header k
            (set table i v)
            content
            w'
            lock
            (update pc me p')
    marked p' w' mine_in in' wf holds' stored' none_else sound_v only down kept l = record {
      well_formed = wf;
      holds = holds';
      counted = length-set table i v ∙ inv.counted;
      stored = stored';
      short = inv.short;
      sound = sound_after sound_v;
      locked = after_turn critical pc me p' lock lock (inl (refl, in' ∙ sym mine_in)) inv.locked;
      unique =
          update_unique pc me p' owns inv.unique
            (λ j a other mine theirs. none_else j other (theirs ∙ ap some (sym (only a mine))));
      locals =
          update_all (λ _ q. Local md5 remote c (set table i v) content q) pc me p' l
            (λ j other.
              Local-table md5 remote c table (set table i v) content (pc j)
                (others_out mine_in j other)
                (λ a theirs (u, at, status). (
                  u,
                  set_other_back table i a v u
                      (λ same. none_else j other (theirs ∙ ap some (sym same))) at,
                  status,
                ))
                (inv.locals j));
      owned = owned_after p' down kept;
    }
