-- ===== src/Protocol/Download/Moved.antt =====
-- The invariant after a step of one process, from what the step did to the files and to that process.
use mhftp.Base.{ℕ, ◌≤◌, ◌≡◌, subst, refl, sym, ap, ◌∙◌, Bool, false, Option, some, List, length}
use mhftp.Posix.{Bytes, FileName, World}
use mhftp.Crypt.{Md5}
use mhftp.Metadata.{ChunkInfo, Metadata}
use mhftp.Metadata.Disk.RoundTrip.{Holds}
use mhftp.Metadata.Disk.Update.{with_table}
use mhftp.Protocol.Download.{
  Pc, claiming, publishing, claimed, receiving, received, written, reloading, recording, critical,
  owns,
}
use mhftp.Protocol.Download.Entries.{UnderWay, InPlace}
use mhftp.Protocol.Download.Invariant.{Local, Brought, Inv}
use mhftp.Protocol.Turns.{Disciplined, after_turn, update, update_all, update_unique, update-owns}

module _ (md5 : Md5) (remote : Bytes) (c : ℕ) where
  Brought-content :
      (content content' : Bytes) (i : ℕ) (err : Bool) (d : Bytes)
      → ((k : ℕ) → InPlace remote c content k → InPlace remote c content' k)
      → Brought md5 remote c content i err d
      → Brought md5 remote c content' i err d
  Brought-content content content' i err d keep (l, b) = (l, λ e. (keep i (b e).0, (b e).1))

  -- The variables of a process stay true when parts are put in their places.
  pub Local-content :
      (table : List ChunkInfo) (content content' : Bytes)
      → ((k : ℕ) → InPlace remote c content k → InPlace remote c content' k)
      → (p : Pc) → Local md5 remote c table content p
      → Local md5 remote c table content' p
  Local-content table content content' keep (written m i err d) (u, b) =
      (u, Brought-content content content' i err d keep b)
  Local-content table content content' keep (reloading m i err d) (u, b) =
      (u, Brought-content content content' i err d keep b)
  Local-content table content content' keep (recording m i err d) (u, b, r) =
      (u, Brought-content content content' i err d keep b, r)
  Local-content table content content' keep (claiming m) l = l
  Local-content table content content' keep (publishing m i) l = l
  Local-content table content content' keep (claimed m i) l = l
  Local-content table content content' keep (receiving m i) l = l
  Local-content table content content' keep (received m i d part) l = l
  Local-content table content content' keep _ l = tt

  -- The variables of a process that has not the semaphore stay true when entries of other chunks change.
  pub Local-table :
      (table table' : List ChunkInfo) (content : Bytes) (p : Pc)
      → critical p ≡ false
      → ((i : ℕ) → owns p ≡ some i → UnderWay table i → UnderWay table' i)
      → Local md5 remote c table content p
      → Local md5 remote c table' content p
  Local-table table table' content (claimed m i) out keep (u, l) = (keep i refl u, l)
  Local-table table table' content (receiving m i) out keep (u, l) = (keep i refl u, l)
  Local-table table table' content (received m i d part) out keep (u, z, q, r) =
      (keep i refl u, z, q, r)
  Local-table table table' content (written m i err d) out keep (u, l) = (keep i refl u, l)
  Local-table table table' content (claiming m) out keep l = cc
  Local-table table table' content (publishing m i) out keep l = cc
  Local-table table table' content (reloading m i err d) out keep l = cc
  Local-table table table' content (recording m i err d) out keep l = cc
  Local-table table table' content _ out keep l = tt

module _ {md5 : Md5} {remote : Bytes} {c : ℕ} {meta_file local_file : FileName} {header : Metadata}
    {k : ℕ} {table : List ChunkInfo} {content : Bytes} {w : World} {lock : Option ℕ} {pc : ℕ → Pc}
    (inv : Inv md5 remote c meta_file local_file header k table content w lock pc) (me : ℕ) where
  -- A step that keeps the table and what is in its place in the local file, and after which the process
  -- has the chunk that it had.
  pub moved :
      (p p' : Pc) (lock' : Option ℕ) (w' : World) (content' : Bytes)
      → pc me ≡ p
      → Disciplined me lock lock' (critical p) (critical p')
      → owns p' ≡ owns p
      → Holds w' meta_file (with_table header table)
      → w'.files local_file ≡ some content'
      → length content' ≤ length remote
      → ((a : ℕ) → InPlace remote c content a → InPlace remote c content' a)
      → Local md5 remote c table content' p'
      → Inv md5 remote c meta_file local_file header k table content' w' lock' (update pc me p')
  moved p p' lock' w' content' here d same holds' stored' short' keep l = record {
    well_formed = inv.well_formed;
    holds = holds';
    counted = inv.counted;
    stored = stored';
    short = short';
    sound = λ a e there status.
        let (placed, digest) = inv.sound a e there status in (keep a placed, digest);
    locked =
        after_turn critical pc me p' lock lock'
          (subst (λ q. Disciplined me lock lock' (critical q) (critical p')) (sym here) d)
          inv.locked;
    unique = update_unique pc me p' owns inv.unique (λ j a other mine theirs.
        other (inv.unique me j a (ap owns here ∙ sym same ∙ mine) theirs));
    locals =
        update_all (λ _ q. Local md5 remote c table content' q) pc me p' l
          (λ j _. Local-content md5 remote c table content content' keep (pc j) (inv.locals j));
    owned = λ a e there status.
        let (j, mine) = inv.owned a e there status in
        (j, update-owns pc me p' owns a j (λ q. same ∙ sym (ap owns here) ∙ q) mine);
  }

  -- A step that leaves the files alone.
  pub quiet :
      (p p' : Pc) (lock' : Option ℕ)
      → pc me ≡ p
      → Disciplined me lock lock' (critical p) (critical p')
      → owns p' ≡ owns p
      → Local md5 remote c table content p'
      → Inv md5 remote c meta_file local_file header k table content w lock' (update pc me p')
  quiet p p' lock' here d same l =
      moved p p' lock' w content here d same inv.holds inv.stored inv.short (λ a h. h) l
