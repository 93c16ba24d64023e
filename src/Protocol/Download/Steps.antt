-- ===== src/Protocol/Download/Steps.antt =====
-- Every step of a process keeps the invariant.
use mhftp.Base.{ℕ, subst, ◌≡◌, inl, inr, refl, true, false, Option, List}
use mhftp.Posix.{Bytes, FileName, World}
use mhftp.Crypt.{Md5}
use mhftp.Metadata.{ChunkInfo, Metadata}
use mhftp.Protocol.Download.{
  Pc, claiming, recording, Move, get_lock, load, none_pending, claim, publish, release, leave,
  arrive, break_off, write, get_lock_again, reload, note, release_again, repeat, quit,
}
use mhftp.Protocol.Download.Invariant.{Setting, Inv}
use mhftp.Protocol.Download.Moved.{quiet}
use mhftp.Protocol.Download.Files.{claim-Local, load-Current}
use mhftp.Protocol.Download.Chunks.{arrived, After, local, written_out, published, noted}
use mhftp.Protocol.Turns.{takes, update}

module _ {md5 : Md5} {remote : Bytes} {c k : ℕ} {meta_file local_file : FileName}
    {header : Metadata} (setting : Setting md5 remote c meta_file local_file header k)
    {table : List ChunkInfo} {content : Bytes} {w : World} {lock : Option ℕ} {pc : ℕ → Pc}
    (inv : Inv md5 remote c meta_file local_file header k table content w lock pc) (me : ℕ) where
  pub Move-Inv :
      {w' : World} {lock' : Option ℕ} {p p' : Pc}
      → Move md5 meta_file local_file remote c me w lock p w' lock' p'
      → pc me ≡ p
      → After setting inv me p w' lock' p'
  Move-Inv (get_lock m l e) here =
      (table, content, quiet inv me _ _ _ here (takes me lock l _ e) refl tt, refl)
  Move-Inv (load m m' w' e) here =
      let (current, same) =
        load-Current header setting.sized table m m' w w' inv.well_formed inv.holds e in
      (
        table,
        content,
        subst
            (λ v.
              Inv md5 remote c meta_file local_file header k table content v lock
                (update pc me (claiming m')))
            same (quiet inv me _ _ _ here (inl (refl, refl)) refl current),
        refl,
      )
  Move-Inv (none_pending m e) here =
      (table, content, quiet inv me _ _ _ here (inl (refl, refl)) refl tt, refl)
  Move-Inv (claim m m' i next e) here = (
    table,
    content,
    quiet inv me _ _ _ here (inl (refl, refl)) refl
        (claim-Local md5 remote c table content m m' i (local setting inv me _ here) next e),
    refl,
  )
  Move-Inv (publish m i w' e) here = published setting inv me m i w' here e
  Move-Inv (release m i) here = (
    table,
    content,
    quiet inv me _ _ _ here (inr (inr (refl, refl, refl))) refl (local setting inv me _ here),
    refl,
  )
  Move-Inv leave here =
      (table, content, quiet inv me _ _ _ here (inr (inr (refl, refl, refl))) refl tt, refl)
  Move-Inv (arrive m i j before rest d part s s' asked streams got) here =
      let (u, sized) = local setting inv me _ here in
      let (whole, digest) =
        arrived setting table i j before rest d part s s' inv.counted u asked streams got in
      (
        table,
        content,
        quiet inv me _ _ _ here (inl (refl, refl)) refl (u, sized, whole, digest),
        refl,
      )
  Move-Inv (break_off m i before d s s' got l) here =
      let (u, _) = local setting inv me _ here in
      (
        table,
        content,
        quiet inv me _ _ _ here (inl (refl, refl)) refl (u, (l, λ e. absurd (the_error e))),
        refl,
      )
    where
      the_error : true ≡ false → ⊥
      the_error e = cc
  Move-Inv (write m i p d part old place there) here =
      written_out setting inv me m i p d part old here place there
  Move-Inv (get_lock_again m i err d l e) here = (
    table,
    content,
    quiet inv me _ _ _ here (takes me lock l _ e) refl (local setting inv me _ here),
    refl,
  )
  Move-Inv (reload m m' i err d w' e) here =
      let (current, same) =
        load-Current header setting.sized table m m' w w' inv.well_formed inv.holds e in
      let (u, b) = local setting inv me _ here in
      (
        table,
        content,
        subst
            (λ v.
              Inv md5 remote c meta_file local_file header k table content v lock
                (update pc me (recording m' i err d)))
            same (quiet inv me _ _ _ here (inl (refl, refl)) refl (u, b, current)),
        refl,
      )
  Move-Inv (note m m' i err d w' e u) here = noted setting inv me m m' i err d w' here e u
  Move-Inv (release_again m err) here =
      (table, content, quiet inv me _ _ _ here (inr (inr (refl, refl, refl))) refl tt, refl)
  Move-Inv (repeat m) here =
      (table, content, quiet inv me _ _ _ here (inl (refl, refl)) refl tt, refl)
  Move-Inv (quit m err) here =
      (table, content, quiet inv me _ _ _ here (inl (refl, refl)) refl tt, refl)
