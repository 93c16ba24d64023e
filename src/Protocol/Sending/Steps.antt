-- ===== src/Protocol/Sending/Steps.antt =====
-- Every step of a process of an upload keeps the invariant, and changes the table of the file as `Changed` says.
use mhftp.Base.{ℕ, subst, ◌≡◌, inl, inr, refl, sym, true, Option, none, List}
use mhftp.Posix.{Bytes, FileName, World}
use mhftp.Metadata.{ChunkInfo, Metadata}
use mhftp.Protocol.Turns.{Disciplined, takes}
use mhftp.Protocol.Sending.{
  Point, starting, waiting, selecting, claiming, publishing, claimed, nothing_left, ending, sending,
  sent, reloading, recording, recorded, looping, finished, Process, owned_at, critical_at, critical,
  owns, Move, begin, no_file, get_lock, load, none_pending, leave, end_mark, claim, publish,
  release, send, get_lock_again, reload, note, release_again, repeat, quit,
}
use mhftp.Protocol.Sending.Invariant.{Local, begun, Setting, pay_load_array, Inv, quiet}
use mhftp.Protocol.Sending.Updates.{
  Changed, After, local, array, loaded, claimed_next, published, noted,
}

module _ {meta_file local_file : FileName} {header : Metadata} {file : Bytes} {c k : ℕ}
    (setting : Setting meta_file local_file header file c k) {table : List ChunkInfo} {w : World}
    {lock : Option ℕ} {pc : ℕ → Process}
    (inv : Inv meta_file local_file header file c k table w lock pc) (me : ℕ) where
  abbrev p : Process
  p = pc me

  -- A step that leaves the files alone.
  stays :
      (a : Point) (p' : Process) (lock' : Option ℕ) (w' : World)
      → p.at ≡ a
      → w ≡ w'
      → Disciplined me lock lock' (critical_at a) (critical p')
      → owns p' ≡ owned_at a
      → Local c table p'.at p'.object
      → p'.object.file_metadata ≡ meta_file
      → (begun p'.at ≡ true → p'.sizes ≡ pay_load_array file c k)
      → Changed a table table
      → After setting inv me p.at w' lock' p'
  stays a p' lock' w' here kept d own l name sizes same = (
    table,
    quiet inv me a p' lock' w' here kept d own l name sizes,
    subst (λ b. Changed b table table) (sym here) same,
  )

  -- The same, with the process's object.
  turns :
      (a b : Point) (out : Bytes) (lock' : Option ℕ)
      → p.at ≡ a
      → begun a ≡ true
      → Disciplined me lock lock' (critical_at a) (critical_at b)
      → owned_at b ≡ owned_at a
      → Local c table b p.object
      → Changed a table table
      → After setting inv me p.at w lock' (record p { output = out; at = b })
  turns a b out lock' here going d own l same =
      stays a _ lock' w here refl d own l (inv.named me) (λ _. array setting inv me a here going)
        same

  updates :
      (a : Point) (p' : Process) (w' : World)
      → p.at ≡ a
      → After setting inv me a w' lock p'
      → After setting inv me p.at w' lock p'
  updates a p' w' here (t, i, ch) = (t, i, subst (λ b. Changed b table t) (sym here) ch)

  pub Move-Inv :
      {w' : World} {lock' : Option ℕ} {p' : Process}
      → Move local_file me w lock p w' lock' p'
      → After setting inv me p.at w' lock' p'
  Move-Inv (begin m' content w' here e _) =
      let (current, name, sizes, kept) = loaded setting inv me m' w' e in
      stays starting _ lock w' here kept (inl (refl, refl)) refl tt name (λ _. sizes) refl
  Move-Inv (no_file m' w' here e _) =
      let (_, _, _, kept) = loaded setting inv me m' w' e in
      stays starting _ lock w' here kept (inl (refl, refl)) refl tt (inv.named me) (λ b. cc) refl
  Move-Inv (get_lock l here e) =
      turns waiting selecting _ l here refl (takes me lock l _ e) refl tt refl
  Move-Inv (load m' w' here e) =
      let (current, name, _, kept) = loaded setting inv me m' w' e in
      stays selecting _ lock w' here kept (inl (refl, refl)) refl current name
        (λ _. array setting inv me selecting here refl) refl
  Move-Inv (none_pending here _) =
      turns claiming nothing_left _ lock here refl (inl (refl, refl)) refl tt refl
  Move-Inv (leave here) =
      turns nothing_left ending _ none here refl (inr (inr (refl, refl, refl))) refl tt refl
  Move-Inv (end_mark here) = turns ending finished _ lock here refl (inl (refl, refl)) refl tt refl
  Move-Inv (claim m' i here next q) =
      let (l, name) = claimed_next setting inv me m' i here next q in
      stays claiming _ lock w here refl (inl (refl, refl)) refl l name
        (λ _. array setting inv me claiming here refl) refl
  Move-Inv (publish i w' here u) =
      updates (publishing i) _ w' here (published setting inv me i w' here u)
  Move-Inv (release i here) =
      turns (claimed i) (sending i) _ none here refl (inr (inr (refl, refl, refl))) refl
        (local setting inv me (claimed i) here) refl
  Move-Inv (send i _ _ _ _ here _ _ _) =
      turns (sending i) (sent i) _ lock here refl (inl (refl, refl)) refl
        (local setting inv me (sending i) here).0 refl
  Move-Inv (get_lock_again i l here e) =
      turns (sent i) (reloading i) _ l here refl (takes me lock l _ e) refl
        (local setting inv me (sent i) here) refl
  Move-Inv (reload i m' w' here e) =
      let (current, name, _, kept) = loaded setting inv me m' w' e in
      stays (reloading i) _ lock w' here kept (inl (refl, refl)) refl
        (local setting inv me (reloading i) here, current) name
        (λ _. array setting inv me (reloading i) here refl) refl
  Move-Inv (note i d m' w' here long q u) =
      updates (recording i) _ w' here (noted setting inv me i d m' w' here long q u)
  Move-Inv (release_again here) =
      turns recorded looping _ none here refl (inr (inr (refl, refl, refl))) refl tt refl
  Move-Inv (repeat here) = turns looping waiting _ lock here refl (inl (refl, refl)) refl tt refl
  Move-Inv (quit here) =
      stays looping _ lock w here refl (inl (refl, refl)) refl tt (inv.named me) (λ b. cc) refl
