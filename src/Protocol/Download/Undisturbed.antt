-- ===== src/Protocol/Download/Undisturbed.antt =====
-- A download in which no connection breaks and that the user does not stop brings every chunk.
use mhftp.Base.{ℕ, ◌<◌, ◌≡◌, ◌≢◌, refl, sym, ap, ◌∙◌, Bool, true, false, Option, some, List}
use mhftp.Posix.{Bytes, FileName, World}
use mhftp.Crypt.{Md5}
use mhftp.Metadata.{
  ChunkStatus, ChunkInfo, ch_ok, ch_pending, ch_error, ch_download, ch_upload, Metadata,
}
use mhftp.Protocol.Download.{
  Pc, finished, owns, Move, get_lock, load, none_pending, claim, publish, release, leave, arrive,
  break_off, write, get_lock_again, reload, note, release_again, repeat, quit, System, Step, pick,
  Reach, start, later,
}
use mhftp.Protocol.Download.Changes.{Changed}
use mhftp.Protocol.Download.Invariant.{Local, Setting, Inv}
use mhftp.Protocol.Download.Steps.{Move-Inv}
use mhftp.Protocol.Download.Settled.{
  Every, gone, unbroken, Unsent, Taken, Settled, Kept, unchanged, none_left, entry_changed,
  Move-Settled,
}

module _ {md5 : Md5} {remote : Bytes} {c : ℕ} {meta_file local_file : FileName} where
  -- Neither a broken connection nor a stop by the user.
  abbrev pub calm :
      {me : ℕ} {w w' : World} {lock lock' : Option ℕ} {p p' : Pc}
      → Move md5 meta_file local_file remote c me w lock p w' lock' p'
      → Bool
  calm (break_off _ _ _ _ _ _ _ _) = false
  calm (quit _ _) = false
  calm _ = true

  keeps :
      {me : ℕ} {w w' : World} {lock lock' : Option ℕ} {p p' : Pc} (table table' : List ChunkInfo)
      (content : Bytes)
      → (move : Move md5 meta_file local_file remote c me w lock p w' lock' p') → calm move ≡ true
      → Local md5 remote c table content p
      → unbroken p ≡ true
      → Changed p table table'
      → Kept p p' table table'
  keeps t t' b (get_lock _ _ _) k l f h = unchanged h (λ o g. cc) (λ u. refl)
  keeps t t' b (load _ _ _ _) k l f h = unchanged h (λ o g. cc) (λ u. refl)
  keeps t t' b (none_pending m e) k l f h = unchanged h (λ o g. none_left c t m l e) (λ u. refl)
  keeps t t' b (claim _ _ _ _ _) k l f h = unchanged h (λ o g. cc) (λ u. refl)
  keeps t t' b (publish m i _ _) k l f (e, v, there, waits, status, same) =
      entry_changed i e v ch_download there status same (λ q. cc) refl refl refl
  keeps t t' b (release _ _) k l f h = unchanged h (λ o g. cc) (λ u. refl)
  keeps t t' b leave k l f h = unchanged h (λ o g. o refl) (λ u. refl)
  keeps t t' b (arrive _ _ _ _ _ _ _ _ _ _ _ _) k l f h = unchanged h (λ o g. cc) (λ u. refl)
  keeps t t' b (break_off _ _ _ _ _ _ _ _) k l f h = cc
  keeps t t' b (write _ _ _ _ _ _ _ _) k l f h = unchanged h (λ o g. cc) (λ u. refl)
  keeps t t' b (get_lock_again _ _ true _ _ _) k l f h = cc
  keeps t t' b (get_lock_again _ _ false _ _ _) k l f h = unchanged h (λ o g. cc) (λ u. refl)
  keeps t t' b (reload _ _ _ true _ _ _) k l f h = cc
  keeps t t' b (reload _ _ _ false _ _ _) k l f h = unchanged h (λ o g. cc) (λ u. refl)
  keeps t t' b (note _ _ i true _ _ _ _) k l f h = cc
  keeps t t' b (note _ _ i false _ _ _ _) k l f (e, v, there, under_way, status, same) =
      entry_changed i e v ch_ok there status same (λ q. cc) refl refl refl
  keeps t t' b (release_again _ true) k l f h = cc
  keeps t t' b (release_again _ false) k l f h = unchanged h (λ o g. cc) (λ u. refl)
  keeps t t' b (repeat _) k l f h = unchanged h (λ o g. cc) (λ u. refl)
  keeps t t' b (quit _ _) k l f h = cc

  abbrev pub calm_step :
      {n : ℕ} {s t : System} → Step md5 meta_file local_file remote c n s t → Bool
  calm_step (pick _ _ move) = calm move

  abbrev pub Calm : {n : ℕ} {s t : System} → Reach md5 meta_file local_file remote c n s t → Type 0
  Calm start = Unit
  Calm (later run step) = Calm run × (calm_step step ≡ true)

module _ {md5 : Md5} {remote : Bytes} {c k : ℕ} {meta_file local_file : FileName}
    {header : Metadata} (setting : Setting md5 remote c meta_file local_file header k) where
  -- The invariant and what holds of an undisturbed run.
  abbrev pub Going : ℕ → System → Type 0
  Going n s =
      (table : List ChunkInfo) × (content : Bytes) × Inv md5 remote c meta_file local_file header k
        table content s.world s.lock s.pc
      × Settled n table s.pc

  pub Calm-Going :
      {n : ℕ} {s t : System}
      → Going n s
      → (run : Reach md5 meta_file local_file remote c n s t) → Calm run
      → Going n t
  Calm-Going g start _ = g
  Calm-Going g (later {t = u} run (pick me lt move)) (quiet, still) =
      let (table, content, inv, was) = Calm-Going g run quiet in
      let (table', content', inv', changed) = Move-Inv setting inv me move refl in
      let kept = keeps table table' content move still (inv.locals me) (was.whole me) changed in
      (table', content', inv', Move-Settled was lt kept)

  -- A chunk that nobody brings, and that is neither pending nor sent, is in CH_OK.
  settled : (s : ChunkStatus) → s ≢ ch_download → Unsent s → Taken s → s ≡ ch_ok
  settled ch_ok d u t = refl
  settled ch_pending d u t = cc
  settled ch_error d u t = cc
  settled ch_download d u t = absurd (d refl)
  settled ch_upload d u t = absurd (u refl)

  -- However the processes of a download are interleaved: when all have finished, no connection has
  -- broken and the user has not stopped the client, every chunk is in CH_OK. There is at least one process,
  -- and at the start no chunk is in CH_UPLOAD and no process has left its loop.
  pub Calm-Every :
      {n : ℕ} {s t : System}
      → 0 < n
      → Going n s
      → (run : Reach md5 meta_file local_file remote c n s t) → Calm run
      → ((j : ℕ) → t.pc j ≡ finished)
      → (table : List ChunkInfo) × (content : Bytes) × Inv md5 remote c meta_file local_file header
          k table content t.world t.lock t.pc
        × Every (λ s. s ≡ ch_ok) table
  Calm-Every {t = t} some_process g run quiet all_done =
      let (table, content, inv, was) = Calm-Going g run quiet in
      (
        table,
        content,
        inv,
        λ a e at.
            settled e.status
              (λ down.
                let (j, mine) = inv.owned a e at down in
                let out : owns finished ≡ some a = ap owns (sym (all_done j)) ∙ mine in cc)
              (was.unsent a e at) (was.over 0 some_process (ap gone (all_done 0)) a e at),
      )
