-- ===== src/Protocol/Sending/Settled.antt =====
-- What holds of the table and of the processes of an upload that have found nothing left.
use mhftp.Base.{ℕ, subst, ◌≤◌, ◌≡◌, ◌≢◌, refl, sym, ap, Bool, true, false, List, Option}
use mhftp.Posix.{FileName, World}
use mhftp.Metadata.{ChunkStatus, ChunkInfo, ch_ok, ch_download, ch_upload}
use mhftp.Protocol.Download.Settled.{Every, Every-set, Taken, none_left}
use mhftp.Protocol.Sending.{
  Point, starting, publishing, recording, nothing_left, ending, finished, stopped, Process, Move,
  begin, no_file, get_lock, load, none_pending, leave, end_mark, claim, publish, release, send,
  get_lock_again, reload, note, release_again, repeat, quit,
}
use mhftp.Protocol.Sending.Invariant.{Local}
use mhftp.Protocol.Sending.Updates.{Changed}

-- Behind `getNextPendingChunk` with the result -1.
abbrev pub gone : Point → Bool
gone nothing_left = true
gone ending = true
gone finished = true
gone _ = false

abbrev pub ended : Point → Bool
ended finished = true
ended stopped = true
ended _ = false

abbrev pub Undownloaded : ChunkStatus → Type 0
Undownloaded s = s ≢ ch_download

-- No chunk is marked by a download, a process that has found nothing left was right, and the processes from
-- `n` on do nothing.
pub record Settled (n : ℕ) (table : List ChunkInfo) (pc : ℕ → Process) : Type 0 where
  pub undownloaded : Every Undownloaded table
  pub over : (j : ℕ) → gone (pc j).at ≡ true → Every Taken table
  pub idle : (j : ℕ) → n ≤ j → (pc j).at ≡ starting

-- The changes of an upload lead to CH_UPLOAD and to CH_OK.
pub Changed-Every :
    (P : ChunkStatus → Type 0) (a : Point) (table table' : List ChunkInfo)
    → P ch_upload
    → P ch_ok
    → Changed a table table'
    → Every P table
    → Every P table'
Changed-Every P (publishing i) t t' up ok (e, v, there, _, status, same) all =
    subst (Every P) (sym same) (Every-set P t i e v there all (subst P (sym status) up))
Changed-Every P (recording i) t t' up ok (e, v, there, _, status, same) all =
    subst (Every P) (sym same) (Every-set P t i e v there all (subst P (sym status) ok))
Changed-Every P _ t t' up ok same all = subst (Every P) (sym same) all

pub Taken-after :
    (a : Point) (table table' : List ChunkInfo)
    → Changed a table table'
    → Every Taken table
    → Every Taken table'
Taken-after a t t' = Changed-Every Taken a t t' refl refl

pub gone_after :
    {local_file : FileName} {me : ℕ} {w w' : World} {lock lock' : Option ℕ} {p p' : Process} (c : ℕ)
    (table : List ChunkInfo)
    → Move local_file me w lock p w' lock' p'
    → Local c table p.at p.object
    → (gone p.at ≡ true → Every Taken table)
    → gone p'.at ≡ true
    → Every Taken table
gone_after {p = p} c t (none_pending here e) l old g =
    none_left c t p.object (subst (λ a. Local c t a p.object) here l) e
gone_after c t (leave here) l old g = old (ap gone here)
gone_after c t (end_mark here) l old g = old (ap gone here)
gone_after c t (begin _ _ _ _ _ _) l old g = cc
gone_after c t (no_file _ _ _ _ _) l old g = cc
gone_after c t (get_lock _ _ _) l old g = cc
gone_after c t (load _ _ _ _) l old g = cc
gone_after c t (claim _ _ _ _ _) l old g = cc
gone_after c t (publish _ _ _ _) l old g = cc
gone_after c t (release _ _) l old g = cc
gone_after c t (send _ _ _ _ _ _ _ _ _) l old g = cc
gone_after c t (get_lock_again _ _ _ _) l old g = cc
gone_after c t (reload _ _ _ _ _) l old g = cc
gone_after c t (note _ _ _ _ _ _ _ _) l old g = cc
gone_after c t (release_again _) l old g = cc
gone_after c t (repeat _) l old g = cc
gone_after c t (quit _) l old g = cc
