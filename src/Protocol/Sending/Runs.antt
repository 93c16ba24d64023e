-- ===== src/Protocol/Sending/Runs.antt =====
-- What the processes of an upload have sent, after any interleaving.
use mhftp.Base.{
  ℕ, subst, ◌<◌, ◌≤◌, ◌≡◌, ◌≢◌, ◌⊎◌, inl, inr, refl, sym, ap, ◌∙◌, true, false, none, some, List,
  [], ◌∷◌, ◌++◌, arith, get_elem?, get_elem?-some, get_elem?-lt, dec_lt,
}
use mhftp.Posix.{Bytes, FileName}
use mhftp.Metadata.{
  ChunkStatus, ChunkInfo, ch_ok, ch_pending, ch_error, ch_download, ch_upload, Metadata,
}
use mhftp.Metadata.Table.{is_pending}
use mhftp.Protocol.Upload.Whole.{chunks_of}
use mhftp.Protocol.Upload.Placed.{upload_bytes}
use mhftp.Protocol.Turns.{update_all}
use mhftp.Protocol.Download.Settled.{Every, Taken}
use mhftp.Protocol.Sending.{
  Point, starting, publishing, nothing_left, ending, finished, stopped, Process,
  upload_chunk_command, owns, owned_at, System, Step, pick, Reach, start, later,
}
use mhftp.Protocol.Sending.Invariant.{owner-Marked, Setting, Inv}
use mhftp.Protocol.Sending.Steps.{Move-Inv}
use mhftp.Protocol.Sending.Written.{messages, messages-ended}
use mhftp.Protocol.Sending.Log.{closing, opening, Among, IsOk, Log}
use mhftp.Protocol.Sending.Logged.{owned-sent, Move-Log}
use mhftp.Protocol.Sending.Settled.{
  gone, ended, Undownloaded, Settled, Changed-Every, Taken-after, gone_after,
}

pub Reach-trans :
    {local_file : FileName} {n : ℕ} {s t u : System}
    → Reach local_file n s t
    → Reach local_file n t u
    → Reach local_file n s u
Reach-trans run start = run
Reach-trans run (later rest step) = later (Reach-trans run rest) step

module _ {meta_file local_file : FileName} {header : Metadata} {file : Bytes} {c k : ℕ}
    (setting : Setting meta_file local_file header file c k) (before : ℕ → Type 0) where
  -- All that holds between two steps: `before` says which chunks may have been in CH_OK at the start.
  abbrev pub Going : ℕ → System → Type 0
  Going n s =
      (table : List ChunkInfo) × (nums : ℕ → List ℕ) × Inv meta_file local_file header file c k
        table s.world s.lock s.pc
      × Log file c before table s.pc nums
      × Settled n table s.pc

  pub Step-Going : {n : ℕ} {s t : System} → Step local_file n s t → Going n s → Going n t
  Step-Going {n} {s} (pick me {p = p} lt move) (table, nums, inv, log, settled) =
      let (table', inv', ch) = Move-Inv setting inv me move in
      let (nums', log') = Move-Log setting inv log me move ch in
      (
        table',
        nums',
        inv',
        log',
        record {
          undownloaded =
              Changed-Every Undownloaded _ table table' (λ e. cc) (λ e. cc) ch settled.undownloaded;
          over =
              update_all (λ j q. gone q.at ≡ true → Every Taken table') s.pc me p
                (λ g.
                  Taken-after _ table table' ch
                    (gone_after c table move (inv.locals me) (settled.over me) g))
                (λ j _ g. Taken-after _ table table' ch (settled.over j g));
          idle =
              update_all (λ j q. n ≤ j → q.at ≡ starting) s.pc me p (λ h. absurd (omega arith))
                (λ j _. settled.idle j);
        },
      )

  pub Reach-Going : {n : ℕ} {s t : System} → Going n s → Reach local_file n s t → Going n t
  Reach-Going g start = g
  Reach-Going g (later run step) = Step-Going step (Reach-Going g run)

  -- However the processes of an upload are interleaved, from a state with the invariant: the metadata file
  -- holds a well-formed object that was made for this file, every chunk in CH_UPLOAD is the one of a
  -- process that is under way, no chunk is in CH_DOWNLOAD, and the processes have sent what their states
  -- say, as they have when they are forked with a table that has neither mark. The parent does not save its
  -- object between their steps: such a save can undo a mark, and then the chunk is sent again. Each process
  -- has written to its connection the command's byte, if it has begun, and behind it the chunks of some
  -- list of numbers, whole, each as the number, the size and the bytes of that part of the file; behind
  -- them stands the number -1 if the process has left its loop because no chunk was pending. No chunk
  -- occurs twice in the lists of the processes.
  pub sent_once :
      {n : ℕ} {s t : System}
      → Going n s
      → Reach local_file n s t
      → (nums : ℕ → List ℕ) × ((j : ℕ)
          → (t.pc j).output
            ≡ opening (t.pc j).at ++ (messages (chunks_of file c (nums j)) ++ closing (t.pc j).at))
        × ((i j p q a : ℕ)
            → get_elem? (nums i) p ≡ some a
            → get_elem? (nums j) q ≡ some a
            → (i ≡ j) × (p ≡ q))
  sent_once g run = let (_, nums, _, log, _) = Reach-Going g run in (nums, log.writes, log.once)

  -- An entry that nobody has marked and that is not pending is in CH_OK.
  done : (s : ChunkStatus) → s ≢ ch_upload → s ≢ ch_download → is_pending s ≡ false → s ≡ ch_ok
  done ch_ok u d t = refl
  done ch_pending u d t = cc
  done ch_error u d t = cc
  done ch_download u d t = absurd (d refl)
  done ch_upload u d t = absurd (u refl)

  -- Who has ended owns nothing.
  ended-owns : (a : Point) (i : ℕ) → ended a ≡ true → owned_at a ≢ some i
  ended-owns finished i e q = cc
  ended-owns stopped i e q = cc
  ended-owns starting i e q = cc
  ended-owns nothing_left i e q = cc
  ended-owns ending i e q = cc
  ended-owns (publishing j) i e q = cc
  ended-owns _ i e q = cc

  -- However `n` processes of an upload are interleaved, from a state with the invariant: the metadata file
  -- holds a well-formed object that was made for this file, every chunk in CH_UPLOAD is the one of a
  -- process that is under way, so none is left from an upload that was stopped, no chunk is in CH_DOWNLOAD,
  -- and the processes have sent what their states say, as they have when they are forked with a table that
  -- has neither mark. The parent does not save its object between their steps. When all have ended and one
  -- of them did because no chunk was pending: each chunk of the file was in CH_OK at the start, or is among
  -- those that one of the processes has sent. They send chunks of the file only. That one has written the
  -- command's byte, its chunks and the number -1; the user may have stopped the others.
  pub every_chunk_sent :
      {n : ℕ} {s t : System}
      → Going n s
      → Reach local_file n s t
      → ((j : ℕ) → j < n → ended (t.pc j).at ≡ true)
      → (i : ℕ) → (t.pc i).at ≡ finished
      → (nums : ℕ → List ℕ) × ((a : ℕ) → a < k → before a ⊎ Among nums a)
        × ((j q a : ℕ) → get_elem? (nums j) q ≡ some a → (j < n) × (a < k))
        × ((j : ℕ)
            → (t.pc j).at ≡ finished
            → (t.pc j).output ≡ upload_chunk_command ∷ upload_bytes (chunks_of file c (nums j)))
  every_chunk_sent {n} {t = t} g run all i left =
      let (table, nums, inv, log, settled) = Reach-Going g run in
      let ok : (a : ℕ) → a < k → IsOk table a = λ a below.
        let (e, there) = get_elem?-some table a (omega (arith, inv.counted)) in
        (
          e,
          there,
          done e.status (λ up. let (j, mine) = inv.owned a e there up in nobody settled a j mine)
              (settled.undownloaded a e there) (settled.over i (ap gone left) a e there),
        ) in
      (
        nums,
        λ a below. log.covered a (ok a below),
        λ j q a at. (within settled log.unstarted j q a at, inside inv log j q a at),
        λ j at.
            subst
              (λ b.
                Process.output (t.pc j)
                ≡ opening b ++ (messages (chunks_of file c (nums j)) ++ closing b))
              at (log.writes j)
            ∙ ap (λ bs. upload_chunk_command ∷ bs) (messages-ended (chunks_of file c (nums j))),
      )
    where
      within :
          {table : List ChunkInfo} {nums : ℕ → List ℕ}
          → Settled n table t.pc
          → ((j : ℕ) → (t.pc j).at ≡ starting → nums j ≡ [])
          → (j q a : ℕ) → get_elem? (nums j) q ≡ some a
          → j < n
      within settled unstarted j q a at = elim (dec_lt j n) [
        | yes lt ↦ lt
        | no out ↦
            let none_sent = unstarted j (settled.idle j (omega (arith, out))) in
            let q' : none ≡ some a = ap (λ is. get_elem? is q) (sym none_sent) ∙ at in cc
      ]

      inside :
          {table : List ChunkInfo} {nums : ℕ → List ℕ}
          → Inv meta_file local_file header file c k table t.world t.lock t.pc
          → Log file c before table t.pc nums
          → (j q a : ℕ) → get_elem? (nums j) q ≡ some a
          → a < k
      inside {table} inv log j q a at = elim (log.accounted j q a at) [
        | inl (e, there, _) ↦ omega (arith, get_elem?-lt table a there, inv.counted)
        | inr s ↦
            let (e, there, _) =
              owner-Marked c table (t.pc j).at (t.pc j).object a (owned-sent (t.pc j).at a s)
                (inv.locals j) in
            omega (arith, get_elem?-lt table a there, inv.counted)
      ]

      nobody : {table : List ChunkInfo} → Settled n table t.pc → (a j : ℕ) → owns (t.pc j) ≢ some a
      nobody settled a j mine = elim (dec_lt j n) [
        | yes lt ↦ ended-owns (t.pc j).at a (all j lt) mine
        | no out ↦
            let q : none ≡ some a =
              sym (ap owned_at (settled.idle j (omega (arith, out)))) ∙ mine in
            cc
      ]
