-- ===== src/Protocol/Sending/Logged.antt =====
-- Every step of a process of an upload keeps what holds of the chunks that have been sent.
use mathlib.Core.List.{append-nil}
use mathlib.Core.Option.{some-injective}
use mhftp.Base.{
  ℕ, subst, ◌<◌, ◌≡◌, ◌≢◌, inl, inr, refl, sym, ap, ◌∙◌, true, Option, none, some, List, [], ◌∷◌,
  ◌++◌, arith, get_elem?, get_elem?-lt,
}
use mhftp.Base.Int.{negsuc}
use mhftp.Base.Bytes.{int64_bytes}
use mhftp.Posix.{Bytes, FileName, World}
use mhftp.Metadata.{ChunkInfo, ch_ok, ch_upload, Metadata}
use mhftp.Metadata.Table.{is_pending}
use mhftp.Protocol.Server.Answers.{slice}
use mhftp.Protocol.Upload.{upload_message, send_chunk}
use mhftp.Protocol.Upload.Whole.{chunks_of}
use mhftp.Protocol.Turns.{update}
use mhftp.Protocol.Sending.{
  Point, starting, waiting, selecting, claiming, publishing, claimed, nothing_left, ending, sending,
  sent, reloading, recording, recorded, looping, Process, upload_chunk_command, owned_at, Move,
  begin, no_file, get_lock, load, none_pending, leave, end_mark, claim, publish, release, send,
  get_lock_again, reload, note, release_again, repeat, quit,
}
use mhftp.Protocol.Sending.Invariant.{Local, Setting, Inv}
use mhftp.Protocol.Sending.Updates.{Changed}
use mhftp.Protocol.Sending.Written.{messages, messages-append, send_chunk_lem}
use mhftp.Protocol.Sending.Log.{opening, closing, sent_at, Writes, Log, quiet, changed, sends}

no_chunk : {i : ℕ} → none ≡ some i → ⊥
no_chunk q = cc

-- Who has sent a chunk owns it.
pub owned-sent : (a : Point) (i : ℕ) → sent_at a ≡ some i → owned_at a ≡ some i
owned-sent (sent j) i e = e
owned-sent (reloading j) i e = e
owned-sent (recording j) i e = e
owned-sent _ i e = cc

module _ {meta_file local_file : FileName} {header : Metadata} {file : Bytes} {c k : ℕ}
    (setting : Setting meta_file local_file header file c k) {table : List ChunkInfo} {w : World}
    {lock : Option ℕ} {pc : ℕ → Process}
    (inv : Inv meta_file local_file header file c k table w lock pc) {before : ℕ → Type 0}
    {nums : ℕ → List ℕ} (log : Log file c before table pc nums) (me : ℕ) where
  abbrev Logged : List ChunkInfo → Process → Type 0
  Logged table' p' = (nums' : ℕ → List ℕ) × Log file c before table' (update pc me p') nums'

  abbrev p : Process
  p = pc me

  was :
      (a : Point)
      → p.at ≡ a
      → p.output ≡ opening a ++ (messages (chunks_of file c (nums me)) ++ closing a)
  was a here =
      subst (λ b. p.output ≡ opening b ++ (messages (chunks_of file c (nums me)) ++ closing b)) here
        (log.writes me)

  -- Nothing has been written before the first byte.
  opens :
      p.at ≡ starting
      → p.output ++ upload_chunk_command ∷ []
        ≡ upload_chunk_command ∷ (messages (chunks_of file c (nums me)) ++ [])
  opens here =
      let none_sent = log.unstarted me here in
      let nothing : p.output ≡ [] =
        was starting here ∙ ap (λ is. messages (chunks_of file c is) ++ []) none_sent in
      ap (λ bs. bs ++ upload_chunk_command ∷ []) nothing ∙ sym (rw none_sent refl)

  -- A step between two points that write nothing.
  silent :
      (a : Point) {table' : List ChunkInfo} (p' : Process)
      → p.at ≡ a
      → Writes file c p' (nums me)
      → p'.at ≢ starting
      → sent_at p'.at ≡ sent_at a
      → table' ≡ table
      → Logged table' p'
  silent a p' here written on same kept = (
    nums,
    subst (λ t. Log file c before t (update pc me p') nums) (sym kept)
        (quiet file c log me p' written (λ h. absurd (on h)) (same ∙ sym (ap sent_at here))),
  )

  -- Nobody has sent a chunk that its owner has still to send.
  fresh : (i : ℕ) → p.at ≡ sending i → (j q : ℕ) → get_elem? (nums j) q ≢ some i
  fresh i here j q at =
      let ((e, there, status), _) = subst (λ b. Local c table b p.object) here (inv.locals me) in
      elim (log.accounted j q i at) [
        | inl (u, there', ok) ↦
            let same : e ≡ u = some-injective _ _ (sym there ∙ there') in
            let clash : ch_upload ≡ ch_ok = sym status ∙ ap ChunkInfo.status same ∙ ok in cc
        | inr s ↦
            let mine : me ≡ j = inv.unique me j i (ap owned_at here) (owned-sent (pc j).at i s) in
            let s' : sent_at (sending i) ≡ some i =
              ap sent_at (sym here) ∙ ap (λ x. sent_at (Process.at (pc x))) mine ∙ s in
            no_chunk s'
      ]

  sent_bytes :
      (i position : ℕ) (size : _) (content bytes : Bytes)
      → p.at ≡ sending i
      → w.files local_file ≡ some content
      → get_elem? p.sizes i ≡ some size
      → send_chunk content position p.object.chunk_size i size ≡ some bytes
      → bytes ≡ upload_message i (slice file c i)
  sent_bytes i position size content bytes here opened at e =
      let ((entry, there, _), sized) = subst (λ b. Local c table b p.object) here (inv.locals me) in
      let below : i < k = omega (arith, get_elem?-lt table i there, inv.counted) in
      let whole : content ≡ file = some-injective _ _ (sym opened ∙ inv.stored) in
      let begun = inv.arrays me (rw here refl) in
      let at' = ap (λ xs. get_elem? xs i) (sym begun) ∙ at in
      some-injective _ _ (
        sym e
        ∙ ap (λ f. send_chunk f position p.object.chunk_size i size) whole
        ∙ ap (λ z. send_chunk file position z i size) sized
        ∙ send_chunk_lem file c k i position setting.positive setting.fits setting.cut below size
            at')

  at :
      (table' : List ChunkInfo) (a : Point)
      → p.at ≡ a
      → Changed p.at table table'
      → Changed a table table'
  at table' a here = subst (λ b. Changed b table table') here

  pub Move-Log :
      {w' : World} {lock' : Option ℕ} {p' : Process} {table' : List ChunkInfo}
      → Move local_file me w lock p w' lock' p'
      → Changed p.at table table'
      → Logged table' p'
  Move-Log (begin _ _ _ here _ _) ch =
      silent starting _ here (opens here) (λ h. cc) refl (at _ starting here ch)
  Move-Log (no_file _ _ here _ _) ch =
      silent starting _ here (opens here) (λ h. cc) refl (at _ starting here ch)
  Move-Log (get_lock _ here _) ch =
      silent waiting _ here (was waiting here) (λ h. cc) refl (at _ waiting here ch)
  Move-Log (load _ _ here _) ch =
      silent selecting _ here (was selecting here) (λ h. cc) refl (at _ selecting here ch)
  Move-Log (none_pending here _) ch =
      silent claiming _ here (was claiming here) (λ h. cc) refl (at _ claiming here ch)
  Move-Log (leave here) ch =
      silent nothing_left _ here (was nothing_left here) (λ h. cc) refl (at _ nothing_left here ch)
  Move-Log (end_mark here) ch =
      silent ending _ here
        (ap (λ bs. bs ++ int64_bytes (negsuc 0)) (was ending here)
          ∙ ap (λ bs. upload_chunk_command ∷ (bs ++ int64_bytes (negsuc 0)))
              (append-nil (messages (chunks_of file c (nums me)))))
        (λ h. cc) refl (at _ ending here ch)
  Move-Log (claim _ _ here _ _) ch =
      silent claiming _ here (was claiming here) (λ h. cc) refl (at _ claiming here ch)
  Move-Log (publish i _ here _) ch =
      let (e, v, there, waits, status, same) = at _ (publishing i) here ch in
      let on : claimed i ≢ starting = λ h. cc in
      (
        nums,
        subst (λ t. Log file c before t (update pc me (record p { at = claimed i })) nums)
            (sym same)
            (changed file c log me i e v _ there (was (publishing i) here) on
              (λ (u, there', ok).
                let entry : e ≡ u = some-injective _ _ (sym there ∙ there') in
                let clash : is_pending ch_ok ≡ true =
                  ap is_pending (sym (ap ChunkInfo.status entry ∙ ok)) ∙ waits in
                cc)
              (λ ok. let clash : ch_upload ≡ ch_ok = sym status ∙ ok in cc) refl
              (λ a s. absurd (no_chunk (ap sent_at (sym here) ∙ s)))),
      )
  Move-Log (release i here) ch =
      silent (claimed i) _ here (was (claimed i) here) (λ h. cc) refl (at _ (claimed i) here ch)
  Move-Log (send i position size content bytes here opened sized e) ch =
      let message = sent_bytes i position size content bytes here opened sized e in
      let is = nums me in
      (
        update nums me (is ++ i ∷ []),
        subst
            (λ t.
              Log file c before t
                (update pc me (record p { output = p.output ++ bytes; at = sent i }))
                (update nums me (is ++ i ∷ [])))
            (sym (at _ (sending i) here ch))
            (sends file c log me i _
              (ap (λ bs. bs ++ bytes)
                  (was (sending i) here
                    ∙ ap (λ bs. upload_chunk_command ∷ bs)
                        (append-nil (messages (chunks_of file c is))))
                ∙ ap (λ bs. upload_chunk_command ∷ bs)
                    (ap (λ bs. messages (chunks_of file c is) ++ bs) message
                      ∙ sym (messages-append file c is i)
                      ∙ sym (append-nil (messages (chunks_of file c (is ++ i ∷ []))))))
              refl (ap sent_at here) (fresh i here)),
      )
  Move-Log (get_lock_again i _ here _) ch =
      silent (sent i) _ here (was (sent i) here) (λ h. cc) refl (at _ (sent i) here ch)
  Move-Log (reload i _ _ here _) ch =
      silent (reloading i) _ here (was (reloading i) here) (λ h. cc) refl
        (at _ (reloading i) here ch)
  Move-Log (note i _ m' _ here _ _ _) ch =
      let (e, v, there, marked, status, same) = at _ (recording i) here ch in
      let on : recorded ≢ starting = λ h. cc in
      (
        nums,
        subst
            (λ t. Log file c before t (update pc me (record p { object = m'; at = recorded })) nums)
            (sym same)
            (changed file c log me i e v (record p { object = m'; at = recorded }) there
              (was (recording i) here) on (λ _. status) (λ _. log.sending me i (ap sent_at here))
              refl (λ a s. (some-injective _ _ (sym (ap sent_at here) ∙ s), status))),
      )
  Move-Log (release_again here) ch =
      silent recorded _ here (was recorded here) (λ h. cc) refl (at _ recorded here ch)
  Move-Log (repeat here) ch =
      silent looping _ here (was looping here) (λ h. cc) refl (at _ looping here ch)
  Move-Log (quit here) ch =
      silent looping _ here (was looping here) (λ h. cc) refl (at _ looping here ch)
