-- ===== src/Protocol/Download/Chunks.antt =====
-- What a process of a download does to the invariant when a part arrives, is written, or its entry changes.
use mathlib.Core.Option.{some-injective}
use mhftp.Base.{
  ℕ, subst, ◌*◌, ◌^◌, ◌<◌, ◌≡◌, ◌≢◌, inl, refl, sym, ap, ◌∙◌, Bool, true, false, Option, none, some,
  List, ◌++◌, arith, length, get_elem?, set, get_elem?-lt, take_all,
}
use mhftp.Base.Int.{pos, pos_part, ◌*ℤ◌, pos-*ℤ-pos}
use mhftp.Posix.{Bytes, FileName, World, done, write_at}
use mhftp.Posix.Decimal.{atoi}
use mhftp.Posix.Socket.{Socket, IsStream}
use mhftp.Crypt.{Md5}
use mhftp.Metadata.{ChunkInfo, ch_ok, ch_download, Metadata}
use mhftp.Metadata.Table.{is_pending, with_status, set_chunk_status}
use mhftp.Metadata.Disk.{update_control_data}
use mhftp.Metadata.Disk.RoundTrip.{with_file, with_file-files, with_file-other}
use mhftp.Protocol.Request.{request_chunk, atoi-request_chunk}
use mhftp.Protocol.Server.Answers.{slice, message, length-slice}
use mhftp.Protocol.Client.{Received, chunk, receive_chunk}
use mhftp.Protocol.Client.Receive.{receive_chunk-message}
use mhftp.Protocol.Placing.{put, length-put}
use mhftp.Protocol.Download.{
  Pc, publishing, claimed, receiving, received, written, reloading, recording, recorded, critical,
  owns,
}
use mhftp.Protocol.Download.Entries.{UnderWay, set_self, put-InPlace, put-keeps-InPlace}
use mhftp.Protocol.Download.Invariant.{Digest, Local, Setting, Inv}
use mhftp.Protocol.Download.Changes.{result, Changed}
use mhftp.Protocol.Download.Moved.{moved}
use mhftp.Protocol.Download.Marked.{marked}
use mhftp.Protocol.Download.Files.{set-Current, update-Holds}
use mhftp.Protocol.Turns.{update}

module _ (md5 : Md5) (remote : Bytes) (c : ℕ) where
  -- The owner of a chunk knows that it is under way.
  pub owner-UnderWay :
      (table : List ChunkInfo) (content : Bytes) (p : Pc) (a : ℕ)
      → owns p ≡ some a
      → Local md5 remote c table content p
      → UnderWay table a
  owner-UnderWay table content (claimed m i) a e (u, _) =
      subst (UnderWay table) (some-injective _ _ e) u
  owner-UnderWay table content (receiving m i) a e (u, _) =
      subst (UnderWay table) (some-injective _ _ e) u
  owner-UnderWay table content (received m i d part) a e (u, _, _, _) =
      subst (UnderWay table) (some-injective _ _ e) u
  owner-UnderWay table content (written m i err d) a e (u, _) =
      subst (UnderWay table) (some-injective _ _ e) u
  owner-UnderWay table content (reloading m i err d) a e (u, _) =
      subst (UnderWay table) (some-injective _ _ e) u
  owner-UnderWay table content (recording m i err d) a e (u, _, _) =
      subst (UnderWay table) (some-injective _ _ e) u
  owner-UnderWay table content _ a e l = cc

result_ok : (err : Bool) → result err ≡ ch_ok → err ≡ false
result_ok true q = cc
result_ok false q = refl

result_download : (err : Bool) → result err ≢ ch_download
result_download true q = cc
result_download false q = cc

module _ {md5 : Md5} {remote : Bytes} {c k : ℕ} {meta_file local_file : FileName}
    {header : Metadata} (setting : Setting md5 remote c meta_file local_file header k) where
  -- The part that arrives is the one that was asked for, with its digest.
  pub arrived :
      (table : List ChunkInfo) (i j : ℕ) (before rest d part : Bytes) (s s' : Socket)
      → length table ≡ k
      → UnderWay table i
      → atoi (request_chunk (pos i)) ≡ pos j
      → IsStream s (message md5 (slice remote c j) ++ rest)
      → receive_chunk before s ≡ some (chunk d part, s')
      → (part ≡ slice remote c i) × Digest md5 remote c d i
  arrived table i j before rest d part s s' counted (e, there, _) asked streams got =
      let small : i < 10 ^ 6 = omega (arith, get_elem?-lt table i there, setting.few) in
      let same : pos j ≡ pos i = sym asked ∙ atoi-request_chunk i small in
      let streams' : IsStream s (message md5 (slice remote c i) ++ rest) =
        subst (λ n. IsStream s (message md5 (slice remote c n) ++ rest)) (the_number j i same)
          streams in
      let (s1, told, _) =
        receive_chunk-message md5 (slice remote c i) before rest s
          (omega (arith, length-slice remote c i, setting.fits)) streams' in
      the_chunk _ _ _ _ _ _ (some-injective _ _ (sym got ∙ told))
    where
      the_number : (a b : ℕ) → pos a ≡ pos b → a ≡ b
      the_number a b q = cc

      the_chunk :
          (x y u v : Bytes) (t t' : Socket)
          → ◌≡◌ {A = Received × Socket} (chunk x y, t) (chunk u v, t')
          → (y ≡ v) × (x ≡ u)
      the_chunk x y u v t t' q = let r : chunk x y ≡ chunk u v = ap (λ z. z.0) q in (cc, cc)

  module _ {table : List ChunkInfo} {content : Bytes} {w : World} {lock : Option ℕ} {pc : ℕ → Pc}
      (inv : Inv md5 remote c meta_file local_file header k table content w lock pc) (me : ℕ) where
    abbrev pub After : Pc → World → Option ℕ → Pc → Type 0
    After p w' lock' p' =
        (table' : List ChunkInfo) × (content' : Bytes) × Inv md5 remote c meta_file local_file
          header k table' content' w' lock' (update pc me p')
        × Changed p table table'

    pub local : (p : Pc) → pc me ≡ p → Local md5 remote c table content p
    local p here = subst (Local md5 remote c table content) here (inv.locals me)

    -- A chunk that is not transferred is nobody's.
    unowned :
        {i : ℕ} (e : ChunkInfo)
        → get_elem? table i ≡ some e
        → is_pending e.status ≡ true
        → (j : ℕ) → owns (pc j) ≢ some i
    unowned {i} e there waits j theirs =
        let (e', there', status) =
          owner-UnderWay md5 remote c table content (pc j) i theirs (inv.locals j) in
        let same : e ≡ e' = some-injective _ _ (sym there ∙ there') in
        let busy : e.status ≡ ch_download = ap ChunkInfo.status same ∙ status in
        let waits' : is_pending ch_download ≡ true = ap is_pending (sym busy) ∙ waits in cc

    pub written_out :
        (m : Metadata) (i p : ℕ) (d part old : Bytes)
        → pc me ≡ received m i d part
        → pos i *ℤ m.chunk_size ≡ pos p
        → w.files local_file ≡ some old
        → After
            (received m i d part)
            (with_file w local_file (write_at p part old))
            lock
            (written m i false d)
    written_out m i p d part old here place there =
        let (u, sized, whole, digest) = local _ here in
        let turned : i * c ≡ c * i = omega arith in
        let at : pos p ≡ pos (c * i) =
          sym place ∙ ap (λ z. pos i *ℤ z) sized ∙ pos-*ℤ-pos i c ∙ ap pos turned in
        let new : write_at p part old ≡ put remote c i content =
          ap (λ n. write_at n part old) (ap pos_part at)
          ∙ ap (λ t. write_at (c * i) t old) whole
          ∙ ap (write_at (c * i) (slice remote c i))
              (some-injective _ _ (sym there ∙ inv.stored)) in
        (
          table,
          put remote c i content,
          subst
              (λ t.
                Inv md5 remote c meta_file local_file header k table (put remote c i content)
                  (with_file w local_file t) lock (update pc me (written m i false d)))
              (sym new)
              (moved inv me _ _ lock (with_file w local_file (put remote c i content))
                (put remote c i content) here (inl (refl, refl)) refl
                (record {
                  rest = inv.holds.rest;
                  stored =
                      with_file-other w local_file meta_file _ setting.apart.1 ∙ inv.holds.stored;
                  allowed = inv.holds.allowed;
                })
                (with_file-files w local_file (put remote c i content))
                (length-put remote c i content inv.short) (put-keeps-InPlace remote c i content)
                (
                  u,
                  (
                    ap length digest ∙ md5.length-final _,
                    λ _. (put-InPlace remote c i content, digest),
                  ),
                )),
          refl,
        )

    pub published :
        (m : Metadata) (i : ℕ) (w' : World)
        → pc me ≡ publishing m i
        → update_control_data m meta_file w ≡ done tt w'
        → After (publishing m i) w' lock (claimed m i)
    published m i w' here e =
        let (entry, there, waits, current) = local _ here in
        let v = with_status ch_download none entry in
        let (wf', holds', stored') =
          update-Holds header setting.apart.0 table i v content m w w' inv.well_formed inv.holds
            inv.stored current e in
        (
          set table i v,
          content,
          marked inv me i entry v there (claimed m i) w' (ap critical here) refl wf' holds' stored'
              (λ j other theirs. unowned entry there waits j theirs)
              (λ q. absurd (no_download_ok q)) (λ a q. some-injective _ _ q) (λ _. refl)
              (λ a other q. absurd (none_owned (sym (ap owns here) ∙ q)))
              ((v, set_self table i entry there v, refl), current.2),
          (entry, v, there, waits, refl, refl),
        )
      where
        none_owned : {a : ℕ} → none ≡ some a → ⊥
        none_owned q = cc

        no_download_ok : ch_download ≡ ch_ok → ⊥
        no_download_ok q = cc

    pub noted :
        (m m' : Metadata) (i : ℕ) (err : Bool) (d : Bytes) (w' : World)
        → pc me ≡ recording m i err d
        → set_chunk_status m i (result err) (some d) ≡ some m'
        → update_control_data m' meta_file w ≡ done tt w'
        → After (recording m i err d) w' lock (recorded m' err)
    noted m m' i err d w' here e u =
        let ((entry, there, status), (long, brought), current) = local _ here in
        let v = with_status (result err) (some d) entry in
        let current' =
          set-Current c table m m' i entry (result err) (some d) current there
            (λ bs q. ap length (some-injective _ _ (sym q)) ∙ long) e in
        let (wf', holds', stored') =
          update-Holds header setting.apart.0 table i v content m' w w' inv.well_formed inv.holds
            inv.stored current' u in
        (
          set table i v,
          content,
          marked inv me i entry v there (recorded m' err) w' (ap critical here) refl wf' holds'
              stored' (λ j other theirs. other (inv.unique me j i (ap owns here) theirs))
              (λ q.
                let (placed, digest) = brought (result_ok err q) in
                (placed, take_all d 16 (omega (arith, long)) ∙ digest))
              (λ a q. absurd (none_owned q)) (λ q. absurd (result_download err q))
              (λ a other q. absurd (other (some-injective _ _ (sym (ap owns here) ∙ q)))) tt,
          (entry, v, there, status, refl, refl),
        )
      where
        none_owned : {a : ℕ} → none ≡ some a → ⊥
        none_owned q = cc
