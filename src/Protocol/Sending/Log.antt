-- ===== src/Protocol/Sending/Log.antt =====
-- Which chunks the processes of an upload have sent, and how a step keeps what holds of them.
use mathlib.Core.Option.{some-injective}
use mhftp.Base.{
  ℕ, subst, ◌≡◌, ◌≢◌, ◌⊎◌, inl, inr, refl, sym, ap, ◌∙◌, true, Option, none, some, List, [], ◌∷◌,
  ◌++◌, length, get_elem?, set, Bool-cases, ◌==◌, ==_iff,
}
use mhftp.Base.Int.{negsuc}
use mhftp.Base.Bytes.{int64_bytes}
use mhftp.Posix.{Bytes}
use mhftp.Metadata.{ChunkInfo, ch_ok}
use mhftp.Protocol.Upload.Whole.{chunks_of}
use mhftp.Protocol.Turns.{update, update_all, update_both}
use mhftp.Protocol.Download.Entries.{set_self, set_other, set_other_back}
use mhftp.Protocol.Sending.{
  Point, starting, finished, sent, reloading, recording, Process, upload_chunk_command,
}
use mhftp.Protocol.Sending.Written.{
  messages, get_elem?-snoc, get_elem?-snoc_old, get_elem?-snoc_last,
}

-- The first byte, and the number that ends the stream.
abbrev pub opening : Point → Bytes
opening starting = []
opening _ = upload_chunk_command ∷ []

abbrev pub closing : Point → Bytes
closing finished = int64_bytes (negsuc 0)
closing _ = []

-- The chunk that has been sent, and is not in CH_OK yet.
abbrev pub sent_at : Point → Option ℕ
sent_at (sent i) = some i
sent_at (reloading i) = some i
sent_at (recording i) = some i
sent_at _ = none

abbrev pub IsOk : List ChunkInfo → ℕ → Type 0
IsOk table i = (e : ChunkInfo) × (get_elem? table i ≡ some e) × (e.status ≡ ch_ok)

-- The chunk is among those of a process.
abbrev pub Among : (ℕ → List ℕ) → ℕ → Type 0
Among nums a = (j : ℕ) × (q : ℕ) × (get_elem? (nums j) q ≡ some a)

module _ (file : Bytes) (c : ℕ) where
  -- The bytes of a process that has sent the chunks of a list.
  abbrev pub Writes : Process → List ℕ → Type 0
  Writes p is = p.output ≡ opening p.at ++ (messages (chunks_of file c is) ++ closing p.at)

  -- The chunks that each process has sent, in their order: a chunk that is sent is not sent again, and was
  -- in CH_OK before or has been sent if it is in CH_OK now.
  pub record Log (before : ℕ → Type 0) (table : List ChunkInfo) (pc : ℕ → Process)
      (nums : ℕ → List ℕ) : Type 0 where
    pub writes : (j : ℕ) → Writes (pc j) (nums j)
    pub unstarted : (j : ℕ) → (pc j).at ≡ starting → nums j ≡ []
    pub accounted :
        (j q a : ℕ) → get_elem? (nums j) q ≡ some a → IsOk table a ⊎ (sent_at (pc j).at ≡ some a)
    pub once :
        (i j p q a : ℕ)
        → get_elem? (nums i) p ≡ some a
        → get_elem? (nums j) q ≡ some a
        → (i ≡ j) × (p ≡ q)
    pub sending : (j a : ℕ) → sent_at (pc j).at ≡ some a → (q : ℕ) × (get_elem? (nums j) q ≡ some a)
    pub covered : (a : ℕ) → IsOk table a → before a ⊎ Among nums a

  module _ {before : ℕ → Type 0} {table : List ChunkInfo} {pc : ℕ → Process} {nums : ℕ → List ℕ}
      (log : Log before table pc nums) (me : ℕ) where
    -- A step of process `me` that sends nothing and keeps the table.
    pub quiet :
        (p' : Process)
        → Writes p' (nums me)
        → (p'.at ≡ starting → nums me ≡ [])
        → sent_at p'.at ≡ sent_at (pc me).at
        → Log before table (update pc me p') nums
    quiet p' written new same = record {
      writes = update_all (λ j p. Writes p (nums j)) pc me p' written (λ j _. log.writes j);
      unstarted =
          update_all (λ j p. p.at ≡ starting → nums j ≡ []) pc me p' new (λ j _. log.unstarted j);
      accounted = λ j q a at.
          update_all (λ j p. get_elem? (nums j) q ≡ some a → IsOk table a ⊎ (sent_at p.at ≡ some a))
            pc me p'
            (λ h. elim (log.accounted me q a h) [ inl ok ↦ inl ok | inr s ↦ inr (same ∙ s) ])
            (λ j _ h. log.accounted j q a h) j at;
      once = log.once;
      sending = λ j a.
          update_all (λ j p. sent_at p.at ≡ some a → (q : ℕ) × (get_elem? (nums j) q ≡ some a)) pc
            me p' (λ h. log.sending me a (sym same ∙ h)) (λ j _ h. log.sending j a h) j;
      covered = log.covered;
    }

    -- A step that sends nothing and changes entry `i`.
    pub changed :
        (i : ℕ) (e v : ChunkInfo) (p' : Process)
        → get_elem? table i ≡ some e
        → Writes p' (nums me)
        → p'.at ≢ starting
        → (IsOk table i → v.status ≡ ch_ok)
        → (v.status ≡ ch_ok → (q : ℕ) × (get_elem? (nums me) q ≡ some i))
        → sent_at p'.at ≡ none
        → ((a : ℕ) → sent_at (pc me).at ≡ some a → (i ≡ a) × (v.status ≡ ch_ok))
        → Log before (set table i v) (update pc me p') nums
    changed i e v p' there written new keeps news over resolved = record {
      writes = update_all (λ j p. Writes p (nums j)) pc me p' written (λ j _. log.writes j);
      unstarted =
          update_all (λ j p. p.at ≡ starting → nums j ≡ []) pc me p' (λ h. absurd (new h))
            (λ j _. log.unstarted j);
      accounted = λ j q a at.
          update_all
            (λ j p. get_elem? (nums j) q ≡ some a → IsOk table' a ⊎ (sent_at p.at ≡ some a)) pc me
            p'
            (λ h. elim (log.accounted me q a h) [
              | inl ok ↦ inl (still a ok)
              | inr s ↦ let (same, ok) = resolved a s in inl (subst (IsOk table') same (now ok))
            ])
            (λ j _ h. elim (log.accounted j q a h) [ inl ok ↦ inl (still a ok) | inr s ↦ inr s ]) j
            at;
      once = log.once;
      sending = λ j a.
          update_all (λ j p. sent_at p.at ≡ some a → (q : ℕ) × (get_elem? (nums j) q ≡ some a)) pc
            me p' (λ h. absurd (no_chunk (sym over ∙ h))) (λ j _ h. log.sending j a h) j;
      covered = covers;
    }
      where
        table' : List ChunkInfo
        table' = set table i v

        no_chunk : {a : ℕ} → none ≡ some a → ⊥
        no_chunk q = cc

        now : v.status ≡ ch_ok → IsOk table' i
        now ok = (v, set_self table i e there v, ok)

        still : (a : ℕ) → IsOk table a → IsOk table' a
        still a ok = elim (Bool-cases (i == a)) [
          | inl t ↦
              let same : i ≡ a = (==_iff i a).0 t in
              subst (IsOk table') same (now (keeps (subst (IsOk table) (sym same) ok)))
          | inr t ↦
              let (u, at, status) = ok in
              (
                u,
                set_other_back table i a v u
                    (λ same. let b : (i == a) ≡ true = (==_iff i a).1 same in cc) at,
                status,
              )
        ]

        covers : (a : ℕ) → IsOk table' a → before a ⊎ Among nums a
        covers a (u, at, status) = elim (Bool-cases (i == a)) [
          | inl t ↦
              let same : i ≡ a = (==_iff i a).0 t in
              let entry : v ≡ u =
                some-injective _ _
                  (sym (set_self table i e there v) ∙ ap (get_elem? table') same ∙ at) in
              let (q, mine) = news (ap ChunkInfo.status entry ∙ status) in
              inr (me, q, mine ∙ ap some same)
          | inr t ↦ log.covered a (
            u,
            set_other table i a v u (λ same. let b : (i == a) ≡ true = (==_iff i a).1 same in cc)
                at,
            status,
          )
        ]

    -- A step that sends chunk `i`, which nobody has sent.
    pub sends :
        (i : ℕ) (p' : Process)
        → Writes p' (nums me ++ i ∷ [])
        → p'.at ≡ sent i
        → sent_at (pc me).at ≡ none
        → ((j q : ℕ) → get_elem? (nums j) q ≢ some i)
        → Log before table (update pc me p') (update nums me (nums me ++ i ∷ []))
    sends i p' written here idle fresh = record {
      writes = update_both Writes pc nums me p' new written (λ j _. log.writes j);
      unstarted =
          update_both (λ p is. p.at ≡ starting → is ≡ []) pc nums me p' new
            (λ h. absurd (not_start (sym here ∙ h))) (λ j _. log.unstarted j);
      accounted = λ j q a.
          update_both (λ p is. get_elem? is q ≡ some a → IsOk table a ⊎ (sent_at p.at ≡ some a)) pc
            nums me p' new
            (λ h. elim (get_elem?-snoc (nums me) i q a h) [
              | inl old ↦ elim (log.accounted me q a old) [
                | inl ok ↦ inl ok
                | inr s ↦ absurd (no_chunk (sym idle ∙ s))
              ]
              | inr (_, same) ↦ inr (ap sent_at here ∙ ap some same)
            ])
            (λ j _ h. log.accounted j q a h) j;
      once = λ x y p q a hx hy. elim (split x p a hx) [
        | inl old_x ↦ elim (split y q a hy) [
          | inl old_y ↦ log.once x y p q a old_x old_y
          | inr (_, _, same) ↦ absurd (fresh x p (old_x ∙ ap some (sym same)))
        ]
        | inr (mx, px, same) ↦ elim (split y q a hy) [
          | inl old_y ↦ absurd (fresh y q (old_y ∙ ap some (sym same)))
          | inr (my, py, _) ↦ (sym mx ∙ my, px ∙ sym py)
        ]
      ];
      sending = λ j a.
          update_both (λ p is. sent_at p.at ≡ some a → (q : ℕ) × (get_elem? is q ≡ some a)) pc nums
            me p' new
            (λ h. (length (nums me), get_elem?-snoc_last (nums me) i ∙ sym (ap sent_at here) ∙ h))
            (λ j _ h. log.sending j a h) j;
      covered = λ a ok. elim (log.covered a ok) [
        | inl b ↦ inl b
        | inr (j, q, at) ↦ inr (
          j,
          q,
          update_all (λ y is. get_elem? (nums y) q ≡ some a → get_elem? is q ≡ some a) nums me new
              (get_elem?-snoc_old (nums me) i q a) (λ y _ h. h) j at,
        )
      ];
    }
      where
        new : List ℕ
        new = nums me ++ i ∷ []

        not_start : sent i ≡ starting → ⊥
        not_start h = cc

        no_chunk : {a : ℕ} → none ≡ some a → ⊥
        no_chunk q = cc

        split :
            (x p a : ℕ)
            → get_elem? (update nums me new x) p ≡ some a
            → (get_elem? (nums x) p ≡ some a) ⊎ ((me ≡ x) × (p ≡ length (nums me)) × (i ≡ a))
        split x p a =
            update_all
              (λ x is.
                get_elem? is p ≡ some a
                → (get_elem? (nums x) p ≡ some a) ⊎ ((me ≡ x) × (p ≡ length (nums me)) × (i ≡ a)))
              nums me new
              (λ h. elim (get_elem?-snoc (nums me) i p a h) [
                | inl old ↦ inl old
                | inr (at, same) ↦ inr (refl, at, same)
              ])
              (λ x _ h. inl h) x
