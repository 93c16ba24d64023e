-- ===== src/Protocol/Download/Entries.antt =====
-- Entries of the table of chunks, and parts of the local file, as the processes of a download change them.
use mathlib.Core.Option.{some-injective}
use mhftp.Base.{
  ℕ, zero, suc, subst, ◌+◌, ◌*◌, ◌<◌, ◌≤◌, ◌≡◌, ◌≢◌, refl, sym, ap, ◌∙◌, Option, none, some, List,
  [], ◌∷◌, arith, length, get_elem?, set, All, get_elem?-lt, get_elem?-set_self, get_elem?-set_ne,
  take_all,
}
use mhftp.Posix.{Bytes}
use mhftp.Metadata.{ChunkStatus, ChunkInfo, ch_download, Metadata, IsChunk}
use mhftp.Metadata.Table.{with_status, set_status, set_chunk_status}
use mhftp.Protocol.Server.Answers.{slice, length-slice}
use mhftp.Protocol.Placing.{put, put_inside, put_keeps}

-- Entry `i` is in CH_DOWNLOAD.
abbrev pub UnderWay : List ChunkInfo → ℕ → Type 0
UnderWay table i = (e : ChunkInfo) × (get_elem? table i ≡ some e) × (e.status ≡ ch_download)

-- The bytes of part `i` are those of the remote file.
abbrev pub InPlace : Bytes → ℕ → Bytes → ℕ → Type 0
InPlace remote c content i =
    (j : ℕ)
    → c * i ≤ j
    → j < c * i + length (slice remote c i)
    → get_elem? content j ≡ get_elem? remote j

module _ (remote : Bytes) (c i : ℕ) (content : Bytes) where
  pub put-InPlace : InPlace remote c (put remote c i content) i
  put-InPlace j low high = put_inside remote c i j content low high

  pub put-keeps-InPlace :
      (k : ℕ) → InPlace remote c content k → InPlace remote c (put remote c i content) k
  put-keeps-InPlace k h j low high =
      put_keeps remote c i j content (omega (arith, length-slice remote c k)) (h j low high)

All-set {ℓ} :
    {A : Type ℓ} (P : A → Type 0) (xs : List A) (i : ℕ) (v : A)
    → All P xs
    → P v
    → All P (set xs i v)
All-set P [] i v h k = tt
All-set P (x ∷ xs) zero v h k = (k, h.1)
All-set P (x ∷ xs) (suc i) v h k = (h.0, All-set P xs i v h.1 k)

All-get_elem? {ℓ} :
    {A : Type ℓ} (P : A → Type 0) (xs : List A) (i : ℕ) (x : A)
    → All P xs
    → get_elem? xs i ≡ some x
    → P x
All-get_elem? P [] i x h e = cc
All-get_elem? P (y ∷ xs) zero x h e = subst P (some-injective _ _ e) h.0
All-get_elem? P (y ∷ xs) (suc i) x h e = All-get_elem? P xs i x h.1 e

module _ (table : List ChunkInfo) (i : ℕ) (e : ChunkInfo) (there : get_elem? table i ≡ some e) where
  -- The entry after a change is the changed one, and an entry at another place is what it was.
  pub set_self : (v : ChunkInfo) → get_elem? (set table i v) i ≡ some v
  set_self v = get_elem?-set_self table i v (get_elem?-lt table i there)

  pub set_chunk_status_lem :
      (m m' : Metadata) (status : ChunkStatus) (d : Option Bytes)
      → m.chunk_info ≡ table
      → set_chunk_status m i status d ≡ some m'
      → m' ≡ record m { chunk_info = set table i (with_status status d e) }
  unfolding set_chunk_status
  set_chunk_status_lem m m' status d same h =
      let there' : get_elem? m.chunk_info i ≡ some e = ap (λ t. get_elem? t i) same ∙ there in
      let value : set_chunk_status m i status d
          ≡ some (record m { chunk_info = set m.chunk_info i (with_status status d e) }) =
        rw (there', set_chunk_status, set_status) refl in
      some-injective _ _ (sym h ∙ value)
      ∙ ap (λ t. record m { chunk_info = set t i (with_status status d e) }) same

pub set_other :
    (table : List ChunkInfo) (i k : ℕ) (v e : ChunkInfo)
    → i ≢ k
    → get_elem? (set table i v) k ≡ some e
    → get_elem? table k ≡ some e
set_other table i k v e h q = sym (get_elem?-set_ne table i k v h) ∙ q

pub set_other_back :
    (table : List ChunkInfo) (i k : ℕ) (v e : ChunkInfo)
    → i ≢ k
    → get_elem? table k ≡ some e
    → get_elem? (set table i v) k ≡ some e
set_other_back table i k v e h q = get_elem?-set_ne table i k v h ∙ q

pub set-IsChunk :
    (table : List ChunkInfo) (i : ℕ) (e : ChunkInfo) (status : ChunkStatus) (d : Option Bytes)
    → get_elem? table i ≡ some e
    → ((bs : Bytes) → d ≡ some bs → length bs ≡ 16)
    → All IsChunk table
    → All IsChunk (set table i (with_status status d e))
set-IsChunk table i e status none there digest h =
    All-set IsChunk table i _ h (All-get_elem? IsChunk table i e h there)
set-IsChunk table i e status (some bs) there digest h =
    let old = All-get_elem? IsChunk table i e h there in
    All-set IsChunk table i _ h
      (ap length (take_all bs 16 (omega (arith, digest bs refl))) ∙ digest bs refl, old.1)
