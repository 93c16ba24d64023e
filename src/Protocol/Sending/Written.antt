-- ===== src/Protocol/Sending/Written.antt =====
-- What a process of an upload writes to its connection.
use native.Mathlib.Nat.{mul_comm}
use mathlib.Core.List.{append_assoc, append-nil}
use mathlib.Core.Option.{some-injective}
use mhftp.Base.{
  ℕ, zero, suc, ◌*◌, ◌<◌, ◌≤◌, ◌≡◌, ◌⊎◌, inl, inr, refl, sym, ap, ◌∙◌, true, some, List, [], ◌∷◌,
  ◌++◌, arith, length, get_elem?, take, drop, leb, take-append, take-append-drop,
}
use mhftp.Base.Int.{pos, negsuc, pos-*ℤ-pos}
use mhftp.Base.Bytes.{int64_bytes}
use mhftp.Posix.{Bytes}
use mhftp.Metadata.PayLoad.{chunk_count}
use mhftp.Metadata.PayLoad.Tiling.{get_pay_load_array_entry}
use mhftp.Protocol.Client.{max_chunk_size}
use mhftp.Protocol.Server.Answers.{slice, length-slice}
use mhftp.Protocol.Upload.{upload_message, send_chunk}
use mhftp.Protocol.Upload.Placed.{upload_bytes}
use mhftp.Protocol.Upload.Whole.{chunks_of}
use mhftp.Protocol.Sending.Invariant.{pay_load_array}

-- Chunks, one behind the other.
abbrev pub messages : List (ℕ × Bytes) → Bytes
messages [] = []
messages (u ∷ us) = upload_message u.0 u.1 ++ messages us

pub messages-ended :
    (us : List (ℕ × Bytes)) → messages us ++ int64_bytes (negsuc 0) ≡ upload_bytes us
messages-ended [] = refl
messages-ended (u ∷ us) =
    append_assoc (upload_message u.0 u.1) (messages us) (int64_bytes (negsuc 0))
    ∙ ap (λ bs. upload_message u.0 u.1 ++ bs) (messages-ended us)

module _ (file : Bytes) (c : ℕ) where
  -- One more chunk.
  pub messages-append :
      (is : List ℕ) (i : ℕ)
      → messages (chunks_of file c (is ++ i ∷ []))
        ≡ messages (chunks_of file c is) ++ upload_message i (slice file c i)
  messages-append [] i = append-nil (upload_message i (slice file c i))
  messages-append (j ∷ is) i =
      ap (λ bs. upload_message j (slice file c j) ++ bs) (messages-append is i)
      ∙ sym (
          append_assoc (upload_message j (slice file c j)) (messages (chunks_of file c is))
            (upload_message i (slice file c i)))

  -- What `UploadFileToServer` sends for chunk `i` of the file that the table was made for.
  pub send_chunk_lem :
      (k i position : ℕ)
      → 0 < c
      → c ≤ max_chunk_size
      → chunk_count (length file) (pos c) ≡ some (pos k)
      → i < k
      → (size : _) → get_elem? (pay_load_array file c k) i ≡ some size
      → send_chunk file position (pos c) i size ≡ some (upload_message i (slice file c i))
  unfolding send_chunk
  send_chunk_lem k i position positive fits cut below size there =
      let (n, at, _, small, _, is) =
        get_pay_load_array_entry (length file) c k positive cut i below in
      let same : size ≡ pos (length (slice file c i)) =
        some-injective _ _
          (sym there ∙ at ∙ ap (λ m. some (pos m)) (is ∙ sym (length-slice file c i))) in
      let allowed : leb (length (slice file c i)) max_chunk_size ≡ true =
        ground (arith, length-slice file c i) in
      rw (same, send_chunk, allowed, pos-*ℤ-pos i c, mul_comm i c)
        (ap (λ bs. some (upload_message i bs)) whole)
    where
      whole : take (length (slice file c i)) (drop (c * i) file) ≡ slice file c i
      whole =
          ap (take (length (slice file c i))) (sym (take-append-drop c (drop (c * i) file)))
          ∙ take-append (slice file c i) (drop c (drop (c * i) file)) _ refl

-- An entry of a list with one more element.
pub get_elem?-snoc :
    (is : List ℕ) (i q a : ℕ)
    → get_elem? (is ++ i ∷ []) q ≡ some a
    → (get_elem? is q ≡ some a) ⊎ ((q ≡ length is) × (i ≡ a))
get_elem?-snoc [] i zero a e = inr (refl, some-injective _ _ e)
get_elem?-snoc [] i (suc q) a e = cc
get_elem?-snoc (j ∷ is) i zero a e = inl e
get_elem?-snoc (j ∷ is) i (suc q) a e = elim (get_elem?-snoc is i q a e) [
  | inl old ↦ inl old
  | inr (at, same) ↦ inr (ap (λ n. suc n) at, same)
]

pub get_elem?-snoc_old :
    (is : List ℕ) (i q a : ℕ) → get_elem? is q ≡ some a → get_elem? (is ++ i ∷ []) q ≡ some a
get_elem?-snoc_old [] i q a e = cc
get_elem?-snoc_old (j ∷ is) i zero a e = e
get_elem?-snoc_old (j ∷ is) i (suc q) a e = get_elem?-snoc_old is i q a e

pub get_elem?-snoc_last : (is : List ℕ) (i : ℕ) → get_elem? (is ++ i ∷ []) (length is) ≡ some i
get_elem?-snoc_last [] i = refl
get_elem?-snoc_last (j ∷ is) i = get_elem?-snoc_last is i
