-- ===== src/Protocol/Upload/Whole.antt =====
-- An upload of every chunk makes the server's file that of the client.
use native.Mathlib.Nat.{div-add-mod, mod-lt}
use mathlib.Core.Option.{some-injective}
use mhftp.Base.{
  false, ◌++◌, All, ℕ, zero, suc, ◌+◌, ◌*◌, ◌/◌, ◌≤◌, ◌<◌, ◌≡◌, inl, inr, sym, ap, ◌∙◌, some, List,
  [], ◌∷◌, arith, length, get_elem?, get_elem?-none, ext,
}
use mhftp.Posix.{Bytes}
use mhftp.Protocol.Server.Answers.{slice, length-slice}
use mhftp.Protocol.Placing.{place, put, length-put, put_inside, put_keeps}
use mhftp.Posix.Socket.{IsStream}
use mhftp.Base.Int.{pos, negsuc, eq_ℤ}
use mhftp.Protocol.Upload.{UploadState, receive_loop}
use mhftp.Protocol.Upload.Placed.{placed, Sendable, upload_bytes, receive_loop-placed}

module _ (file : Bytes) (c : ℕ) where
  -- The chunks with these numbers.
  abbrev pub chunks_of : List ℕ → List (ℕ × Bytes)
  chunks_of [] = []
  chunks_of (i ∷ is) = (i, slice file c i) ∷ chunks_of is

  length-placed :
      (is : List ℕ) (g : Bytes)
      → length g ≤ length file
      → length (placed c (chunks_of is) g) ≤ length file
  length-placed [] g h = h
  length-placed (i ∷ is) g h = length-placed is (put file c i g) (length-put file c i g h)

  placed_keeps :
      (is : List ℕ) (j : ℕ) (g : Bytes)
      → j < length file
      → get_elem? g j ≡ get_elem? file j
      → get_elem? (placed c (chunks_of is) g) j ≡ get_elem? file j
  placed_keeps [] j g h e = e
  placed_keeps (i ∷ is) j g h e = placed_keeps is j (put file c i g) h (put_keeps file c i j g h e)

  placed_covers :
      (is : List ℕ) (k j : ℕ) (g : Bytes)
      → 0 < c
      → j < length file
      → get_elem? is k ≡ some (j / c)
      → get_elem? (placed c (chunks_of is) g) j ≡ get_elem? file j
  placed_covers [] k j g positive h e = cc
  placed_covers (i ∷ is) zero j g positive h e =
      let same : i ≡ j / c = some-injective _ _ e in
      let low : c * i ≤ j = omega (arith, div-add-mod j c, ap (λ (t : ℕ). c * t) same) in
      placed_keeps is j (put file c i g) h (
        put_inside file c i j g low (
          omega (
            arith,
            div-add-mod j c,
            mod-lt j positive,
            ap (λ (t : ℕ). c * t) same,
            length-slice file c i,
          )))
  placed_covers (i ∷ is) (suc k) j g positive h e =
      placed_covers is k j (put file c i g) positive h e

  -- The numbers of all chunks of the file are in the list.
  abbrev pub Complete : List ℕ → Type 0
  Complete is = (j : ℕ) → j < length file → (k : ℕ) × (get_elem? is k ≡ some (j / c))

  placed_whole :
      (is : List ℕ) (g : Bytes)
      → 0 < c
      → length g ≤ length file
      → Complete is
      → placed c (chunks_of is) g ≡ file
  placed_whole is g positive h complete = ext _ _ by_place
    where
      by_place : (j : ℕ) → get_elem? (placed c (chunks_of is) g) j ≡ get_elem? file j
      by_place j = elim (place 0 (length file) j) [
        | inl (_, within) ↦
            let inside : j < length file = omega arith in
            let (k, e) = complete j inside in placed_covers is k j g positive inside e
        | inr (inl below) ↦ absurd (omega arith)
        | inr (inr beyond) ↦
            let outside : length file ≤ j = omega arith in
            get_elem?-none (placed c (chunks_of is) g) j (omega (arith, length-placed is g h))
            ∙ sym (get_elem?-none file j outside)
      ]

  -- The loop of `ReceiveChunkFromClient`, with a server's file that is open and not longer than the
  -- client's, on a connection where no call fails: when the chunks of the client's file arrive, each at
  -- least once, in any order, with numbers in int64_t and sizes within the buffer, and then the number -1,
  -- the loop ends and the file is the client's. A round for each chunk, and two more, are enough.
  pub receive_loop-whole :
      (is : List ℕ) (fuel : ℕ) (rest old : Bytes) (st : UploadState)
      → 0 < c
      → Complete is
      → All Sendable (chunks_of is)
      → length (chunks_of is) + 1 < fuel
      → eq_ℤ st.chunk_number (negsuc 0) ≡ false
      → st.file ≡ some old
      → length old ≤ length file
      → IsStream st.input (upload_bytes (chunks_of is) ++ rest)
      → (st' : UploadState) × (receive_loop fuel (pos c) st ≡ some (some st'))
        × (st'.file ≡ some file)
        × IsStream st'.input rest
  receive_loop-whole is fuel rest old st positive complete fits f number there short h =
      let (st', e, q, k) =
        receive_loop-placed c fuel (chunks_of is) rest old st fits f number there h in
      (st', e, q ∙ ap some (placed_whole is old positive short complete), k)
