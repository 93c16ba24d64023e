-- ===== src/Protocol/Upload/Placed.antt =====
-- What an upload leaves in the server's file.
use mathlib.Core.List.{append_assoc}
use mathlib.Core.Option
use mhftp.Base.{
  ℕ, zero, suc, ◌+◌, ◌*◌, ◌^◌, ◌≤◌, ◌<◌, ◌≡◌, refl, ap, subst, ◌∙◌, true, false, some, List, [],
  ◌∷◌, ◌++◌, arith, if◌then◌else◌, leb, length, take, drop, All, take-append,
}
use mhftp.Base.Int.{ℤ, pos, negsuc, eq_ℤ, IsInt64, ◌*ℤ◌, pos-*ℤ-pos}
use mhftp.Base.Bytes.{int64_bytes, length-int64_bytes, int64_of_bytes-int64_bytes}
use mhftp.Posix.{Bytes, write_at}
use mhftp.Posix.Write.{read_into_exact}
use mhftp.Posix.Socket.{Socket, IsStream}
use mhftp.ConTcp.Reassembly.{reads, so_read_into-IsStream}
use mhftp.Protocol.Server.{seek_set}
use mhftp.Protocol.Client.{max_chunk_size}
use mhftp.Protocol.Upload.{
  upload_message, UploadState, receive_payload, receive_sized, receive_round, receive_loop,
}

-- The chunks of an upload, one behind the other, and the number -1 that ends it.
abbrev pub upload_bytes : List (ℕ × Bytes) → Bytes
upload_bytes [] = int64_bytes (negsuc 0)
upload_bytes (u ∷ us) = upload_message u.0 u.1 ++ upload_bytes us

-- The file with each chunk at its place.
abbrev pub placed : ℕ → List (ℕ × Bytes) → Bytes → Bytes
placed c [] file = file
placed c (u ∷ us) file = placed c us (write_at (c * u.0) u.1 file)

abbrev pub Sendable : ℕ × Bytes → Type 0
Sendable u = (u.0 < 2 ^ 63) × (length u.1 ≤ max_chunk_size)

-- The state behind the bytes of a chunk.
abbrev behind : ℕ → Bytes → Socket → UploadState → UploadState
behind c part s st =
    let buffer = part ++ drop (length part) st.buffer in
    let p = seek_set st.position (st.chunk_number *ℤ pos c) in
    record st {
      buffer = buffer;
      position = p + length part;
      file = Option.map (write_at p (take (length part) buffer)) st.file;
      input = s;
    }

behind-file :
    (c i : ℕ) (part file : Bytes) (s : Socket) (st : UploadState)
    → st.chunk_number ≡ pos i
    → st.file ≡ some file
    → (behind c part s st).file ≡ some (write_at (c * i) part file)
behind-file c i part file s st number there =
    let turned : i * c ≡ c * i = omega arith in
    let place : st.chunk_number *ℤ pos c ≡ pos (c * i) =
      ap (λ z. z *ℤ pos c) number ∙ pos-*ℤ-pos i c ∙ ap pos turned in
    rw (place, there, take-append part (drop (length part) st.buffer) (length part) refl) refl

payload_lem :
    (c : ℕ) (part rest : Bytes) (st : UploadState)
    → length part ≤ max_chunk_size
    → IsStream st.input (part ++ rest)
    → (s' : Socket) × (receive_payload (pos c) (pos (length part)) st ≡ some (behind c part s' st))
      × IsStream s' rest
unfolding receive_payload
payload_lem c part rest st fits h =
    let (s', e, k) = reads part rest (length part) st.input refl h in
    let small : leb (length part) max_chunk_size ≡ true = ground arith in
    (s', rw (small, e, receive_payload) refl, k)

-- The state behind the size of a chunk.
abbrev sized : Bytes → Socket → UploadState → UploadState
sized part s st = record st { chunk_size = pos (length part); input = s }

sized_lem :
    (c : ℕ) (part rest : Bytes) (st : UploadState)
    → length part ≤ max_chunk_size
    → IsStream st.input (int64_bytes (pos (length part)) ++ (part ++ rest))
    → (s1 s' : Socket) × (receive_sized (pos c) st ≡ some (behind c part s' (sized part s1 st)))
      × IsStream s' rest
unfolding receive_sized
sized_lem c part rest st fits h =
    let (s1, e, h1) =
      so_read_into-IsStream (int64_bytes st.chunk_size) (int64_bytes (pos (length part)))
        (part ++ rest) 8 st.input (length-int64_bytes _) h in
    let (s', q, k) = payload_lem c part rest (sized part s1 st) fits h1 in
    (
      s1,
      s',
      rw (e, int64_of_bytes-int64_bytes (pos (length part)) (omega arith), receive_sized) q,
      k,
    )

-- The state behind a chunk number.
abbrev numbered : ℤ → Socket → UploadState → UploadState
numbered z s st = record st { chunk_number = z; input = s }

number_lem :
    (c : ℕ) (z : ℤ) (rest : Bytes) (st : UploadState)
    → IsInt64 z
    → IsStream st.input (int64_bytes z ++ rest)
    → (s' : Socket) × (receive_round (pos c) st ≡ (
        if eq_ℤ z (negsuc 0)
        then some (numbered z s' st)
        else receive_sized (pos c) (numbered z s' st)))
      × IsStream s' rest
unfolding receive_round
number_lem c z rest st fits h =
    let (s', e, k) = reads (int64_bytes z) rest 8 st.input (length-int64_bytes z) h in
    (
      s',
      rw
          (
            e,
            receive_round,
            read_into_exact (int64_bytes st.chunk_number) (int64_bytes z) 8 (length-int64_bytes z),
            int64_of_bytes-int64_bytes z fits,
          )
          refl,
      k,
    )

-- The loop of `ReceiveChunkFromClient`, with a server's file that is open, on a connection where no call
-- fails: it takes the chunks of an upload, none above the size of the buffer, in any order and with
-- repetitions, writes each at its place, and ends at the number -1. A round for each chunk, and two more,
-- are enough.
pub receive_loop-placed :
    (c fuel : ℕ) (us : List (ℕ × Bytes)) (rest file : Bytes) (st : UploadState)
    → All Sendable us
    → length us + 1 < fuel
    → eq_ℤ st.chunk_number (negsuc 0) ≡ false
    → st.file ≡ some file
    → IsStream st.input (upload_bytes us ++ rest)
    → (st' : UploadState) × (receive_loop fuel (pos c) st ≡ some (some st'))
      × (st'.file ≡ some (placed c us file))
      × IsStream st'.input rest
unfolding receive_loop
receive_loop-placed c zero us rest file st fits f number there h = absurd (omega arith)
receive_loop-placed c (suc zero) us rest file st fits f number there h = absurd (omega arith)
receive_loop-placed c (suc (suc fuel)) [] rest file st fits f number there h =
    let (s', e, k) = number_lem c (negsuc 0) rest st (omega arith) h in
    (numbered (negsuc 0) s' st, rw (number, receive_loop, e) refl, there, k)
receive_loop-placed c (suc (suc fuel)) ((i, part) ∷ us) rest file st (fit, fits) f number there h =
    let h0 : IsStream st.input (
        int64_bytes (pos i)
        ++ (int64_bytes (pos (length part)) ++ (part ++ (upload_bytes us ++ rest)))) =
      subst (IsStream st.input) (simp (append_assoc) refl) h in
    let (s0, e0, h1) = number_lem c (pos i) _ st (omega (arith, fit.0)) h0 in
    let (s1, s2, e1, h2) = sized_lem c part _ (numbered (pos i) s0 st) fit.1 h1 in
    let next = behind c part s2 (sized part s1 (numbered (pos i) s0 st)) in
    let (st', q, there', k) =
      receive_loop-placed c (suc fuel) us rest (write_at (c * i) part file) next fits (omega arith)
        refl (behind-file c i part file s2 (sized part s1 (numbered (pos i) s0 st)) refl there)
        h2 in
    (st', rw (number, receive_loop, e0, e1) q, there', k)
