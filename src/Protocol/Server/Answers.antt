-- ===== src/Protocol/Server/Answers.antt =====
-- What the server answers: for each request the digest, the size and the bytes of that part of the file.
use Prim.Native.Nat.{min}
use native.Mathlib.Nat.{mul_comm}
use mathlib.Core.List.{append_assoc, append-nil}
use mhftp.Base.{
  ℕ, zero, suc, ◌+◌, ◌-◌, ◌*◌, ◌^◌, ◌<◌, ◌≡◌, refl, sym, ap, ◌∙◌, false, some, List, [], ◌∷◌, ◌++◌,
  arith, ◌==◌, length, get_elem?, take, drop, replicate, All, length-take, length-drop,
  take-append-drop,
}
use mhftp.Base.Int.{ℤ, pos, pos-*ℤ-pos}
use mhftp.Base.Bytes.{int64_bytes}
use mhftp.Posix.{Bytes, c_string, read_into}
use mhftp.Posix.Write.{read_into-append, read_into_exact}
use mhftp.Posix.Socket.{Socket, IsStream}
use mhftp.ConTcp.{so_read}
use mhftp.ConTcp.Reassembly.{so_read-IsStream, IsStream-closed, so_read_closed}
use mhftp.Crypt.{Md5, md5_buffer}
use mhftp.Metadata.PayLoad.{chunk_count, get_pay_load_array}
use mhftp.Metadata.PayLoad.Tiling.{get_pay_load_array_entry}
use mhftp.Protocol.Request.{
  request_chunk, length-request_chunk, atoi-request_chunk, c_string-request_chunk,
}
use mhftp.Protocol.Server.{
  ServeState, stop, go, Chunk, load_chunk_from_file, serve_chunk, serve_number, serve_request,
  serve_round, serve_loop,
}

-- Part `i` of a file, cut into parts of `c` bytes.
abbrev pub slice : Bytes → ℕ → ℕ → Bytes
slice file c i = take c (drop (c * i) file)

-- The digest, the size and the bytes of a part.
abbrev pub message : Md5 → Bytes → Bytes
message md5 part = md5_buffer md5 part ++ (int64_bytes (pos (length part)) ++ part)

pub length-slice : (file : Bytes) (c i : ℕ) → length (slice file c i) ≡ min c (length file - c * i)
length-slice file c i =
    omega (arith, length-take {0} c (drop (c * i) file), length-drop {0} (c * i) file)

module _ (md5 : Md5) (junk : ℕ → Bytes) (file : Bytes) (c n : ℕ) where
  abbrev array : List ℤ
  array = get_pay_load_array (pos (length file)) (pos c) (pos n)

  -- The bytes that `LoadChunkFromFile` reads at the place of part `i`.
  load_chunk_from_file-slice :
      (i : ℕ)
      → load_chunk_from_file md5 junk file (c * i) (length (slice file c i)) ≡ (
        record { data_ = slice file c i; md5sum = md5_buffer md5 (slice file c i) },
        c * i + length (take (length (slice file c i)) (drop (c * i) file)),
      )
  unfolding load_chunk_from_file
  load_chunk_from_file-slice i =
      ap
        (λ bs. (
          record { data_ = bs; md5sum = md5_buffer md5 bs },
          c * i + length (take (length (slice file c i)) (drop (c * i) file)),
        ))
        loaded
    where
      k : ℕ
      k = length (slice file c i)

      loaded : read_into (junk k) k (drop (c * i) file) ≡ slice file c i
      loaded =
          ap (read_into (junk k) k) (sym (take-append-drop c (drop (c * i) file)))
          ∙ read_into-append (junk k) (slice file c i) (drop c (drop (c * i) file)) k refl

  module _ (positive : 0 < c) (counted : chunk_count (length file) (pos c) ≡ some (pos n)) where
    entry : (i : ℕ) → i < n → get_elem? array i ≡ some (pos (length (slice file c i)))
    entry i h =
        let (size, e, _, _, _, q) =
          get_pay_load_array_entry (length file) c n positive counted i h in
        e ∙ ap (λ k. some (pos k)) (q ∙ sym (length-slice file c i))

    -- The state after the answer to a request for part `i`.
    abbrev after_answer : ServeState → Socket → ℕ → ServeState
    after_answer st s i = record st {
      position = c * i + length (take (length (slice file c i)) (drop (c * i) file));
      input = s;
      output = st.output ++ message md5 (slice file c i);
    }

    serve_chunk_lem :
        (st : ServeState) (i : ℕ)
        → i < n
        → serve_chunk md5 junk file (pos c) st i (get_elem? array i)
          ≡ go (after_answer st st.input i)
    unfolding serve_chunk
    serve_chunk_lem st i h =
        rw
          (
            entry i h,
            serve_chunk,
            pos-*ℤ-pos i c,
            mul_comm i c,
            ap (λ (p : Chunk × ℕ). p.0) (load_chunk_from_file-slice i),
            ap (λ (p : Chunk × ℕ). p.1) (load_chunk_from_file-slice i),
          )
          refl

    serve_request_lem :
        (st : ServeState) (s : Socket) (i : ℕ)
        → i < n
        → i < 10 ^ 6
        → serve_request md5 junk file
            (pos c)
            array
            st
            (record { count = pos 7; bytes = request_chunk (pos i); rest = s })
          ≡ go (after_answer st s i)
    unfolding serve_request
    serve_request_lem st s i h small =
        let buffer : read_into (replicate 7 0) 7 (request_chunk (pos i)) ≡ request_chunk (pos i) =
          read_into_exact (replicate 7 0) (request_chunk (pos i)) 7
            (length-request_chunk (pos i)) in
        let ended : (length (c_string (request_chunk (pos i))) == 7) ≡ false =
          ground (arith, c_string-request_chunk (pos i)) in
        rw (buffer, ended, atoi-request_chunk i small)
          (unfold serve_number in serve_chunk_lem (record st { input = s }) i h)

    -- A round of the loop answers one request, and leaves the rest of the stream.
    pub serve_round_lem :
        (st : ServeState) (rest : Bytes) (i : ℕ)
        → i < n
        → i < 10 ^ 6
        → IsStream st.input (request_chunk (pos i) ++ rest)
        → (s' : Socket) × (serve_round md5 junk file (pos c) array st ≡ go (after_answer st s' i))
          × IsStream s' rest
    unfolding serve_round
    serve_round_lem st rest i h small streams =
        let (s', e, k) = so_read-IsStream (request_chunk (pos i)) rest st.input streams in
        let seven = length-request_chunk (pos i) in
        let read_seven : so_read 7 st.input
            ≡ some (record { count = pos 7; bytes = request_chunk (pos i); rest = s' }) =
          ap (λ l. so_read l st.input) (sym seven)
          ∙ e
          ∙ ap (λ l. some (record { count = pos l; bytes = request_chunk (pos i); rest = s' }))
              seven in
        (s', rw (read_seven, serve_round) (serve_request_lem st s' i h small), k)

    abbrev pub requests : List ℕ → Bytes
    requests [] = []
    requests (i ∷ is) = request_chunk (pos i) ++ requests is

    abbrev pub answers : List ℕ → Bytes
    answers [] = []
    answers (i ∷ is) = message md5 (slice file c i) ++ answers is

    serve_round_closed :
        (st : ServeState)
        → IsStream st.input []
        → serve_round md5 junk file (pos c) array st ≡ stop (record st { input = [] })
    unfolding serve_round
    serve_round_closed st h =
        rw (ap (so_read 7) (IsStream-closed st.input h) ∙ so_read_closed 6, serve_round)
          (unfold serve_request in refl)

    -- For a positive chunk size and the count of `chunk_count`: to requests for any chunks below the
    -- count and below 10^6, in any order and with repetitions, on a connection that then ends, the loop of
    -- `SendChunkToClient` with a retry left sends the parts of the file in that order, each behind its
    -- digest and size, and ends. A round for each request, and one more, are enough.
    pub serve_loop-answers :
        (is : List ℕ) (fuel : ℕ) (st : ServeState)
        → All (λ i. (i < n) × (i < 10 ^ 6)) is
        → length is < fuel
        → 0 < st.wait_for_client
        → IsStream st.input (requests is)
        → (st' : ServeState) × (serve_loop md5 junk fuel file (pos c) array st ≡ some (stop st'))
          × (st'.output ≡ st.output ++ answers is)
    unfolding serve_loop
    serve_loop-answers is zero st h f w streams = absurd (omega arith)
    serve_loop-answers [] (suc fuel) st h f w streams =
        let waits : (st.wait_for_client == 0) ≡ false = ground arith in
        (
          record st { input = [] },
          rw (waits, serve_round_closed st streams, serve_loop) refl,
          sym (append-nil st.output),
        )
    serve_loop-answers (i ∷ is) (suc fuel) st (h, hs) f w streams =
        let waits : (st.wait_for_client == 0) ≡ false = ground arith in
        let (s', e, k) = serve_round_lem st (requests is) i h.0 h.1 streams in
        let (st', q, o) = serve_loop-answers is fuel (after_answer st s' i) hs (omega arith) w k in
        (
          st',
          rw (waits, e, serve_loop) q,
          o ∙ append_assoc st.output (message md5 (slice file c i)) (answers is),
        )
