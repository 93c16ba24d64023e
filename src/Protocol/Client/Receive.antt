-- ===== src/Protocol/Client/Receive.antt =====
-- What the client takes from the server's answer is what the server read.
use mathlib.Core.List.{append_assoc}
use mhftp.Base.{◌≤◌, ◌≡◌, refl, ap, subst, ◌∙◌, true, some, ◌++◌, arith, leb, length}
use mhftp.Base.Int.{pos, eq_ℤ}
use mhftp.Base.Bytes.{int64_bytes, length-int64_bytes, int64_of_bytes-int64_bytes}
use mhftp.Posix.{Bytes}
use mhftp.Posix.Write.{read_into_exact}
use mhftp.Posix.Socket.{Socket, IsStream}
use mhftp.ConTcp.{so_read}
use mhftp.ConTcp.Reassembly.{reads}
use mhftp.Crypt.{Md5, md5_buffer}
use mhftp.Protocol.Server.Answers.{message}
use mhftp.Protocol.Client.{max_chunk_size, chunk, receive_data, receive_size, receive_chunk}

first :
    (before digest : Bytes) (s s1 : Socket)
    → length digest ≡ 16
    → so_read 16 s ≡ some (record { count = pos 16; bytes = digest; rest = s1 })
    → receive_chunk before s ≡ receive_size digest s1
unfolding receive_chunk
first before digest s s1 h e =
    rw (e, receive_chunk) (ap (λ d. receive_size d s1) (read_into_exact before digest 16 h))

receive_data_lem :
    (md5sum part rest : Bytes) (s : Socket)
    → length part ≤ max_chunk_size
    → IsStream s (part ++ rest)
    → (s' : Socket) × (receive_data md5sum (pos (length part)) s ≡ some (chunk md5sum part, s'))
      × IsStream s' rest
unfolding receive_data
receive_data_lem md5sum part rest s fits h =
    let (s', e, k) = reads part rest (length part) s refl h in
    let small : leb (length part) max_chunk_size ≡ true = ground arith in
    let same : eq_ℤ (pos (length part)) (pos (length part)) ≡ true = ground arith in
    (s', rw (small, e, receive_data, same) refl, k)

receive_size_lem :
    (md5sum part rest : Bytes) (s : Socket)
    → length part ≤ max_chunk_size
    → IsStream s (int64_bytes (pos (length part)) ++ (part ++ rest))
    → (s' : Socket) × (receive_size md5sum s ≡ some (chunk md5sum part, s')) × IsStream s' rest
unfolding receive_size
receive_size_lem md5sum part rest s fits h =
    let (s1, e, h1) =
      reads (int64_bytes (pos (length part))) (part ++ rest) 8 s (length-int64_bytes _) h in
    let (s2, q, k) = receive_data_lem md5sum part rest s1 fits h1 in
    (s2, rw (e, receive_size, int64_of_bytes-int64_bytes (pos (length part)) (omega arith)) q, k)

-- On a connection where no call fails, the client takes the digest and the bytes of an answer of the
-- server whole, if the part fits its buffer, whatever its digest buffer held before; the stream goes on
-- behind the answer.
pub receive_chunk-message :
    (md5 : Md5) (part before rest : Bytes) (s : Socket)
    → length part ≤ max_chunk_size
    → IsStream s (message md5 part ++ rest)
    → (s' : Socket) × (receive_chunk before s ≡ some (chunk (md5_buffer md5 part) part, s'))
      × IsStream s' rest
receive_chunk-message md5 part before rest s fits h =
    let digest = md5_buffer md5 part in
    let sixteen : length digest ≡ 16 = md5.length-final _ in
    let h0 : IsStream s (digest ++ (int64_bytes (pos (length part)) ++ (part ++ rest))) =
      subst (IsStream s) (simp (append_assoc) refl) h in
    let (s1, e1, h1) = reads digest _ 16 s sixteen h0 in
    let (s2, e2, h2) = receive_size_lem digest part rest s1 fits h1 in
    (s2, first before digest s s1 sixteen e1 ∙ e2, h2)
