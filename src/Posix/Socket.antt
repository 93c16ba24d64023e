-- ===== src/Posix/Socket.antt =====
-- A connection as the calls of `read` on it see it.
use mhftp.Base.{ℕ, zero, suc, ◌<◌, ◌≡◌, List, [], ◌∷◌, ◌++◌, leb, if◌then◌else◌, length, take, drop}
use mhftp.Posix.{Bytes}

-- What arrives: bytes in one segment, or a call of `read` that returns -1, with errno EAGAIN or another.
-- Behind the last event the peer has closed the connection.
pub data Event : Type 0 where
  segment : Bytes → Event
  again : Event
  failed : Event

abbrev pub Socket : Type 0
Socket = List Event

-- The result of a `read`: bytes (none at the end of the stream), or -1.
pub data ReadResult : Type 0 where
  got : Bytes → ReadResult
  would_block : ReadResult
  read_error : ReadResult

-- `read(sd, buf, n)`: a segment is taken whole or as far as `n` goes.
unfoldable pub sock_read : ℕ → Socket → ReadResult × Socket
sock_read zero s = (got [], s)
sock_read (suc n) [] = (got [], [])
sock_read (suc n) (again ∷ s) = (would_block, s)
sock_read (suc n) (failed ∷ s) = (read_error, s)
sock_read (suc n) (segment bs ∷ s) =
    if leb (length bs) (suc n)
    then (got bs, s)
    else (got (take (suc n) bs), segment (drop (suc n) bs) ∷ s)

-- The bytes of a connection on which no call fails and no segment is empty.
abbrev pub IsStream : Socket → Bytes → Type 0
IsStream [] bs = bs ≡ []
IsStream (segment part ∷ s) bs =
    (0 < length part) × (rest : Bytes) × (bs ≡ part ++ rest) × IsStream s rest
IsStream (again ∷ s) bs = ⊥
IsStream (failed ∷ s) bs = ⊥
