-- ===== src/Protocol/Client.antt =====
-- protocol/mhproto_client.cpp: how the client takes the answer to a request.
pub mod Receive
use mhftp.Base.{
  ℕ, zero, suc, leb, Bool, true, false, Option, none, some, List, [], ◌∷◌, if◌then◌else◌,
}
use mhftp.Base.Int.{ℤ, pos, negsuc, eq_ℤ}
use mhftp.Base.Bytes.{int64_bytes, int64_of_bytes}
use mhftp.Posix.{Bytes, read_into}
use mhftp.Posix.Socket.{Socket}
use mhftp.ConTcp.{SoRead, so_read}

-- MAX_CHUNK_SIZE, the size of `rcv_buffer`
abbrev pub max_chunk_size : ℕ
max_chunk_size = 20971520

-- A whole chunk, or `sock_error`. In either case `rcv_md5sum` holds what has arrived of the digest.
pub data Received : Type 0 where
  chunk : Bytes → Bytes → Received
  sock_error : Bytes → Received

-- A size that is negative or above the buffer's is undefined.
unfoldable pub receive_data : Bytes → ℤ → Socket → Option (Received × Socket)
unfolding so_read
receive_data md5sum (negsuc _) s = none
receive_data md5sum (pos size) s =
    if leb size max_chunk_size
    then elim (so_read size s) [
      | none ↦ none
      | some r ↦
          if eq_ℤ r.count (pos size)
          then some (chunk md5sum r.bytes, r.rest)
          else some (sock_error md5sum, r.rest)
    ]
    else none

unfoldable pub receive_size : Bytes → Socket → Option (Received × Socket)
unfolding receive_data
receive_size md5sum s = elim (so_read 8 s) [
  | none ↦ none
  | some r ↦
      if eq_ℤ r.count (pos 8)
      then receive_data md5sum (int64_of_bytes r.bytes) r.rest
      else some (sock_error md5sum, r.rest)
]

-- The three reads of the loop of `DownloadFileFromServer`, with the digest buffer before them.
unfoldable pub receive_chunk : Bytes → Socket → Option (Received × Socket)
unfolding receive_size
receive_chunk rcv_md5sum s = elim (so_read 16 s) [
  | none ↦ none
  | some r ↦
      let md5sum = read_into rcv_md5sum 16 r.bytes in
      if eq_ℤ r.count (pos 16) then receive_size md5sum r.rest else some (sock_error md5sum, r.rest)
]
