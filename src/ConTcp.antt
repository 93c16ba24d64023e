-- ===== src/ConTcp.antt =====
-- con_tcp.cpp: `so_read`, which goes on reading until it has all the bytes that it was asked for.
-- Opening a connection is left to the system.
pub mod Reassembly
use mhftp.Base.{
  ℕ, zero, suc, ◌+◌, ◌-◌, ◌==◌, ◌++◌, Bool, Option, none, some, List, [], ◌∷◌, if◌then◌else◌,
  length,
}
use mhftp.Base.Int.{ℤ, pos, negsuc}
use mhftp.Posix.{Bytes, read_into}
use mhftp.Posix.Socket.{Socket, ReadResult, got, would_block, read_error, sock_read}

-- The value that `so_read` returns, the bytes that it put into the buffer, and the connection
-- afterwards.
pub record SoRead : Type 0 where
  pub count : ℤ
  pub bytes : Bytes
  pub rest : Socket

-- `while (res != 0)`, with the bytes read so far. A call that would block counts as no bytes, and no
-- bytes end the loop. Every other round takes a byte, so `res` rounds are enough; `none` is one more.
unfoldable pub so_read_loop : ℕ → ℕ → Bytes → Socket → Option (Bytes × Socket)
so_read_loop fuel zero buffer s = some (buffer, s)
so_read_loop zero (suc res) buffer s = none
so_read_loop (suc fuel) (suc res) buffer s =
    let (r, s') = sock_read (suc res) s in
    elim r [
      | got bs ↦
          let more = so_read_loop fuel (suc res - length bs) (buffer ++ bs) s' in
          if length bs == 0 then some (buffer, s') else more
      | would_block ↦ some (buffer, s')
      | read_error ↦ some (buffer, s')
    ]

abbrev counted : Option (Bytes × Socket) → Option SoRead
counted none = none
counted (some (bs, s)) = some (record { count = pos (length bs); bytes = bs; rest = s })

-- The first `read` tells EAGAIN, which it takes for no bytes, from other errors, which end the call.
unfoldable pub so_read : ℕ → Socket → Option SoRead
unfolding so_read_loop
so_read len s =
    let (r, s') = sock_read len s in
    elim r [
      | got bs ↦ counted (so_read_loop (len - length bs) (len - length bs) bs s')
      | would_block ↦ counted (so_read_loop len len [] s')
      | read_error ↦ some (record { count = negsuc 0; bytes = []; rest = s' })
    ]

-- Reading from a connection, in a sequence.
abbrev pub Read {ℓ} : Type ℓ → Type ℓ
Read A = Socket → Option (A × Socket)

infixl 5 ◌>>=◌
abbrev pub ◌>>=◌ {ℓ κ} : {A : Type ℓ} {B : Type κ} → Read A → (A → Read B) → Read B
◌>>=◌ m f s = elim (m s) [ none ↦ none | some (a, s') ↦ f a s' ]

abbrev pub pure {ℓ} : {A : Type ℓ} → A → Read A
pure a s = some (a, s)

abbrev filled : Bytes → ℕ → Option SoRead → Option (Bytes × Socket)
filled buffer len none = none
filled buffer len (some r) = some (read_into buffer len r.bytes, r.rest)

-- `so_read(sd, buffer, len)` for the buffer alone, by a caller that does not look at the result.
unfoldable pub so_read_into : Bytes → ℕ → Read Bytes
unfolding so_read
so_read_into buffer len s = filled buffer len (so_read len s)
