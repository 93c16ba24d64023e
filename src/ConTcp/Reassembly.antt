-- ===== src/ConTcp/Reassembly.antt =====
-- `so_read` gives the same bytes however the connection cuts them into segments.
use mathlib.Core.List.{append_assoc, append-nil, tail}
use mhftp.Base.{
  ℕ, zero, suc, ◌+◌, ◌-◌, ◌≤◌, ◌<◌, ◌≡◌, refl, sym, ap, ap₂, subst, ◌∙◌, inl, inr, false, some, [],
  ◌∷◌, ◌++◌, arith, leb, ◌==◌, Bool-cases, length, length-append, take-append, drop-append,
}
use mhftp.Base.Int.{pos}
use mhftp.Posix.{Bytes}
use mhftp.Posix.Socket.{Socket, ReadResult, segment, again, failed, got, sock_read, IsStream}
use mhftp.ConTcp.{so_read_loop, so_read, so_read_into}
use mhftp.Posix.Write.{read_into_exact}

-- The shorter of two prefixes of a list is a prefix of the other.
prefixes :
    (xs ys zs ws : Bytes)
    → xs ++ ys ≡ zs ++ ws
    → length zs ≤ length xs
    → (more : Bytes) × (xs ≡ zs ++ more) × (ws ≡ more ++ ys)
prefixes xs ys [] ws e h = (xs, refl, sym e)
prefixes [] ys (z ∷ zs) ws e h = absurd (omega arith)
prefixes (x ∷ xs) ys (z ∷ zs) ws e h =
    let (more, p, q) = prefixes xs ys zs ws (ap tail e) (omega arith) in (more, ap₂ ◌∷◌ (cc) p, q)

-- One `read` takes a part of what is asked for, and the stream goes on behind it.
record Taken (n : ℕ) (s : Socket) (x rest : Bytes) : Type 0 where
  part : Bytes
  later : Bytes
  s' : Socket
  result : sock_read n s ≡ (got part, s')
  some_bytes : 0 < length part
  split : x ≡ part ++ later
  streams : IsStream s' (later ++ rest)

sock_read_longer :
    (x more : Bytes) (s : Socket) (n : ℕ)
    → length x ≡ suc n
    → leb (length (x ++ more)) (suc n) ≡ false
    → sock_read (suc n) (segment (x ++ more) ∷ s) ≡ (got x, segment more ∷ s)
unfolding sock_read
sock_read_longer x more s n e h =
    rw (h, take-append x more (suc n) e, drop-append x more (suc n) e) refl

sock_read-IsStream :
    (s : Socket) (x rest : Bytes) (n : ℕ)
    → IsStream s (x ++ rest)
    → length x ≡ suc n
    → Taken (suc n) s x rest
sock_read-IsStream [] x rest n h e = absurd (omega (arith, ap length h, length-append {0} x rest))
sock_read-IsStream (again ∷ s) x rest n h e = absurd h
sock_read-IsStream (failed ∷ s) x rest n h e = absurd h
sock_read-IsStream (segment bs ∷ s) x rest n (h, r, q, k) e =
    elim (Bool-cases (leb (length bs) (suc n))) [
      | inl fits ↦
          let (more, p, t) = prefixes x rest bs r q (ground arith) in
          record {
            part = bs;
            later = more;
            s' = s;
            result = unfold sock_read in rw fits refl;
            some_bytes = h;
            split = p;
            streams = subst (IsStream s) t k;
          }
      | inr longer ↦
          let over : suc n < length bs = ground arith in
          let (more, p, t) = prefixes bs r x rest (sym q) (omega arith) in
          record {
            part = x;
            later = [];
            s' = segment more ∷ s;
            result =
                ap (λ b. sock_read (suc n) (segment b ∷ s)) p
                ∙ sock_read_longer x more s n e (ap (λ b. leb (length b) (suc n)) (sym p) ∙ longer);
            some_bytes = omega arith;
            split = sym (append-nil x);
            streams = (omega (arith, ap length p, length-append {0} x more), r, t, k);
          }
    ]

so_read_loop_round :
    (fuel n : ℕ) (buffer : Bytes) (s : Socket) (part : Bytes) (s' : Socket)
    → sock_read (suc n) s ≡ (got part, s')
    → 0 < length part
    → so_read_loop (suc fuel) (suc n) buffer s
      ≡ so_read_loop fuel (suc n - length part) (buffer ++ part) s'
unfolding so_read_loop
so_read_loop_round fuel n buffer s part s' e h =
    let some_bytes : (length part == 0) ≡ false = ground arith in
    rw (e, so_read_loop, some_bytes, ap (λ (p : ReadResult × Socket). p.1) e) refl

so_read_loop-IsStream :
    (fuel : ℕ) (x rest buffer : Bytes) (s : Socket) (n : ℕ)
    → IsStream s (x ++ rest)
    → length x ≡ n
    → n ≤ fuel
    → (s' : Socket) × (so_read_loop fuel n buffer s ≡ some (buffer ++ x, s')) × IsStream s' rest
so_read_loop-IsStream fuel [] rest buffer s zero h e f =
    (s, unfold so_read_loop in ap (λ b. some (b, s)) (sym (append-nil buffer)), h)
so_read_loop-IsStream fuel (b ∷ x) rest buffer s zero h e f = absurd (omega arith)
so_read_loop-IsStream zero x rest buffer s (suc n) h e f = absurd (omega arith)
so_read_loop-IsStream (suc fuel) x rest buffer s (suc n) h e f =
    let t = sock_read-IsStream s x rest n h e in
    let parts : length x ≡ length t.part + length t.later =
      ap length t.split ∙ length-append t.part t.later in
    let (s', q, k) =
      so_read_loop-IsStream fuel t.later rest (buffer ++ t.part) t.s' (suc n - length t.part)
        t.streams (omega (arith, t.some_bytes)) (omega (arith, t.some_bytes)) in
    (
      s',
      so_read_loop_round fuel n buffer s t.part t.s' t.result t.some_bytes
          ∙ q
          ∙ ap (λ b. some (b, s'))
              (append_assoc buffer t.part t.later ∙ ap (λ b. buffer ++ b) (sym t.split)),
      k,
    )

so_read_first :
    (len : ℕ) (s : Socket) (part : Bytes) (s1 : Socket) {x : Bytes} {s2 : Socket}
    → sock_read len s ≡ (got part, s1)
    → so_read_loop (len - length part) (len - length part) part s1 ≡ some (x, s2)
    → so_read len s ≡ some (record { count = pos (length x); bytes = x; rest = s2 })
unfolding so_read
so_read_first len s part s1 e q = rw (e, so_read, ap (λ (p : ReadResult × Socket). p.1) e, q) refl

-- On a connection where no call fails, however it is cut into segments, `so_read` of `length x` bytes
-- ends, returns that number with the first bytes `x` of the stream, and leaves the rest of the stream.
pub so_read-IsStream :
    (x rest : Bytes) (s : Socket)
    → IsStream s (x ++ rest)
    → (s' : Socket) × (so_read (length x) s
        ≡ some (record { count = pos (length x); bytes = x; rest = s' }))
      × IsStream s' rest
so_read-IsStream [] rest s h = (s, unfold so_read sock_read so_read_loop in refl, h)
so_read-IsStream (b ∷ x) rest s h =
    let t = sock_read-IsStream s (b ∷ x) rest (length x) h refl in
    let parts : length (b ∷ x) ≡ length t.part + length t.later =
      ap length t.split ∙ length-append t.part t.later in
    let n = length (b ∷ x) - length t.part in
    let (s', q, k) =
      so_read_loop-IsStream n t.later rest t.part t.s' n t.streams (omega arith) (omega arith) in
    (s', so_read_first _ s t.part t.s' t.result (q ∙ ap (λ v. some (v, s')) (sym t.split)), k)

-- The same for the buffer of a caller.
-- `so_read` of a number of bytes that the stream has.
pub reads :
    (x rest : Bytes) (n : ℕ) (s : Socket)
    → length x ≡ n
    → IsStream s (x ++ rest)
    → (s' : Socket) × (so_read n s ≡ some (record { count = pos n; bytes = x; rest = s' }))
      × IsStream s' rest
reads x rest n s e h =
    let (s', q, k) = so_read-IsStream x rest s h in
    (
      s',
      ap (λ l. so_read l s) (sym e)
          ∙ q
          ∙ ap (λ l. some (record { count = pos l; bytes = x; rest = s' })) e,
      k,
    )

pub so_read_into-IsStream :
    (buffer x rest : Bytes) (n : ℕ) (s : Socket)
    → length x ≡ n
    → IsStream s (x ++ rest)
    → (s' : Socket) × (so_read_into buffer n s ≡ some (x, s')) × IsStream s' rest
so_read_into-IsStream buffer x rest n s e h =
    let (s', q, k) = so_read-IsStream x rest s h in
    (s', into s' (ap (λ l. so_read l s) (sym e) ∙ q), k)
  where
    into :
        (t : Socket)
        → so_read n s ≡ some (record { count = pos (length x); bytes = x; rest = t })
        → so_read_into buffer n s ≡ some (x, t)
    into t q = unfold so_read_into in rw (q, so_read_into, read_into_exact buffer x n e) refl

-- A stream with no bytes is a closed connection, where `so_read` returns 0.
pub IsStream-closed : (s : Socket) → IsStream s [] → s ≡ []
IsStream-closed [] h = refl
IsStream-closed (again ∷ s) h = absurd h
IsStream-closed (failed ∷ s) h = absurd h
IsStream-closed (segment bs ∷ s) (h, r, e, k) =
    absurd (omega (arith, ap length e, length-append {0} bs r))

pub so_read_closed :
    (n : ℕ) → so_read (suc n) [] ≡ some (record { count = pos 0; bytes = []; rest = [] })
unfolding so_read so_read_loop sock_read
so_read_closed n = let e : suc n - 0 ≡ suc n = omega arith in rw e refl
