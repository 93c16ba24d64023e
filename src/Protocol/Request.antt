-- ===== src/Protocol/Request.antt =====
-- protocol/mhproto_client.cpp: `RequestChunk` sends a chunk number as text, in a buffer of seven bytes,
-- and the server reads it by `atoi`.
use mathlib.Core.List.{append-nil}
use mhftp.Base.{
  ℕ, zero, suc, ◌-◌, ◌^◌, ◌≤◌, ◌<◌, ◌≡◌, ◌≢◌, refl, sym, ap, ◌∙◌, [], ◌∷◌, ◌++◌, arith, length,
  take, replicate, length-append, length-take, length-replicate, take_all,
}
use mhftp.Base.Int.{ℤ, pos}
use mhftp.Posix.{Bytes, c_string}
use mhftp.Posix.Decimal.{
  format_long, digits, atoi, scan, scan-lt_pow, scan-digits, scan-append_zeros, atoi_digit,
  digits_head, length-digits,
}

abbrev pub request_size : ℕ
request_size = 7

-- `snprintf` writes six characters at most; the rest of the buffer is zero.
unfoldable pub request_chunk : ℤ → Bytes
request_chunk chunk_number =
    let text = take (request_size - 1) (format_long chunk_number) in
    text ++ replicate (request_size - length text) 0

pub length-request_chunk : (z : ℤ) → length (request_chunk z) ≡ request_size
unfolding request_chunk
length-request_chunk z =
    let text = take 6 (format_long z) in
    omega (
      arith,
      length-append {0} text (replicate (7 - length text) 0),
      length-take {0} 6 (format_long z),
      length-replicate {0} {A = ℕ} (7 - length text) 0,
    )

-- The value of a request is that of the six characters.
request_value : (n : ℕ) → atoi (request_chunk (pos n)) ≡ pos (scan 0 (take 6 (digits 19 n)))
unfolding request_chunk format_long
request_value n =
    let (c, cs, p, d) = digits_head 18 n in
    let zeros = replicate (7 - length (take 6 (digits 19 n))) 0 in
    let first : take 6 (digits 19 n) ≡ c ∷ take 5 cs = ap (take 6) p ∙ (unfold take in refl) in
    ap (λ t. atoi (t ++ zeros)) first
    ∙ atoi_digit c (take 5 cs ++ zeros) d
    ∙ ap (λ t. pos (scan 0 (t ++ zeros))) (sym first)
    ∙ ap pos (scan-append_zeros 0 _ (take 6 (digits 19 n)))

-- The server reads back every chunk number below 10^6 from the buffer of `RequestChunk`.
pub atoi-request_chunk : (n : ℕ) → n < 10 ^ 6 → atoi (request_chunk (pos n)) ≡ pos n
atoi-request_chunk n h =
    request_value n
    ∙ ap (λ t. pos (scan 0 t))
        (take_all (digits 19 n) 6 (length-digits 19 5 n h) ∙ sym (append-nil (digits 19 n)))
    ∙ ap pos (scan-digits 18 n [] (omega arith))
    ∙ (unfold scan in refl)

-- A chunk number of 10^6 or more is cut by `RequestChunk`: what the server reads is another number, below
-- 10^6.
pub atoi-request_chunk_cut :
    (n : ℕ) → 10 ^ 6 ≤ n → (r : ℕ) × (atoi (request_chunk (pos n)) ≡ pos r) × (r < 10 ^ 6) × (r ≢ n)
atoi-request_chunk_cut n h =
    let r = scan 0 (take 6 (digits 19 n)) in
    let small : r < 10 ^ 6 =
      scan-lt_pow (take 6 (digits 19 n)) 6 (omega (arith, length-take {0} 6 (digits 19 n))) in
    (r, request_value n, small, omega arith)

c_string-zeros : (s : Bytes) (k : ℕ) → 0 < k → length (c_string (s ++ replicate k 0)) ≤ length s
unfolding c_string replicate
c_string-zeros [] zero h = absurd (omega arith)
c_string-zeros [] (suc k) h = omega arith
c_string-zeros (c ∷ s) k h = ground (arith, c_string-zeros s k h)

-- The buffer of a request ends in a zero.
pub c_string-request_chunk : (z : ℤ) → length (c_string (request_chunk z)) ≤ 6
unfolding request_chunk
c_string-request_chunk z =
    let text = take 6 (format_long z) in
    omega (
      arith,
      length-take {0} 6 (format_long z),
      c_string-zeros text (7 - length text) (omega (arith, length-take {0} 6 (format_long z))),
    )
