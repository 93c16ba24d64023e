-- ===== src/Tests/Texts.antt =====
-- Examples for names, numbers and digests.
use mhftp.Base.{false, none, ℕ, ◌^◌, ◌<◌, ◌≡◌, ◌≢◌, refl, some, [], ◌∷◌, arith, take, replicate}
use mhftp.Base.Int.{pos, negsuc}
use mhftp.Posix.{bytes_eq, c_string, c_string}
use mhftp.Posix.Decimal.{digits, atoi, format_long}
use mhftp.Tools.{absolute_file, suffix_to_int}
use mhftp.Tools.Path.{absolute_file_whole}
use mhftp.Crypt.{md5_buffer, md5_file}
use mhftp.Crypt.Hex.{digest_to_str}
use mhftp.Crypt.Hex.Printed.{bytes_of_hex, bytes_of_hex-digest_to_str}
use mhftp.Crypt.Stream.{md5_file-md5_buffer}
use mhftp.Protocol.Request.{request_chunk, atoi-request_chunk_cut}
use mhftp.MhClient.{Options, option_loop}
use mhftp.MhClient.Endless.{option_loop_unknown}
use mhftp.Tests.Fixtures.{digest16, five_bytes, toy_md5}

five_mega : suffix_to_int (b'5' ∷ b'M' ∷ []) ≡ some (pos 5242880)
unfolding suffix_to_int take
five_mega = refl

no_suffix : suffix_to_int (b'5' ∷ b'x' ∷ []) ≡ some (negsuc 0)
unfolding suffix_to_int take
no_suffix = refl

absolute_file_whole_example : absolute_file (b'/' ∷ b'f' ∷ []) ≡ b'/' ∷ b'f' ∷ []
absolute_file_whole_example = absolute_file_whole b'/' (b'f' ∷ []) ((omega arith, omega arith), tt)

md5_file-md5_buffer_example : md5_file toy_md5 five_bytes ≡ some (md5_buffer toy_md5 five_bytes)
md5_file-md5_buffer_example = md5_file-md5_buffer toy_md5 five_bytes

-- The request for chunk 1234567 is read as one for chunk 123456.
millionth : atoi (request_chunk (pos 1234567)) ≡ pos 123456
unfolding request_chunk take replicate atoi format_long digits
millionth = refl

atoi-request_chunk_cut_example :
    (r : ℕ) × (atoi (request_chunk (pos 1234567)) ≡ pos r) × (r < 10 ^ 6) × (r ≢ 1234567)
atoi-request_chunk_cut_example = atoi-request_chunk_cut 1234567 (omega arith)

bytes_of_hex-digest_to_str_example : bytes_of_hex (c_string (digest_to_str digest16)) ≡ digest16
bytes_of_hex-digest_to_str_example = bytes_of_hex-digest_to_str digest16 refl (ground arith)

abbrev at_start : Options
at_start = record { index_param = 2; hosts_index = 3; chunk_size = pos 0; verbose = false }

option_loop_unknown_example :
    option_loop 1000 ((b'm' ∷ []) ∷ (b'd' ∷ []) ∷ (b'-' ∷ b'x' ∷ []) ∷ []) at_start ≡ none
unfolding bytes_eq
option_loop_unknown_example =
    option_loop_unknown ((b'm' ∷ []) ∷ (b'd' ∷ []) ∷ (b'-' ∷ b'x' ∷ []) ∷ []) (b'-' ∷ b'x' ∷ [])
      at_start refl refl refl refl 1000
