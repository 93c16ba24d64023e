-- ===== src/Metadata/Display.antt =====
-- protocol/metadata.cpp: what `DisplayControlData` and `DisplayControlDataMD5` print.
pub mod Letters
use mathlib.Core.Option
use mhftp.Base.{ℕ, zero, suc, Bool, true, false, Option, none, some, List, [], ◌∷◌, ◌++◌}
use mhftp.Base.Int.{pos_part}
use mhftp.Posix.{Bytes, FileName, M, ◌>>=◌, lift, pure, c_string}
use mhftp.Posix.Decimal.{format_long}
use mhftp.Tools.Colors.{c_reset, dc_green, dc_white, lc_red, lc_cyan, print_color}
use mhftp.Crypt.Hex.{digest_to_str}
use mhftp.Metadata.{
  ChunkStatus, ch_ok, ch_pending, ch_error, ch_download, ch_upload, ChunkInfo, Metadata,
}
use mhftp.Metadata.Disk.{load_metadata}

abbrev pub status_letter : ChunkStatus → ℕ
status_letter ch_ok = b'O'
status_letter ch_pending = b'P'
status_letter ch_error = b'E'
status_letter ch_download = b'D'
status_letter ch_upload = b'U'

abbrev pub status_color : ChunkStatus → Bytes
status_color ch_ok = dc_green
status_color ch_pending = dc_white
status_color ch_error = lc_red
status_color ch_download = lc_cyan
status_color ch_upload = lc_cyan

abbrev pub in_use_text : ℕ → Bytes
in_use_text zero = b'I' ∷ b'D' ∷ b'L' ∷ b'E' ∷ 10 ∷ []
in_use_text (suc zero) =
    b'D' ∷ b'O' ∷ b'W' ∷ b'N' ∷ b'L' ∷ b'O' ∷ b'A' ∷ b'D' ∷ b'I' ∷ b'N' ∷ b'G' ∷ 10 ∷ []
in_use_text (suc (suc zero)) =
    b'U' ∷ b'P' ∷ b'L' ∷ b'O' ∷ b'A' ∷ b'D' ∷ b'I' ∷ b'N' ∷ b'G' ∷ 10 ∷ []
in_use_text (suc (suc (suc n))) = b'U' ∷ b'N' ∷ b'K' ∷ b'N' ∷ b'O' ∷ b'W' ∷ b'N' ∷ 10 ∷ []

abbrev number_text : Bytes
number_text =
    b'N' ∷ b'u' ∷ b'm' ∷ b'b' ∷ b'e' ∷ b'r' ∷ b' ' ∷ b'o' ∷ b'f' ∷ b' ' ∷ b'c' ∷ b'h' ∷ b'u' ∷ b'n'
    ∷ b'k' ∷ b's' ∷ b' ' ∷ b':' ∷ b' ' ∷ []

abbrev status_text : Bytes
status_text = b' ' ∷ b'-' ∷ b' ' ∷ b'S' ∷ b't' ∷ b'a' ∷ b't' ∷ b'u' ∷ b's' ∷ b' ' ∷ b':' ∷ b' ' ∷ []

abbrev pub display_title : Metadata → Bytes
display_title m = number_text ++ (format_long m.chunks ++ (status_text ++ in_use_text m.in_use))

-- The loop over the chunks, of which each is printed by `show`. An index past the table is undefined.
unfoldable pub display_loop : (ChunkInfo → Bytes) → ℕ → List ChunkInfo → Option Bytes
display_loop show zero table = some []
display_loop show (suc n) [] = none
display_loop show (suc n) (c ∷ table) =
    Option.map (λ more. show c ++ more) (display_loop show n table)

abbrev pub show_letter : Bool → ChunkInfo → Bytes
show_letter nocolor c =
    print_color nocolor (status_letter c.status ∷ []) (status_color c.status) true

abbrev dash : Bytes
dash = b' ' ∷ b'-' ∷ b' ' ∷ []

abbrev end_of_line : Bytes
end_of_line = c_reset ++ (10 ∷ [])

abbrev pub show_md5 : Bool → ChunkInfo → Bytes
show_md5 nocolor c =
    print_color nocolor (status_letter c.status ∷ dash) (status_color c.status) false
    ++ (c_string (digest_to_str c.md5sum) ++ (b' ' ∷ (format_long c.size ++ end_of_line)))

-- The title and the chunks.
unfoldable pub display_with : (ChunkInfo → Bytes) → Metadata → FileName → M (Metadata × Bytes)
unfolding display_loop
display_with show m0 meta_file = do
  m ← load_metadata m0 meta_file
  chunks ← lift (display_loop show (pos_part m.chunks) m.chunk_info)
  pure (m, display_title m ++ chunks)

abbrev pub display_control_data : Bool → Metadata → FileName → M (Metadata × Bytes)
display_control_data nocolor = display_with (show_letter nocolor)

abbrev pub display_control_data_md5 : Bool → Metadata → FileName → M (Metadata × Bytes)
display_control_data_md5 nocolor = display_with (show_md5 nocolor)
