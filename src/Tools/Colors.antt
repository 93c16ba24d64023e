-- ===== src/Tools/Colors.antt =====
-- tools.cpp and tools.h: `PrintColor` and its escape sequences.
use mhftp.Base.{Bool, true, false, [], ◌∷◌, ◌++◌, if◌then◌else◌, ◌==◌}
use mhftp.Posix.{Bytes}

abbrev pub c_reset : Bytes
c_reset = 27 ∷ b'[' ∷ b'0' ∷ b'm' ∷ []

abbrev pub dc_green : Bytes
dc_green = 27 ∷ b'[' ∷ b'0' ∷ b';' ∷ b'3' ∷ b'2' ∷ b'm' ∷ []

abbrev pub dc_white : Bytes
dc_white = 27 ∷ b'[' ∷ b'0' ∷ b';' ∷ b'3' ∷ b'7' ∷ b'm' ∷ []

abbrev pub lc_red : Bytes
lc_red = 27 ∷ b'[' ∷ b'1' ∷ b';' ∷ b'3' ∷ b'1' ∷ b'm' ∷ []

abbrev pub lc_cyan : Bytes
lc_cyan = 27 ∷ b'[' ∷ b'1' ∷ b';' ∷ b'3' ∷ b'6' ∷ b'm' ∷ []

-- What is printed; `nocolor` is whether MHFTP_NOCOLOR is in the environment.
abbrev pub print_color : Bool → Bytes → Bytes → Bool → Bytes
print_color nocolor str color reol =
    if nocolor then str else color ++ (str ++ (if reol then c_reset else []))

-- A text without its escape sequences; the flag is whether one has begun.
unfoldable pub strip_colors : Bool → Bytes → Bytes
strip_colors inside [] = []
strip_colors true (c ∷ text) = elim (c == b'm') [
  | true ↦ strip_colors false text
  | false ↦ strip_colors true text
]
strip_colors false (c ∷ text) = elim (c == 27) [
  | true ↦ strip_colors true text
  | false ↦ c ∷ strip_colors false text
]
