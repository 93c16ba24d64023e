-- ===== src/Metadata/Display/Letters.antt =====
-- The letters that `DisplayControlData` prints are the statuses of the table.
use mhftp.Base.{
  ℕ, ◌≡◌, refl, ap, ◌∙◌, Bool, true, false, zero, suc, Option, none, ltb, arith, some, List, [],
  ◌∷◌, ◌++◌, length, if◌then◌else◌, ◌==◌,
}
use mhftp.Base.Int.{pos, pos_part}
use mathlib.Core.List.{append_assoc}
use mhftp.Posix.{Bytes, FileName, World, done, ◌>>=◌, bytes_eq}
use mhftp.Posix.Decimal.{format_long}
use mhftp.Tools.Colors.{strip_colors}
use mhftp.Metadata.{
  ChunkStatus, ch_ok, ch_pending, ch_error, ch_download, ch_upload, ChunkInfo, Metadata,
  IsWellFormed,
}
use mhftp.Metadata.Disk.RoundTrip.{Holds, load_metadata-Holds}
use mhftp.Tools.Colors.{print_color}
use mhftp.Metadata.Display.{
  in_use_text, status_letter, status_color, display_title, display_loop, show_letter, display_with,
  display_control_data,
}

-- The status that a letter stands for.
abbrev pub status_of_letter : ℕ → Option ChunkStatus
status_of_letter c =
    if c == b'O'
    then some ch_ok
    else if c == b'P'
    then some ch_pending
    else if c == b'E'
    then some ch_error
    else if c == b'D'
    then some ch_download
    else if c == b'U'
    then some ch_upload
    else none

abbrev pub statuses_of_letters : Bytes → List (Option ChunkStatus)
statuses_of_letters [] = []
statuses_of_letters (c ∷ text) = status_of_letter c ∷ statuses_of_letters text

abbrev pub statuses : List ChunkInfo → List (Option ChunkStatus)
statuses [] = []
statuses (c ∷ table) = some c.status ∷ statuses table

-- "Number of chunks : ", the number, and " - Status : ".
abbrev pub heading : ℕ → Bytes
heading n =
    (b'N' ∷ b'u' ∷ b'm' ∷ b'b' ∷ b'e' ∷ b'r' ∷ b' ' ∷ b'o' ∷ b'f' ∷ b' ' ∷ b'c' ∷ b'h' ∷ b'u' ∷ b'n'
      ∷ b'k' ∷ b's' ∷ b' ' ∷ b':' ∷ b' ' ∷ [])
    ++ (format_long (pos n)
        ++ (b' ' ∷ b'-' ∷ b' ' ∷ b'S' ∷ b't' ∷ b'a' ∷ b't' ∷ b'u' ∷ b's' ∷ b' ' ∷ b':' ∷ b' ' ∷ []))

-- The use of the file that a word stands for.
abbrev pub use_of_word : Bytes → Option ℕ
use_of_word word =
    if bytes_eq word (b'I' ∷ b'D' ∷ b'L' ∷ b'E' ∷ 10 ∷ [])
    then some 0
    else if bytes_eq word
        (b'D' ∷ b'O' ∷ b'W' ∷ b'N' ∷ b'L' ∷ b'O' ∷ b'A' ∷ b'D' ∷ b'I' ∷ b'N' ∷ b'G' ∷ 10 ∷ [])
    then some 1
    else if bytes_eq word (b'U' ∷ b'P' ∷ b'L' ∷ b'O' ∷ b'A' ∷ b'D' ∷ b'I' ∷ b'N' ∷ b'G' ∷ 10 ∷ [])
    then some 2
    else none

-- A mark of use that the program sets, and no other.
abbrev pub known_use : ℕ → Option ℕ
known_use n = if ltb n 3 then some n else none

use_lem : (n : ℕ) → use_of_word (in_use_text n) ≡ known_use n
unfolding bytes_eq
use_lem zero = refl
use_lem (suc zero) = refl
use_lem (suc (suc zero)) = refl
use_lem (suc (suc (suc n))) =
    let big : ltb (suc (suc (suc n))) 3 ≡ false = ground arith in rw big refl

-- One letter, with or without its colour.
letter_lem :
    (nocolor : Bool) (c : ChunkInfo) (more : Bytes)
    → statuses_of_letters (strip_colors false (show_letter nocolor c ++ more))
      ≡ some c.status ∷ statuses_of_letters (strip_colors false more)
unfolding strip_colors
letter_lem nocolor c more = by_status nocolor c.status
  where
    by_status :
        (b : Bool) (t : ChunkStatus)
        → statuses_of_letters (
            strip_colors false (print_color b (status_letter t ∷ []) (status_color t) true ++ more))
          ≡ some t ∷ statuses_of_letters (strip_colors false more)
    by_status true ch_ok = refl
    by_status true ch_pending = refl
    by_status true ch_error = refl
    by_status true ch_download = refl
    by_status true ch_upload = refl
    by_status false ch_ok = refl
    by_status false ch_pending = refl
    by_status false ch_error = refl
    by_status false ch_download = refl
    by_status false ch_upload = refl

letters_lem :
    (nocolor : Bool) (table : List ChunkInfo)
    → (text : Bytes) × (display_loop (show_letter nocolor) (length table) table ≡ some text)
      × (statuses_of_letters (strip_colors false text) ≡ statuses table)
unfolding display_loop strip_colors
letters_lem nocolor [] = ([], refl, refl)
letters_lem nocolor (c ∷ table) =
    let (more, e, h) = letters_lem nocolor table in
    (
      show_letter nocolor c ++ more,
      rw e refl,
      letter_lem nocolor c more ∙ ap (λ t. some c.status ∷ t) h,
    )

-- On the file of a well-formed object, with colours and without, `DisplayControlData` prints "Number of chunks : ", the
-- number of entries of the table, " - Status : ", and IDLE, DOWNLOADING or UPLOADING for a mark of use of 0, 1 or 2 and another
-- word for another mark, with the end of the line. Then comes a text in which, the escape sequences left out, there is one
-- letter for each entry of the table, in their order: O, P, E, D or U for its status. The file stays as it is.
pub display_control_data_lem :
    (nocolor : Bool) (m m0 : Metadata) (name : FileName) (w : World)
    → IsWellFormed m
    → Holds w name m
    → (word text : Bytes) × (display_control_data nocolor m0 name w
        ≡ done
            (
              record m { file_metadata = m0.file_metadata },
              (heading (length m.chunk_info) ++ word) ++ text,
            )
            w)
      × (use_of_word word ≡ known_use m.in_use)
      × (statuses_of_letters (strip_colors false text) ≡ statuses m.chunk_info)
unfolding display_with
display_control_data_lem nocolor m m0 name w wf h =
    let (text, e, letters) = letters_lem nocolor m.chunk_info in
    let titled : display_title m ≡ heading (length m.chunk_info) ++ in_use_text m.in_use =
      rw wf.chunks_counted (simp (append_assoc) refl) in
    (
      in_use_text m.in_use,
      text,
      rw
            (
              load_metadata-Holds m m0 name w wf h,
              ◌>>=◌,
              ap (λ n. display_loop (show_letter nocolor) (pos_part n) m.chunk_info)
                    wf.chunks_counted
                  ∙ e,
            )
            refl
          ∙ ap (λ t. done (record m { file_metadata = m0.file_metadata }, t ++ text) w) titled,
      use_lem m.in_use,
      letters,
    )
