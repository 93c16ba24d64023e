-- ===== src/MhStatus.antt =====
-- mhstatus.cpp: the command line, and what each command does to the metadata file. An outcome that is `done`
-- carries what the program prints before its last `exit(0)`, without the lines that name the program and
-- the file.
pub mod Recovered
use mhftp.Base.{ℕ, Bool, true, false, ◌&&◌, ◌||◌, List, [], ◌∷◌, ◌++◌, if◌then◌else◌}
use mhftp.Base.Int.{ℤ, negsuc, eq_ℤ}
use mhftp.Posix.{Bytes, FileName, World, exit, M, ◌>>=◌, pure, bytes_eq}
use mhftp.Crypt.{Md5}
use mhftp.Metadata.{Metadata}
use mhftp.Metadata.Reset.{reset_downloading_chunks, reset_all_chunks}
use mhftp.Metadata.Check.{check_data_chunks}
use mhftp.Metadata.Display.{display_control_data, display_control_data_md5}

abbrev long_verbose : Bytes
long_verbose = b'-' ∷ b'-' ∷ b'v' ∷ b'e' ∷ b'r' ∷ b'b' ∷ b'o' ∷ b's' ∷ b'e' ∷ []

abbrev short_verbose : Bytes
short_verbose = b'-' ∷ b'v' ∷ []

abbrev pub long_recover : Bytes
long_recover = b'-' ∷ b'-' ∷ b'r' ∷ b'e' ∷ b'c' ∷ b'o' ∷ b'v' ∷ b'e' ∷ b'r' ∷ []

abbrev pub short_recover : Bytes
short_recover = b'-' ∷ b'r' ∷ []

abbrev pub long_reset : Bytes
long_reset = b'-' ∷ b'-' ∷ b'r' ∷ b'e' ∷ b's' ∷ b'e' ∷ b't' ∷ []

abbrev pub short_reset : Bytes
short_reset = b'-' ∷ b'e' ∷ []

abbrev pub long_force : Bytes
long_force = b'-' ∷ b'-' ∷ b'f' ∷ b'o' ∷ b'r' ∷ b'c' ∷ b'e' ∷ []

abbrev pub short_force : Bytes
short_force = b'-' ∷ b'f' ∷ []

abbrev long_check : Bytes
long_check = b'-' ∷ b'-' ∷ b'c' ∷ b'h' ∷ b'e' ∷ b'c' ∷ b'k' ∷ []

abbrev short_check : Bytes
short_check = b'-' ∷ b'c' ∷ []

-- `strcmp` with the two spellings of an option.
unfoldable pub is_option : Bytes → Bytes → Bytes → Bool
unfolding bytes_eq
is_option long short arg = bytes_eq long arg || bytes_eq short arg

-- The function that `main` calls. Each of them ends the program, so that the first test that holds decides.
pub data Command : Type 0 where
  usage : Command
  display_data : FileName → Bool → Command
  recover_meta_data : FileName → ℕ → Command
  reset_meta_data : FileName → ℕ → Command
  check_chunk_data : FileName → FileName → Command
  nothing : Command

unfoldable pub command_of_two : Bytes → FileName → Command
unfolding is_option
command_of_two option file =
    if is_option long_verbose short_verbose option
    then display_data file true
    else if is_option long_recover short_recover option
    then recover_meta_data file 0
    else if is_option long_reset short_reset option
    then reset_meta_data file 0
    else nothing

unfoldable pub command_of_three : Bytes → Bytes → FileName → Command
unfolding is_option
command_of_three option second third =
    if is_option long_recover short_recover option && is_option long_force short_force second
    then recover_meta_data third 1
    else if is_option long_reset short_reset option && is_option long_force short_force second
    then reset_meta_data third 1
    else if is_option long_check short_check option
    then check_chunk_data second third
    else nothing

-- By `argc`.
unfoldable pub command_of_args : List Bytes → Command
unfolding command_of_two command_of_three
command_of_args [] = usage
command_of_args (program ∷ []) = usage
command_of_args (program ∷ file ∷ []) = display_data file false
command_of_args (program ∷ option ∷ file ∷ []) = command_of_two option file
command_of_args (program ∷ option ∷ second ∷ third ∷ []) = command_of_three option second third
command_of_args (program ∷ a ∷ b ∷ c ∷ d ∷ more) = nothing

-- What `resetMetaData` prints when `resetAllChunks` returns -1.
abbrev pub in_use_message : Bytes
in_use_message =
    b'M' ∷ b'e' ∷ b't' ∷ b'a' ∷ b'd' ∷ b'a' ∷ b't' ∷ b'a' ∷ b' ' ∷ b'f' ∷ b'i' ∷ b'l' ∷ b'e' ∷ b' '
      ∷ b'i' ∷ b's' ∷ b' ' ∷ b'i' ∷ b'n' ∷ b' ' ∷ b'u' ∷ b's' ∷ b'e' ∷ b'.' ∷ b' ' ∷ b'I' ∷ b't'
      ∷ 39 ∷ b's' ∷ b' ' ∷ b'p' ∷ b'o' ∷ b's' ∷ b's' ∷ b'i' ∷ b'b' ∷ b'l' ∷ b'e' ∷ b' ' ∷ b't'
      ∷ b'h' ∷ b'a' ∷ b't' ∷ b' ' ∷ b't' ∷ b'h' ∷ b'e' ∷ b' ' ∷ 10 ∷ []
    ++ (b'd' ∷ b'o' ∷ b'w' ∷ b'n' ∷ b'l' ∷ b'o' ∷ b'a' ∷ b'd' ∷ b' ' ∷ b'i' ∷ b's' ∷ b' ' ∷ b's'
          ∷ b't' ∷ b'i' ∷ b'l' ∷ b'l' ∷ b' ' ∷ b'i' ∷ b'n' ∷ b' ' ∷ b'p' ∷ b'r' ∷ b'o' ∷ b'g' ∷ b'r'
          ∷ b'e' ∷ b's' ∷ b's' ∷ b' ' ∷ b'o' ∷ b'r' ∷ b' ' ∷ b't' ∷ b'h' ∷ b'e' ∷ b' ' ∷ b'm' ∷ b'h'
          ∷ b'c' ∷ b'l' ∷ b'i' ∷ b'e' ∷ b'n' ∷ b't' ∷ b' ' ∷ b' ' ∷ 10 ∷ []
        ++ (b'p' ∷ b'r' ∷ b'o' ∷ b'c' ∷ b'e' ∷ b's' ∷ b's' ∷ b' ' ∷ b'w' ∷ b'a' ∷ b's' ∷ b' ' ∷ b't'
              ∷ b'e' ∷ b'r' ∷ b'm' ∷ b'i' ∷ b'n' ∷ b'a' ∷ b't' ∷ b'e' ∷ b'd' ∷ b'.' ∷ 10 ∷ 10 ∷ []
            ++ (b'I' ∷ b'f' ∷ b' ' ∷ b't' ∷ b'h' ∷ b'e' ∷ b' ' ∷ b'p' ∷ b'r' ∷ b'o' ∷ b'c' ∷ b'e'
                  ∷ b's' ∷ b's' ∷ b' ' ∷ b'i' ∷ b's' ∷ b' ' ∷ b'n' ∷ b'o' ∷ b't' ∷ b' ' ∷ b'r'
                  ∷ b'u' ∷ b'n' ∷ b'n' ∷ b'i' ∷ b'n' ∷ b'g' ∷ b' ' ∷ b'u' ∷ b's' ∷ b'e' ∷ b':' ∷ 10
                  ∷ 10 ∷ []
                ++ b'm' ∷ b'h' ∷ b's' ∷ b't' ∷ b'a' ∷ b't' ∷ b'u' ∷ b's' ∷ b' ' ∷ b'-' ∷ b'-' ∷ b'r'
                  ∷ b'e' ∷ b's' ∷ b'e' ∷ b't' ∷ b'/' ∷ b'-' ∷ b'e' ∷ b' ' ∷ b'-' ∷ b'-' ∷ b'f'
                  ∷ b'o' ∷ b'r' ∷ b'c' ∷ b'e' ∷ b'/' ∷ b'-' ∷ b'f' ∷ b' ' ∷ b'<' ∷ b'f' ∷ b'i'
                  ∷ b'l' ∷ b'e' ∷ b'.' ∷ b'm' ∷ b'd' ∷ b'a' ∷ b't' ∷ b'a' ∷ b'>' ∷ 10 ∷ [])))

unfoldable pub reset_output : ℤ → Bytes
reset_output r = if eq_ℤ r (negsuc 0) then in_use_message else []

-- A command, with a new `Metadata` object.
unfoldable pub run_command : Bool → Md5 → Metadata → Command → M Bytes
unfolding reset_output
run_command nocolor md5 metadata usage w = exit 1 w
run_command nocolor md5 metadata (display_data file true) w =
    (display_control_data_md5 nocolor metadata file >>= λ r. pure (r.1 ++ (10 ∷ []))) w
run_command nocolor md5 metadata (display_data file false) w =
    (display_control_data nocolor metadata file >>= λ r. pure (r.1 ++ (10 ∷ []))) w
run_command nocolor md5 metadata (recover_meta_data file force) w =
    (reset_downloading_chunks metadata file force >>= λ _. pure []) w
run_command nocolor md5 metadata (reset_meta_data file force) w =
    (reset_all_chunks metadata file force >>= λ r. pure (reset_output r.0)) w
run_command nocolor md5 metadata (check_chunk_data file file_name) w =
    (check_data_chunks md5 metadata file file_name >>= λ _. pure []) w
run_command nocolor md5 metadata nothing w = (pure []) w

unfoldable pub status_main : Bool → Md5 → Metadata → List Bytes → M Bytes
unfolding command_of_args run_command
status_main nocolor md5 metadata argv = run_command nocolor md5 metadata (command_of_args argv)
