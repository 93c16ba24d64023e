-- ===== src/InitFile.antt =====
-- initFile.cpp: the command line, `createMetaData` and `showMetaData`. An outcome that is `done` carries what
-- `showMetaData` prints before the last `exit(0)`; the messages of `Metadata::create` are left out.
pub mod Created
use mhftp.Base.{
  ℕ, Bool, true, false, Option, none, some, List, [], ◌∷◌, ◌++◌, if◌then◌else◌, ◌==◌, not, length,
  get_elem?,
}
use mhftp.Base.Int.{ℤ, pos, leb_ℤ, eq_ℤ}
use mhftp.Posix.{
  Bytes, FileName, World, exit, fault, M, ◌>>=◌, ◌>>◌, pure, exit_unless, bytes_eq, c_string,
}
use mhftp.Posix.Decimal.{atoi, format_long}
use mhftp.Crypt.{Md5}
use mhftp.Crypt.Hex.{digest_to_str}
use mhftp.Metadata.{default_chunk_size, Metadata}
use mhftp.Metadata.Disk.{load_metadata}
use mhftp.Metadata.Create.{create}
use mhftp.Protocol.Client.{max_chunk_size}

abbrev pub create_word : Bytes
create_word = b'c' ∷ b'r' ∷ b'e' ∷ b'a' ∷ b't' ∷ b'e' ∷ []

abbrev pub show_word : Bytes
show_word = b's' ∷ b'h' ∷ b'o' ∷ b'w' ∷ []

-- With a new `Metadata` object; `none` is the null pointer.
unfoldable pub create_meta_data : Md5 → Metadata → FileName → Option ℤ → M Metadata
create_meta_data md5 meta_data file_name none =
    create md5 meta_data file_name none (pos default_chunk_size) true
create_meta_data md5 meta_data file_name (some chunk_size) =
    create md5 meta_data file_name none chunk_size true

abbrev angle_end : Bytes
angle_end = b'>' ∷ 10 ∷ []

unfoldable pub shown : FileName → Metadata → Bytes
shown file m =
    b'F' ∷ b'i' ∷ b'l' ∷ b'e' ∷ b' ' ∷ b'M' ∷ b'e' ∷ b't' ∷ b'a' ∷ b'd' ∷ b'a' ∷ b't' ∷ b'a' ∷ b':'
      ∷ b' ' ∷ b'<' ∷ []
    ++ (file
        ++ (b'>' ∷ 10 ∷ 10 ∷ []
            ++ (b'F' ∷ b'i' ∷ b'l' ∷ b'e' ∷ b' ' ∷ b'N' ∷ b'a' ∷ b'm' ∷ b'e' ∷ b' ' ∷ b' ' ∷ b':'
                  ∷ b' ' ∷ b'<' ∷ []
                ++ (c_string m.file_full
                    ++ (angle_end
                        ++ (b'F' ∷ b'i' ∷ b'l' ∷ b'e' ∷ b' ' ∷ b's' ∷ b'i' ∷ b'z' ∷ b'e' ∷ b' '
                              ∷ b' ' ∷ b':' ∷ b' ' ∷ b'<' ∷ []
                            ++ (format_long m.file_size
                                ++ (angle_end
                                    ++ (b'C' ∷ b'h' ∷ b'u' ∷ b'n' ∷ b'k' ∷ b' ' ∷ b'S' ∷ b'i' ∷ b'z'
                                          ∷ b'e' ∷ b' ' ∷ b':' ∷ b' ' ∷ []
                                        ++ (format_long m.chunk_size
                                            ++ (10
                                                ∷ (b'C' ∷ b'h' ∷ b'u' ∷ b'n' ∷ b'k' ∷ b's' ∷ b' '
                                                      ∷ b' ' ∷ b' ' ∷ b' ' ∷ b' ' ∷ b':' ∷ b' ' ∷ []
                                                    ++ (format_long m.chunks
                                                        ++ (10
                                                            ∷ (b'M' ∷ b'D' ∷ b'5' ∷ b' ' ∷ b' '
                                                            ∷ b' ' ∷ b' ' ∷ b' ' ∷ b' ' ∷ b' '
                                                            ∷ b' ' ∷ b':' ∷ b' ' ∷ []
                                                            ++ (c_string (digest_to_str m.digest)
                                                            ++ (10 ∷ [])))))))))))))))))

unfoldable pub show_meta_data : Metadata → FileName → M Bytes
unfolding shown
show_meta_data meta_data file = load_metadata meta_data file >>= λ m. pure (shown file m)

-- `argc == 4 ? atoll(argv[3]) : 0`, by the text; what does not fit an int64_t is for the caller to exclude.
unfoldable pub asked_size : List Bytes → ℤ
unfolding atoi
asked_size argv = if length argv == 4 then number (get_elem? argv 3) else pos 0
  where
    number : Option Bytes → ℤ
    number none = pos 0
    number (some text) = atoi text

-- "create": a missing file name is the null pointer.
unfoldable pub run_create : Md5 → Metadata → List Bytes → M (Unit {0})
unfolding asked_size create_meta_data
run_create md5 meta_data argv = do
  let chunk_size = asked_size argv
  exit_unless (leb_ℤ chunk_size (pos max_chunk_size)) 1
  elim (get_elem? argv 2) [
    | none ↦ λ _. fault
    | some file ↦
        create_meta_data md5 meta_data file
          (if eq_ℤ chunk_size (pos 0) then none else some chunk_size)
        >>= λ _. pure tt
  ]

unfoldable pub run_show : Metadata → List Bytes → M Bytes
unfolding show_meta_data
run_show meta_data argv = elim (get_elem? argv 2) [
  | none ↦ λ _. fault
  | some file ↦ show_meta_data meta_data file
]

-- The first argument is the program; a command that is unknown does nothing.
unfoldable pub init_file_main : Md5 → Metadata → List Bytes → M Bytes
unfolding run_create run_show
init_file_main md5 meta_data argv = elim (get_elem? argv 1) [
  | none ↦ λ w. exit 1 w
  | some command ↦
      (if bytes_eq create_word command then run_create md5 meta_data argv else pure tt) >>= λ _.
      if bytes_eq show_word command then run_show meta_data argv else pure []
]
