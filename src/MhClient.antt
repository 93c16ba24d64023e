-- ===== src/MhClient.antt =====
-- mhclient.cpp: the loop of `main` over the options, the name of a server (`HostPort`), and the names of the two
-- files of a download (`DownloadFile`).
pub mod Endless
pub mod Hosts
pub mod Names
pub mod Start
pub mod Asked
use mathlib.Core.Option
use mhftp.Base.{
  ℕ, zero, suc, ◌+◌, ◌==◌, Bool, true, false, Option, none, some, List, [], ◌∷◌, if◌then◌else◌,
  get_elem?, take, drop,
}
use mhftp.Base.Int.{ℤ}
use mhftp.Posix.{Bytes, FileName, bytes_eq, c_string, put_string}
use mhftp.Posix.Decimal.{atoi}
use mhftp.Tools.{suffix_to_int, str_cat, absolute_file}
use mhftp.Metadata.Create.{mdata}

-- The variables of the loop.
pub record Options : Type 0 where
  pub index_param : ℕ
  pub hosts_index : ℕ
  pub chunk_size : ℤ
  pub verbose : Bool

-- "-v". An index past the arguments is the null pointer, and `strcmp` of it is undefined.
unfoldable pub verbose_option : List Bytes → Options → Option Options
verbose_option argv o =
    Option.map
      (λ param.
        if bytes_eq param (b'-' ∷ b'v' ∷ [])
        then record o {
          index_param = o.index_param + 1;
          hosts_index = o.hosts_index + 1;
          verbose = true;
        }
        else o)
      (get_elem? argv o.index_param)

-- "-c" and its number.
unfoldable pub chunk_option : List Bytes → Options → Option Options
unfolding Option.bind suffix_to_int
chunk_option argv o = Option.bind (get_elem? argv o.index_param) λ param.
    if bytes_eq param (b'-' ∷ b'c' ∷ [])
    then Option.bind (get_elem? argv (o.index_param + 1)) (λ number.
      Option.map
        (λ size. record o {
          index_param = o.index_param + 2;
          hosts_index = o.hosts_index + 2;
          chunk_size = size;
        })
        (suffix_to_int number))
    else some o

abbrev pub starts_with_dash : Bytes → Bool
starts_with_dash [] = false
starts_with_dash (c ∷ _) = c == b'-'

-- `none` means that the fuel ran out; the inner one is undefined behaviour.
unfoldable pub option_loop : ℕ → List Bytes → Options → Option (Option Options)
unfolding verbose_option chunk_option
option_loop zero argv o = none
option_loop (suc fuel) argv o = elim (get_elem? argv o.index_param) [
  | none ↦ some none
  | some param ↦
      if starts_with_dash param
      then elim (Option.bind (verbose_option argv o) (chunk_option argv)) [
        | none ↦ some none
        | some o' ↦ option_loop fuel argv o'
      ]
      else some (some o)
]

-- `s.find(":")`; `none` is -1 as an int.
unfoldable pub find_colon : Bytes → Option ℕ
find_colon [] = none
find_colon (c ∷ s) = if c == b':' then some 0 else Option.map suc (find_colon s)

-- `HostPort`. Without a colon, the whole string is the host and is read as the port too.
unfoldable pub host_port : Bytes → Bytes × ℤ
unfolding find_colon atoi
host_port s = elim (find_colon s) [
  | none ↦ (s, atoi s)
  | some p ↦ (take p s, atoi (drop (p + 1) s))
]

-- The two names that `DownloadFile` makes, in buffers that hold something before: the local file's and the
-- metadata file's.
unfoldable pub download_names : Bytes → Bytes → FileName → FileName × FileName
unfolding put_string str_cat c_string
download_names file_name meta_name file =
    let file_name' = put_string file_name (absolute_file file) in
    (c_string file_name', c_string (str_cat (put_string meta_name (c_string file_name')) mdata))
