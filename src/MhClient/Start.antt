-- ===== src/MhClient/Start.antt =====
-- mhclient.cpp: `main`, from the arguments to the call of `DownloadFile` or `UploadFile`. `tcp_connect` is left to
-- the system.
use mathlib.Core.Option
use mhftp.Base.{
  ℕ, ◌-◌, Bool, false, Option, none, some, List, [], ◌∷◌, if◌then◌else◌, length, ltb, get_elem?,
  drop,
}
use mhftp.Base.Int.{ℤ, pos}
use mhftp.Posix.{Bytes, FileName, bytes_eq}
use mhftp.MhClient.{Options, option_loop, host_port}

-- What `main` comes to: the message on the usage, a connection that fails, a command that it does not know, or a
-- transfer over the connections.
pub data Start : Type 0 where
  usage : Start
  not_connected : Start
  invalid : Start
  download : (sds : List ℕ) (file : FileName) (chunk_size : ℤ) (verbose : Bool) → Start
  upload : (sds : List ℕ) (file : FileName) (chunk_size : ℤ) (verbose : Bool) → Start

abbrev pub download_word : Bytes
download_word = b'd' ∷ b'o' ∷ b'w' ∷ b'n' ∷ b'l' ∷ b'o' ∷ b'a' ∷ b'd' ∷ []

abbrev pub upload_word : Bytes
upload_word = b'u' ∷ b'p' ∷ b'l' ∷ b'o' ∷ b'a' ∷ b'd' ∷ []

abbrev pub initial : Options
initial = record { index_param = 2; hosts_index = 3; chunk_size = pos 0; verbose = false }

-- `if (strcmp(argv[1], ...) == 0)`, twice.
unfoldable pub start_command : Bytes → List ℕ → FileName → Options → Start
start_command cmd sds file o =
    if bytes_eq cmd download_word
    then download sds file o.chunk_size o.verbose
    else if bytes_eq cmd upload_word
    then upload sds file o.chunk_size o.verbose
    else invalid

module _ (tcp_connect : Bytes → ℤ → Option ℕ) where
  -- The loop over the servers: the inner `none` is a connection that fails, which ends it. A name of more
  -- than 255 characters does not fit into the buffer, and is undefined.
  unfoldable pub connect_all : List Bytes → Option (Option (List ℕ))
  unfolding host_port
  connect_all [] = some (some [])
  connect_all (server ∷ servers) =
      let (host, port) = host_port server in
      if ltb 255 (length host) then none else elim (tcp_connect host port) [
        | none ↦ some none
        | some sd ↦ Option.map (Option.map (λ sds. sd ∷ sds)) (connect_all servers)
      ]

  -- Behind the options.
  unfoldable pub connected : List Bytes → Options → Option Start
  unfolding connect_all start_command Option.bind
  connected argv o = Option.bind (connect_all (drop o.hosts_index argv)) λ r. elim r [
    | none ↦ some not_connected
    | some sds ↦ Option.bind (get_elem? argv 1) (λ cmd.
        Option.map (λ file. start_command cmd sds file o) (get_elem? argv (o.hosts_index - 1)))
  ]

  -- The outer `none` means that the fuel of the loop over the options ran out, the inner one is undefined.
  unfoldable pub client_main : ℕ → List Bytes → Option (Option Start)
  unfolding option_loop connected
  client_main fuel argv =
      if ltb (length argv) 4
      then some (some usage)
      else Option.map (λ r. Option.bind r (connected argv)) (option_loop fuel argv initial)
