-- ===== src/Tests/Starts.antt =====
-- Examples for the command lines of mhclient.
use mhftp.Base.{ℕ, ◌≡◌, refl, true, Option, some, List, [], ◌∷◌, arith, take, drop}
use mhftp.Base.Int.{ℤ, pos}
use mhftp.Posix.{Bytes}
use mhftp.Tools.{suffix_to_int}
use mhftp.MhClient.Start.{download, upload, download_word, upload_word, connect_all, client_main}
use mhftp.MhClient.Asked.{Flag, verbose, chunk, client_main_starts}

abbrev flags : List Flag
flags = chunk (b'2' ∷ b'k' ∷ []) (pos 2048) ∷ verbose ∷ []

two_k : suffix_to_int (b'2' ∷ b'k' ∷ []) ≡ some (pos 2048)
unfolding suffix_to_int take
two_k = refl

-- The descriptor is the port.
abbrev by_port : Bytes → ℤ → Option ℕ
by_port host (pos port) = some port
by_port host _ = some 0

abbrev servers : List Bytes
servers = (b'a' ∷ b':' ∷ b'7' ∷ []) ∷ (b'b' ∷ b':' ∷ b'8' ∷ []) ∷ []

connects : connect_all by_port servers ≡ some (some (7 ∷ 8 ∷ []))
unfolding connect_all take drop
connects = refl

client_main_starts_example :
    (client_main by_port 3 (
        []
        ∷ download_word
        ∷ (b'-' ∷ b'c' ∷ [])
        ∷ (b'2' ∷ b'k' ∷ [])
        ∷ (b'-' ∷ b'v' ∷ [])
        ∷ (b'f' ∷ [])
        ∷ servers)
      ≡ some (some (download (7 ∷ 8 ∷ []) (b'f' ∷ []) (pos 2048) true)))
    × (client_main by_port 3 (
          []
          ∷ upload_word
          ∷ (b'-' ∷ b'c' ∷ [])
          ∷ (b'2' ∷ b'k' ∷ [])
          ∷ (b'-' ∷ b'v' ∷ [])
          ∷ (b'f' ∷ [])
          ∷ servers)
        ≡ some (some (upload (7 ∷ 8 ∷ []) (b'f' ∷ []) (pos 2048) true)))
client_main_starts_example =
    client_main_starts by_port flags [] (b'f' ∷ []) servers (7 ∷ 8 ∷ []) 3 (two_k, (tt, tt)) refl
      (omega arith) connects (omega arith)
