-- ===== src/MhClient/Hosts.antt =====
-- The name and the port of a server.
use mathlib.Core.List.{append_assoc}
use mathlib.Core.Option
use mhftp.Base.{
  ℕ, suc, ◌+◌, ◌^◌, ◌<◌, ◌≡◌, ◌≢◌, refl, sym, ap, ap₂, ◌∙◌, some, [], ◌∷◌, ◌++◌, ≢→==, length, drop,
  All, length-append, take-append, drop-append,
}
use mhftp.Base.Int.{pos}
use mhftp.Posix.{Bytes}
use mhftp.Posix.Decimal.{atoi, digits}
use mhftp.Tools.Suffix.{atoi_whole}
use mhftp.MhClient.{find_colon, host_port}

find_colon_lem :
    (host port : Bytes)
    → All (λ c. c ≢ b':') host
    → find_colon (host ++ (b':' ∷ port)) ≡ some (length host)
unfolding find_colon
find_colon_lem [] port h = refl
find_colon_lem (c ∷ host) port h =
    rw (≢→== _ _ h.0) (ap (Option.map suc) (find_colon_lem host port h.1))

-- `HostPort` of a host without a colon, a colon and the digits of a port of at most ten digits gives the
-- host and the port.
pub host_port-digits :
    (host : Bytes) (port : ℕ)
    → All (λ c. c ≢ b':') host
    → port < 10 ^ 10
    → host_port (host ++ (b':' ∷ digits 10 port)) ≡ (host, pos port)
unfolding host_port
host_port-digits host port h small =
    let behind : drop (length host + 1) (host ++ (b':' ∷ digits 10 port)) ≡ digits 10 port =
      ap (drop (length host + 1)) (sym (append_assoc host (b':' ∷ []) (digits 10 port)))
      ∙ drop-append (host ++ (b':' ∷ [])) (digits 10 port) (length host + 1)
          (length-append {0} host (b':' ∷ [])) in
    rw (find_colon_lem host (digits 10 port) h, host_port)
      (ap₂ (λ a b. (a, b)) (take-append host (b':' ∷ digits 10 port) (length host) refl)
        (ap atoi behind ∙ atoi_whole port small))
