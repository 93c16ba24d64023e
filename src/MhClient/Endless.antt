-- ===== src/MhClient/Endless.antt =====
-- What an option that mhclient does not know does to it.
use mhftp.Base.{ℕ, zero, suc, ◌≡◌, refl, true, false, none, some, List, [], ◌∷◌, get_elem?}
use mhftp.Posix.{Bytes, bytes_eq}
use mhftp.MhClient.{Options, verbose_option, chunk_option, starts_with_dash, option_loop}

-- At a parameter that starts with a dash and is not "-v" or "-c", the loop never ends: no number of rounds
-- is enough.
pub option_loop_unknown :
    (argv : List Bytes) (param : Bytes) (o : Options)
    → get_elem? argv o.index_param ≡ some param
    → starts_with_dash param ≡ true
    → bytes_eq param (b'-' ∷ b'v' ∷ []) ≡ false
    → bytes_eq param (b'-' ∷ b'c' ∷ []) ≡ false
    → (fuel : ℕ) → option_loop fuel argv o ≡ none
unfolding option_loop verbose_option chunk_option
option_loop_unknown argv param o there dash v c zero = refl
option_loop_unknown argv param o there dash v c (suc fuel) =
    rw (there, option_loop, dash, there, verbose_option, v, there, chunk_option, c)
      (option_loop_unknown argv param o there dash v c fuel)
