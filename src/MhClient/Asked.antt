-- ===== src/MhClient/Asked.antt =====
-- What mhclient does with a well-formed command line.
use mhftp.Base.{
  ℕ, zero, suc, ◌+◌, ◌-◌, ◌<◌, ◌≡◌, refl, sym, ap, ◌∙◌, Bool, true, false, Option, some, List, [],
  ◌∷◌, ◌++◌, arith, length, get_elem?, drop, All, ltb, length-append,
}
use mhftp.Base.Int.{ℤ, pos}
use mhftp.Posix.{Bytes, FileName, bytes_eq}
use mhftp.Tools.{suffix_to_int}
use mhftp.MhClient.{Options, verbose_option, chunk_option, starts_with_dash, option_loop}
use mhftp.MhClient.Start.{
  download, upload, download_word, upload_word, initial, start_command, connect_all, connected,
  client_main,
}

-- The options of a command line: "-v", or "-c", a text and the number that it stands for.
pub data Flag : Type 0 where
  verbose : Flag
  chunk : (text : Bytes) (size : ℤ) → Flag

abbrev pub Reads : Flag → Type 0
Reads verbose = Unit
Reads (chunk text size) = suffix_to_int text ≡ some size

-- The arguments of the options.
abbrev pub arguments : List Flag → List Bytes
arguments [] = []
arguments (verbose ∷ flags) = (b'-' ∷ b'v' ∷ []) ∷ arguments flags
arguments (chunk text size ∷ flags) = (b'-' ∷ b'c' ∷ []) ∷ text ∷ arguments flags

-- The variables behind the options: the last chunk size counts.
abbrev pub wanted : List Flag → Options → Options
wanted [] o = o
wanted (verbose ∷ flags) o =
    wanted flags (record o {
      index_param = o.index_param + 1;
      hosts_index = o.hosts_index + 1;
      verbose = true;
    })
wanted (chunk text size ∷ flags) o = wanted flags (record o {
  index_param = o.index_param + 2;
  hosts_index = o.hosts_index + 2;
  chunk_size = size;
})

at_suc :
    (xs : List Bytes) (i : ℕ) (x : Bytes) (rest : List Bytes)
    → drop i xs ≡ x ∷ rest
    → (get_elem? xs i ≡ some x) × (drop (suc i) xs ≡ rest)
unfolding drop
at_suc [] zero x rest e = absurd cc
at_suc [] (suc i) x rest e = absurd cc
at_suc (y ∷ xs) zero x rest e = (cc, cc)
at_suc (y ∷ xs) (suc i) x rest e = at_suc xs i x rest e

at_drop :
    (xs : List Bytes) (i : ℕ) (x : Bytes) (rest : List Bytes)
    → drop i xs ≡ x ∷ rest
    → (get_elem? xs i ≡ some x) × (drop (i + 1) xs ≡ rest)
at_drop xs i x rest e =
    let (here, next) = at_suc xs i x rest e in
    let one : i + 1 ≡ suc i = omega arith in (here, ap (λ j. drop j xs) one ∙ next)

not_an_option :
    (file : Bytes) (c : ℕ) → starts_with_dash file ≡ false → bytes_eq file (b'-' ∷ c ∷ []) ≡ false
unfolding bytes_eq
not_an_option [] c h = refl
not_an_option (b ∷ file) c h = rw h refl

-- The loop over the options.
option_loop-wanted :
    (flags : List Flag) (argv servers : List Bytes) (file : FileName) (o : Options) (fuel : ℕ)
    → All Reads flags
    → starts_with_dash file ≡ false
    → drop o.index_param argv ≡ arguments flags ++ file ∷ servers
    → length flags < fuel
    → option_loop fuel argv o ≡ some (some (wanted flags o))
unfolding option_loop verbose_option chunk_option bytes_eq
option_loop-wanted flags argv servers file o zero reads plain at h = absurd (omega arith)
option_loop-wanted [] argv servers file o (suc fuel) reads plain at h =
    let (here, _) = at_drop argv o.index_param file servers at in rw (here, option_loop, plain) refl
option_loop-wanted (chunk text size ∷ flags) argv servers file o (suc fuel) (number, reads) plain at
      h =
    let (here, next) = at_drop argv o.index_param _ _ at in
    let (there, behind) = at_drop argv (o.index_param + 1) _ _ next in
    let two : o.index_param + 1 + 1 ≡ o.index_param + 2 = omega arith in
    rw (here, option_loop, here, verbose_option, here, chunk_option, there, number)
      (option_loop-wanted flags argv servers file _ fuel reads plain
        (ap (λ i. drop i argv) (sym two) ∙ behind) (omega (arith, h)))
option_loop-wanted (verbose ∷ []) argv servers file o (suc fuel) reads plain at h =
    let (here, next) = at_drop argv o.index_param _ _ at in
    let (there, _) = at_drop argv (o.index_param + 1) _ _ next in
    rw (here, option_loop, here, verbose_option, there, chunk_option, not_an_option file b'c' plain)
      (option_loop-wanted [] argv servers file _ fuel tt plain next (omega (arith, h)))
option_loop-wanted (verbose ∷ verbose ∷ flags) argv servers file o (suc fuel) (_, reads) plain at
      h =
    let (here, next) = at_drop argv o.index_param _ _ at in
    let (there, _) = at_drop argv (o.index_param + 1) _ _ next in
    rw (here, option_loop, here, verbose_option, there, chunk_option)
      (option_loop-wanted (verbose ∷ flags) argv servers file _ fuel reads plain next
        (omega (arith, h)))
option_loop-wanted (verbose ∷ chunk text size ∷ flags) argv servers file o (suc fuel)
      (_, (number, reads)) plain at h =
    let (here, next) = at_drop argv o.index_param _ _ at in
    let (there, next') = at_drop argv (o.index_param + 1) _ _ next in
    let (behind, last) = at_drop argv (o.index_param + 1 + 1) _ _ next' in
    let three : o.index_param + 1 + 1 + 1 ≡ o.index_param + 1 + 2 = omega arith in
    rw (here, option_loop, here, verbose_option, there, chunk_option, behind, number)
      (option_loop-wanted flags argv servers file _ fuel reads plain
        (ap (λ i. drop i argv) (sym three) ∙ last) (omega (arith, h)))

-- The last chunk size that the options give, and whether "-v" is among them.
abbrev pub chunk_asked : ℤ → List Flag → ℤ
chunk_asked z [] = z
chunk_asked z (verbose ∷ flags) = chunk_asked z flags
chunk_asked z (chunk text size ∷ flags) = chunk_asked size flags

abbrev pub verbose_asked : List Flag → Bool
verbose_asked [] = false
verbose_asked (verbose ∷ flags) = true
verbose_asked (chunk text size ∷ flags) = verbose_asked flags

wanted-chunk_size :
    (flags : List Flag) (o : Options) → (wanted flags o).chunk_size ≡ chunk_asked o.chunk_size flags
wanted-chunk_size [] o = refl
wanted-chunk_size (verbose ∷ flags) o = wanted-chunk_size flags _
wanted-chunk_size (chunk text size ∷ flags) o = wanted-chunk_size flags _

wanted-verbose_set :
    (flags : List Flag) (o : Options) → o.verbose ≡ true → (wanted flags o).verbose ≡ true
wanted-verbose_set [] o e = e
wanted-verbose_set (verbose ∷ flags) o e = wanted-verbose_set flags _ refl
wanted-verbose_set (chunk text size ∷ flags) o e = wanted-verbose_set flags _ e

wanted-verbose :
    (flags : List Flag) (o : Options)
    → o.verbose ≡ false
    → (wanted flags o).verbose ≡ verbose_asked flags
wanted-verbose [] o e = e
wanted-verbose (verbose ∷ flags) o e = wanted-verbose_set flags _ refl
wanted-verbose (chunk text size ∷ flags) o e = wanted-verbose flags _ e

-- The file stands in front of the servers, at the place that the two indices say.
wanted_place :
    (flags : List Flag) (argv rest : List Bytes) (o : Options)
    → o.hosts_index ≡ o.index_param + 1
    → drop o.index_param argv ≡ arguments flags ++ rest
    → ((wanted flags o).hosts_index ≡ (wanted flags o).index_param + 1)
      × (drop (wanted flags o).index_param argv ≡ rest)
wanted_place [] argv rest o next at = (next, at)
wanted_place (verbose ∷ flags) argv rest o next at =
    let (_, behind) = at_drop argv o.index_param _ _ at in
    wanted_place flags argv rest _ (omega (arith, next)) behind
wanted_place (chunk text size ∷ flags) argv rest o next at =
    let (_, there) = at_drop argv o.index_param _ _ at in
    let (_, behind) = at_drop argv (o.index_param + 1) _ _ there in
    let two : o.index_param + 1 + 1 ≡ o.index_param + 2 = omega arith in
    wanted_place flags argv rest _ (omega (arith, next)) (ap (λ i. drop i argv) (sym two) ∙ behind)

module _ (tcp_connect : Bytes → ℤ → Option ℕ) (flags : List Flag) (program : Bytes)
    (file : FileName) (servers : List Bytes) (sds : List ℕ) (fuel : ℕ) (reads : All Reads flags)
    (plain : starts_with_dash file ≡ false) (some_server : 0 < length servers)
    (connect : connect_all tcp_connect servers ≡ some (some sds))
    (enough : length flags < fuel) where
  -- The command line with some command.
  abbrev pub line : Bytes → List Bytes
  line cmd = program ∷ cmd ∷ (arguments flags ++ file ∷ servers)

  runs :
      (cmd : Bytes)
      → client_main tcp_connect fuel (line cmd)
        ≡ some (some (start_command cmd sds file (wanted flags initial)))
  unfolding client_main connected drop
  runs cmd =
      let (next, place) = wanted_place flags (line cmd) (file ∷ servers) initial refl refl in
      let (here, behind) =
        at_drop (line cmd) (wanted flags initial).index_param file servers place in
      let hosts : drop (wanted flags initial).hosts_index (line cmd) ≡ servers =
        ap (λ i. drop i (line cmd)) next ∙ behind in
      let back : (wanted flags initial).hosts_index - 1 ≡ (wanted flags initial).index_param =
        omega (arith, next) in
      let long : ltb (length (line cmd)) 4 ≡ false =
        ground (arith, length-append (arguments flags) (file ∷ servers)) in
      rw
        (
          long,
          option_loop-wanted flags (line cmd) servers file initial fuel reads plain refl enough,
          hosts,
          connect,
          ap (get_elem? (line cmd)) back ∙ here,
        )
        refl

  -- A command line with a command, options that the program knows, with numbers that it can read, a file
  -- whose name does not start with a dash, and at least one server, all of which can be connected to:
  -- mhclient starts the command with that file, over the connections to the servers in their order, with
  -- the last chunk size that the options give, or 0, and verbose if "-v" is among them. A round for each
  -- option and one more are enough for the loop.
  pub client_main_starts :
      (client_main tcp_connect fuel (line download_word)
        ≡ some (some (download sds file (chunk_asked (pos 0) flags) (verbose_asked flags))))
      × (client_main tcp_connect fuel (line upload_word)
          ≡ some (some (upload sds file (chunk_asked (pos 0) flags) (verbose_asked flags))))
  unfolding start_command bytes_eq
  client_main_starts =
      let size = wanted-chunk_size flags initial in
      let loud = wanted-verbose flags initial refl in
      (runs download_word ∙ rw (size, loud) refl, runs upload_word ∙ rw (size, loud) refl)
