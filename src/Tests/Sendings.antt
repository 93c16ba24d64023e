-- ===== src/Tests/Sendings.antt =====
-- Examples for the processes of an upload, which send a file of five bytes in chunks of two.
use mhftp.Base.{
  ℕ, zero, suc, ◌+◌, ◌*◌, ◌<◌, ◌≤◌, ◌≡◌, ◌≢◌, ◌⊎◌, false, refl, sym, ap, ◌∙◌, true, some, List, [],
  ◌∷◌, ◌++◌, arith, get_elem?,
}
use mhftp.Base.Int.{pos}
use mhftp.Base.{length, none, take, replicate, if◌then◌else◌}
use mhftp.Tools.{str_cat, absolute_file}
use mhftp.Metadata.Create.{metadata_name}
use mhftp.Protocol.Uploads.{begin_upload}
use mhftp.Protocol.Uploads.Fresh.{Uploadable}
use mhftp.Protocol.Uploads.Succeeds.{server_file}
use mhftp.Protocol.Session.{Server, Locals, core}
use mhftp.Protocol.Session.Uploaded.{core-upload}
use mhftp.Posix.{c_string, put_string, Bytes, World, done, exit, bytes_eq, open_file}
use mathlib.Core.Option.{some-injective}
use mhftp.Metadata.{ChunkInfo, ch_ok, ch_pending, ch_download, ch_upload, Metadata, IsWellFormed}
use mhftp.Metadata.Disk.{load_metadata}
use mhftp.Metadata.Disk.RoundTrip.{load_metadata-Holds}
use mhftp.Metadata.PayLoad.{chunk_count}
use mhftp.Protocol.Upload.Placed.{upload_bytes}
use mhftp.Protocol.Upload.Whole.{chunks_of}
use mhftp.Protocol.Turns.{update}
use mhftp.Protocol.Download.Settled.{Every}
use mhftp.Protocol.Sending.{
  waiting, finished, upload_chunk_command, System, begin, Reach, pick, start, later,
}
use mhftp.Protocol.Sending.Invariant.{begun, Setting, pay_load_array}
use mhftp.Protocol.Sending.Written.{messages}
use mhftp.Protocol.Sending.Log.{opening, closing, Among, IsOk}
use mhftp.Protocol.Sending.Settled.{ended}
use mhftp.Protocol.Sending.Runs.{Going, Reach-trans, sent_once, every_chunk_sent}
use mhftp.Protocol.Sending.Arrives.{at_fork, at_fork-Going}
use mhftp.Protocol.Sending.Ends.{run_length, upload_bounded}
use mhftp.Protocol.Sending.Exclusion.{Held}
use mhftp.Protocol.Sending.Finishes.{upload_can_finish}
use mhftp.Posix.Socket.{IsStream}
use mhftp.Tests.Fixtures.{toy_md5, five_bytes, digest16, five, five-IsWellFormed, meta_name}
use mhftp.Tests.Halves.{local_name, with_local, with_local-Holds, with_local-local}

abbrev waits : ℕ → ChunkInfo
waits n = record { md5sum = digest16; size = pos n; status = ch_pending }

-- Nothing has been sent.
abbrev fresh : Metadata
fresh = record five { file_metadata = meta_name; chunk_info = waits 2 ∷ waits 2 ∷ waits 1 ∷ [] }

fresh-IsWellFormed : IsWellFormed fresh
fresh-IsWellFormed = record {
  digest_length = refl;
  file_full_length = five-IsWellFormed.file_full_length;
  file_size_fits = omega arith;
  chunk_size_fits = omega arith;
  chunks_counted = refl;
  few = omega arith;
  in_use_fits = omega arith;
  entries = ((refl, omega arith), ((refl, omega arith), ((refl, omega arith), tt)));
}

apart : bytes_eq meta_name local_name ≡ false
unfolding bytes_eq
apart = refl

three : chunk_count 5 (pos 2) ≡ some (pos 3)
unfolding chunk_count
three = refl

fresh-Setting : Setting meta_name local_name fresh five_bytes 2 3
fresh-Setting = record {
  apart = apart;
  sized = refl;
  measured = refl;
  positive = omega arith;
  fits = omega arith;
  cut = three;
}

abbrev fresh_world : World
fresh_world = with_local fresh five_bytes

all_wait : Every (λ s. s ≡ ch_pending) fresh.chunk_info
all_wait zero e there = ap ChunkInfo.status (sym (some-injective _ _ there))
all_wait (suc zero) e there = ap ChunkInfo.status (sym (some-injective _ _ there))
all_wait (suc (suc zero)) e there = ap ChunkInfo.status (sym (some-injective _ _ there))
all_wait (suc (suc (suc a))) e there = cc

unmarked : Every (λ s. (s ≢ ch_upload) × (s ≢ ch_download)) fresh.chunk_info
unmarked a e there =
    let waits = all_wait a e there in
    (
      λ q. let clash : ch_pending ≡ ch_upload = sym waits ∙ q in cc,
      λ q. let clash : ch_pending ≡ ch_download = sym waits ∙ q in cc,
    )

none_ok : Every (λ s. s ≢ ch_ok) fresh.chunk_info
none_ok a e there q = let clash : ch_pending ≡ ch_ok = sym (all_wait a e there) ∙ q in cc

abbrev WasOk : ℕ → Type 0
WasOk = IsOk fresh.chunk_info

fresh-Going : (n : ℕ) → Going fresh-Setting WasOk n (at_fork fresh fresh_world)
fresh-Going n =
    at_fork-Going fresh-Setting n fresh.chunk_info fresh fresh_world fresh-IsWellFormed
      (with_local-Holds fresh _) refl (with_local-local fresh _) refl unmarked

fresh-Held : Held (at_fork fresh fresh_world)
fresh-Held j e = cc

reads_fresh : load_metadata fresh meta_name fresh_world ≡ done fresh fresh_world
reads_fresh =
    load_metadata-Holds fresh fresh meta_name fresh_world fresh-IsWellFormed
      (with_local-Holds fresh _)

opens : open_file local_name fresh_world ≡ some five_bytes
unfolding open_file with_local bytes_eq
opens = refl

-- The first process has begun.
abbrev one_begun : System
one_begun = record (at_fork fresh fresh_world) {
  pc = update (at_fork fresh fresh_world).pc 0 (record {
    object = fresh;
    sizes = pay_load_array five_bytes 2 3;
    output = upload_chunk_command ∷ [];
    at = waiting;
  });
}

begins : (n : ℕ) → 0 < n → Reach local_name n (at_fork fresh fresh_world) one_begun
begins n some_process =
    later start (pick 0 some_process (begin fresh five_bytes fresh_world refl reads_fresh opens))

-- One process, from its start to its end.
abbrev Ended : Type 0
Ended =
    (u : System) × Reach local_name 1 one_begun u
    × ((j : ℕ) → j < 1 → ended (u.pc j).at ≡ true)
    × ((j : ℕ) → j < 1 → begun (one_begun.pc j).at ≡ true → (u.pc j).at ≡ finished)

upload_can_finish_example : Ended
upload_can_finish_example =
    upload_can_finish fresh-Setting WasOk (fresh-Going 1) fresh-Held (begins 1 (omega arith))

whole_run : Ended
whole_run =
    upload_can_finish fresh-Setting WasOk (fresh-Going 1) fresh-Held (begins 1 (omega arith))

abbrev all_sent : System
all_sent = whole_run.0

all_sent-run : Reach local_name 1 (at_fork fresh fresh_world) all_sent
all_sent-run = Reach-trans (begins 1 (omega arith)) whole_run.1

all_sent-finished : (all_sent.pc 0).at ≡ finished
all_sent-finished = whole_run.3 0 (omega arith) refl

all_sent-ended : (j : ℕ) → j < 1 → ended (all_sent.pc j).at ≡ true
all_sent-ended = whole_run.2

sent_once_example :
    (nums : ℕ → List ℕ) × ((j : ℕ)
      → (all_sent.pc j).output
        ≡ opening (all_sent.pc j).at
          ++ (messages (chunks_of five_bytes 2 (nums j)) ++ closing (all_sent.pc j).at))
    × ((i j p q a : ℕ)
        → get_elem? (nums i) p ≡ some a
        → get_elem? (nums j) q ≡ some a
        → (i ≡ j) × (p ≡ q))
sent_once_example = sent_once fresh-Setting WasOk (fresh-Going 1) all_sent-run

every_chunk_sent_example :
    (nums : ℕ → List ℕ) × ((a : ℕ) → a < 3 → WasOk a ⊎ Among nums a)
    × ((j q a : ℕ) → get_elem? (nums j) q ≡ some a → (j < 1) × (a < 3))
    × ((j : ℕ)
        → (all_sent.pc j).at ≡ finished
        → (all_sent.pc j).output
          ≡ upload_chunk_command ∷ upload_bytes (chunks_of five_bytes 2 (nums j)))
every_chunk_sent_example =
    every_chunk_sent fresh-Setting WasOk (fresh-Going 1) all_sent-run all_sent-ended 0
      all_sent-finished

upload_bounded_example : run_length (begins 2 (omega arith)) ≤ 11 * 3 + 13 * 2
upload_bounded_example = upload_bounded fresh-Setting WasOk (fresh-Going 2) (begins 2 (omega arith))

-- A world with the file and no other.
abbrev alone : World
alone = record {
  files = λ name. if bytes_eq name local_name then some five_bytes else none;
  deny = λ _. false;
}

meta_apart : bytes_eq (c_string (metadata_name local_name)) local_name ≡ false
unfolding metadata_name str_cat absolute_file c_string bytes_eq replicate put_string take
meta_apart = refl

five-Uploadable : Uploadable five local_name five_bytes alone 2 3
unfolding bytes_eq
five-Uploadable = record {
  there = refl;
  readable = refl;
  clean = ((λ e. cc), tt);
  short = omega arith;
  buffer = five-IsWellFormed.file_full_length;
  small = omega arith;
  positive = omega arith;
  fits = omega arith;
  cut = three;
  few = omega arith;
  missing = rw meta_apart refl;
  writable = refl;
  apart = meta_apart;
}

core-upload_example :
    (m1 : Metadata) × (sent : Bytes) × (w1 : World) × (begin_upload toy_md5 five local_name
        (pos 2)
        (pos 1)
        alone
      ≡ done (m1, sent ∷ []) w1)
    × ((u : System) × Reach local_name 1 (at_fork m1 w1) u × ((u.pc 0).at ≡ finished))
    × ((t : System)
        → Reach local_name 1 (at_fork m1 w1) t
        → (t.pc 0).at ≡ finished
        → (sv : Server) (v : World) → v.deny (server_file local_name sv.upload) ≡ false
        → ((old : Bytes)
            → v.files (server_file local_name sv.upload) ≡ some old
            → length old ≤ length five_bytes)
        → IsStream sv.input (sent ++ (t.pc 0).output)
        → (junk : ℕ → Bytes) (locals : Locals)
        → (fuel : ℕ) × (v2 : World) × (core toy_md5 junk fuel locals 3 sv v ≡ some (exit 0 v2))
          × (v2.files (server_file local_name sv.upload) ≡ some five_bytes))
core-upload_example =
    core-upload toy_md5 five local_name five_bytes alone 2 3 five-Uploadable (omega arith)
