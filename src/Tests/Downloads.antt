-- ===== src/Tests/Downloads.antt =====
-- Examples for the processes of a download and their parent.
use mhftp.Base.{
  ◌+◌, ◌*◌, ◌≤◌, ℕ, zero, suc, ◌≡◌, ◌≢◌, refl, false, true, none, some, [], ◌∷◌, arith, ltb, ◌==◌,
}
use mhftp.Base.Int.{pos}
use mhftp.Protocol.Turns.{update}
use mhftp.Posix.{World, done}
use mhftp.Metadata.{ch_error, ch_download, Metadata, IsWellFormed}
use mhftp.Metadata.Table.{get_next_pending_chunk, set_chunk_status}
use mhftp.Metadata.Disk.RoundTrip.{Holds, image, load_metadata-Holds, with_file}
use mhftp.Metadata.Disk.Update.{update_control_data_lem}
use mhftp.Protocol.Download.{
  System, selecting, claiming, publishing, claimed, nothing_left, finished, owns, get_lock, load,
  claim, publish, pick, Reach, start, later,
}
use mhftp.Protocol.Download.Runs.{Holding, Reach-Holding, owners_apart}
use mhftp.Protocol.Download.Ends.{run_length, run_bounded}
use mhftp.Protocol.Download.Undisturbed.{Calm, Going}
use mhftp.Protocol.Parent.Succeeds.{download_succeeds}
use mhftp.Protocol.Download.Finishes.{can_finish}
use mhftp.Protocol.Parent.{begin_download, forked, end_download}
use mhftp.Protocol.Parent.Started.{forked-Holding, forked-Inv, forked-Settled, forked-Bounded}
use mhftp.Protocol.Parent.Whole.{Complete, download_whole}
use mhftp.Tests.Fixtures.{digest16, five, five-IsWellFormed, meta_name, toy_md5, five_bytes}
use mhftp.Tests.Halves.{
  local_name, with_local, with_local-Holds, with_local-local, brought, half, full,
  half-IsWellFormed, full-IsWellFormed, half-Setting, full-Setting, half-Sound, full-Sound,
  half_quiet, full_quiet, none_sent,
}

-- Two processes, the first of which takes the second chunk.
abbrev half_world : World
half_world = with_local half (10 ∷ 20 ∷ [])

half-Holding : Holding half-Setting (forked 2 half half_world)
half-Holding =
    forked-Holding half-Setting 2 half half_world (10 ∷ 20 ∷ []) half-IsWellFormed
      (with_local-Holds half _) refl (with_local-local half _) (omega arith) half-Sound half_quiet

abbrev taking : Metadata
taking = record half {
  chunk_info =
      brought 0
      ∷ record { md5sum = digest16; size = pos 2; status = ch_download }
      ∷ record { md5sum = digest16; size = pos 1; status = ch_error }
      ∷ [];
}

taking-IsWellFormed : IsWellFormed taking
taking-IsWellFormed = record {
  digest_length = toy_md5.length-final _;
  file_full_length = five-IsWellFormed.file_full_length;
  file_size_fits = omega arith;
  chunk_size_fits = omega arith;
  chunks_counted = refl;
  few = omega arith;
  in_use_fits = omega arith;
  entries =
      ((toy_md5.length-final _, omega arith), ((refl, omega arith), ((refl, omega arith), tt)));
}

abbrev taking_world : World
taking_world = with_file half_world meta_name (image taking [])

abbrev first_has_one : System
first_has_one = record {
  world = taking_world;
  lock = some 0;
  pc =
      update
        (update (update (update (forked 2 half half_world).pc 0 (selecting half)) 0 (claiming half))
          0 (publishing taking 1))
        0 (claimed taking 1);
}

second_pending : get_next_pending_chunk half ≡ some (pos 1)
unfolding get_next_pending_chunk
second_pending = refl

takes_second : set_chunk_status half 1 ch_download none ≡ some taking
unfolding set_chunk_status
takes_second = refl

first_takes_one :
    Reach toy_md5 meta_name local_name five_bytes 2 2 (forked 2 half half_world) first_has_one
unfolding with_local-Holds
first_takes_one =
    later
      (later
        (later (later start (pick 0 (omega arith) (get_lock half (some 0) refl))) (
          pick 0 (omega arith) (
            load half half half_world (
              load_metadata-Holds half half meta_name half_world half-IsWellFormed
                (with_local-Holds half _)))))
        (pick 0 (omega arith) (claim half taking 1 second_pending takes_second)))
      (pick 0 (omega arith) (
        publish taking 1 taking_world (
          update_control_data_lem half taking meta_name half_world half-IsWellFormed
            taking-IsWellFormed refl (with_local-Holds half _))))

Reach-Holding_example : Holding half-Setting first_has_one
Reach-Holding_example = Reach-Holding half-Setting half-Holding first_takes_one

owners_apart_example : owns (first_has_one.pc 1) ≢ some 1
owners_apart_example = owners_apart half-Setting half-Holding first_takes_one 0 1 1 (λ e. cc) refl

-- One process, which finds no chunk to bring.
abbrev full_world : World
full_world = with_local full five_bytes

abbrev all_done : System
all_done = record {
  world = full_world;
  lock = none;
  pc =
      update
        (update (update (update (forked 1 full full_world).pc 0 (selecting full)) 0 (claiming full))
          0 nothing_left)
        0 finished;
}

all_finished : (j : ℕ) → all_done.pc j ≡ finished
all_finished zero = refl
all_finished (suc j) =
    let other : (0 == suc j) ≡ false = ground arith in
    let above : ltb (suc j) 1 ≡ false = ground arith in rw (other, above) refl

download_whole_example :
    (m1 : Metadata) × (w1 : World) × (begin_download (pos 1) five meta_name full_world ≡ done m1 w1)
    × ((t : System)
        → Reach toy_md5 meta_name local_name five_bytes 2 1 (forked 1 m1 w1) t
        → Complete meta_name t.world
        → t.world.deny local_name ≡ false
        → (t.world.files local_name ≡ some five_bytes)
          × (m2 : Metadata) × (w2 : World) × (end_download toy_md5 digest16 five meta_name
                local_name t.world
              ≡ done (m2, true) w2)
          × (m2.in_use ≡ 0)
          × (w2.files local_name ≡ some five_bytes)
          × Holds w2 meta_name m2)
download_whole_example =
    download_whole full-Setting five full_world five_bytes digest16 1 (omega arith) refl
      full-IsWellFormed (with_local-Holds full _) refl (with_local-local full _) (omega arith)
      full-Sound full_quiet

run_bounded_example : run_length first_takes_one ≤ 12 * 3 + 14 * 2
run_bounded_example = run_bounded half-Setting half-Holding first_takes_one

download_succeeds_example :
    (m1 : Metadata) × (w1 : World) × (begin_download (pos 2) five meta_name half_world ≡ done m1 w1)
    × ((t : System) (run : Reach toy_md5 meta_name local_name five_bytes 2 2 (forked 2 m1 w1) t)
        → Calm run
        → ((j : ℕ) → t.pc j ≡ finished)
        → t.world.deny local_name ≡ false
        → (t.world.files local_name ≡ some five_bytes)
          × (m2 : Metadata) × (w2 : World) × (end_download toy_md5 digest16 five meta_name
                local_name t.world
              ≡ done (m2, true) w2)
          × (m2.in_use ≡ 0)
          × (w2.files local_name ≡ some five_bytes)
          × Holds w2 meta_name m2)
download_succeeds_example =
    download_succeeds half-Setting five half_world (10 ∷ 20 ∷ []) digest16 2 (omega arith)
      (omega arith) refl half-IsWellFormed (with_local-Holds half _) refl (with_local-local half _)
      (omega arith) half-Sound half_quiet none_sent

half-Going : Going half-Setting 2 (forked 2 half half_world)
half-Going = (
  half.chunk_info,
  10 ∷ 20 ∷ [],
  forked-Inv half-Setting 2 half half_world (10 ∷ 20 ∷ []) half-IsWellFormed
      (with_local-Holds half _) refl (with_local-local half _) (omega arith) half-Sound half_quiet,
  forked-Settled 2 half half_world half.chunk_info none_sent,
)

first-Calm : Calm first_takes_one
unfolding first_takes_one
first-Calm = ((((tt, refl), refl), refl), refl)

can_finish_example :
    (u : System) × (rest : Reach toy_md5 meta_name local_name five_bytes 2 2 first_has_one u) × Calm
      rest
    × ((j : ℕ) → u.pc j ≡ finished)
can_finish_example =
    can_finish half-Setting half-Going (forked-Bounded 2 half half_world) first_takes_one first-Calm
