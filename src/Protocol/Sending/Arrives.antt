-- ===== src/Protocol/Sending/Arrives.antt =====
-- An upload by one process, from its start to the server's file.
use mhftp.Base.{
  ℕ, suc, subst, ◌+◌, ◌/◌, ◌^◌, ◌<◌, ◌≤◌, ◌≡◌, ◌≢◌, inl, inr, refl, ap, true, some, none, List, [],
  ◌∷◌, ◌++◌, arith, length, get_elem?, All, zero,
}
use mhftp.Base.Int.{ℤ, pos}
use mhftp.Posix.{Bytes, FileName, World, open_file}
use mhftp.Posix.Socket.{Socket, IsStream}
use mhftp.ConTcp.{so_read}
use mhftp.ConTcp.Reassembly.{so_read-IsStream}
use mhftp.Metadata.{ChunkInfo, ch_ok, ch_upload, ch_download, Metadata, IsWellFormed}
use mhftp.Metadata.Disk.RoundTrip.{Holds, with_file-files}
use mhftp.Metadata.Disk.Update.{with_table}
use mhftp.Metadata.PayLoad.Tiling.{chunk_of_byte}
use mhftp.Protocol.Server.Answers.{length-slice}
use mhftp.Protocol.Commands.{upload_chunk, rcv_cmd}
use mhftp.Protocol.Upload.{put_back, receive_chunk_from_client}
use mhftp.Protocol.Upload.Placed.{Sendable, upload_bytes}
use mhftp.Protocol.Upload.Whole.{chunks_of, Complete, receive_loop-whole}
use mhftp.Protocol.Download.Settled.{Every}
use mhftp.Protocol.Sending.{starting, finished, upload_chunk_command, System, Reach}
use mhftp.Protocol.Sending.Invariant.{Setting}
use mhftp.Protocol.Sending.Log.{IsOk}
use mhftp.Protocol.Sending.Settled.{ended}
use mhftp.Protocol.Sending.Runs.{Going, every_chunk_sent}

-- The processes when they are forked: each has a copy of the parent's object and has written nothing.
abbrev pub at_fork : Metadata → World → System
at_fork m w = record {
  world = w;
  lock = none;
  pc = λ _. record { object = m; sizes = []; output = []; at = starting };
}

module _ {meta_file local_file : FileName} {header : Metadata} {file : Bytes} {c k : ℕ}
    (setting : Setting meta_file local_file header file c k) where
  -- A table that no transfer has marked.
  abbrev pub Unmarked : List ChunkInfo → Type 0
  Unmarked = Every (λ s. (s ≢ ch_upload) × (s ≢ ch_download))

  pub at_fork-Going :
      (n : ℕ) (table : List ChunkInfo) (m : Metadata) (w : World)
      → IsWellFormed (with_table header table)
      → Holds w meta_file (with_table header table)
      → length table ≡ k
      → w.files local_file ≡ some file
      → m.file_metadata ≡ meta_file
      → Unmarked table
      → Going setting (IsOk table) n (at_fork m w)
  at_fork-Going n table m w wf holds counted stored name unmarked = (
    table,
    λ _. [],
    record {
      well_formed = wf;
      holds = holds;
      counted = counted;
      stored = stored;
      locked = λ j e. cc;
      unique = λ i j a e. cc;
      locals = λ _. tt;
      owned = λ a e there up. absurd ((unmarked a e there).0 up);
      named = λ _. name;
      arrays = λ j e. cc;
    },
    record {
      writes = λ _. refl;
      unstarted = λ _ _. refl;
      accounted = λ j q a e. cc;
      once = λ i j p q a e. cc;
      sending = λ j a e. cc;
      covered = λ a ok. inl ok;
    },
    record {
      undownloaded = λ a e there. (unmarked a e there).1;
      over = λ j e. cc;
      idle = λ _ _. refl;
    },
  )

  -- Numbers of chunks of the file can be sent.
  sendable :
      (is : List ℕ)
      → k ≤ 2 ^ 63
      → ((q a : ℕ) → get_elem? is q ≡ some a → a < k)
      → All Sendable (chunks_of file c is)
  sendable [] few below = tt
  sendable (i ∷ is) few below = (
    (omega (arith, below 0 i refl), omega (arith, length-slice file c i, setting.fits)),
    sendable is few (λ q. below (suc q)),
  )

  complete :
      (is : List ℕ) → ((a : ℕ) → a < k → (q : ℕ) × (get_elem? is q ≡ some a)) → Complete file c is
  complete is all j inside =
      all (j / c) (chunk_of_byte (length file) c k setting.positive setting.cut j inside)

  the_command :
      (bs : Bytes) (s : Socket)
      → IsStream s ((upload_chunk_command ∷ []) ++ bs)
      → (s' : Socket) × (rcv_cmd s ≡ some (upload_chunk, s')) × IsStream s' bs
  unfolding rcv_cmd
  the_command bs s h =
      let (s', e, h') = so_read-IsStream (upload_chunk_command ∷ []) bs s h in
      let one : so_read 1 s
          ≡ some (record { count = pos 1; bytes = upload_chunk_command ∷ []; rest = s' }) =
        e in
      (s', rw (rcv_cmd, one) refl, h')

  -- An upload by one process, of a file for which the metadata file has a table with no chunk in CH_OK,
  -- CH_UPLOAD or CH_DOWNLOAD, in any run in which the process ends because no chunk is pending. On a
  -- connection where no call fails, the server takes what the process has written: `RcvCmd` calls the
  -- handler of UPLOAD_CHUNK, which ends, with some number of rounds, whatever its variables held before. It
  -- was told the same chunk size, and its file could be opened and was not longer than the client's: behind
  -- the handler it is the client's file.
  pub upload_arrives :
      (table : List ChunkInfo) (m : Metadata) (w : World)
      → IsWellFormed (with_table header table)
      → Holds w meta_file (with_table header table)
      → length table ≡ k
      → w.files local_file ≡ some file
      → m.file_metadata ≡ meta_file
      → Every (λ s. (s ≢ ch_upload) × (s ≢ ch_download)) table
      → Every (λ s. s ≢ ch_ok) table
      → {t : System} → Reach local_file 1 (at_fork m w) t
      → (t.pc 0).at ≡ finished
      → (server_file : FileName) (v : World) (old : Bytes) → open_file server_file v ≡ some old
      → length old ≤ length file
      → (rest junk : Bytes) (junk_size : ℤ) (s : Socket) → IsStream s ((t.pc 0).output ++ rest)
      → (s' : Socket) × (rcv_cmd s ≡ some (upload_chunk, s'))
        × (fuel : ℕ) × (v' : World) × (s2 : Socket) × (receive_chunk_from_client fuel junk junk_size
              (pos c)
              server_file
              s'
              v
            ≡ some (some (v', s2)))
        × (v'.files server_file ≡ some file)
        × IsStream s2 rest
  unfolding receive_chunk_from_client
  upload_arrives table m w wf holds counted stored name unmarked none_ok {t} run left server_file v
        old opened short rest junk junk_size s streams =
      let (nums, all, inside, output) =
        every_chunk_sent setting (IsOk table)
          (at_fork-Going 1 table m w wf holds counted stored name unmarked) run (λ j lt. only j lt)
          0 left in
      let streams' : IsStream s
          ((upload_chunk_command ∷ []) ++ (upload_bytes (chunks_of file c (nums 0)) ++ rest)) =
        subst (IsStream s) (ap (λ bs. bs ++ rest) (output 0 left)) streams in
      let (s', command, streams1) = the_command _ s streams' in
      let (st', ends, whole, behind) =
        receive_loop-whole file c (nums 0) (length (chunks_of file c (nums 0)) + 2) rest old
          (record {
            chunk_number = pos 0;
            chunk_size = junk_size;
            buffer = junk;
            position = 0;
            file = open_file server_file v;
            input = s';
          })
          setting.positive
          (complete (nums 0) (λ a below. elim (all a below) [
            | inl (e, there, ok) ↦ absurd (none_ok a e there ok)
            | inr (zero, q, at) ↦ (q, at)
            | inr (suc j, q, at) ↦ let (h, _) = inside (suc j) q a at in absurd (omega (arith, h))
          ]))
          (sendable (nums 0) (omega (arith, wf.few, counted)) (λ q a at. (inside 0 q a at).1))
          (omega arith) refl opened short streams1 in
      (
        s',
        command,
        length (chunks_of file c (nums 0)) + 2,
        put_back v server_file (some file),
        st'.input,
        rw ends (ap (λ f. some (some (put_back v server_file f, st'.input))) whole),
        with_file-files v server_file file,
        behind,
      )
    where
      only : (j : ℕ) → j < 1 → ended (t.pc j).at ≡ true
      only zero lt = ap ended left
      only (suc j) lt = absurd (omega arith)
