-- ===== src/Protocol/Uploads/Succeeds.antt =====
-- An upload by one process, from the client's parent to the server's file.
use mhftp.Base.{
  ℕ, ◌≤◌, ◌≡◌, refl, sym, ◌∙◌, false, Option, none, some, [], ◌∷◌, ◌++◌, arith, length,
}
use mhftp.Base.Int.{ℤ, pos}
use mhftp.Posix.{Bytes, FileName, World, done, ◌>>=◌, ◌>>◌, c_string, put_string, open_file}
use mhftp.Posix.Socket.{Socket, IsStream}
use mhftp.ConTcp.{so_read}
use mhftp.ConTcp.Reassembly.{so_read-IsStream}
use mhftp.Tools.{absolute_file}
use mhftp.Crypt.{Md5, md5_buffer}
use mhftp.Metadata.{ch_ok, ch_pending, ch_upload, ch_download, Metadata}
use mhftp.Metadata.Disk.RoundTrip.{with_file, with_file-files}
use mhftp.Metadata.PayLoad.Tiling.{length-init_loop, init_loop-pending}
use mhftp.Metadata.Create.{metadata_name, stored_name}
use mhftp.Protocol.Client.{max_chunk_size}
use mhftp.Protocol.Commands.{
  Upload, upload_init, upload_chunk, rcv_cmd, touch, init_upload, ask_upload,
}
use mhftp.Protocol.Commands.Asked.{upload_request_heard}
use mhftp.Protocol.Upload.{receive_chunk_from_client}
use mhftp.Protocol.Sending.{finished, System, Reach}
use mhftp.Protocol.Sending.Invariant.{Setting}
use mhftp.Protocol.Sending.Arrives.{Unmarked, at_fork, upload_arrives}
use mhftp.Protocol.Uploads.Ends.{one_ends}
use mhftp.Protocol.Uploads.{upload_init_command, begin_upload}
use mhftp.Protocol.Uploads.Fresh.{
  Uploadable, uploading, uploading-IsWellFormed, announcement, begin_upload_fresh,
}

-- The server's file is there behind `touch`, and not longer than before.
touched :
    (name : FileName) (v : World) (l : ℕ)
    → v.deny name ≡ false
    → ((old : Bytes) → v.files name ≡ some old → length old ≤ l)
    → (v1 : World) × (old : Bytes) × (touch name v ≡ done tt v1)
      × (open_file name v1 ≡ some old)
      × (length old ≤ l)
unfolding touch open_file
touched name v l allowed short = by_file (v.files name) refl
  where
    by_file :
        (r : Option Bytes)
        → v.files name ≡ r
        → (v1 : World) × (old : Bytes) × (touch name v ≡ done tt v1)
          × (open_file name v1 ≡ some old)
          × (length old ≤ l)
    by_file none e = (
      with_file v name [],
      [],
      rw (allowed, e) refl,
      rw allowed (with_file-files v name []),
      omega arith,
    )
    by_file (some old) e = (v, old, rw (allowed, e) refl, rw allowed e, short old e)

announced :
    (bs : Bytes) (s : Socket)
    → IsStream s ((upload_init_command ∷ []) ++ bs)
    → (s1 : Socket) × (rcv_cmd s ≡ some (upload_init, s1)) × IsStream s1 bs
unfolding rcv_cmd
announced bs s h =
    let (s1, e, h1) = so_read-IsStream (upload_init_command ∷ []) bs s h in
    let one : so_read 1 s
        ≡ some (record { count = pos 1; bytes = upload_init_command ∷ []; rest = s1 }) =
      e in
    (s1, rw (rcv_cmd, one) refl, h1)

-- The name of the server's file.
abbrev pub server_file : FileName → Upload → FileName
server_file name st = c_string (put_string st.local_file (absolute_file name))

module _ (md5 : Md5) (m : Metadata) (name : FileName) (file : Bytes) (w : World) (c n : ℕ)
    (ready : Uploadable m name file w c n) (fits : c ≤ max_chunk_size) where
  abbrev sending : Metadata
  sending = uploading md5 m name file c n

  setting : Setting (c_string (metadata_name name)) name sending file c n
  setting = record {
    apart = ready.apart;
    sized = refl;
    measured = refl;
    positive = ready.positive;
    fits = fits;
    cut = ready.cut;
  }

  -- All chunks are pending.
  unmarked : Unmarked setting sending.chunk_info
  unmarked a e there =
      let waits = init_loop-pending (length file) c n 0 a e there in
      (
        λ q. let clash : ch_pending ≡ ch_upload = sym waits ∙ q in cc,
        λ q. let clash : ch_pending ≡ ch_download = sym waits ∙ q in cc,
      )

  -- What the server has been told.
  abbrev told : Upload → Upload
  told st = record {
    local_file = put_string st.local_file (absolute_file name);
    chunk_size = pos c;
    upload_digest = md5_buffer md5 file;
  }

  -- An upload by one process, in chunks of at most MAX_CHUNK_SIZE bytes, of a file that has no metadata
  -- file yet, with names, sizes and permissions that allow it: the parent makes the metadata file, and has
  -- something to tell the server. The process can then go on until it ends because no chunk is pending; and
  -- in any run in which it does, on a connection where no call fails: the server takes the parent's bytes
  -- for the command UPLOAD_INIT, whose handler makes the file if it is not there, and the process's for the
  -- command UPLOAD_CHUNK, whose handler ends, with some number of rounds, and the server's file is the
  -- client's file then. The server may open its file, which was not longer than the client's if it was
  -- there.
  pub upload_succeeds :
      (m1 : Metadata) × (sent : Bytes) × (w1 : World) × (begin_upload md5 m name (pos c) (pos 1) w
        ≡ done (m1, sent ∷ []) w1)
      × ((u : System) × Reach name 1 (at_fork m1 w1) u × ((u.pc 0).at ≡ finished))
      × ((t : System)
          → Reach name 1 (at_fork m1 w1) t
          → (t.pc 0).at ≡ finished
          → (st : Upload) (v : World) → v.deny (server_file name st) ≡ false
          → ((old : Bytes) → v.files (server_file name st) ≡ some old → length old ≤ length file)
          → (rest junk_path junk_length junk : Bytes) (junk_size : ℤ) (s : Socket)
          → IsStream s (sent ++ ((t.pc 0).output ++ rest))
          → (s1 : Socket) × (rcv_cmd s ≡ some (upload_init, s1))
            × (st' : Upload) × (s2 : Socket) × (v1 : World) × (init_upload st junk_path junk_length
                  s1 v
                ≡ done (st', s2) v1)
            × (s3 : Socket) × (rcv_cmd s2 ≡ some (upload_chunk, s3))
            × (fuel : ℕ) × (v2 : World) × (s4 : Socket) × (receive_chunk_from_client fuel junk
                  junk_size st'.chunk_size
                  (c_string st'.local_file)
                  s3
                  v1
                ≡ some (some (v2, s4)))
            × (v2.files (server_file name st) ≡ some file)
            × IsStream s4 rest)
  unfolding stored_name
  upload_succeeds =
      let (w1, begins, holds, kept, may_read) = begin_upload_fresh md5 m name file w c n ready in
      (
        sending,
        announcement md5 name file c,
        w1,
        begins,
        one_ends setting sending.chunk_info sending w1
            (uploading-IsWellFormed md5 m name file w c n ready) holds
            (length-init_loop (length file) c n 0) kept may_read refl unmarked,
        λ t run left st v may short rest junk_path junk_length junk junk_size s streams.
            let (s1, e1, h1) =
              announced
                (ask_upload name (pos c) (pos (length file)) (md5_buffer md5 file)
                  ++ ((t.pc 0).output ++ rest))
                s streams in
            let (s2, e2, h2) =
              upload_request_heard st junk_path junk_length name (md5_buffer md5 file) _ (pos c)
                (pos (length file)) s1 v (ready.short, ready.clean) (omega (arith, ready.fits))
                (md5.length-final _) h1 in
            let (v1, old, made, opened, small) =
              touched (server_file name st) v (length file) may short in
            let (s3, e3, fuel, v2, s4, e4, whole, behind) =
              upload_arrives setting sending.chunk_info sending w1
                (uploading-IsWellFormed md5 m name file w c n ready) holds
                (length-init_loop (length file) c n 0) kept refl unmarked
                (λ a e there q.
                  let clash : ch_pending ≡ ch_ok =
                    sym (init_loop-pending (length file) c n 0 a e there) ∙ q in
                  cc)
                run left (server_file name st) v1 old opened small rest junk junk_size s2 h2 in
            (
              s1,
              e1,
              told st,
              s2,
              v1,
              e2 ∙ rw (◌>>=◌, ◌>>◌, made) refl,
              s3,
              e3,
              fuel,
              v2,
              s4,
              e4,
              whole,
              behind,
            ),
      )
