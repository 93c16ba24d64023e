-- ===== src/Protocol/Session/Uploaded.antt =====
-- A whole upload, on both sides: the client's parent and its process, and the server's process.
use mathlib.Core.List.{append-nil}
use mhftp.Base.{ℕ, ◌≤◌, ◌≡◌, refl, sym, ap, ◌∙◌, false, some, [], ◌∷◌, ◌++◌, length, subst}
use mhftp.Base.Int.{pos}
use mhftp.Posix.{Bytes, FileName, World, done, exit, c_string, ◌>>=◌}
use mhftp.Posix.Socket.{Socket, IsStream}
use mhftp.ConTcp.Reassembly.{IsStream-closed, so_read_closed}
use mhftp.Crypt.{Md5}
use mhftp.Metadata.{Metadata}
use mhftp.Protocol.Client.{max_chunk_size}
use mhftp.Protocol.Commands.{Upload, upload_init, upload_chunk, leave, rcv_cmd, init_upload}
use mhftp.Protocol.Upload.{receive_chunk_from_client}
use mhftp.Protocol.Sending.{finished, System, Reach}
use mhftp.Protocol.Sending.Arrives.{at_fork}
use mhftp.Protocol.Uploads.{begin_upload}
use mhftp.Protocol.Uploads.Fresh.{Uploadable}
use mhftp.Protocol.Uploads.Succeeds.{server_file, upload_succeeds}
use mhftp.Protocol.Session.{Server, Locals, handle, rcv_cmd_handled, core}

-- A connection that is closed ends the process.
leaves : (s : Socket) → IsStream s [] → (s' : Socket) × (rcv_cmd s ≡ some (leave, s'))
unfolding rcv_cmd
leaves s h = ([], ap rcv_cmd (IsStream-closed s h) ∙ rw (so_read_closed 0, rcv_cmd) refl)

-- Three rounds: the two commands of an upload, and the end of the connection.
module _ (md5 : Md5) (junk : ℕ → Bytes) (fuel : ℕ) (locals : Locals) where
  told-handled :
      (sv : Server) (v : World) (s1 : Socket) (st : Upload) (s2 : Socket) (v1 : World)
      → rcv_cmd sv.input ≡ some (upload_init, s1)
      → init_upload sv.upload locals.path_size locals.file_size s1 v ≡ done (st, s2) v1
      → rcv_cmd_handled md5 junk fuel locals sv v
        ≡ some (done (record sv { upload = st; input = s2 }) v1)
  unfolding rcv_cmd_handled handle
  told-handled sv v s1 st s2 v1 e1 e2 = rw (rcv_cmd_handled, e1, handle, ◌>>=◌, e2) refl

  chunks-handled :
      (sv : Server) (v : World) (s1 : Socket) (v1 : World) (s2 : Socket)
      → rcv_cmd sv.input ≡ some (upload_chunk, s1)
      → receive_chunk_from_client fuel locals.buffer locals.buffer_size sv.upload.chunk_size
          (c_string sv.upload.local_file)
          s1
          v
        ≡ some (some (v1, s2))
      → rcv_cmd_handled md5 junk fuel locals sv v ≡ some (done (record sv { input = s2 }) v1)
  unfolding rcv_cmd_handled handle
  chunks-handled sv v s1 v1 s2 e1 e2 = rw (rcv_cmd_handled, e1, handle, e2) refl

  end-handled :
      (sv : Server) (v : World) (s1 : Socket)
      → rcv_cmd sv.input ≡ some (leave, s1)
      → rcv_cmd_handled md5 junk fuel locals sv v ≡ some (exit 0 v)
  unfolding rcv_cmd_handled handle
  end-handled sv v s1 e1 = rw (rcv_cmd_handled, e1, handle) refl

  core-three :
      (sv sv1 sv2 : Server) (v v1 v2 : World)
      → rcv_cmd_handled md5 junk fuel locals sv v ≡ some (done sv1 v1)
      → rcv_cmd_handled md5 junk fuel locals sv1 v1 ≡ some (done sv2 v2)
      → rcv_cmd_handled md5 junk fuel locals sv2 v2 ≡ some (exit 0 v2)
      → core md5 junk fuel locals 3 sv v ≡ some (exit 0 v2)
  unfolding core
  core-three sv sv1 sv2 v v1 v2 e1 e2 e3 = rw (core, e1, core, e2, core, e3) refl

module _ (md5 : Md5) (m : Metadata) (name : FileName) (file : Bytes) (w : World) (c n : ℕ)
    (ready : Uploadable m name file w c n) (fits : c ≤ max_chunk_size) where
  -- An upload by one process, in chunks of at most MAX_CHUNK_SIZE bytes, of a file that has no metadata
  -- file yet, with names, sizes and permissions that allow it: the parent makes the metadata file, and has
  -- something to tell the server. The process can then go on until it ends because no chunk is pending; and
  -- in any run in which it does, the server's process takes what the parent and that process have written,
  -- on a connection of its own where no call fails and that is closed then: `core` ends by `exit(0)` after
  -- three calls of `RcvCmd`, with some number of rounds in the loop of a handler, whatever its variables
  -- held before, and the server's file is the client's file then. The server may open its file, which was
  -- not longer than the client's if it was there.
  pub core-upload :
      (m1 : Metadata) × (sent : Bytes) × (w1 : World) × (begin_upload md5 m name (pos c) (pos 1) w
        ≡ done (m1, sent ∷ []) w1)
      × ((u : System) × Reach name 1 (at_fork m1 w1) u × ((u.pc 0).at ≡ finished))
      × ((t : System)
          → Reach name 1 (at_fork m1 w1) t
          → (t.pc 0).at ≡ finished
          → (sv : Server) (v : World) → v.deny (server_file name sv.upload) ≡ false
          → ((old : Bytes)
              → v.files (server_file name sv.upload) ≡ some old
              → length old ≤ length file)
          → IsStream sv.input (sent ++ (t.pc 0).output)
          → (junk : ℕ → Bytes) (locals : Locals)
          → (fuel : ℕ) × (v2 : World) × (core md5 junk fuel locals 3 sv v ≡ some (exit 0 v2))
            × (v2.files (server_file name sv.upload) ≡ some file))
  core-upload =
      let (m1, sent, w1, begins, ends, served) = upload_succeeds md5 m name file w c n ready fits in
      (
        m1,
        sent,
        w1,
        begins,
        ends,
        λ t run left sv v may short streams junk locals.
            let streams' : IsStream sv.input (sent ++ ((t.pc 0).output ++ [])) =
              subst (IsStream sv.input) (ap (λ bs. sent ++ bs) (sym (append-nil (t.pc 0).output)))
                streams in
            let (s1, e1, st', s2, v1, e2, s3, e3, fuel, v2, s4, e4, whole, closed) =
              served t run left sv.upload v may short [] locals.path_size locals.file_size
                locals.buffer locals.buffer_size sv.input streams' in
            let (s5, e5) = leaves s4 closed in
            let whole_run : core md5 junk fuel locals 3 sv v ≡ some (exit 0 v2) =
              core-three md5 junk fuel locals sv (record sv { upload = st'; input = s2 })
                (record sv { upload = st'; input = s4 }) v v1 v2
                (told-handled md5 junk fuel locals sv v s1 st' s2 v1 e1 e2)
                (chunks-handled md5 junk fuel locals (record sv { upload = st'; input = s2 }) v1 s3
                  v2 s4 e3 e4)
                (end-handled md5 junk fuel locals (record sv { upload = st'; input = s4 }) v2 s5
                  e5) in
            (fuel, v2, whole_run, whole),
      )
