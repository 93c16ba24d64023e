-- ===== src/Protocol/Uploads/Resumed.antt =====
-- An upload that goes on with the metadata file of an earlier one.
use mhftp.Base.{ℕ, zero, suc, ◌≤◌, ◌≡◌, refl, true, false, ◌∷◌, ◌&&◌, arith, replicate}
use mhftp.Base.Int.{ℤ, pos, leb_ℤ}
use mhftp.Posix.{Bytes, FileName, World, done, ◌>>=◌, c_string}
use mhftp.Crypt.{Md5}
use mhftp.Metadata.{Metadata, IsWellFormed}
use mhftp.Metadata.Disk.RoundTrip.{Holds, with_file-Holds, load_metadata-Holds, save_metadata_lem}
use mhftp.Metadata.Create.{metadata_name, has_metadata_file}
use mhftp.Protocol.Commands.{ask_upload}
use mhftp.Protocol.Parent.{nproc}
use mhftp.Protocol.Parent.Started.{marked_as-IsWellFormed, after_mark, mark_in_use_lem}
use mhftp.Protocol.Uploads.{
  upload_init_command, ready_metadata, init_upload_on_server, upload_loop, begin_upload, end_upload,
}

-- The mark of an upload.
abbrev pub taken : Metadata → Metadata
taken m = record m { in_use = 2 }

module _ (md5 : Md5) (local_file : FileName) (chunk_size : ℤ) where
  -- What goes to the server on each connection: the chunk size is the one of the command line.
  abbrev pub announced : Metadata → Bytes
  announced m = upload_init_command ∷ ask_upload local_file chunk_size m.file_size m.digest

  -- The rounds behind the first.
  rounds :
      (n : ℕ) (m : Metadata) (w : World)
      → IsWellFormed (taken m)
      → Holds w m.file_metadata (taken m)
      → (w' : World) × (upload_loop md5 local_file chunk_size n false (taken m) w
          ≡ done (taken m, replicate n (announced m)) w')
        × Holds w' m.file_metadata (taken m)
  unfolding upload_loop init_upload_on_server ready_metadata replicate
  rounds zero m w wf h = (w, refl, h)
  rounds (suc n) m w wf h =
      let w1 = after_mark (taken m) (taken m) w m.file_metadata h.rest in
      let h1 : Holds w1 m.file_metadata (taken m) =
        with_file-Holds w m.file_metadata (taken m) _ h.allowed in
      let (w', e, h') = rounds n m w1 wf h1 in
      (
        w',
        rw (◌>>=◌, save_metadata_lem (taken m) m.file_metadata w _ wf h.stored h.allowed, e) refl,
        h',
      )

  module _ (m m0 : Metadata) (w : World) (wf : IsWellFormed m)
      (h : Holds w (c_string (metadata_name local_file)) m) where
    -- The object with the name of its file.
    abbrev pub named : Metadata
    named = record m { file_metadata = c_string (metadata_name local_file) }

    ready : ready_metadata md5 m0 local_file chunk_size true w ≡ done named w
    unfolding ready_metadata has_metadata_file
    ready =
        rw
          (
            h.stored,
            ◌>>=◌,
            load_metadata-Holds m
                (record m0 { file_metadata = c_string (metadata_name local_file) })
                (c_string (metadata_name local_file)) w wf h,
          )
          refl

    -- An upload by one to NPROC processes, of a file that has a metadata file already, the parent alone,
    -- without a step of a process: its first part ends. Each connection gets the same announcement, with
    -- the size and the digest of that metadata file, and with the chunk size of the command line, whatever
    -- the one in the metadata file is. The metadata file keeps its table and is marked as in use by an
    -- upload, and after the parent's last part it is free.
    pub begin_upload-resumed :
        (n : ℕ)
        → suc n ≤ nproc
        → (w1 : World) × (begin_upload md5 m0 local_file chunk_size (pos (suc n)) w
            ≡ done (taken named, replicate (suc n) (announced m)) w1)
          × Holds w1 (c_string (metadata_name local_file)) (taken named)
          × (w2 : World) × (end_upload (taken named) w1 ≡ done (record named { in_use = 0 }) w2)
          × Holds w2 (c_string (metadata_name local_file)) (record named { in_use = 0 })
    unfolding begin_upload upload_loop init_upload_on_server end_upload replicate
    begin_upload-resumed n few =
        let name = c_string (metadata_name local_file) in
        let wf1 = marked_as-IsWellFormed m named 2 (omega arith) wf in
        let w0 = after_mark m (taken named) w name h.rest in
        let h0 : Holds w0 name (taken named) = with_file-Holds w name (taken named) _ h.allowed in
        let (w1, e, h') = rounds n named w0 wf1 h0 in
        let allowed : (leb_ℤ (pos 0) (pos (suc n)) && leb_ℤ (pos (suc n)) (pos nproc)) ≡ true =
          ground arith in
        let saves = save_metadata_lem (taken named) name w _ wf1 h.stored h.allowed in
        (
          w1,
          rw (allowed, ◌>>=◌, ready, saves, e) refl,
          h',
          _,
          mark_in_use_lem (taken named) (taken named) name w1 wf1 h' 0 (omega arith),
          with_file-Holds w1 name (record named { in_use = 0 }) _ h'.allowed,
        )
