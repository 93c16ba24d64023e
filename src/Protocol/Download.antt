-- ===== src/Protocol/Download.antt =====
-- protocol/mhproto_client.cpp: the processes of a download, one for each connection. Each runs the private
-- `DownloadFileFromServer`; they share the metadata file, the local file and the semaphore, and are
-- interleaved in any order.
pub mod Exclusion
pub mod Entries
pub mod Invariant
pub mod Moved
pub mod Marked
pub mod Files
pub mod Changes
pub mod Chunks
pub mod Steps
pub mod Runs
pub mod Bounded
pub mod Progress
pub mod Ends
pub mod Settled
pub mod Undisturbed
pub mod Finishes
use mhftp.Base.{
  ℕ, ◌<◌, ◌≡◌, ◌==◌, Bool, true, false, Option, none, some, List, ◌++◌, if◌then◌else◌, length,
}
use mhftp.Base.Int.{ℤ, pos, negsuc, ◌*ℤ◌}
use mhftp.Posix.{Bytes, FileName, World, done, write_at}
use mhftp.Posix.Decimal.{atoi}
use mhftp.Posix.Socket.{Socket, IsStream}
use mhftp.Crypt.{Md5}
use mhftp.Metadata.{ch_ok, ch_error, ch_download, Metadata}
use mhftp.Metadata.Table.{get_next_pending_chunk, set_chunk_status}
use mhftp.Metadata.Disk.{load_metadata, update_control_data}
use mhftp.Metadata.Disk.RoundTrip.{with_file}
use mhftp.Protocol.Request.{request_chunk}
use mhftp.Protocol.Turns.{semaphore_get_lock, semaphore_release_lock, update}
use mhftp.Protocol.Server.Answers.{slice, message}
use mhftp.Protocol.Client.{chunk, sock_error, receive_chunk}

-- Where a process stands, with its own metadata object, the chunk number, `sock_error` and the digest.
pub data Pc : Type 0 where
  waiting : (m : Metadata) → Pc  -- before the first `semaphore_get_lock`
  selecting : (m : Metadata) → Pc  -- before `LoadMetadata`
  claiming : (m : Metadata) → Pc  -- before `getNextPendingChunk`
  publishing : (m : Metadata) (i : ℕ) → Pc  -- before `UpdateControlData`
  claimed : (m : Metadata) (i : ℕ) → Pc  -- before `semaphore_release_lock`
  nothing_left : Pc  -- the same, in front of `break`
  receiving : (m : Metadata) (i : ℕ) → Pc  -- before `RequestChunk`
  received : (m : Metadata) (i : ℕ) (d part : Bytes) → Pc  -- before `lseek` and `write`
  written : (m : Metadata) (i : ℕ) (err : Bool) (d : Bytes) → Pc  -- at the label `update`
  reloading : (m : Metadata) (i : ℕ) (err : Bool) (d : Bytes) → Pc
  recording : (m : Metadata) (i : ℕ) (err : Bool) (d : Bytes) → Pc
  recorded : (m : Metadata) (err : Bool) → Pc  -- before the last `semaphore_release_lock`
  looping : (m : Metadata) (err : Bool) → Pc  -- at the test of the loop
  finished : Pc

-- Between `semaphore_get_lock` and `semaphore_release_lock`.
abbrev pub critical : Pc → Bool
critical (selecting _) = true
critical (claiming _) = true
critical (publishing _ _) = true
critical (claimed _ _) = true
critical nothing_left = true
critical (reloading _ _ _ _) = true
critical (recording _ _ _ _) = true
critical (recorded _ _) = true
critical _ = false

-- The chunk that the process has marked as its own in the metadata file.
abbrev pub owns : Pc → Option ℕ
owns (claimed _ i) = some i
owns (receiving _ i) = some i
owns (received _ i _ _) = some i
owns (written _ i _ _) = some i
owns (reloading _ i _ _) = some i
owns (recording _ i _ _) = some i
owns _ = none

pub record System : Type 0 where
  pub world : World
  pub lock : Option ℕ
  pub pc : ℕ → Pc

module _ (md5 : Md5) (meta_file local_file : FileName) (remote : Bytes) (c : ℕ) where
  -- One step of process `me`. A chunk arrives as the server sends the one that it read in the request, if the
  -- header that it was sent has the size of the remote file and the count of its parts (Protocol.Server.Answers); a
  -- broken connection leaves some 16 bytes in the digest buffer. The loop may end after a chunk too, since
  -- the user can stop the client at any time.
  pub data Move (me : ℕ) (w : World) (lock : Option ℕ) : Pc → World → Option ℕ → Pc → Type 0 where
    get_lock :
        (m : Metadata) (lock' : Option ℕ)
        → semaphore_get_lock me lock ≡ some lock'
        → Move me w lock (waiting m) w lock' (selecting m)
    load :
        (m m' : Metadata) (w' : World)
        → load_metadata m meta_file w ≡ done m' w'
        → Move me w lock (selecting m) w' lock (claiming m')
    none_pending :
        (m : Metadata)
        → get_next_pending_chunk m ≡ some (negsuc 0)
        → Move me w lock (claiming m) w lock nothing_left
    claim :
        (m m' : Metadata) (i : ℕ)
        → get_next_pending_chunk m ≡ some (pos i)
        → set_chunk_status m i ch_download none ≡ some m'
        → Move me w lock (claiming m) w lock (publishing m' i)
    publish :
        (m : Metadata) (i : ℕ) (w' : World)
        → update_control_data m meta_file w ≡ done tt w'
        → Move me w lock (publishing m i) w' lock (claimed m i)
    release :
        (m : Metadata) (i : ℕ)
        → Move me w lock (claimed m i) w (semaphore_release_lock lock) (receiving m i)
    leave : Move me w lock nothing_left w (semaphore_release_lock lock) finished
    arrive :
        (m : Metadata) (i k : ℕ) (before rest d part : Bytes) (s s' : Socket)
        → atoi (request_chunk (pos i)) ≡ pos k
        → IsStream s (message md5 (slice remote c k) ++ rest)
        → receive_chunk before s ≡ some (chunk d part, s')
        → Move me w lock (receiving m i) w lock (received m i d part)
    break_off :
        (m : Metadata) (i : ℕ) (before d : Bytes) (s s' : Socket)
        → receive_chunk before s ≡ some (sock_error d, s')
        → length d ≡ 16
        → Move me w lock (receiving m i) w lock (written m i true d)
    write :
        (m : Metadata) (i p : ℕ) (d part content : Bytes)
        → pos i *ℤ m.chunk_size ≡ pos p
        → w.files local_file ≡ some content
        → Move me w lock
            (received m i d part)
            (with_file w local_file (write_at p part content))
            lock
            (written m i false d)
    get_lock_again :
        (m : Metadata) (i : ℕ) (err : Bool) (d : Bytes) (lock' : Option ℕ)
        → semaphore_get_lock me lock ≡ some lock'
        → Move me w lock (written m i err d) w lock' (reloading m i err d)
    reload :
        (m m' : Metadata) (i : ℕ) (err : Bool) (d : Bytes) (w' : World)
        → load_metadata m meta_file w ≡ done m' w'
        → Move me w lock (reloading m i err d) w' lock (recording m' i err d)
    note :
        (m m' : Metadata) (i : ℕ) (err : Bool) (d : Bytes) (w' : World)
        → set_chunk_status m i (if err then ch_error else ch_ok) (some d) ≡ some m'
        → update_control_data m' meta_file w ≡ done tt w'
        → Move me w lock (recording m i err d) w' lock (recorded m' err)
    release_again :
        (m : Metadata) (err : Bool)
        → Move me w lock (recorded m err) w (semaphore_release_lock lock) (looping m err)
    repeat : (m : Metadata) → Move me w lock (looping m false) w lock (waiting m)
    quit : (m : Metadata) (err : Bool) → Move me w lock (looping m err) w lock finished

  pub data Step (n : ℕ) (s : System) : System → Type 0 where
    pick :
        (me : ℕ) {w : World} {lock : Option ℕ} {p : Pc}
        → me < n
        → Move me s.world s.lock (s.pc me) w lock p
        → Step n s (record { world = w; lock = lock; pc = update s.pc me p })

  pub data Reach (n : ℕ) (s : System) : System → Type 0 where
    start : Reach n s s
    later : {t u : System} → Reach n s t → Step n t u → Reach n s u
