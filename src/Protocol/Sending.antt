-- ===== src/Protocol/Sending.antt =====
-- protocol/mhproto_client.cpp: the processes of an upload, one for each connection. Each runs the private
-- `UploadFileToServer`; they share the metadata file and the semaphore, read the same local file, and are
-- interleaved in any order.
pub mod Invariant
pub mod Updates
pub mod Steps
pub mod Written
pub mod Log
pub mod Logged
pub mod Settled
pub mod Runs
pub mod Arrives
pub mod Ends
pub mod Exclusion
pub mod Progress
pub mod Finishes
use mhftp.Base.{
  ℕ, ◌<◌, ◌≡◌, Bool, true, false, Option, none, some, List, ◌∷◌, ◌++◌, [], length, get_elem?,
}
use mhftp.Base.Int.{ℤ, pos, negsuc}
use mhftp.Base.Bytes.{int64_bytes}
use mhftp.Posix.{Bytes, FileName, World, done, open_file}
use mhftp.Metadata.{ch_ok, ch_upload, Metadata}
use mhftp.Metadata.PayLoad.{get_pay_load_array}
use mhftp.Metadata.Table.{get_next_pending_chunk, set_chunk_status}
use mhftp.Metadata.Disk.{load_metadata, update_control_data}
use mhftp.Protocol.Turns.{semaphore_get_lock, semaphore_release_lock, update}
use mhftp.Protocol.Upload.{send_chunk}

-- UPLOAD_CHUNK
abbrev pub upload_chunk_command : ℕ
upload_chunk_command = 3

-- Where a process stands, with its chunk number.
pub data Point : Type 0 where
  starting : Point  -- before `SndCmd`
  waiting : Point  -- before the first `semaphore_get_lock`
  selecting : Point  -- before `LoadMetadata`
  claiming : Point  -- before `getNextPendingChunk`
  publishing : (i : ℕ) → Point  -- before `UpdateControlData`
  claimed : (i : ℕ) → Point  -- before `semaphore_release_lock`
  nothing_left : Point  -- the same, where the chunk number is -1
  ending : Point  -- before the `write` of the chunk number -1
  sending : (i : ℕ) → Point  -- before `lseek` and `read`
  sent : (i : ℕ) → Point  -- behind the last `write`
  reloading : (i : ℕ) → Point
  recording : (i : ℕ) → Point
  recorded : Point  -- before the last `semaphore_release_lock`
  looping : Point  -- at the test of the loop
  finished : Point  -- behind the `break`
  stopped : Point  -- behind the test of the loop, or `exit`

-- A process: its metadata object, `payLoadArray_`, and what it has written to its connection.
pub record Process : Type 0 where
  pub object : Metadata
  pub sizes : List ℤ
  pub output : Bytes
  pub at : Point

-- Between `semaphore_get_lock` and `semaphore_release_lock`.
abbrev pub critical_at : Point → Bool
critical_at selecting = true
critical_at claiming = true
critical_at (publishing _) = true
critical_at (claimed _) = true
critical_at nothing_left = true
critical_at (reloading _) = true
critical_at (recording _) = true
critical_at recorded = true
critical_at _ = false

-- The chunk that the process has marked as its own in the metadata file.
abbrev pub owned_at : Point → Option ℕ
owned_at (claimed i) = some i
owned_at (sending i) = some i
owned_at (sent i) = some i
owned_at (reloading i) = some i
owned_at (recording i) = some i
owned_at _ = none

abbrev pub critical : Process → Bool
critical p = critical_at p.at

abbrev pub owns : Process → Option ℕ
owns p = owned_at p.at

pub record System : Type 0 where
  pub world : World
  pub lock : Option ℕ
  pub pc : ℕ → Process

module _ (local_file : FileName) where
  -- One step of process `me`, in the state `p`. The digest buffer is never set and holds some 16 bytes. The
  -- results of `write` are not looked at, and `sock_error` stays false. The loop may end after a chunk, since
  -- the user can stop the client at any time. The position of the file is that of the last `read`.
  pub data Move (me : ℕ) (w : World) (lock : Option ℕ) (p : Process)
      : World → Option ℕ → Process → Type 0 where
    begin :
        (m' : Metadata) (content : Bytes) (w' : World)
        → p.at ≡ starting
        → load_metadata p.object p.object.file_metadata w ≡ done m' w'
        → open_file local_file w ≡ some content
        → Move me w lock p w' lock (record {
          object = m';
          sizes = get_pay_load_array m'.file_size m'.chunk_size m'.chunks;
          output = p.output ++ upload_chunk_command ∷ [];
          at = waiting;
        })
    no_file :
        (m' : Metadata) (w' : World)
        → p.at ≡ starting
        → load_metadata p.object p.object.file_metadata w ≡ done m' w'
        → open_file local_file w ≡ none
        → Move me w lock p w' lock
            (record p { output = p.output ++ upload_chunk_command ∷ []; at = stopped })
    get_lock :
        (lock' : Option ℕ)
        → p.at ≡ waiting
        → semaphore_get_lock me lock ≡ some lock'
        → Move me w lock p w lock' (record p { at = selecting })
    load :
        (m' : Metadata) (w' : World)
        → p.at ≡ selecting
        → load_metadata p.object p.object.file_metadata w ≡ done m' w'
        → Move me w lock p w' lock (record p { object = m'; at = claiming })
    none_pending :
        p.at ≡ claiming
        → get_next_pending_chunk p.object ≡ some (negsuc 0)
        → Move me w lock p w lock (record p { at = nothing_left })
    leave :
        p.at ≡ nothing_left
        → Move me w lock p w (semaphore_release_lock lock) (record p { at = ending })
    end_mark :
        p.at ≡ ending
        → Move me w lock p w lock
            (record p { output = p.output ++ int64_bytes (negsuc 0); at = finished })
    claim :
        (m' : Metadata) (i : ℕ)
        → p.at ≡ claiming
        → get_next_pending_chunk p.object ≡ some (pos i)
        → set_chunk_status p.object i ch_upload none ≡ some m'
        → Move me w lock p w lock (record p { object = m'; at = publishing i })
    publish :
        (i : ℕ) (w' : World)
        → p.at ≡ publishing i
        → update_control_data p.object p.object.file_metadata w ≡ done tt w'
        → Move me w lock p w' lock (record p { at = claimed i })
    release :
        (i : ℕ)
        → p.at ≡ claimed i
        → Move me w lock p w (semaphore_release_lock lock) (record p { at = sending i })
    send :
        (i position : ℕ) (size : ℤ) (content bytes : Bytes)
        → p.at ≡ sending i
        → w.files local_file ≡ some content
        → get_elem? p.sizes i ≡ some size
        → send_chunk content position p.object.chunk_size i size ≡ some bytes
        → Move me w lock p w lock (record p { output = p.output ++ bytes; at = sent i })
    get_lock_again :
        (i : ℕ) (lock' : Option ℕ)
        → p.at ≡ sent i
        → semaphore_get_lock me lock ≡ some lock'
        → Move me w lock p w lock' (record p { at = reloading i })
    reload :
        (i : ℕ) (m' : Metadata) (w' : World)
        → p.at ≡ reloading i
        → load_metadata p.object p.object.file_metadata w ≡ done m' w'
        → Move me w lock p w' lock (record p { object = m'; at = recording i })
    note :
        (i : ℕ) (d : Bytes) (m' : Metadata) (w' : World)
        → p.at ≡ recording i
        → length d ≡ 16
        → set_chunk_status p.object i ch_ok (some d) ≡ some m'
        → update_control_data m' m'.file_metadata w ≡ done tt w'
        → Move me w lock p w' lock (record p { object = m'; at = recorded })
    release_again :
        p.at ≡ recorded
        → Move me w lock p w (semaphore_release_lock lock) (record p { at = looping })
    repeat : p.at ≡ looping → Move me w lock p w lock (record p { at = waiting })
    quit : p.at ≡ looping → Move me w lock p w lock (record p { at = stopped })

  pub data Step (n : ℕ) (s : System) : System → Type 0 where
    pick :
        (me : ℕ) {w : World} {lock : Option ℕ} {p : Process}
        → me < n
        → Move me s.world s.lock (s.pc me) w lock p
        → Step n s (record { world = w; lock = lock; pc = update s.pc me p })

  pub data Reach (n : ℕ) (s : System) : System → Type 0 where
    start : Reach n s s
    later : {t u : System} → Reach n s t → Step n t u → Reach n s u
