-- ===== src/Protocol/Parent/Stopping.antt =====
-- protocol/mhproto_client.cpp: `KillClient`, which the parent of a download calls for each SIGINT.
use mhftp.Base.{
  ℕ, zero, suc, ◌+◌, ◌==◌, ◌≡◌, Bool, true, false, Option, none, some, List, [], ◌∷◌, ◌++◌, ltb,
  if◌then◌else◌,
}
use mhftp.Posix.{Bytes, FileName, Outcome, done, M, pure}
use mhftp.Crypt.{Md5}
use mhftp.Metadata.{Metadata}
use mhftp.Metadata.Reset.{reset_downloading_chunks}
use mhftp.Protocol.Download.{finished, System, Reach}

-- The calls of `waitpid`, and of `kill` with SIGKILL, for a process of the transfer by its index, and for
-- the monitor.
pub data Call : Type 0 where
  wait : (j : ℕ) → Call
  wait_monitor : Call
  send_kill : (j : ℕ) → Call
  kill_monitor : Call

-- `for (int i = 0 ; i < numClient_ ; i++)`, from `i` on.
abbrev pub each : (ℕ → Call) → ℕ → ℕ → List Call
each call zero i = []
each call (suc n) i = call i ∷ each call n (suc i)

-- The calls that follow `(*kill_proc_)++`, with the new value.
abbrev pub calls_of : ℕ → Bool → ℕ → List Call
calls_of kill_proc verbose n =
    (if kill_proc == 1 then each wait n 0 ++ (if verbose then wait_monitor ∷ [] else []) else [])
    ++ (if ltb 1 kill_proc
        then (if verbose then kill_monitor ∷ [] else []) ++ each send_kill n 0
        else [])

-- `if (meta_file_ == NULL) return;` and the recovery, by force.
unfoldable pub recover_file : Option FileName → Metadata → M Metadata
unfolding reset_downloading_chunks
recover_file none m = pure m
recover_file (some meta_file) m = reset_downloading_chunks m meta_file 1

module _ (md5 : Md5) (meta_file local_file : FileName) (remote : Bytes) (c n : ℕ) where
  -- The calls one behind the other, while the processes go on: a `waitpid` returns when the process has
  -- ended, and a `kill` at once. A process to which SIGKILL has been sent may still take steps, and
  -- ends between any two of them.
  pub data Calls : System → List Call → System → Type 0 where
    over : {s : System} → Calls s [] s
    others :
        {cs : List Call} {s t u : System}
        → Reach md5 meta_file local_file remote c n s t
        → Calls t cs u
        → Calls s cs u
    waited :
        {cs : List Call} {s u : System} (j : ℕ)
        → s.pc j ≡ finished
        → Calls s cs u
        → Calls s (wait j ∷ cs) u
    monitor_waited : {cs : List Call} {s u : System} → Calls s cs u → Calls s (wait_monitor ∷ cs) u
    sent : {cs : List Call} {s u : System} (j : ℕ) → Calls s cs u → Calls s (send_kill j ∷ cs) u
    monitor_sent : {cs : List Call} {s u : System} → Calls s cs u → Calls s (kill_monitor ∷ cs) u

  -- `KillClient` in the state `s` of the processes, with `*kill_proc_`: its new value, the state when
  -- the recovery starts, and what the recovery makes of the object. Steps of processes during the recovery,
  -- which are possible behind a SIGKILL, are left out.
  pub data KillClient (verbose : Bool) (kill_proc : ℕ) (file : Option FileName) (m : Metadata)
      (s : System) : Bool → ℕ → System → Outcome Metadata → Type 0 where
    not_main : KillClient verbose kill_proc file m s false kill_proc s (done m s.world)
    main :
        {t : System}
        → Calls s (calls_of (kill_proc + 1) verbose n) t
        → KillClient verbose kill_proc file m s true (kill_proc + 1) t (recover_file file m t.world)
