-- ===== src/Kernel/Creds.antt =====
-- The credentials of a process in kernel.py.
use minixfs.Prelude.{ℕ, ◌%◌, not, ◌&&◌, ◌||◌, ◌==◌, if◌then◌else◌}
use minixfs.Kernel.State.{K, ◌>>=◌, ◌>>◌, return, raise, proc, put_proc, eperm}

-- The word that leaves an id as it is.
abbrev pub keep_id : ℕ
keep_id = 0xFFFFFFFF

module _ {I : Type 0} where
  unfoldable pub setuid : ℕ → ℕ → K I ℕ
  setuid pid uid = do
    p ← proc pid
    if not (p.euid == 0) && not (uid == p.uid || uid == p.suid) then raise eperm else do
      put_proc (
          if p.euid == 0
          then record p { uid = uid; suid = uid; euid = uid }
          else record p { euid = uid })
      return 0

  unfoldable pub setgid : ℕ → ℕ → K I ℕ
  setgid pid gid = do
    p ← proc pid
    if not (p.egid == 0) && not (gid == p.gid || gid == p.sgid) then raise eperm else do
      put_proc (
          if p.egid == 0
          then record p { gid = gid; sgid = gid; egid = gid }
          else record p { egid = gid })
      return 0

  unfoldable pub set_euid : ℕ → ℕ → K I ℕ
  set_euid pid euid =
      if euid == keep_id
      then return 0
      else do p ← proc pid; put_proc (record p { euid = euid }); return 0

  unfoldable pub set_egid : ℕ → ℕ → K I ℕ
  set_egid pid egid =
      if egid == keep_id
      then return 0
      else do p ← proc pid; put_proc (record p { egid = egid }); return 0

  unfoldable pub setreuid : ℕ → ℕ → ℕ → K I ℕ
  unfolding setuid set_euid
  setreuid pid ruid euid =
      if ruid == keep_id then set_euid pid euid else do _ ← setuid pid ruid; set_euid pid euid

  unfoldable pub setregid : ℕ → ℕ → ℕ → K I ℕ
  unfolding setgid set_egid
  setregid pid rgid egid =
      if rgid == keep_id then set_egid pid egid else do _ ← setgid pid rgid; set_egid pid egid

  unfoldable pub set_umask : ℕ → ℕ → K I ℕ
  set_umask pid mask = do p ← proc pid; put_proc (record p { umask = mask % 512 }); return p.umask
