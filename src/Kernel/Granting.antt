-- ===== src/Kernel/Granting.antt =====
-- Which user a process of kernel.py can become.
use minixfs.Prelude.{ℕ, ◌≡◌, ◌≢◌, some, ok, err, arith}
use minixfs.Overlay.Dict.{table_get, table_set, table_get-table_set}
use minixfs.Kernel.State.{Process, Kernel, errno, eperm, proc, put_proc}
use minixfs.Kernel.Creds.{keep_id, setuid, set_euid, setreuid}

module _ {I : Type 0} where
  -- Let a process that is not root ask for a user that is neither its real nor its saved one. `setuid`
  -- refuses with EPERM and changes nothing. `setreuid` that leaves the real user alone succeeds all the
  -- same, for each user but 0xFFFFFFFF, and the effective user of the process is then that user; with
  -- user 0, a `setuid` that follows makes the process any user for good.
  pub setreuid_grants :
      (s : Kernel I) (pid uid next : ℕ) (p : Process I)
      → table_get pid s.procs ≡ some p
      → p.pid ≡ pid
      → p.euid ≢ 0
      → uid ≢ p.uid
      → uid ≢ p.suid
      → uid ≢ keep_id
      → (setuid pid uid s ≡ (err (errno eperm), s))
        × ((setreuid pid keep_id uid s).0 ≡ ok 0)
        × (table_get pid (setreuid pid keep_id uid s).1.procs ≡ some (record p { euid = uid }))
        × (uid ≡ 0
            → table_get pid (setuid pid next (setreuid pid keep_id uid s).1).1.procs
              ≡ some (record p { uid = next; suid = next; euid = next }))
  unfolding setuid set_euid setreuid proc put_proc
  setreuid_grants s pid uid next p at own user real saved word =
      let p1 = record p { euid = uid } in
      let s1 = record s { procs = table_set p.pid p1 s.procs } in
      let p2 = record p1 { uid = next; suid = next; euid = next } in
      let now : table_get pid s1.procs ≡ some p1 =
        ground (arith, own, table_get-table_set p.pid pid p1 s.procs) in
      let granted : setreuid pid keep_id uid s ≡ (ok 0, s1) = ground (arith, at, word) in
      (
        ground (arith, at, user, real, saved),
        ground (arith, granted),
        ground (arith, granted, now),
        λ root. ground (arith, granted, now, root, own, table_get-table_set p.pid pid p2 s1.procs),
      )
