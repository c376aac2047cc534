-- ===== src/Kernel/Killing.antt =====
-- What the masks and actions of kernel.py can do about SIGKILL.
use minixfs.Prelude.{
  ℕ, ◌≡◌, true, false, Bool-cases, inl, inr, some, none, Option, subst, List, [], ◌∷◌, get_or,
  arith, not, if◌then◌else◌,
}
use minixfs.Overlay.Dict.{table_get, table_set, table_get-table_set}
use minixfs.Kernel.State.{
  Channel, Process, Kernel, no_action, running, sleeping, proc, put_proc, bit_at, set_bit,
}
use minixfs.Kernel.Signals.{ssetmask, set_signal, interrupts, woken, enqueue, wake, post_signal}
use minixfs.Kernel.Actions.{sigaction}
use minixfs.Kernel.Guarded.{Guarded, ssetmask-Guarded, set_signal-Guarded, sigaction-Guarded}
use minixfs.Kernel.Masking.{Starts, spares, Starts-Started}

-- The calls of a process that change its mask or an action.
pub data Guard : Type 0 where
  mask_by : (mask : ℕ) → Guard
  handle : (sig handler restorer : ℕ) → Guard
  act_on : (sig newp oldp : ℕ) → Guard

module _ {I : Type 0} (pid : ℕ) where
  unfoldable pub guard : List Guard → Kernel I → Kernel I
  guard [] s = s
  guard (mask_by mask ∷ gs) s = guard gs (ssetmask pid mask s).1
  guard (handle sig handler restorer ∷ gs) s = guard gs (set_signal pid sig handler restorer s).1
  guard (act_on sig newp oldp ∷ gs) s = guard gs (sigaction pid sig newp oldp s).1

  guard-Guarded : (gs : List Guard) (s : Kernel I) → Guarded pid s → Guarded pid (guard gs s)
  unfolding guard
  guard-Guarded [] s h = h
  guard-Guarded (mask_by mask ∷ gs) s h =
      guard-Guarded gs (ssetmask pid mask s).1 (ssetmask-Guarded pid mask s h)
  guard-Guarded (handle sig handler restorer ∷ gs) s h =
      guard-Guarded gs (set_signal pid sig handler restorer s).1
        (set_signal-Guarded pid sig handler restorer s h)
  guard-Guarded (act_on sig newp oldp ∷ gs) s h =
      guard-Guarded gs (sigaction pid sig newp oldp s).1 (sigaction-Guarded pid sig newp oldp s h)

  -- Let a process have SIGKILL out of its mask and the default action for it, and go through any calls
  -- of `ssetmask`, `signal` and `sigaction`; then let any handlers start on it, one in another, and let
  -- it go to sleep, whatever else happens to the rest of the kernel. SIGKILL is pending once it is
  -- posted, and it wakes the process exactly where none of the actions whose handlers have started has
  -- SIGKILL in its mask: those calls alone keep SIGKILL out of the mask, but the start of a handler does
  -- not.
  pub post_signal-wakes :
      (gs : List Guard) (s s' : Kernel I) (p q : Process I) (masks : List ℕ) (ch : Option Channel)
      → Guarded pid s
      → table_get pid (guard gs s).procs ≡ some p
      → Starts p q masks
      → table_get pid s'.procs ≡ some (record q { state = sleeping; wait_channel = ch })
      → (r : Process I) × (table_get pid (post_signal pid 9 s').1.procs ≡ some r)
        × (bit_at r.signal 8 ≡ true)
        × (bit_at r.blocked 8 ≡ not (spares masks))
        × (r.state ≡ (if spares masks then running else sleeping))
        × (r.wait_channel ≡ (if spares masks then none else ch))
  unfolding post_signal interrupts wake woken enqueue proc put_proc
  post_signal-wakes gs s s' p q masks ch h0 set_up began slept =
      let h = guard-Guarded gs s h0 in
      let same : h.process ≡ p = ground (arith, set_up, h.at) in
      let clear : bit_at p.blocked 8 ≡ false = ground (arith, same, h.unmasked) in
      let default : (get_or p.sigactions 9 no_action).handler ≡ 0 =
        subst (λ (u : Process I). (get_or u.sigactions 9 no_action).handler ≡ 0) same h.default in
      let st = Starts-Started p q masks clear default began in
      let own : q.pid ≡ pid = ground (arith, same, h.own, st.own) in
      let p1 = record q { state = sleeping; wait_channel = ch; signal = set_bit q.signal 8 } in
      let p2 = woken true p1 in
      let s1 = record s' { procs = table_set q.pid p1 s'.procs } in
      let now : table_get pid s1.procs ≡ some p1 =
        ground (arith, own, table_get-table_set q.pid pid p1 s'.procs) in
      elim (Bool-cases (spares masks)) [
        | inl spared ↦
            let unmasked : bit_at q.blocked 8 ≡ false = ground (arith, st.blocked, spared) in
            let action = st.default in
            (
              p2,
              ground (
                arith,
                slept,
                own,
                unmasked,
                action,
                now,
                table_get-table_set q.pid pid p2 s1.procs,
              ),
              ground arith,
              ground (arith, st.blocked),
              ground (arith, spared),
              ground (arith, spared),
            )
        | inr masked ↦
            let covered : bit_at q.blocked 8 ≡ true = ground (arith, st.blocked, masked) in
            (
              p1,
              ground (arith, slept, own, covered, now),
              ground arith,
              ground (arith, st.blocked),
              ground (arith, masked),
              ground (arith, masked),
            )
      ]
