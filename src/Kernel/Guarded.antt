-- ===== src/Kernel/Guarded.antt =====
-- Calls of kernel.py that keep SIGKILL out of the mask of a process and leave it the default action.
use minixfs.Prelude.{
  ℕ, ◌+◌, ◌≡◌, refl, sym, ap, ◌∙◌, Bool, true, false, Bool-cases, Result, Result-cases, inl, inr,
  some, subst, List, [], ◌∷◌, get_or, set, get_or-set, length, length-set, ◌==◌, if◌then◌else◌, ok,
  err, arith,
}
use minixfs.Memory as Memory
use minixfs.Overlay.Dict.{table_get, table_set, table_get-table_set}
use minixfs.Kernel.State.{
  Process, Kernel, SigAction, no_action, proc, put_proc, bit_at, clear_bit, K, Done, Trap, return,
  raise, trap, fault, einval, ◌>>=◌, ◌>>◌,
}
use minixfs.Kernel.Signals.{oneshot_nomask, refused_signal, ssetmask, set_signal}
use minixfs.Kernel.Fds.{write_word}
use minixfs.Kernel.Actions.{read_word, write_words, read_action, sigaction}
use minixfs.Kernel.Keeps.{bind_ok, bind_err, then_ok, then_err}
use minixfs.Kernel.Steps.{proc_lem, put_lem, after, next}

abbrev action_of : ℕ → ℕ → ℕ → ℕ → SigAction
action_of h m f r = record { handler = h; mask = m; sa_flags = f; restorer = r }

abbrev words_of : SigAction → List ℕ
words_of a = a.handler ∷ a.mask ∷ a.sa_flags ∷ a.restorer ∷ []

module _ {I : Type 0} (pid : ℕ) where
  -- SIGKILL is not in the mask of the process, and has the default action.
  pub record Guarded (s : Kernel I) : Type 0 where
    pub process : Process I
    pub at : table_get pid s.procs ≡ some process
    pub own : process.pid ≡ pid
    pub unmasked : bit_at process.blocked 8 ≡ false
    pub default : (get_or process.sigactions 9 no_action).handler ≡ 0
    pub actions : length process.sigactions ≡ 33

  abbrev pub Guards : {A : Type 0} → K I A → Type 0
  Guards m = (s : Kernel I) → Guarded s → Guarded (m s).1

  module _ {A B : Type 0} where
    bind-Guards :
        (m : K I A) (f : A → K I B) → Guards m → ((a : A) → Guards (f a)) → Guards (m >>= f)
    bind-Guards m f km kf s h = elim (Result-cases (m s).0) [
      | inl (a, e) ↦ subst Guarded (sym (ap (λ r. r.1) (bind_ok m s f a e))) (kf a (m s).1 (km s h))
      | inr (x, e) ↦ subst Guarded (sym (bind_err m s f x e)) (km s h)
    ]

    then-Guards : (m : K I A) (n : K I B) → Guards m → Guards n → Guards (m >> n)
    then-Guards m n km kn s h = elim (Result-cases (m s).0) [
      | inl (a, e) ↦ subst Guarded (sym (ap (λ r. r.1) (then_ok m s n a e))) (kn (m s).1 (km s h))
      | inr (x, e) ↦ subst Guarded (sym (then_err m s n x e)) (km s h)
    ]

  module _ {A : Type 0} where
    return-Guards : (a : A) → Guards {A = A} (return a)
    return-Guards a s h = h

    if-Guards : (b : Bool) (m n : K I A) → Guards m → Guards n → Guards (if b then m else n)
    if-Guards true m n km kn = km
    if-Guards false m n km kn = kn

    else-Guards :
        (b : Bool) (m n : K I A) → Guards m → (b ≡ false → Guards n) → Guards (if b then m else n)
    else-Guards true m n km kn = km
    else-Guards false m n km kn = kn refl

    result-Guards :
        {E B : Type 0} (r : Result E B) (v : B → A) (g : E → Trap)
        → Guards {A = A} (elim r as (λ _. K I A) [ ok b ↦ return (v b) | err e ↦ trap (g e) ])
    result-Guards (ok b) v g s h = h
    result-Guards (err e) v g s h = h

    proc-Guards :
        (k : Process I → K I A) → ((p : Process I) → Guards (k p)) → Guards (proc pid >>= k)
    proc-Guards k kk s h =
        subst Guarded
          (sym (ap (λ r. r.1) (after (proc pid) k s s h.process (proc_lem pid s h.process h.at))))
          (kk h.process s h)

    -- The process is replaced by one that differs in nothing that matters here, or in other actions.
    update-Guards :
        (g : Process I → Process I) (k : Process I → K I A)
        → ((p : Process I)
            → ((g p).pid ≡ p.pid)
              × ((g p).blocked ≡ p.blocked)
              × (length (g p).sigactions ≡ length p.sigactions)
              × (length p.sigactions ≡ 33
                  → (get_or (g p).sigactions 9 no_action).handler
                    ≡ (get_or p.sigactions 9 no_action).handler))
        → ((p : Process I) → Guards (k p))
        → Guards (proc pid >>= λ p. (put_proc (g p) >> k p))
    update-Guards g k same kk s h =
        let p = h.process in
        let q = g p in
        let (own, mask, len, action) = same p in
        let s1 = record s { procs = table_set pid q s.procs } in
        let whole =
          after (proc pid) (λ p. put_proc (g p) >> k p) s s p (proc_lem pid s p h.at)
          ∙ next (put_proc q) (k p) s s1 tt (put_lem pid s q (own ∙ h.own)) in
        subst Guarded (sym (ap (λ r. r.1) whole)) (
          kk p s1 (record {
            process = q;
            at = ground (arith, table_get-table_set pid pid q s.procs);
            own = own ∙ h.own;
            unmasked = ap (λ m. bit_at m 8) mask ∙ h.unmasked;
            default = action h.actions ∙ h.default;
            actions = len ∙ h.actions;
          }))

  pub ssetmask-Guarded : (mask : ℕ) (s : Kernel I) → Guarded s → Guarded (ssetmask pid mask s).1
  unfolding ssetmask proc put_proc
  ssetmask-Guarded mask s h =
      let p = record h.process { blocked = clear_bit mask 8 } in
      record {
        process = p;
        at = ground (arith, h.at, h.own, table_get-table_set h.process.pid pid p s.procs);
        own = h.own;
        unmasked = ground arith;
        default = h.default;
        actions = h.actions;
      }

  pub set_signal-Guarded :
      (sig handler restorer : ℕ) (s : Kernel I)
      → Guarded s
      → Guarded (set_signal pid sig handler restorer s).1
  unfolding set_signal proc put_proc
  set_signal-Guarded sig handler restorer s h = elim (Bool-cases (refused_signal sig)) [
    | inl no_change ↦ record {
      process = h.process;
      at = ground (arith, no_change, h.at);
      own = h.own;
      unmasked = h.unmasked;
      default = h.default;
      actions = h.actions;
    }
    | inr taken ↦
        let a : SigAction = record {
          handler = handler;
          mask = 0;
          sa_flags = oneshot_nomask;
          restorer = restorer;
        } in
        let p = record h.process { sigactions = set h.process.sigactions sig a } in
        record {
          process = p;
          at = ground (arith, taken, h.at, h.own, table_get-table_set h.process.pid pid p s.procs);
          own = h.own;
          unmasked = h.unmasked;
          default = ground (
            arith,
            taken,
            h.default,
            h.actions,
            get_or-set h.process.sigactions sig 9 a no_action,
          );
          actions = ground (arith, h.actions, length-set h.process.sigactions sig a);
        }
  ]

  read_word-Guards : (addr : ℕ) → Guards (read_word pid addr)
  unfolding read_word
  read_word-Guards addr =
      proc-Guards
        (λ p. elim (Memory.read_u32 p.mem addr) [ ok v ↦ return v | err e ↦ trap (fault e) ])
        (λ p. result-Guards (Memory.read_u32 p.mem addr) (λ v. v) fault)

  write_word-Guards : (addr v : ℕ) → Guards (write_word pid addr v)
  unfolding write_word
  write_word-Guards addr v =
      update-Guards (λ p. record p { mem = (Memory.write_u32 p.mem addr v).0 })
        (λ p. elim (Memory.write_u32 p.mem addr v).1 [ ok _ ↦ return tt | err e ↦ trap (fault e) ])
        (λ p. (refl, refl, refl, λ n. refl))
        (λ p. result-Guards (Memory.write_u32 p.mem addr v).1 (λ _. tt) fault)

  write_words-Guards : (vs : List ℕ) (addr : ℕ) → Guards (write_words pid addr vs)
  unfolding write_words
  write_words-Guards [] addr = return-Guards tt
  write_words-Guards (v ∷ vs) addr =
      then-Guards (write_word pid addr v) (write_words pid (addr + 4) vs) (write_word-Guards addr v)
        (write_words-Guards vs (addr + 4))

  read_action-Guards : (addr : ℕ) → Guards (read_action pid addr)
  unfolding read_action
  read_action-Guards addr =
      bind-Guards (read_word pid addr)
        (λ h. read_word pid (addr + 4) >>= λ m. read_word pid (addr + 8) >>= λ f.
          read_word pid (addr + 12) >>= λ r. return (action_of h m f r))
        (read_word-Guards addr)
        (λ h.
          bind-Guards (read_word pid (addr + 4))
            (λ m. read_word pid (addr + 8) >>= λ f.
              read_word pid (addr + 12) >>= λ r. return (action_of h m f r))
            (read_word-Guards (addr + 4))
            (λ m.
              bind-Guards (read_word pid (addr + 8))
                (λ f. read_word pid (addr + 12) >>= λ r. return (action_of h m f r))
                (read_word-Guards (addr + 8))
                (λ f.
                  bind-Guards (read_word pid (addr + 12)) (λ r. return (action_of h m f r))
                    (read_word-Guards (addr + 12)) (λ r. return-Guards (action_of h m f r)))))

  abbrev put_new : ℕ → SigAction → K I ℕ
  put_new sig act = do
    q ← proc pid
    put_proc (record q { sigactions = set q.sigactions sig act })
    return 0

  abbrev take_new : ℕ → ℕ → K I ℕ
  take_new sig newp = if newp == 0 then return 0 else do act ← read_action pid newp; put_new sig act

  abbrev old_words : ℕ → ℕ → Process I → K I Done
  old_words sig oldp p =
      if oldp == 0
      then return tt
      else write_words pid oldp (words_of (get_or p.sigactions sig no_action))

  abbrev write_old : ℕ → ℕ → ℕ → Process I → K I ℕ
  write_old sig newp oldp p = do old_words sig oldp p; take_new sig newp

  pub sigaction-Guarded : (sig newp oldp : ℕ) → Guards (sigaction pid sig newp oldp)
  unfolding sigaction
  sigaction-Guarded sig newp oldp =
      else-Guards (refused_signal sig) (raise einval) (proc pid >>= write_old sig newp oldp)
        (λ s h. h)
        (λ taken. proc-Guards (write_old sig newp oldp) (λ p.
          then-Guards (old_words sig oldp p) (take_new sig newp)
            (if-Guards (oldp == 0) (return tt)
              (write_words pid oldp (words_of (get_or p.sigactions sig no_action)))
              (return-Guards tt)
              (write_words-Guards (words_of (get_or p.sigactions sig no_action)) oldp))
            (if-Guards (newp == 0) (return 0) (read_action pid newp >>= put_new sig)
              (return-Guards {A = ℕ} 0)
              (bind-Guards (read_action pid newp) (put_new sig) (read_action-Guards newp) (λ act.
                update-Guards (λ q. record q { sigactions = set q.sigactions sig act })
                  (λ q. return 0)
                  (λ q. (
                    refl,
                    refl,
                    length-set q.sigactions sig act,
                    λ n. ap (λ a. a.handler) (kept q.sigactions sig act taken n),
                  ))
                  (λ q. return-Guards {A = ℕ} 0))))))
    where
      kept :
          (acts : List SigAction) (sig : ℕ) (act : SigAction)
          → refused_signal sig ≡ false
          → length acts ≡ 33
          → get_or (set acts sig act) 9 no_action ≡ get_or acts 9 no_action
      kept acts sig act taken n = ground (arith, taken, n, get_or-set acts sig 9 act no_action)
