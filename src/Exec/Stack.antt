-- ===== src/Exec/Stack.antt =====
-- The initial stack of a program (`setup_stack` of kexec.py).
-- The strings are stored from the last to the first and downwards from the end of the user space,
-- those of the environment before those of the arguments. The total of their lengths is bounded
-- before anything is stored, so no address below is negative.
use minixfs.Prelude.{
  ℕ, ◌+◌, ◌-◌, ◌*◌, ◌/◌, List, [], ◌∷◌, ◌++◌, ltb, if◌then◌else◌, length, Bytes, Result, ok, err,
}
use minixfs.Memory.{AddressSpace, SegFault, task_size, write, write_u32}

-- `ARG_AREA`
abbrev pub arg_area : ℕ
arg_area = 128 * 1024

-- `E2BIG`, or a fault of the new address space.
pub data StackError : Type 0 where
  too_big : StackError
  seg : SegFault → StackError

abbrev pub total_length : List Bytes → ℕ
total_length [] = 0
total_length (t ∷ ts) = length t + 1 + total_length ts

module _ {I : Type 0} where
  -- The loops over `reversed(envp)` and `reversed(argv)`: the addresses and the lowest of them.
  unfoldable pub put_strings :
      List Bytes → ℕ → AddressSpace I → Result SegFault (List ℕ × ℕ) × AddressSpace I
  put_strings [] p s = (ok ([], p), s)
  put_strings (t ∷ ts) p s =
      let (later, s1) = put_strings ts p s in
      elim later [
        | err e ↦ (err e, s1)
        | ok (addrs, q) ↦
            let a = q - (length t + 1) in
            let (s2, done) = write s1 a (t ++ 0 ∷ []) in
            elim done [ err e ↦ (err e, s2) | ok _ ↦ (ok (a ∷ addrs, a), s2) ]
      ]

  -- Words one after the other in memory.
  unfoldable pub put_words :
      ℕ → List ℕ → AddressSpace I → Result SegFault (Unit {0}) × AddressSpace I
  put_words a [] s = (ok tt, s)
  put_words a (v ∷ vs) s =
      let (s1, done) = write_u32 s a v in
      elim done [ err e ↦ (err e, s1) | ok _ ↦ put_words (a + 4) vs s1 ]

  -- The three words at the end, from the highest down, then the two arrays with their zeros.
  unfoldable pub put_tables :
      ℕ → List ℕ → List ℕ → AddressSpace I → Result SegFault (Unit {0}) × AddressSpace I
  unfolding put_words
  put_tables argv_base args envs s =
      let envp_base = argv_base + 4 * (length args + 1) in
      let (s1, r1) = write_u32 s (argv_base - 4) envp_base in
      elim r1 [
        | err e ↦ (err e, s1)
        | ok _ ↦
            let (s2, r2) = write_u32 s1 (argv_base - 8) argv_base in
            elim r2 [
              | err e ↦ (err e, s2)
              | ok _ ↦
                  let (s3, r3) = write_u32 s2 (argv_base - 12) (length args) in
                  elim r3 [
                    | err e ↦ (err e, s3)
                    | ok _ ↦
                        let (r4, s4) = put_words argv_base (args ++ 0 ∷ []) s3 in
                        elim r4 [
                          | err e ↦ (err e, s4)
                          | ok _ ↦ put_words envp_base (envs ++ 0 ∷ []) s4
                        ]
                  ]
            ]
      ]

  -- The stack pointer, or the error with what has been stored.
  unfoldable pub setup_stack :
      AddressSpace I → List Bytes → List Bytes → Result StackError ℕ × AddressSpace I
  unfolding put_strings put_tables
  setup_stack s argv envp =
      if ltb arg_area (total_length argv + total_length envp)
      then (err too_big, s)
      else let (env_put, s1) = put_strings envp task_size s in
        elim env_put [
          | err e ↦ (err (seg e), s1)
          | ok (envs, p) ↦
              let (arg_put, s2) = put_strings argv p s1 in
              elim arg_put [
                | err e ↦ (err (seg e), s2)
                | ok (args, q) ↦
                    let argv_base = q / 4 * 4 - 4 * (length envp + 1) - 4 * (length argv + 1) in
                    let (r, s3) = put_tables argv_base args envs s2 in
                    let sp = argv_base - 12 in
                    elim r [
                      | err e ↦ (err (seg e), s3)
                      | ok _ ↦ (ok sp, record s3 { start_stack = sp / 4096 * 4096 })
                    ]
              ]
        ]
