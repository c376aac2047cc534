-- ===== src/Processor/Run.antt =====
-- Executing instructions in cpu86.py: the table of handlers, the cache of decoded instructions and the
-- loop. The callbacks of the kernel are parameters. The counter of instructions is the number of
-- rounds that comes back.
use minixfs.Prelude.{
  ℕ, zero, suc, ◌+◌, Bool, true, false, Option, none, some, ltb, leb, ◌&&◌, if◌then◌else◌, length,
  get_or, set, Result, ok, err,
}
use minixfs.Memory.{SegFault}
use minixfs.Processor.Flags.{w8}
use minixfs.Processor.Machine.{
  Insn, Handler, Mem, Regs, Prog, Stop, fault, divide, cpu_error, halt, magic, python_error,
  from_kernel, run_prog, OnInt, return, Done, alu_rm_r, alu_r_rm, alu_rm_imm, test_rm_r,
  test_rm_imm, mov_rm_r, mov_r_rm, mov_rm_imm, xchg, inc_rm, dec_rm, not_rm, neg_rm, shift_imm,
  shift_cl, setcc, jcc, movx, lea, call_rm, jmp_rm, push_rm, nop, hlt, int, push_r, pop_r, push_imm,
  mov_r_imm, call_rel, jmp, ret, ret_n, leave, enter, xchg_eax, cbw, cwd, pushf, popf, sahf, lahf,
  xlat, mov_al_moffs, mov_ax_moffs, mov_moffs_al, mov_moffs_ax, string, loop, clc, stc, cld, std,
  imul3, imul2, mul, imul, div, idiv, pop_rm, bt_r, bt_i, bsf, bsr, shld, shrd, bad,
}
use minixfs.Processor.Operands.{jump}
use minixfs.Processor.Perform.{
  h_alu_rm_r, h_alu_r_rm, alu_on_rm, h_test_rm_r, h_test_rm_imm, h_mov_rm_r, h_mov_r_rm, h_mov_rm,
  h_xchg, h_inc, h_dec, h_not, h_neg, h_shift, h_shift_cl, h_setcc, h_jcc, h_movx, h_lea, h_call_rm,
  h_jmp_rm, h_push_rm,
}
use minixfs.Processor.Simple.{
  h_hlt, h_int, h_bad, h_push_r, h_pop_r, h_push_imm, h_mov_r_imm, h_call_rel, h_ret, h_ret_n,
  h_leave, h_enter, h_xchg_eax, h_cbw, h_cwd, h_pushf, h_popf, h_sahf, h_lahf, h_xlat, h_load_moffs,
  h_store_moffs, h_loop, h_set_cf, h_set_df, h_pop_rm,
}
use minixfs.Processor.Wide.{
  h_mul, h_imul, h_div, h_idiv, h_imul2, h_imul3, h_bt, h_bt_r, h_bsf, h_bsr, h_shd_by,
}
use minixfs.Processor.Strings.{h_string}
use minixfs.Processor.Opcodes.{decode}

-- `e[0](cpu, e)`
unfoldable pub perform : Handler → Insn → Prog Done
perform (alu_rm_r op) e = h_alu_rm_r op e
perform (alu_r_rm op) e = h_alu_r_rm op e
perform (alu_rm_imm op) e = alu_on_rm op e e.imm
perform test_rm_r e = h_test_rm_r e
perform test_rm_imm e = h_test_rm_imm e
perform mov_rm_r e = h_mov_rm_r e
perform mov_r_rm e = h_mov_r_rm e
perform mov_rm_imm e = h_mov_rm e e.imm
perform xchg e = h_xchg e
perform inc_rm e = h_inc e
perform dec_rm e = h_dec e
perform not_rm e = h_not e
perform neg_rm e = h_neg e
perform (shift_imm kind) e = h_shift kind e.imm e
perform (shift_cl kind) e = h_shift_cl kind e
perform (setcc code) e = h_setcc code e
perform (jcc code) e = h_jcc code e
perform (movx sx to) e = h_movx sx to e
perform lea e = if e.in_register then h_bad 0x8D e else h_lea e
perform call_rm e = h_call_rm e
perform jmp_rm e = h_jmp_rm e
perform push_rm e = h_push_rm e e.size
perform nop e = return tt
perform hlt e = h_hlt
perform int e = h_int e
perform push_r e = h_push_r e
perform pop_r e = h_pop_r e
perform push_imm e = h_push_imm e
perform mov_r_imm e = h_mov_r_imm e
perform call_rel e = h_call_rel e
perform jmp e = jump e.imm
perform ret e = h_ret
perform ret_n e = h_ret_n e
perform leave e = h_leave
perform enter e = h_enter e
perform xchg_eax e = h_xchg_eax e
perform cbw e = h_cbw e.size
perform cwd e = h_cwd e.size
perform pushf e = h_pushf e
perform popf e = h_popf e
perform sahf e = h_sahf
perform lahf e = h_lahf
perform xlat e = h_xlat
perform mov_al_moffs e = h_load_moffs w8 e
perform mov_ax_moffs e = h_load_moffs e.size e
perform mov_moffs_al e = h_store_moffs w8 e
perform mov_moffs_ax e = h_store_moffs e.size e
perform (string op wide rep) e = h_string op rep (if wide then e.size else w8)
perform (loop kind) e = h_loop kind e
perform clc e = h_set_cf false
perform stc e = h_set_cf true
perform cld e = h_set_df false
perform std e = h_set_df true
perform imul3 e = h_imul3 e
perform imul2 e = h_imul2 e
perform mul e = h_mul e
perform imul e = h_imul e
perform div e = h_div e
perform idiv e = h_idiv e
perform pop_rm e = h_pop_rm e
perform (bt_r op) e = h_bt_r op e
perform (bt_i op) e = h_bt op e.imm e
perform bsf e = h_bsf e
perform bsr e = h_bsr e
perform (shld by_cl) e = h_shd_by true by_cl e
perform (shrd by_cl) e = h_shd_by false by_cl e
perform (bad op) e = h_bad op e

-- The addresses from which the kernel takes over.
abbrev pub magic_eip_base : ℕ
magic_eip_base = 0xFFFF0000

-- What a decoder that has no fuel left would raise is never raised.
abbrev pub stop_of : Option SegFault → Stop
stop_of (some e) = fault e
stop_of none = python_error

abbrev pub Fetcher : Type 0
Fetcher = Regs → Mem → Result Stop Insn × Regs × Mem

-- Decoding at `eip`, which moves behind the instruction.
unfoldable pub fetch_plain : Fetcher
fetch_plain r s =
    let (x, end) = decode s r.eip r.eip in
    let r' = record r { eip = end } in
    elim x [ ok e ↦ (ok e, r', s) | err f ↦ (err (stop_of f), r', s) ]

-- The same by way of the cache, into which go the instructions that lie in the text as a whole.
unfoldable pub fetch_cached : Fetcher
unfolding fetch_plain
fetch_cached r s =
    let decoded = fetch_plain r s in
    elim (get_or s.icache r.eip none) [
      | some e ↦ (ok e, record r { eip = r.eip + e.len }, s)
      | none ↦ elim decoded.0 [
        | err x ↦ decoded
        | ok e ↦
            if ltb r.eip (length s.icache) && leb (decoded.1.eip) (length s.icache)
            then (ok e, decoded.1, record s { icache = set s.icache r.eip (some e) })
            else decoded
      ]
    ]

-- The faults that `on_fault` is called for.
abbrev pub OnFault : Type 0 → Type 0
OnFault W = Stop → Regs → Mem → W → Result Stop Done × Regs × Mem × W

abbrev pub is_fault : Stop → Bool
is_fault (fault e) = true
is_fault divide = true
is_fault (cpu_error op start) = false
is_fault halt = false
is_fault (magic a) = false
is_fault python_error = false
is_fault (from_kernel n) = false

abbrev pub is_halt : Stop → Bool
is_halt (fault e) = false
is_halt divide = false
is_halt (cpu_error op start) = false
is_halt halt = true
is_halt (magic a) = false
is_halt python_error = false
is_halt (from_kernel n) = false

pub data Round (W : Type 0) : Type 0 where
  goes_on : Regs → Mem → W → Round W
  ends : Result Stop Done → ℕ → Regs → Mem → W → Round W

abbrev pub Outcome : Type 0 → Type 0
Outcome W = Result Stop Done × ℕ × Regs × Mem × W

module _ {W : Type 0} (get_insn : Fetcher) (on_int : OnInt W) (on_fault : OnFault W) where
  -- The body of the loop of `run`, up to the faults.
  unfoldable pub one : Regs → Mem → W → Result Stop Done × Regs × Mem × W
  one r s t =
      if leb magic_eip_base r.eip
      then (err (magic r.eip), r, s, t)
      else let (x, r', s') = get_insn r s in
        elim x [ ok e ↦ run_prog on_int (perform e.handler e) r' s' t | err f ↦ (err f, r', s', t) ]

  -- A round of the loop of `run`, with the faults; a round that is cut short by `hlt` counts.
  unfoldable pub round : Regs → Mem → W → Round W
  unfolding one
  round r s t =
      let (x, r', s', t') = one r s t in
      elim x [
        | ok _ ↦ goes_on r' s' t'
        | err f ↦
            if is_halt f
            then ends (ok tt) 1 r' s' t'
            else if is_fault f
            then (let (y, r'', s'', t'') = on_fault f r' s' t' in
                elim y [
                  | ok _ ↦ goes_on r'' s'' t''
                  | err g ↦
                      if is_halt g then ends (ok tt) 1 r'' s'' t'' else ends (err g) 0 r'' s'' t''
                ])
            else ends (err f) 0 r' s' t'
      ]

  -- The loop: the result, the rounds that are done, and the state.
  unfoldable pub run_loop : ℕ → ℕ → Regs → Mem → W → Outcome W
  unfolding round
  run_loop zero count r s t = (ok tt, count, r, s, t)
  run_loop (suc n) count r s t = elim (round r s t) [
    | goes_on r' s' t' ↦ run_loop n (count + 1) r' s' t'
    | ends x k r' s' t' ↦ (x, count + k, r', s', t')
  ]

  -- `run`, without the profiler.
  unfoldable pub run : ℕ → Regs → Mem → W → Outcome W
  unfolding run_loop
  run n r s t = if r.halted then (ok tt, 0, r, s, t) else run_loop n 0 r s t

-- `step`: one instruction, with the faults left to the caller.
module _ {W : Type 0} (on_int : OnInt W) (on_fault : OnFault W) where
  unfoldable pub step : Regs → Mem → W → Result Stop Done × Regs × Mem × W
  unfolding one
  step r s t =
      let (x, r', s', t') = one fetch_cached on_int on_fault r s t in
      elim x [
        | ok _ ↦ (ok tt, r', s', t')
        | err f ↦ if is_halt f then (ok tt, r', s', t') else (err f, r', s', t')
      ]
