-- ===== src/Processor/Opcodes.antt =====
-- The tables `_DEC` and `_DEC0F` of cpu86.py and the prefixes.
use minixfs.Prelude.{
  ℕ, zero, suc, ◌+◌, ◌-◌, ◌/◌, ◌%◌, Bool, true, false, not, ◌&&◌, ◌||◌, Option, none, some, ltb,
  ◌==◌, if◌then◌else◌, Result, ok, err,
}
use minixfs.Memory.{task_size, SegFault}
use minixfs.Processor.Flags.{Width, w8, w16, w32}
use minixfs.Processor.Machine.{
  Insn, Handler, Mem, test_rm_r, mov_rm_r, mov_r_rm, xchg, inc_rm, dec_rm, setcc, jcc, movx, lea,
  nop, hlt, push_r, pop_r, mov_r_imm, call_rel, jmp, ret, ret_n, leave, xchg_eax, cbw, cwd, pushf,
  popf, sahf, lahf, xlat, loop, clc, stc, cld, std, imul2, pop_rm, bt_r, bt_i, bsf, bsr, shld, shrd,
  bad, Rep, no_rep, repe, repne, LoopKind, loopne, loope, loop_always, jecxz, BitOp, test_bit,
  set_bit, reset_bit, flip_bit,
}
use minixfs.Processor.Fetch.{Decoder, done, fetch, commit, ◌>>=◌, run_dec, imm, modrm}
use minixfs.Processor.Decode.{
  mk, plain, on_reg, modrm_only, by_parity, relative, dec_alu, dec_push_imm, dec_imul3, dec_alu_imm,
  dec_moffs, is_string, dec_string, dec_test_acc_imm, dec_shift, dec_mov_rm_imm, dec_enter, dec_int,
  dec_grp_f7, dec_grp_ff,
}

-- ---- codes of two bytes ----

abbrev pub bit_op : ℕ → BitOp
bit_op n =
    if n == 4 then test_bit else if n == 5 then set_bit else if n == 6 then reset_bit else flip_bit

unfoldable pub dec_bt_imm : Width → Decoder Insn
dec_bt_imm w = do
  m ← modrm
  if ltb m.reg 4 then mk (bad 0x0FBA) w m 0 else (do i ← imm w8; mk (bt_i (bit_op m.reg)) w m i)

unfoldable pub dec_shd_imm : (Bool → Handler) → Width → Decoder Insn
dec_shd_imm h w = do m ← modrm; i ← imm w8; mk (h false) w m i

unfoldable pub dec_0f : ℕ → Width → Decoder Insn
unfolding dec_bt_imm dec_shd_imm
dec_0f op w =
    if op / 16 == 8
    then relative (jcc (op % 16)) w32 (op % 16)
    else if op / 16 == 9
    then modrm_only (setcc (op % 16)) w8
    else if op == 0xAF
    then modrm_only imul2 w
    else if op == 0xBA
    then dec_bt_imm w
    else if op == 0xA3
    then modrm_only (bt_r test_bit) w
    else if op == 0xAB
    then modrm_only (bt_r set_bit) w
    else if op == 0xB3
    then modrm_only (bt_r reset_bit) w
    else if op == 0xBB
    then modrm_only (bt_r flip_bit) w
    else if op == 0xBC
    then modrm_only bsf w
    else if op == 0xBD
    then modrm_only bsr w
    else if op == 0xA4
    then dec_shd_imm shld w
    else if op == 0xA5
    then modrm_only (shld true) w
    else if op == 0xAC
    then dec_shd_imm shrd w
    else if op == 0xAD
    then modrm_only (shrd true) w
    else if op == 0xB6
    then modrm_only (movx false w) w8
    else if op == 0xB7
    then modrm_only (movx false w) w16
    else if op == 0xBE
    then modrm_only (movx true w) w8
    else if op == 0xBF
    then modrm_only (movx true w) w16
    else plain (bad (0x0F00 + op)) w32 0 0

-- ---- codes of one byte ----

unfoldable pub dec_90 : ℕ → Width → Decoder Insn
dec_90 op w =
    if op == 0x90
    then plain nop w 0 0
    else if ltb op 0x98
    then plain xchg_eax w (op % 8) 0
    else if op == 0x98
    then plain cbw w 0 0
    else if op == 0x99
    then plain cwd w 0 0
    else if op == 0x9C
    then plain pushf w 0 0
    else if op == 0x9D
    then plain popf w 0 0
    else if op == 0x9E
    then plain sahf w 0 0
    else if op == 0x9F
    then plain lahf w 0 0
    else plain (bad op) w32 0 0

-- The codes from 60 to 8F.
unfoldable pub dec_60 : ℕ → Width → Decoder Insn
dec_60 op w =
    if op == 0x68 || op == 0x6A
    then dec_push_imm op w
    else if op == 0x69 || op == 0x6B
    then dec_imul3 op w
    else if op / 16 == 7
    then relative (jcc (op % 16)) w8 (op % 16)
    else if op == 0x80 || op == 0x81 || op == 0x83
    then dec_alu_imm op w
    else if op / 2 == 0x42
    then modrm_only test_rm_r (by_parity op w)
    else if op / 2 == 0x43
    then modrm_only xchg (by_parity op w)
    else if op / 2 == 0x44
    then modrm_only mov_rm_r (by_parity op w)
    else if op / 2 == 0x45
    then modrm_only mov_r_rm (by_parity op w)
    else if op == 0x8D
    then modrm_only lea w
    else if op == 0x8F
    then modrm_only pop_rm w
    else plain (bad op) w32 0 0

-- The codes from C0 to DF.
unfoldable pub dec_c0 : ℕ → Width → Decoder Insn
dec_c0 op w =
    if op / 2 == 0x60 || op / 4 == 0x34
    then dec_shift op w
    else if op == 0xC2
    then (do n ← imm w16; plain ret_n w32 0 n)
    else if op == 0xC3
    then plain ret w 0 0
    else if op / 2 == 0x63
    then dec_mov_rm_imm op w
    else if op == 0xC8
    then dec_enter
    else if op == 0xC9
    then plain leave w 0 0
    else if op / 2 == 0x66
    then dec_int op
    else if op == 0xD7
    then plain xlat w 0 0
    else plain (bad op) w32 0 0

abbrev pub loop_kind : ℕ → LoopKind
loop_kind n =
    if n == 0xE0
    then loopne
    else if n == 0xE1
    then loope
    else if n == 0xE2
    then loop_always
    else jecxz

-- The codes from E0 on.
unfoldable pub dec_e0 : ℕ → Width → Decoder Insn
dec_e0 op w =
    if op / 4 == 0x38
    then relative (loop (loop_kind op)) w8 op
    else if op == 0xE8
    then relative call_rel w32 0
    else if op == 0xE9
    then relative jmp w32 0
    else if op == 0xEB
    then relative jmp w8 0
    else if op == 0xF4
    then plain hlt w 0 0
    else if op / 2 == 0x7B
    then dec_grp_f7 op w
    else if op == 0xF8
    then plain clc w 0 0
    else if op == 0xF9
    then plain stc w 0 0
    else if op == 0xFC
    then plain cld w 0 0
    else if op == 0xFD
    then plain std w 0 0
    else if op / 2 == 0x7F
    then dec_grp_ff op w
    else plain (bad op) w32 0 0

-- `_DEC[op]`
unfoldable pub dec_op : ℕ → Width → Decoder Insn
unfolding dec_0f dec_90 dec_60 dec_c0 dec_e0
dec_op op w =
    if op == 0x0F
    then (do op2 ← imm w8; dec_0f op2 w)
    else if ltb op 0x40
    then (if ltb (op % 8) 6 then dec_alu op w else plain (bad op) w32 0 0)
    else if ltb op 0x48
    then on_reg inc_rm w (op % 8) 0
    else if ltb op 0x50
    then on_reg dec_rm w (op % 8) 0
    else if ltb op 0x58
    then plain push_r w (op % 8) 0
    else if ltb op 0x60
    then plain pop_r w (op % 8) 0
    else if ltb op 0x90
    then dec_60 op w
    else if ltb op 0xA0
    then dec_90 op w
    else if ltb op 0xA4
    then dec_moffs op w
    else if is_string op
    then dec_string op no_rep w
    else if ltb op 0xB0
    then dec_test_acc_imm op w
    else if ltb op 0xB8
    then (do i ← imm w8; plain mov_r_imm w8 (op % 8) i)
    else if ltb op 0xC0
    then (do i ← imm w; plain mov_r_imm w (op % 8) i)
    else if ltb op 0xE0
    then dec_c0 op w
    else dec_e0 op w

-- ---- prefixes ----

-- `_PREFIXES`
abbrev pub is_prefix : ℕ → Bool
is_prefix op =
    op == 0x66
    || op == 0x2E
    || op == 0x36
    || op == 0x3E
    || op == 0x26
    || op == 0x64
    || op == 0x65
    || op == 0xF0
    || op == 0xF2
    || op == 0xF3

abbrev pub size_after : ℕ → Width → Width
size_after op w = if op == 0x66 then w16 else w

abbrev pub rep_after : ℕ → Rep → Rep
rep_after op rep = if op == 0xF2 then repne else if op == 0xF3 then repe else rep

abbrev pub no_prefix : Rep → Bool
no_prefix no_rep = true
no_prefix repe = false
no_prefix repne = false

-- The instruction from its code on, once the prefixes are read.
unfoldable pub dec_main : ℕ → Width → Rep → Decoder Insn
unfolding dec_op
dec_main op w rep = commit (
    if not (no_prefix rep) && is_string op
    then dec_string op rep w
    else if not (no_prefix rep) && op == 0x90
    then plain nop w 0 0
    else dec_op op w)

-- The loop over the prefixes; `op` is the byte read last. Without fuel it gives nothing.
unfoldable pub prefixes : ℕ → ℕ → Width → Rep → Decoder (Option Insn)
unfolding dec_main
prefixes zero op w rep =
    if is_prefix op then done none else (dec_main op w rep >>= λ e. done (some e))
prefixes (suc n) op w rep =
    if is_prefix op
    then fetch w8 (λ next. prefixes n next (size_after op w) (rep_after op rep))
    else (dec_main op w rep >>= λ e. done (some e))

-- `_decode`: no program has as many prefixes as there are addresses.
unfoldable pub instruction : Decoder (Option Insn)
unfolding prefixes
instruction = fetch w8 (λ op. prefixes task_size op w32 no_rep)

abbrev pub with_len : ℕ → Result SegFault (Option Insn) → Result (Option SegFault) Insn
with_len n (ok (some e)) = ok (record e { len = n })
with_len n (ok none) = err none
with_len n (err x) = err (some x)

-- The length is the way that `eip` has gone.
unfoldable pub decode : Mem → ℕ → ℕ → Result (Option SegFault) Insn × ℕ
decode s start eip =
    let (r, end) = run_dec instruction s start eip in (with_len (end - start) r, end)
