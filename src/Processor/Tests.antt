-- ===== src/Processor/Tests.antt =====
-- The processor of cpu86.py on a small program.
use minixfs.Prelude.{
  ℕ, ◌+◌, ◌≡◌, ◌≢◌, refl, true, false, not, ltb, leb, ltb_ℤ, ◌*◌, ◌==◌, none, some, [], ◌∷◌, arith,
  ok, err, get_or,
}
use minixfs.Memory.{read_u8}
use minixfs.Memory.Inv.{IsValid}
use minixfs.Processor.Flags.{w8, Flags, no_flags, cond, signed}
use minixfs.Processor.Alu.{alu, cmp}
use minixfs.Processor.Machine.{Insn, Mem, Regs, OnInt, Stop, run_prog, stos, repe, no_rep}
use minixfs.Processor.Operands.{read_reg, write_reg, read_rm_at, write_rm_at}
use minixfs.Processor.Perform.{h_inc}
use minixfs.Processor.Fetch.{run_dec}
use minixfs.Processor.Strings.{h_string, elements}
use minixfs.Processor.Blocks.{machine, h_string-stos}
use minixfs.Processor.Opcodes.{decode, instruction}
use minixfs.Processor.Run.{OnFault, fetch_plain, fetch_cached, perform, round, goes_on, run}
use minixfs.Processor.Finish.{decode_finishes}
use minixfs.Processor.Compare.{cond-cmp}
use minixfs.Processor.Cached.Blank.{blank}
use minixfs.Processor.Cached.Good.{Good}
use minixfs.Processor.Cached.Same.{Blind, ShortRun, next-ShortRun, blank_outcome, run-blank}

-- `inc eax` and a jump back to it, and a word of data.
abbrev looping : Mem
looping = record {
  low = 0x40 ∷ 0xEB ∷ 0xFD ∷ 7 ∷ [];
  low_end = 4;
  stack = 1 ∷ 2 ∷ 3 ∷ 4 ∷ 5 ∷ 6 ∷ 7 ∷ 8 ∷ [];
  stack_low = 0x3fffff8;
  brk = 4;
  text_end = 3;
  start_stack = 0x4000000;
  icache = none ∷ none ∷ none ∷ [];
}

abbrev looping_regs : ℕ → ℕ → Flags → Regs
looping_regs a at f = record {
  regs = a ∷ 0 ∷ 0 ∷ 0 ∷ 0x4000000 ∷ 0 ∷ 0 ∷ 0 ∷ [];
  eip = at;
  flags = f;
  halted = false;
}

looping-IsValid : IsValid looping
looping-IsValid = omega arith

no_entry : (i : ℕ) (e : Insn) → get_or looping.icache i none ≢ some e
no_entry i e h = ground (arith, h)

looping-Good : Good looping
looping-Good = record { valid = looping-IsValid; entries = λ i e h. absurd (no_entry i e h) }

-- Callbacks that count, and that give up.
abbrev ignore : OnInt ℕ
ignore v r s t = (ok tt, r, s, t + 1)

abbrev give_up : OnFault ℕ
give_up f r s t = (err f, r, s, t)

ignore-Blind : (v : ℕ) → Blind (ignore v)
ignore-Blind v r s t g = (refl, g)

give_up-Blind : (f : Stop) → Blind (give_up f)
give_up-Blind f r s t g = (refl, g)

abbrev odd_flags : Flags
odd_flags = record no_flags { pf = true }

first_turn :
    round fetch_plain ignore give_up (looping_regs 4 0 no_flags) (blank looping) 0
    ≡ goes_on (looping_regs 5 1 odd_flags) (blank looping) 0
unfolding round fetch_plain decode run_dec instruction read_u8 run_prog perform h_inc read_rm_at
    read_reg write_rm_at write_reg
first_turn = refl

second_turn :
    round fetch_plain ignore give_up (looping_regs 5 1 odd_flags) (blank looping) 0
    ≡ goes_on (looping_regs 5 0 odd_flags) (blank looping) 0
unfolding round fetch_plain decode run_dec instruction read_u8 run_prog perform h_inc read_rm_at
    read_reg write_rm_at write_reg
second_turn = refl

third_turn :
    round fetch_plain ignore give_up (looping_regs 5 0 odd_flags) (blank looping) 0
    ≡ goes_on (looping_regs 6 1 odd_flags) (blank looping) 0
unfolding round fetch_plain decode run_dec instruction read_u8 run_prog perform h_inc read_rm_at
    read_reg write_rm_at write_reg
third_turn = refl

turns_are_short : ShortRun ignore give_up 3 (looping_regs 4 0 no_flags) (blank looping) 0
unfolding ShortRun decode run_dec instruction read_u8
turns_are_short =
    next-ShortRun ignore give_up 2 (looping_regs 4 0 no_flags) (looping_regs 5 1 odd_flags)
      (blank looping) (blank looping) 0 0 (omega arith) first_turn
      (next-ShortRun ignore give_up 1 (looping_regs 5 1 odd_flags) (looping_regs 5 0 odd_flags)
        (blank looping) (blank looping) 0 0 (omega arith) second_turn
        (next-ShortRun ignore give_up 0 (looping_regs 5 0 odd_flags) (looping_regs 6 1 odd_flags)
          (blank looping) (blank looping) 0 0 (omega arith) third_turn tt))

run-blank_example :
    run fetch_plain ignore give_up 3 (looping_regs 4 0 no_flags) (blank looping) 0
    ≡ blank_outcome (run fetch_cached ignore give_up 3 (looping_regs 4 0 no_flags) looping 0)
run-blank_example =
    run-blank ignore ignore-Blind give_up give_up-Blind 3 (looping_regs 4 0 no_flags) looping 0
      looping-Good turns_are_short

decode_finishes_example : (decode looping 1 1).0 ≢ err none
decode_finishes_example = decode_finishes looping 1 1 looping-IsValid

cond-cmp_example :
    (cond 2 (alu cmp w8 200 100 no_flags).1 ≡ ltb 200 100)
    × (cond 4 (alu cmp w8 200 100 no_flags).1 ≡ (200 == 100))
    × (cond 6 (alu cmp w8 200 100 no_flags).1 ≡ leb 200 100)
    × (cond 12 (alu cmp w8 200 100 no_flags).1 ≡ ltb_ℤ (signed w8 200) (signed w8 100))
    × (cond 14 (alu cmp w8 200 100 no_flags).1 ≡ not (ltb_ℤ (signed w8 100) (signed w8 200)))
    × ((k : ℕ)
        → cond (2 * k + 1) (alu cmp w8 200 100 no_flags).1
          ≡ not (cond (2 * k) (alu cmp w8 200 100 no_flags).1))
cond-cmp_example = cond-cmp w8 200 100 no_flags (omega arith) (omega arith)

repe-repeats : repe ≢ no_rep
repe-repeats h = ground (arith, h)

-- Two bytes of data at the end of the low region are filled.
abbrev filling : ℕ → Regs
filling c = machine 0x141 c 0 0 0x4000000 0 0 2 0 no_flags false

h_string-stos_example :
    run_prog ignore (h_string stos repe w8) (filling 2) looping 0
    ≡ run_prog ignore (elements stos repe w8 false 2) (filling 2) looping 0
h_string-stos_example =
    h_string-stos ignore 0x141 0 0 0x4000000 0 0 0 no_flags false 0 w8 repe 2 2 looping repe-repeats
      (omega arith) (omega arith) looping-IsValid (omega arith)
