-- ===== src/Memory/Tests.antt =====
-- The address space of x86mem.py at a small concrete state.
use minixfs.Prelude.{
  ℕ, ◌+◌, ◌-◌, ◌≤◌, ◌<◌, ◌≡◌, refl, ◌⊎◌, ◌↔◌, inl, true, false, none, some, [], ◌∷◌, arith, ok,
  get_or, zeros, length-zeros,
}
use minixfs.Memory.{
  AddressSpace, task_size, write, write_fuel, read, read_u8, set_brk, grow_stack, load_program,
  store_low, read_cstr,
}
use minixfs.Memory.Inv.{IsValid, set_brk-IsValid}
use minixfs.Memory.Keeps.{write-IsValid}
use minixfs.Memory.Access.{read-write, read_u8-write_outside, write-ok_iff}
use minixfs.Memory.Cache.{write-Coherent, Coherent}
use minixfs.Memory.Brk.{Accepts, set_brk_reads, set_brk_hides_stack, grow_stack_reads}
use minixfs.Memory.Strings.{HoldsText, read_cstr_iff}

-- Two bytes of text with their cache, two bytes of data, and eight bytes of stack.
abbrev small : AddressSpace ℕ
small = record {
  low = 65 ∷ 66 ∷ 67 ∷ 0 ∷ [];
  low_end = 4;
  stack = 1 ∷ 2 ∷ 3 ∷ 4 ∷ 5 ∷ 6 ∷ 7 ∷ 8 ∷ [];
  stack_low = 0x3fffff8;
  brk = 4;
  text_end = 2;
  start_stack = 0x4000000;
  icache = some 90 ∷ none ∷ [];
}

small-IsValid : IsValid small
small-IsValid = omega arith

-- A store of two bytes that starts in the data.
store_data : (write small 2 (9 ∷ 8 ∷ [])).1 ≡ ok tt
unfolding write write_fuel
store_data = refl

write-IsValid_example : IsValid (write small 2 (9 ∷ 8 ∷ [])).0
write-IsValid_example = write-IsValid 2 (9 ∷ 8 ∷ []) small-IsValid

read-write_example : read (write small 2 (9 ∷ 8 ∷ [])).0 2 2 ≡ ok (9 ∷ 8 ∷ [])
read-write_example = read-write small 2 (9 ∷ 8 ∷ []) small-IsValid store_data

reads_text : read_u8 small 1 ≡ ok 66
unfolding read_u8
reads_text = refl

read_u8-write_outside_example : read_u8 (write small 2 (9 ∷ 8 ∷ [])).0 1 ≡ ok 66
read_u8-write_outside_example =
    read_u8-write_outside small 2 (9 ∷ 8 ∷ []) 1 66 small-IsValid (inl (omega arith)) reads_text

write-ok_iff_example :
    ((write small 2 (9 ∷ [])).1 ≡ ok tt)
    ↔ ((2 + 1 ≤ small.low_end) ⊎ ((small.low_end ≤ 2) × (2 + 1 ≤ task_size)))
write-ok_iff_example = write-ok_iff small 2 (9 ∷ []) small-IsValid

still_cached : get_or (write small 2 (9 ∷ 8 ∷ [])).0.icache 0 none ≡ some 90
unfolding write write_fuel store_low
still_cached = refl

write-Coherent_example : Coherent small (write small 2 (9 ∷ 8 ∷ [])).0 0 1 90
write-Coherent_example =
    write-Coherent small 2 (9 ∷ 8 ∷ []) 0 1 90 small-IsValid still_cached (omega arith)
      (omega arith) (omega arith)

set_brk_reads_example :
    (read_u8 small 1 ≡ ok 66 → read_u8 (set_brk small 9).0 1 ≡ ok 66)
    × (Accepts small 9 → 4 ≤ 1 → 1 < 9 → read_u8 (set_brk small 9).0 1 ≡ ok 0)
set_brk_reads_example = set_brk_reads small 9 1 66 small-IsValid (omega arith)

-- A space with a stack of `n` bytes; at 20000 it reaches below the gap that the break must leave.
abbrev deep : ℕ → AddressSpace ℕ
deep n = record small { stack = zeros n; stack_low = task_size - n }

deep-IsValid : (n : ℕ) → n < task_size - 4 → IsValid (deep n)
deep-IsValid n h = omega (arith, length-zeros n)

set_brk_hides_stack_example :
    (read_u8 (set_brk (deep 20000) 0x3ffb300).0 0x3ffb200 ≡ ok 0)
    × (¬ (IsValid (set_brk (deep 20000) 0x3ffb300).0))
set_brk_hides_stack_example =
    set_brk_hides_stack (deep 20000) 0x3ffb300 0x3ffb200 (deep-IsValid 20000 (omega arith))
      (omega arith, omega arith) (omega arith) (omega arith)

grow_stack_reads_example :
    ((grow_stack small 100).1 ≡ true → read_u8 (grow_stack small 100).0 100 ≡ ok 0)
    × ((grow_stack small 100).1 ≡ false → (grow_stack small 100).0 ≡ small)
    × (read_u8 small 1 ≡ ok 66 → read_u8 (grow_stack small 100).0 1 ≡ ok 66)
grow_stack_reads_example = grow_stack_reads small 100 1 66 small-IsValid

read_cstr_iff_example :
    (read_cstr small 1 10 ≡ ok (66 ∷ 67 ∷ [])) ↔ ((2 < 10) × HoldsText small 1 (66 ∷ 67 ∷ []))
read_cstr_iff_example = read_cstr_iff small 1 10 (66 ∷ 67 ∷ [])

set_brk-IsValid_example : IsValid (set_brk small 9).0
set_brk-IsValid_example = set_brk-IsValid 9 small-IsValid (omega arith)

-- A store below the stack makes it grow; one that runs past the top leaves the growth and faults.
grows : (write small 0x3fffff0 (7 ∷ [])).1 ≡ ok tt
unfolding write write_fuel grow_stack
grows = refl

program_runs : (load_program small (1 ∷ 2 ∷ []) (3 ∷ []) 2).low ≡ 1 ∷ 2 ∷ 3 ∷ 0 ∷ 0 ∷ []
unfolding load_program
program_runs = refl

text_read : read_cstr small 0 9 ≡ ok (65 ∷ 66 ∷ 67 ∷ [])
unfolding read_cstr read_u8
text_read = refl
