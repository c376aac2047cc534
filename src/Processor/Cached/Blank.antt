-- ===== src/Processor/Cached/Blank.antt =====
-- The address space without its cache of decoded instructions: x86mem.py stores and reads the same
-- bytes either way, and so does a handler of cpu86.py.
use minixfs.Prelude.{
  ℕ, zero, suc, ◌≡◌, refl, sym, ap, ◌∙◌, length, Bytes, [], ◌∷◌, ◌%◌, ◌^◌, u16_bytes, u32_bytes,
  arith, Result,
}
use minixfs.Memory as Memory
use minixfs.Memory.{
  AddressSpace, with_stack, grow_stack, flush_icache, clear_range, store_low, store_stack,
  write_fuel, SegFault, read_u8, read_u16, read_u32, write_u8, write_u16, write_u32,
}
use minixfs.Memory.Inv.{IsValid}
use minixfs.Memory.Words.{write_u8-eq-write, write_u16-eq-write, write_u32-eq-write}
use minixfs.Processor.Flags.{Width, w8, w16, w32}
use minixfs.Processor.Machine.{Insn, Mem, read_word, write_word, Done}

abbrev pub blank : Mem → Mem
blank s = record s { icache = [] }

pub blank-IsValid : (s : Mem) → IsValid s → IsValid (blank s)
blank-IsValid s v = record {
  low_length = v.low_length;
  stack_length = v.stack_length;
  text_in = v.text_in;
  brk_in = v.brk_in;
  cache_in = omega arith;
  start_in = v.start_in;
  apart = v.apart;
}

flush_icache-nil : (a n : ℕ) → flush_icache {I = Insn} [] a n ≡ []
unfolding flush_icache clear_range
flush_icache-nil a n = ground arith

store_low-blank : (s : Mem) (a : ℕ) (d : Bytes) → store_low (blank s) a d ≡ blank (store_low s a d)
unfolding store_low
store_low-blank s a d = ground (arith, flush_icache-nil a (length d))

grow_stack-blank :
    (s : Mem) (a : ℕ) → grow_stack (blank s) a ≡ (blank (grow_stack s a).0, (grow_stack s a).1)
unfolding grow_stack with_stack
grow_stack-blank s a = ground arith

write_fuel-blank :
    (n : ℕ) (s : Mem) (a : ℕ) (d : Bytes)
    → write_fuel n (blank s) a d ≡ (blank (write_fuel n s a d).0, (write_fuel n s a d).1)
unfolding write_fuel store_stack
write_fuel-blank zero s a d = refl
write_fuel-blank (suc n) s a d =
    ground (
      arith,
      grow_stack-blank s a,
      store_low-blank s a d,
      write_fuel-blank n (grow_stack s a).0 a d,
    )

pub write-blank :
    (s : Mem) (a : ℕ) (d : Bytes)
    → Memory.write (blank s) a d ≡ (blank (Memory.write s a d).0, (Memory.write s a d).1)
unfolding Memory.write
write-blank s a d = write_fuel-blank 2 s a d

-- The bytes of a word.
abbrev pub word_bytes : Width → ℕ → Bytes
word_bytes w8 v = v % 256 ∷ []
word_bytes w16 v = u16_bytes (v % 2 ^ 16)
word_bytes w32 v = u32_bytes (v % 2 ^ 32)

pub write_word-eq-write :
    (w : Width) (s : Mem) (a v : ℕ)
    → IsValid s
    → write_word w s a v ≡ Memory.write s a (word_bytes w v)
write_word-eq-write w8 s a v h = write_u8-eq-write s a v h
write_word-eq-write w16 s a v h = write_u16-eq-write s a v
write_word-eq-write w32 s a v h = write_u32-eq-write s a v

pub write_word-blank :
    (w : Width) (s : Mem) (a v : ℕ)
    → IsValid s
    → write_word w (blank s) a v ≡ (blank (write_word w s a v).0, (write_word w s a v).1)
write_word-blank w s a v h =
    write_word-eq-write w (blank s) a v (blank-IsValid s h)
    ∙ write-blank s a (word_bytes w v)
    ∙ ap (λ (r : Mem × Result SegFault Done). (blank r.0, r.1))
        (sym (write_word-eq-write w s a v h))

pub read_word-blank : (w : Width) (s : Mem) (a : ℕ) → read_word w (blank s) a ≡ read_word w s a
unfolding read_u8 read_u16 read_u32
read_word-blank w8 s a = refl
read_word-blank w16 s a = refl
read_word-blank w32 s a = refl

pub read-blank : (s : Mem) (a n : ℕ) → Memory.read (blank s) a n ≡ Memory.read s a n
unfolding Memory.read
read-blank s a n = refl
