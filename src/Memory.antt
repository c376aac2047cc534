-- ===== src/Memory.antt =====
-- The flat user address space of x86mem.py: a low region that grows with brk, a stack region that
-- grows downwards, and the cache of decoded instructions over the text.
-- An address is a number, as the processor hands it over. The type of a decoded instruction is a
-- parameter: the address space stores instructions and never looks into one.
pub mod Inv
pub mod Reach
pub mod Flush
pub mod Keeps
pub mod Access
pub mod Words
pub mod Cache
pub mod Joined
pub mod Apart
pub mod Brk
pub mod Strings
mod Tests
use minixfs.Prelude.{
  ℕ, zero, suc, ◌+◌, ◌-◌, ◌*◌, ◌/◌, ◌%◌, ◌^◌, min, max, Bool, true, false, ◌&&◌, Option, none, List,
  [], ◌∷◌, ◌++◌, ltb, leb, ◌==◌, if◌then◌else◌, length, get_or, replicate, set, Bytes, slice,
  splice, zeros, u16_at, u32_at, u16_bytes, u32_bytes, Result, ok, err,
}

abbrev pub task_size : ℕ
task_size = 0x4000000

abbrev pub page_size : ℕ
page_size = 4096

abbrev pub brk_stack_gap : ℕ
brk_stack_gap = 16384

abbrev pub stack_grow_step : ℕ
stack_grow_step = 64 * 1024

abbrev pub icache_max_text : ℕ
icache_max_text = 8 * 2 ^ 20

pub record SegFault : Type 0 where
  pub addr : ℕ
  pub size : ℕ
  pub is_write : Bool

pub record AddressSpace (I : Type 0) : Type 0 where
  pub low : Bytes
  pub low_end : ℕ
  pub stack : Bytes
  pub stack_low : ℕ
  pub brk : ℕ
  pub text_end : ℕ
  pub start_stack : ℕ
  pub icache : List (Option I)

-- `(n + PAGE_SIZE - 1) & ~(PAGE_SIZE - 1)`
abbrev pub round_up : ℕ → ℕ
round_up n = (n + page_size - 1) / page_size * page_size

module _ {I : Type 0} where
  -- The constructor; a stack larger than the user space is not asked for.
  unfoldable pub init : ℕ → AddressSpace I
  init stack_size = record {
    low = [];
    low_end = 0;
    stack = zeros (round_up stack_size);
    stack_low = task_size - round_up stack_size;
    brk = 0;
    text_end = 0;
    start_stack = task_size;
    icache = [];
  }

  unfoldable pub load_program : AddressSpace I → Bytes → Bytes → ℕ → AddressSpace I
  load_program s text init_data bss =
      let low = text ++ (init_data ++ zeros bss) in
      let n = if leb (length text) icache_max_text then length text else 0 in
      record s {
        low = low;
        text_end = length text;
        low_end = length low;
        brk = length low;
        icache = replicate n none;
      }

  -- The new space and the value returned, the break.
  unfoldable pub set_brk : AddressSpace I → ℕ → AddressSpace I × ℕ
  set_brk s addr =
      if leb s.text_end addr && ltb addr (s.start_stack - brk_stack_gap)
      then (if ltb s.low_end addr
          then (
            record s { low = s.low ++ zeros (addr - s.low_end); low_end = addr; brk = addr },
            addr,
          )
          else (record s { brk = addr }, addr))
      else (s, s.brk)

  -- The stack with `step` zero bytes put below it.
  unfoldable pub with_stack : AddressSpace I → ℕ → ℕ → AddressSpace I
  with_stack s step new_low = record s { stack = zeros step ++ s.stack; stack_low = new_low }

  unfoldable pub grow_stack : AddressSpace I → ℕ → AddressSpace I × Bool
  unfolding with_stack
  grow_stack s addr =
      if leb s.stack_low addr
      then (s, false)
      else if ltb addr s.low_end
      then (s, false)
      else let step = round_up (max (s.stack_low - addr) stack_grow_step) in
        if ltb s.stack_low (s.low_end + step)
        then (if leb s.stack_low s.low_end
            then (s, false)
            else (with_stack s (s.stack_low - s.low_end) s.low_end, true))
        else (with_stack s step (s.stack_low - step), true)

  -- The copy that fork makes: the buffers and the cache are copied, so that nothing is shared.
  unfoldable pub clone : AddressSpace I → AddressSpace I
  clone s = record {
    low = s.low;
    low_end = s.low_end;
    stack = s.stack;
    stack_low = s.stack_low;
    brk = s.brk;
    text_end = s.text_end;
    start_stack = s.start_stack;
    icache = s.icache;
  }

  -- `cache[lo:hi] = [None] * (hi - lo)`, under its test.
  unfoldable pub clear_range : List (Option I) → ℕ → ℕ → List (Option I)
  clear_range cache lo hi = if ltb lo hi then splice cache lo (replicate (hi - lo) none) else cache

  unfoldable pub flush_icache : List (Option I) → ℕ → ℕ → List (Option I)
  flush_icache cache addr n =
      clear_range cache (if ltb 15 addr then addr - 15 else 0)
        (if ltb (length cache) (addr + n) then length cache else addr + n)

  unfoldable pub read : AddressSpace I → ℕ → ℕ → Result SegFault Bytes
  read s addr n =
      if leb (addr + n) s.low_end
      then ok (slice s.low addr (addr + n))
      else if leb s.stack_low addr && leb (addr + n) task_size
      then ok (slice s.stack (addr - s.stack_low) (addr - s.stack_low + n))
      else err (record { addr = addr; size = n; is_write = false })

  -- The two branches of `write` that store.
  unfoldable pub store_low : AddressSpace I → ℕ → Bytes → AddressSpace I
  store_low s addr d = record s {
    low = splice s.low addr d;
    icache = if ltb addr s.text_end then flush_icache s.icache addr (length d) else s.icache;
  }

  unfoldable pub store_stack : AddressSpace I → ℕ → Bytes → AddressSpace I
  store_stack s addr d = record s { stack = splice s.stack (addr - s.stack_low) d }

  -- `write` calls itself once more after the stack has grown; the fuel counts the calls.
  -- The space comes back beside a fault, since a growth before the fault stays.
  unfoldable pub write_fuel :
      ℕ → AddressSpace I → ℕ → Bytes → AddressSpace I × Result SegFault (Unit {0})
  write_fuel zero s addr d = (s, err (record { addr = addr; size = length d; is_write = true }))
  write_fuel (suc fuel) s addr d =
      let (s', grown) = grow_stack s addr in
      let again = write_fuel fuel s' addr d in
      if leb (addr + length d) s.low_end
      then (store_low s addr d, ok tt)
      else if leb s.stack_low addr && leb (addr + length d) task_size
      then (store_stack s addr d, ok tt)
      else if ltb addr s.stack_low && grown
      then again
      else (s, err (record { addr = addr; size = length d; is_write = true }))

  unfoldable pub write : AddressSpace I → ℕ → Bytes → AddressSpace I × Result SegFault (Unit {0})
  write s addr d = write_fuel 2 s addr d

  unfoldable pub read_u8 : AddressSpace I → ℕ → Result SegFault ℕ
  read_u8 s addr =
      if ltb addr s.low_end
      then ok (get_or s.low addr 0)
      else if leb s.stack_low addr && ltb addr task_size
      then ok (get_or s.stack (addr - s.stack_low) 0)
      else err (record { addr = addr; size = 1; is_write = false })

  unfoldable pub read_u16 : AddressSpace I → ℕ → Result SegFault ℕ
  read_u16 s addr =
      if leb (addr + 2) s.low_end
      then ok (u16_at s.low addr)
      else if leb s.stack_low addr && leb (addr + 2) task_size
      then ok (u16_at s.stack (addr - s.stack_low))
      else err (record { addr = addr; size = 2; is_write = false })

  unfoldable pub read_u32 : AddressSpace I → ℕ → Result SegFault ℕ
  read_u32 s addr =
      if leb (addr + 4) s.low_end
      then ok (u32_at s.low addr)
      else if leb s.stack_low addr && leb (addr + 4) task_size
      then ok (u32_at s.stack (addr - s.stack_low))
      else err (record { addr = addr; size = 4; is_write = false })

  -- The fast paths store a word in place; the last line is the slow path through `write`.
  unfoldable pub write_u8 : AddressSpace I → ℕ → ℕ → AddressSpace I × Result SegFault (Unit {0})
  write_u8 s addr val =
      let v = val % 256 in
      if ltb addr s.low_end
      then (
        record s {
          low = set s.low addr v;
          icache = if ltb addr s.text_end then flush_icache s.icache addr 1 else s.icache;
        },
        ok tt,
      )
      else if leb s.stack_low addr && ltb addr task_size
      then (record s { stack = set s.stack (addr - s.stack_low) v }, ok tt)
      else write s addr (v ∷ [])

  unfoldable pub write_u16 : AddressSpace I → ℕ → ℕ → AddressSpace I × Result SegFault (Unit {0})
  write_u16 s addr val =
      let d = u16_bytes (val % 2 ^ 16) in
      if leb (addr + 2) s.low_end
      then (store_low s addr d, ok tt)
      else if leb s.stack_low addr && leb (addr + 2) task_size
      then (store_stack s addr d, ok tt)
      else write s addr d

  unfoldable pub write_u32 : AddressSpace I → ℕ → ℕ → AddressSpace I × Result SegFault (Unit {0})
  write_u32 s addr val =
      let d = u32_bytes (val % 2 ^ 32) in
      if leb (addr + 4) s.low_end
      then (store_low s addr d, ok tt)
      else if leb s.stack_low addr && leb (addr + 4) task_size
      then (store_stack s addr d, ok tt)
      else write s addr d

  -- The loop of `read_cstr`: `rounds` is `limit - len(out)`, and `out` holds what was read.
  unfoldable pub read_cstr_from : AddressSpace I → ℕ → ℕ → ℕ → Bytes → Result SegFault Bytes
  read_cstr_from s addr limit zero out =
      err (record { addr = addr; size = limit; is_write = false })
  read_cstr_from s addr limit (suc rounds) out = elim (read_u8 s (addr + length out)) [
    | err e ↦ err e
    | ok b ↦ elim (b == 0) [
      | true ↦ ok out
      | false ↦ read_cstr_from s addr limit rounds (out ++ b ∷ [])
    ]
  ]

  unfoldable pub read_cstr : AddressSpace I → ℕ → ℕ → Result SegFault Bytes
  unfolding read_cstr_from
  read_cstr s addr limit = read_cstr_from s addr limit limit []
