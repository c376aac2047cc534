-- ===== src/Exec/Tests.antt =====
-- An executable of three bytes of text, one byte of data and two of bss, for kexec.py.
use minixfs.Prelude.{
  ℕ, ◌+◌, ◌≡◌, refl, ◌↔◌, none, some, [], ◌∷◌, ◌++◌, Bytes, slice, zeros, u32_bytes, false, length,
  ok, arith, ltb, if◌then◌else◌, ◌-◌, ◌*◌, ◌/◌, err, length-zeros,
}
use minixfs.Memory.{AddressSpace, task_size, write, write_fuel, write_u32, store_stack}
use minixfs.Overlay.Dict.{table_get}
use minixfs.Overlay.State.{OverlayFs, VInode}
use minixfs.Exec.{AoutHeader, zmagic, n_txtoff, parse_header, validate, load_aout}
use minixfs.Exec.Load.{IsLoadable, validate_iff, load_aout_lem}
use minixfs.Memory.Inv.{IsValid}
use minixfs.Exec.Fits.{setup_stack_lem}
use minixfs.Exec.Stack.{arg_area, too_big, setup_stack, put_strings, put_tables, put_words}
use minixfs.Exec.Shebang.{parse_shebang, script, index_error, take_until, drop_until, strip_end}

abbrev header : AoutHeader
header = record {
  magic = zmagic;
  text = 3;
  data_size = 1;
  bss = 2;
  syms = 0;
  entry = 0;
  trsize = 0;
  drsize = 0;
}

abbrev words : Bytes
words = u32_bytes zmagic ++ (u32_bytes 3 ++ (u32_bytes 1 ++ (u32_bytes 2 ++ zeros 16)))

abbrev bytes : Bytes
bytes = words ++ (zeros 992 ++ (7 ∷ 8 ∷ 9 ∷ 5 ∷ []))

abbrev file : VInode
file = record {
  ino = 2;
  mode = 0x81ED;
  uid = 0;
  gid = 0;
  nlinks = 1;
  mtime = 0;
  rdev = 0;
  disk_size = 0;
  content = some bytes;
  entries = none;
  base = none;
  open_refs = 0;
  deleted = false;
}

abbrev small : OverlayFs
small = record {
  disk = record {
    image = [];
    offset = 0;
    sb = record {
      ninodes = 2;
      nzones = 0;
      imap_blocks = 0;
      zmap_blocks = 0;
      firstdatazone = 0;
      log_zone_size = 0;
      max_size = 0;
      magic = 0;
    };
  };
  vnodes = (2, file) ∷ [];
  names = [];
  next_ino = 3;
}

abbrev fresh : AddressSpace ℕ
fresh = record {
  low = [];
  low_end = 0;
  stack = [];
  stack_low = 0;
  brk = 0;
  text_end = 0;
  start_stack = 0;
  icache = [];
}

header-IsLoadable : IsLoadable header (length bytes)
header-IsLoadable = record {
  magic = refl;
  no_text_relocation = refl;
  no_data_relocation = refl;
  fits = omega arith;
  whole = omega arith;
}

validate_iff_example : (validate header 1028 ≡ ok tt) ↔ IsLoadable header 1028
validate_iff_example = validate_iff header 1028

load_aout_lem_example :
    (mem' : AddressSpace ℕ) × (load_aout fresh 2 small ≡ (ok (0, 6), mem', small))
    × (mem'.low ≡ slice bytes n_txtoff (n_txtoff + 4) ++ zeros 2)
    × (mem'.text_end ≡ 3)
    × (mem'.low_end ≡ 6)
    × (mem'.brk ≡ 6)
    × (mem'.stack ≡ fresh.stack)
    × (mem'.stack_low ≡ fresh.stack_low)
unfolding table_get parse_header
load_aout_lem_example =
    load_aout_lem fresh small 2 file bytes header refl refl refl refl refl header-IsLoadable

-- A stack of 32 bytes, for the one argument `a` and no environment.
abbrev short_stack : AddressSpace ℕ
short_stack = record {
  low = [];
  low_end = 0;
  stack = zeros 32;
  stack_low = 0x3ffffe0;
  brk = 0;
  text_end = 0;
  start_stack = 0x4000000;
  icache = [];
}

setup_stack_top : (setup_stack short_stack ((97 ∷ []) ∷ []) []).0 ≡ ok 0x3ffffe4
unfolding setup_stack put_strings put_tables put_words write write_fuel write_u32 store_stack
setup_stack_top = refl

short_stack-IsValid : IsValid short_stack
short_stack-IsValid = omega (arith, length-zeros 32)

setup_stack_lem_example :
    (setup_stack short_stack ((97 ∷ []) ∷ []) []).0
    ≡ (if ltb arg_area 2 then err too_big else ok ((task_size - 0 - 2) / 4 * 4 - 4 - 20))
setup_stack_lem_example =
    setup_stack_lem short_stack ((97 ∷ []) ∷ []) [] short_stack-IsValid (omega arith)

-- `#! i x `
shebang_argument :
    parse_shebang (35 ∷ 33 ∷ 32 ∷ 105 ∷ 32 ∷ 120 ∷ 32 ∷ 10 ∷ [])
    ≡ script (105 ∷ []) (some (120 ∷ []))
unfolding parse_shebang take_until drop_until strip_end
shebang_argument = refl

-- A line that holds nothing but the space of the code 0x85.
shebang_next_line : parse_shebang (35 ∷ 33 ∷ 0x85 ∷ 10 ∷ []) ≡ index_error
unfolding parse_shebang take_until drop_until strip_end
shebang_next_line = refl
