-- ===== src/Exec.antt =====
-- The loader of kexec.py: the header of an executable and its place in the address space.
pub mod Load
pub mod Stack
pub mod Shebang
pub mod Fits
mod Tests
use minixfs.Prelude.{
  ℕ, ◌+◌, ◌-◌, ◌*◌, ◌/◌, ◌%◌, Bool, not, ◌||◌, [], ◌++◌, ltb, ◌==◌, if◌then◌else◌, length, take,
  drop, Bytes, slice, zeros, u32_at, Result, ok, err, ◌>>=◌, ◌>>◌,
}
use minixfs.MinixFs.Format.{is_regular}
use minixfs.Memory.{AddressSpace, load_program}
use minixfs.Overlay.State.{FsError, OverlayFs, the, size}
use minixfs.Overlay.Ops.{read}

abbrev pub zmagic : ℕ
zmagic = 0x10B

abbrev pub n_txtoff : ℕ
n_txtoff = 1024

abbrev pub exec_hdr : ℕ
exec_hdr = 32

abbrev pub max_total : ℕ
max_total = 0x3000000

-- The error numbers that the loader raises, or an error of the overlay.
pub data ExecError : Type 0 where
  enoexec eacces : ExecError
  from_fs : FsError → ExecError

pub record AoutHeader : Type 0 where
  pub magic : ℕ
  pub text : ℕ
  pub data_size : ℕ
  pub bss : ℕ
  pub syms : ℕ
  pub entry : ℕ
  pub trsize : ℕ
  pub drsize : ℕ

-- `AoutHeader.__init__`
unfoldable pub parse_header : Bytes → Result ExecError AoutHeader
parse_header raw =
    if ltb (length raw) exec_hdr
    then err enoexec
    else ok (record {
      magic = u32_at raw 0;
      text = u32_at raw 4;
      data_size = u32_at raw 8;
      bss = u32_at raw 12;
      syms = u32_at raw 16;
      entry = u32_at raw 20;
      trsize = u32_at raw 24;
      drsize = u32_at raw 28;
    })

unfoldable pub validate : AoutHeader → ℕ → Result ExecError (Unit {0})
validate h file_size =
    if not (h.magic == zmagic)
    then err enoexec
    else if not (h.trsize == 0) || not (h.drsize == 0)
    then err enoexec
    else if ltb max_total (h.text + h.data_size + h.bss)
    then err enoexec
    else if ltb file_size (h.text + h.data_size + h.syms + n_txtoff)
    then err enoexec
    else ok tt

-- `mode & 0o111`
abbrev pub executable : ℕ → Bool
executable mode = not (mode % 2 == 0) || (not (mode / 8 % 2 == 0) || not (mode / 64 % 2 == 0))

abbrev pub padded : Bytes → ℕ → Bytes
padded body n = if ltb (length body) n then body ++ zeros (n - length body) else body

module _ {I : Type 0} where
  -- The entry and the break, or the error with the address space as it was.
  unfoldable pub load_aout :
      AddressSpace I → ℕ → OverlayFs → Result ExecError (ℕ × ℕ) × AddressSpace I × OverlayFs
  load_aout mem ino s = elim ((the ino s).0) [
    | err e ↦ (err (from_fs e), mem, s)
    | ok v ↦
        let (head, s1) = read ino 0 exec_hdr s in
        if not (is_regular v.mode)
        then (err eacces, mem, s)
        else if not (executable v.mode)
        then (err eacces, mem, s)
        else elim head [
          | err e ↦ (err (from_fs e), mem, s1)
          | ok raw ↦ elim (do h ← parse_header raw; validate h (size v); ok h) [
            | err e ↦ (err e, mem, s1)
            | ok h ↦
                let n = h.text + h.data_size in
                let (got, s2) = read ino n_txtoff n s1 in
                elim got [
                  | err e ↦ (err (from_fs e), mem, s2)
                  | ok body ↦
                      let b = padded body n in
                      let mem' = load_program mem (take h.text b) (drop h.text b) h.bss in
                      (ok (h.entry, mem'.brk), mem', s2)
                ]
          ]
        ]
  ]
