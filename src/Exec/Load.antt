-- ===== src/Exec/Load.antt =====
-- What kexec.py accepts, and where it puts an executable.
use minixfs.Prelude.{
  ℕ, ◌+◌, ◌≤◌, ◌≡◌, refl, sym, ap, ◌∙◌, true, false, some, ◌++◌, take, drop, take-append-drop,
  length-slice, ◌↔◌, length, length-append, length-take, length-zeros, Bytes, slice, zeros, ok,
  arith,
}
use mathlib.Core.List.{append_assoc}
use minixfs.MinixFs.Format.{is_dir, is_regular}
use minixfs.Memory.{AddressSpace, load_program}
use minixfs.Overlay.Dict.{table_get}
use minixfs.Overlay.State.{OverlayFs, VInode, the, size}
use minixfs.Overlay.Ops.{read}
use minixfs.Exec.{
  AoutHeader, zmagic, max_total, n_txtoff, exec_hdr, parse_header, validate, executable, padded,
  load_aout,
}

-- What the kernel asks of the header of a file of the size.
pub record IsLoadable (h : AoutHeader) (file_size : ℕ) : Type 0 where
  pub magic : h.magic ≡ zmagic
  pub no_text_relocation : h.trsize ≡ 0
  pub no_data_relocation : h.drsize ≡ 0
  pub fits : h.text + h.data_size + h.bss ≤ max_total
  pub whole : h.text + h.data_size + h.syms + n_txtoff ≤ file_size

-- `validate` accepts exactly the headers with the magic number, without relocations, of a program
-- that is not too large, and of a file that holds what the header announces.
pub validate_iff :
    (h : AoutHeader) (file_size : ℕ) → (validate h file_size ≡ ok tt) ↔ IsLoadable h file_size
unfolding validate
validate_iff h n = (
  λ e. record {
    magic = ground (arith, e);
    no_text_relocation = ground (arith, e);
    no_data_relocation = ground (arith, e);
    fits = ground (arith, e);
    whole = ground (arith, e);
  },
  λ l. ground (arith, l.magic, l.no_text_relocation, l.no_data_relocation, l.fits, l.whole),
)

module _ (s : OverlayFs) (ino : ℕ) (v : VInode) (d : Bytes) (at : table_get ino s.vnodes ≡ some v)
    (f : is_dir v.mode ≡ false) (c : v.content ≡ some d) where
  read_content : (a n : ℕ) → read ino a n s ≡ (ok (slice d a (a + n)), s)
  unfolding the read
  read_content a n = ground (arith, at, f, c)

  size_content : size v ≡ length d
  unfolding size
  size_content = ground (arith, c)

  the_file : (the ino s).0 ≡ ok v
  unfolding the
  the_file = ground (arith, at)

padded_full : (body : Bytes) (n : ℕ) → length body ≡ n → padded body n ≡ body
padded_full body n e = ground (arith, e)

whole_body :
    (d : Bytes) (n syms : ℕ)
    → n + syms + n_txtoff ≤ length d
    → length (slice d n_txtoff (n_txtoff + n)) ≡ n
whole_body d n syms whole = omega (arith, length-slice d n_txtoff (n_txtoff + n), whole)

regular_no_dir : (mode : ℕ) → is_regular mode ≡ true → is_dir mode ≡ false
regular_no_dir mode h = ground (arith, h)

module _ {I : Type 0} where
  load_steps :
      (mem : AddressSpace I) (s : OverlayFs) (ino : ℕ) (v : VInode) (d : Bytes) (h : AoutHeader)
      → (the ino s).0 ≡ ok v
      → ((a n : ℕ) → read ino a n s ≡ (ok (slice d a (a + n)), s))
      → is_regular v.mode ≡ true
      → executable v.mode ≡ true
      → parse_header (slice d 0 exec_hdr) ≡ ok h
      → validate h (size v) ≡ ok tt
      → let b =
          padded (slice d n_txtoff (n_txtoff + (h.text + h.data_size))) (h.text + h.data_size) in
        let mem' = load_program mem (take h.text b) (drop h.text b) h.bss in
        load_aout mem ino s ≡ (ok (h.entry, mem'.brk), mem', s)
  unfolding load_aout
  load_steps mem s ino v d h at r reg x p val =
      ground (arith, at, r 0 exec_hdr, r n_txtoff (h.text + h.data_size), reg, x, p, val)

  -- An executable regular file in memory whose header is accepted is loaded: the entry is that of the
  -- header, the low region holds the text and the data as they stand in the file from byte 1024 on and
  -- then zeros for the bss, the text ends where the header says, the break is the end of the low
  -- region, and the stack and the overlay are as they were.
  pub load_aout_lem :
      (mem : AddressSpace I) (s : OverlayFs) (ino : ℕ) (v : VInode) (d : Bytes) (h : AoutHeader)
      → table_get ino s.vnodes ≡ some v
      → v.content ≡ some d
      → is_regular v.mode ≡ true
      → executable v.mode ≡ true
      → parse_header (slice d 0 exec_hdr) ≡ ok h
      → IsLoadable h (length d)
      → let n = h.text + h.data_size in
        (mem' : AddressSpace I) × (load_aout mem ino s ≡ (ok (h.entry, n + h.bss), mem', s))
        × (mem'.low ≡ slice d n_txtoff (n_txtoff + n) ++ zeros h.bss)
        × (mem'.text_end ≡ h.text)
        × (mem'.low_end ≡ n + h.bss)
        × (mem'.brk ≡ n + h.bss)
        × (mem'.stack ≡ mem.stack)
        × (mem'.stack_low ≡ mem.stack_low)
  unfolding load_program
  load_aout_lem mem s ino v d h at c reg x p l =
      let n = h.text + h.data_size in
      let body = slice d n_txtoff (n_txtoff + n) in
      let len = whole_body d n h.syms l.whole in
      let same = padded_full body n len in
      let f = regular_no_dir v.mode reg in
      let mem' = load_program mem (take h.text body) (drop h.text body) h.bss in
      let low_eq : mem'.low ≡ body ++ zeros h.bss =
        sym (append_assoc (take h.text body) (drop h.text body) (zeros h.bss))
        ∙ ap (λ t. t ++ zeros h.bss) (take-append-drop h.text body) in
      let end_eq : length mem'.low ≡ n + h.bss =
        ap (λ t. length t) low_eq
        ∙ omega (arith, length-append body (zeros h.bss), length-zeros h.bss, len) in
      (
        mem',
        load_steps mem s ino v d h (the_file s ino v d at f c) (read_content s ino v d at f c) reg x
              p
              (ap (λ k. validate h k) (size_content s ino v d at f c)
                ∙ (validate_iff h (length d)).1 l)
            ∙ ap
                (λ b.
                  (let m = load_program mem (take h.text b) (drop h.text b) h.bss in
                    (ok (h.entry, m.brk), m, s)))
                same
            ∙ ap (λ k. (ok (h.entry, k), mem', s)) end_eq,
        low_eq,
        omega (arith, length-take h.text body, len),
        end_eq,
        end_eq,
        refl,
        refl,
      )
