-- ===== src/Tty/Edit.antt =====
-- Line editing, signals and reads of ktty.py in canonical mode.
use minixfs.Prelude.{
  ℕ, ◌≤◌, ◌≡◌, ◌≢◌, ◌⊎◌, ◌↔◌, subst, refl, sym, ap, ◌∙◌, Bool, true, false, not, ◌&&◌, Option, none,
  some, [], ◌∷◌, ◌++◌, if◌then◌else◌, get_or, length, Bytes, arith, length-take, take-append-drop,
  Result, ok, err, ltb,
}
use mathlib.Core.List.{append_assoc}
use minixfs.Tty.{
  Tty, Termios, has, icanon, isig, noflsh, verase, vkill, veof, veol, vintr, vquit, vsusp, sigint,
  sigquit, sigtstp, write, echo_char, echo_ctl, flush_input, post_signal, but_last, feed_line,
  feed_byte, feed_cooked, pump, read, Fed, ValueError, value_error, signal_char, echo, echoctl,
}

abbrev pub cc_at : Termios → ℕ → ℕ
cc_at m k = get_or m.cc_chars k 0

-- The terminal edits lines, and a newline is no control character.
pub record Canonical (t : Termios) : Type 0 where
  pub canonical : has t.lflag icanon ≡ true
  pub newline_free :
      (cc_at t vintr ≢ 10)
      × (cc_at t vquit ≢ 10)
      × (cc_at t vsusp ≢ 10)
      × (cc_at t verase ≢ 10)
      × (cc_at t vkill ≢ 10)
      × (cc_at t veof ≢ 10)

-- A byte that stands for itself: neither the end of a line nor a control character.
pub record IsPlain (t : Termios) (b : ℕ) : Type 0 where
  pub no_newline : b ≢ 10
  pub no_return : b ≢ 13
  pub no_signal : (b ≢ cc_at t vintr) × (b ≢ cc_at t vquit) × (b ≢ cc_at t vsusp)
  pub no_editing : (b ≢ cc_at t verase) × (b ≢ cc_at t vkill) × (b ≢ cc_at t veof)
  pub no_end : (cc_at t veol ≡ 0) ⊎ (b ≢ cc_at t veol)

-- What an echo leaves as it was.
record SameInput (t u : Tty) : Type 0 where
  termios : t.termios ≡ u.termios
  line : t.line ≡ u.line
  ready : t.ready ≡ u.ready
  signals : t.signals ≡ u.signals
  pgrp : t.pgrp ≡ u.pgrp

echo_char-SameInput : (t : Tty) (b : ℕ) → SameInput (echo_char t b) t
unfolding echo_char write
echo_char-SameInput t b = ground arith

feed_byte-feed_line_plain :
    (t : Tty) (b : ℕ)
    → Canonical t.termios
    → IsPlain t.termios b
    → feed_byte t b ≡ (ok tt, feed_line t b)
unfolding feed_byte
feed_byte-feed_line_plain t b c p = ground arith

feed_byte-feed_line_newline :
    (t : Tty) → Canonical t.termios → feed_byte t 10 ≡ (ok tt, feed_line t 10)
unfolding feed_byte
feed_byte-feed_line_newline t c = ground arith

-- What a byte does to the line, the bytes ready and the settings.
record Edited (t u : Tty) (line ready : Bytes) : Type 0 where
  termios : u.termios ≡ t.termios
  line_is : u.line ≡ line
  ready_is : u.ready ≡ ready

feed_line_plain :
    (t : Tty) (b : ℕ)
    → Canonical t.termios
    → IsPlain t.termios b
    → Edited t (feed_line t b) (t.line ++ b ∷ []) t.ready
unfolding feed_line
feed_line_plain t b c p =
    let s = echo_char-SameInput t b in ground (arith, s.termios, s.line, s.ready)

feed_line_newline :
    (t : Tty) → Canonical t.termios → Edited t (feed_line t 10) [] (t.ready ++ (t.line ++ 10 ∷ []))
unfolding feed_line
feed_line_newline t c =
    let s = echo_char-SameInput t 10 in ground (arith, s.termios, s.line, s.ready)

abbrev pub AllPlain : Termios → Bytes → Type 0
AllPlain m [] = Unit
AllPlain m (b ∷ bs) = IsPlain m b × AllPlain m bs

feed_cooked_step :
    (t u : Tty) (b : ℕ) (bs : Bytes)
    → feed_byte t b ≡ (ok tt, u)
    → feed_cooked t (b ∷ bs) ≡ feed_cooked u bs
unfolding feed_cooked
feed_cooked_step t u b bs e = ground (arith, e)

-- Plain text followed by a newline commits the line: nothing is raised, the line that was being edited,
-- the text and the newline become ready to read, in order, and the next line starts empty.
pub feed_cooked_commits :
    (t : Tty) (text : Bytes)
    → Canonical t.termios
    → AllPlain t.termios text
    → ((feed_cooked t (text ++ 10 ∷ [])).0 ≡ ok tt)
      × ((feed_cooked t (text ++ 10 ∷ [])).1.ready ≡ t.ready ++ (t.line ++ (text ++ 10 ∷ [])))
      × ((feed_cooked t (text ++ 10 ∷ [])).1.line ≡ [])
unfolding feed_cooked
feed_cooked_commits t [] c p =
    let e = feed_line_newline t c in
    let step = feed_cooked_step t (feed_line t 10) 10 [] (feed_byte-feed_line_newline t c) in
    (ap (λ r. r.0) step, ap (λ r. r.1.ready) step ∙ e.ready_is, ap (λ r. r.1.line) step ∙ e.line_is)
feed_cooked_commits t (b ∷ text) c (p, ps) =
    let u = feed_line t b in
    let e = feed_line_plain t b c p in
    let step = feed_cooked_step t u b (text ++ 10 ∷ []) (feed_byte-feed_line_plain t b c p) in
    let (k, r, l) =
      feed_cooked_commits u text (subst Canonical (sym e.termios) c)
        (subst (λ m. AllPlain m text) (sym e.termios) ps) in
    (
      ap (λ x. x.0) step ∙ k,
      ap (λ x. x.1.ready) step
          ∙ ground
              (arith, r, e.ready_is, e.line_is, append_assoc t.line (b ∷ []) (text ++ 10 ∷ [])),
      ap (λ x. x.1.line) step ∙ l,
    )

but_last-append : (l : Bytes) (b : ℕ) → but_last (l ++ b ∷ []) ≡ l
unfolding but_last
but_last-append [] b = refl
but_last-append (x ∷ []) b = refl
but_last-append (x ∷ y ∷ l) b = ap (λ t. x ∷ t) (but_last-append (y ∷ l) b)

snoc-ne-nil : (l : Bytes) (b : ℕ) → l ++ b ∷ [] ≢ []
snoc-ne-nil [] b = λ h. cc
snoc-ne-nil (x ∷ l) b = λ h. cc

feed_line_erase :
    (t : Tty)
    → t.line ≢ []
    → Edited t (feed_line t (cc_at t.termios verase)) (but_last t.line) t.ready
unfolding feed_line write
feed_line_erase t ne = ground arith

-- The erase character is none of the characters that are looked at before it.
pub record CanErase (m : Termios) : Type 0 where
  pub canonical : has m.lflag icanon ≡ true
  pub no_return : cc_at m verase ≢ 13
  pub no_signal :
      (cc_at m verase ≢ cc_at m vintr)
      × (cc_at m verase ≢ cc_at m vquit)
      × (cc_at m verase ≢ cc_at m vsusp)

feed_byte-feed_line_erase :
    (t : Tty)
    → CanErase t.termios
    → feed_byte t (cc_at t.termios verase) ≡ (ok tt, feed_line t (cc_at t.termios verase))
unfolding feed_byte
feed_byte-feed_line_erase t c = ground arith

feed_line_erased :
    (u : Tty) (line : Bytes) (b : ℕ)
    → u.line ≡ line ++ b ∷ []
    → Edited u (feed_line u (cc_at u.termios verase)) line u.ready
feed_line_erased u line b l =
    let e = feed_line_erase u (λ h. snoc-ne-nil line b (sym l ∙ h)) in
    record {
      termios = e.termios;
      line_is = e.line_is ∙ ap but_last l ∙ but_last-append line b;
      ready_is = e.ready_is;
    }

-- A plain byte that is erased at once leaves the line, the bytes ready and the settings as they were.
pub erase_undoes :
    (t : Tty) (b : ℕ)
    → Canonical t.termios
    → CanErase t.termios
    → IsPlain t.termios b
    → let (r, u) = feed_cooked t (b ∷ cc_at t.termios verase ∷ []) in
      (r ≡ ok tt) × (u.line ≡ t.line) × (u.ready ≡ t.ready) × (u.termios ≡ t.termios)
unfolding feed_cooked
erase_undoes t b c k p =
    let u = feed_line t b in
    let e = feed_line_plain t b c p in
    let x = feed_line_erased u t.line b e.line_is in
    let typed =
      feed_cooked_step t u b (cc_at t.termios verase ∷ []) (feed_byte-feed_line_plain t b c p) in
    let same : feed_byte u (cc_at t.termios verase)
        ≡ (ok tt, feed_line u (cc_at u.termios verase)) =
      ap (λ m. feed_byte u (cc_at m verase)) (sym e.termios)
      ∙ feed_byte-feed_line_erase u (subst CanErase (sym e.termios) k) in
    let whole =
      typed
      ∙ feed_cooked_step u (feed_line u (cc_at u.termios verase)) (cc_at t.termios verase) []
          same in
    (
      ap (λ r. r.0) whole,
      ap (λ r. r.1.line) whole ∙ x.line_is,
      ap (λ r. r.1.ready) whole ∙ x.ready_is ∙ e.ready_is,
      ap (λ r. r.1.termios) whole ∙ x.termios ∙ e.termios,
    )

-- The signal of a control character: which signal it posts, and whether it discards the input.
pub data SignalOf (m : Termios) (b : ℕ) : ℕ → Bool → Type 0 where
  interrupt : b ≡ cc_at m vintr → SignalOf m b sigint true
  quit : b ≡ cc_at m vquit → b ≢ cc_at m vintr → SignalOf m b sigquit true
  suspend : b ≡ cc_at m vsusp → b ≢ cc_at m vintr → b ≢ cc_at m vquit → SignalOf m b sigtstp false

-- Whether the echo of a control character would be of a number that is no byte.
abbrev pub cannot_echo : Tty → ℕ → Bool
cannot_echo t b = has t.termios.lflag echo && (has t.termios.lflag echoctl && not (ltb b 192))

-- What a signal character leaves behind it.
abbrev pub Signalled : Tty → Tty → ℕ → Bool → Type 0
Signalled t u sig discards =
    (u.signals ≡ t.signals ++ (t.pgrp, sig) ∷ [])
    × (u.line ≡ (if discards && not (has t.termios.lflag noflsh) then [] else t.line))
    × (u.ready ≡ (if discards && not (has t.termios.lflag noflsh) then [] else t.ready))

-- The outcome of one.
abbrev pub SignalOutcome : Tty → ℕ → ℕ → Bool → Fed → Type 0
SignalOutcome t b sig discards r =
    (cannot_echo t b ≡ true → r ≡ (err value_error, t))
    × (cannot_echo t b ≡ false → (r.0 ≡ ok tt) × Signalled t r.1 sig discards)

discard_lem :
    (t : Tty) (b sig : ℕ)
    → SignalOutcome t b sig true (signal_char t b (λ u. post_signal (flush_input u) sig))
unfolding signal_char echo_ctl write flush_input post_signal
discard_lem t b sig = (
  λ no. ground (arith, no),
  λ yes. (ground (arith, yes), (ground (arith, yes), ground (arith, yes), ground (arith, yes))),
)

keep_lem :
    (t : Tty) (b sig : ℕ) → SignalOutcome t b sig false (signal_char t b (λ u. post_signal u sig))
unfolding signal_char echo_ctl write post_signal
keep_lem t b sig = (
  λ no. ground (arith, no),
  λ yes. (ground (arith, yes), (ground (arith, yes), ground (arith, yes), ground (arith, yes))),
)

module _ (t : Tty) (b : ℕ) (i : has t.termios.lflag isig ≡ true) (r : b ≢ 13) where
  feed_byte_interrupt :
      b ≡ cc_at t.termios vintr
      → feed_byte t b ≡ signal_char t b (λ u. post_signal (flush_input u) sigint)
  unfolding feed_byte
  feed_byte_interrupt e = ground arith

  feed_byte_quit :
      b ≡ cc_at t.termios vquit
      → b ≢ cc_at t.termios vintr
      → feed_byte t b ≡ signal_char t b (λ u. post_signal (flush_input u) sigquit)
  unfolding feed_byte
  feed_byte_quit e f = ground arith

  feed_byte_suspend :
      b ≡ cc_at t.termios vsusp
      → b ≢ cc_at t.termios vintr
      → b ≢ cc_at t.termios vquit
      → feed_byte t b ≡ signal_char t b (λ u. post_signal u sigtstp)
  unfolding feed_byte
  feed_byte_suspend e f g = ground arith

-- With ISIG set, a control character other than a carriage return either raises ValueError and
-- changes nothing, which it does exactly where it is 192 or more and ECHO and ECHOCTL are set; or it
-- posts its signal once to the foreground group, and adds nothing to the input: the interrupt and quit
-- characters discard what was typed unless NOFLSH is set, and the suspend character keeps it.
pub feed_byte_signals :
    (t : Tty) (b : ℕ) {sig : ℕ} {discards : Bool}
    → has t.termios.lflag isig ≡ true
    → b ≢ 13
    → SignalOf t.termios b sig discards
    → SignalOutcome t b sig discards (feed_byte t b)
feed_byte_signals t b i r (interrupt e) =
    rw (feed_byte_interrupt t b i r e) (discard_lem t b sigint)
feed_byte_signals t b i r (quit e f) = rw (feed_byte_quit t b i r e f) (discard_lem t b sigquit)
feed_byte_signals t b i r (suspend e f g) =
    rw (feed_byte_suspend t b i r e f g) (keep_lem t b sigtstp)

abbrev pub got : Result ValueError (Option Bytes) → Bytes
got (err e) = []
got (ok none) = []
got (ok (some b)) = b

-- What a read hands out, followed by what stays ready, is what was ready; it is at most as many bytes
-- as asked for. The caller waits exactly when nothing is ready and no end of the file is pending, and
-- an end of the file is reported once: none is pending after an empty result. Where the input cannot be
-- taken in, the read raises what that raises.
pub read_lem :
    (t : Tty) (d : Bytes) (at_eof : Bool) (n : ℕ)
    → let (r, u) = pump t d at_eof in
      let (t', out) = read t d at_eof n in
      (u.ready ≡ got out ++ t'.ready)
      × (length (got out) ≤ n)
      × ((out ≡ ok none) ↔ ((r ≡ ok tt) × (u.ready ≡ []) × (u.eof_pending ≡ false)))
      × (out ≡ ok (some []) → u.ready ≡ [] → t'.eof_pending ≡ false)
      × ((out ≡ err value_error) ↔ (r ≡ err value_error))
unfolding read
read_lem t d at_eof n =
    let u = (pump t d at_eof).1 in
    (
      ground (arith, take-append-drop n u.ready),
      ground (arith, length-take n u.ready),
      (ground arith, λ (a, b, c). ground arith),
      ground arith,
      (ground arith, ground arith),
    )
