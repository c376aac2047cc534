-- ===== src/Tty.antt =====
-- The line discipline of ktty.py: echo, line editing and the characters that send signals.
-- What is written to the terminal, the signals posted to the kernel and the escape commands given to
-- it are kept as logs, in order. The callback of the commands is `Kernel.on_escape` of kernel.py, as
-- emulator.py sets it: it may write to the same terminal.
pub mod Rearm
pub mod Feed
pub mod Edit
mod Tests
use minixfs.Prelude.{
  ℕ, zero, suc, ◌+◌, ◌-◌, ◌*◌, ◌/◌, ◌%◌, ◌^◌, Bool, true, false, not, ◌&&◌, ◌||◌, Option, none,
  some, List, [], ◌∷◌, ◌++◌, ◌==◌, ltb, leb, if◌then◌else◌, length, get_or, take, drop, Bytes,
  Result, ok, err,
}

-- The flags by the position of their bit.
abbrev pub has : ℕ → ℕ → Bool
has flags k = flags / 2 ^ k % 2 == 1

abbrev pub icrnl : ℕ
icrnl = 8

abbrev pub opost : ℕ
opost = 0

abbrev pub onlcr : ℕ
onlcr = 2

abbrev pub isig : ℕ
isig = 0

abbrev pub icanon : ℕ
icanon = 1

abbrev pub echo : ℕ
echo = 3

abbrev pub echoe : ℕ
echoe = 4

abbrev pub noflsh : ℕ
noflsh = 7

abbrev pub echoctl : ℕ
echoctl = 9

-- Positions in `c_cc`.
abbrev pub vintr : ℕ
vintr = 0

abbrev pub vquit : ℕ
vquit = 1

abbrev pub verase : ℕ
verase = 2

abbrev pub vkill : ℕ
vkill = 3

abbrev pub veof : ℕ
veof = 4

abbrev pub vsusp : ℕ
vsusp = 10

abbrev pub veol : ℕ
veol = 11

abbrev pub sigint : ℕ
sigint = 2

abbrev pub sigquit : ℕ
sigquit = 3

abbrev pub sigtstp : ℕ
sigtstp = 20

pub record Termios : Type 0 where
  pub iflag : ℕ
  pub oflag : ℕ
  pub cflag : ℕ
  pub lflag : ℕ
  pub c_line : ℕ
  pub cc_chars : List ℕ

-- `default_cc`
abbrev pub default_cc : List ℕ
default_cc = 3 ∷ 28 ∷ 127 ∷ 21 ∷ 4 ∷ 0 ∷ 1 ∷ 0 ∷ 17 ∷ 19 ∷ 26 ∷ 0 ∷ 18 ∷ 15 ∷ 23 ∷ 22 ∷ 0 ∷ []

abbrev pub default_termios : Termios
default_termios = record {
  iflag = 0o2402;
  oflag = 0o5;
  cflag = 0o275;
  lflag = 0o5073;
  c_line = 0;
  cc_chars = default_cc;
}

pub record Tty : Type 0 where
  pub termios : Termios
  pub pgrp : ℕ
  pub line : Bytes
  pub ready : Bytes
  pub eof_pending : Bool
  pub escape : ℕ
  pub on_escape : Bool
  pub escape_armed : Bool
  pub is_tty : Bool
  pub console_tail : Bytes
  pub written : Bytes
  pub signals : List (ℕ × ℕ)
  pub escapes : Bytes

-- `data.replace(b"\n", b"\r\n")`
unfoldable pub expand_newlines : Bytes → Bytes
expand_newlines [] = []
expand_newlines (b ∷ bs) =
    let rest = expand_newlines bs in if b == 10 then 13 ∷ 10 ∷ rest else b ∷ rest

-- The last `n` bytes, as a deque of that length keeps them.
abbrev last_bytes : ℕ → Bytes → Bytes
last_bytes n bs = drop (length bs - n) bs

abbrev console_max : ℕ
console_max = 8192

-- `write`: the new state; the number returned is the length of the bytes asked for.
unfoldable pub write : Tty → Bytes → Tty × ℕ
unfolding expand_newlines
write t d =
    let out =
      if has t.termios.oflag opost && (has t.termios.oflag onlcr && t.is_tty)
      then expand_newlines d
      else d in
    (
      record t {
        written = t.written ++ out;
        console_tail = last_bytes console_max (t.console_tail ++ d);
      },
      length d,
    )

-- `_echo`
unfoldable pub echo_char : Tty → ℕ → Tty
echo_char t ch =
    if has t.termios.lflag echo
    then (if ch == 10
        then (write t (10 ∷ [])).0
        else if ltb ch 32 && has t.termios.lflag echoctl
        then (write t (b'^' ∷ (ch + 64) ∷ [])).0
        else (write t (ch ∷ [])).0)
    else t

-- What feeding raises: `bytes` of a number that is no byte.
pub data ValueError : Type 0 where
  value_error : ValueError

abbrev pub Fed : Type 0
Fed = Result ValueError (Unit {0}) × Tty

-- `_echo_ctl`; for a byte of 192 and more, `bytes((byte + 64,))` raises.
unfoldable pub echo_ctl : Tty → ℕ → Fed
echo_ctl t byte =
    if has t.termios.lflag echo && has t.termios.lflag echoctl
    then (if ltb byte 192
        then (ok tt, (write t (b'^' ∷ (byte + 64) ∷ [])).0)
        else (err value_error, t))
    else (ok tt, t)

-- `_flush_input`
unfoldable pub flush_input : Tty → Tty
flush_input t = if has t.termios.lflag noflsh then t else record t { line = []; ready = [] }

unfoldable pub post_signal : Tty → ℕ → Tty
post_signal t sig = record t { signals = t.signals ++ (t.pgrp, sig) ∷ [] }

-- `b"\b \b"`, as often as there are bytes on the line.
unfoldable pub rub_out : ℕ → Bytes
rub_out zero = []
rub_out (suc n) = 8 ∷ 32 ∷ 8 ∷ rub_out n

-- `self.line.pop()`
unfoldable pub but_last : Bytes → Bytes
but_last [] = []
but_last (b ∷ []) = []
but_last (b ∷ c ∷ bs) = b ∷ but_last (c ∷ bs)

abbrev cc_at : Tty → ℕ → ℕ
cc_at t k = get_or t.termios.cc_chars k 0

abbrev no_bytes : Bytes → Bool
no_bytes [] = true
no_bytes (b ∷ bs) = false

-- The editing of a line, from the test on VERASE on.
unfoldable pub feed_line : Tty → ℕ → Tty
unfolding but_last rub_out
feed_line t byte =
    if byte == cc_at t verase
    then (if no_bytes t.line
        then t
        else let t' = record t { line = but_last t.line } in
          if has t.termios.lflag echoe then (write t' (rub_out 1)).0 else t')
    else if byte == cc_at t vkill
    then (let t' = if has t.termios.lflag echoe then (write t (rub_out (length t.line))).0 else t in
        record t' { line = [] })
    else if byte == cc_at t veof
    then (if no_bytes t.line
        then record t { eof_pending = true }
        else record t { ready = t.ready ++ t.line; line = [] })
    else let t' = echo_char t byte in
      let line' = t'.line ++ byte ∷ [] in
      if byte == 10 || (not (cc_at t veol == 0) && byte == cc_at t veol)
      then record t' { ready = t'.ready ++ line'; line = [] }
      else record t' { line = line' }

-- A control character: its echo, which may raise, and what follows.
unfoldable pub signal_char : Tty → ℕ → (Tty → Tty) → Fed
unfolding echo_ctl
signal_char t byte k =
    let (r, t') = echo_ctl t byte in elim r [ ok _ ↦ (ok tt, k t') | err e ↦ (err e, t') ]

-- One round of the loop of `_feed_cooked`.
unfoldable pub feed_byte : Tty → ℕ → Fed
unfolding signal_char
feed_byte t raw =
    let byte = if has t.termios.iflag icrnl && raw == 13 then 10 else raw in
    if has t.termios.lflag isig && byte == cc_at t vintr
    then signal_char t byte (λ u. post_signal (flush_input u) sigint)
    else if has t.termios.lflag isig && byte == cc_at t vquit
    then signal_char t byte (λ u. post_signal (flush_input u) sigquit)
    else if has t.termios.lflag isig && byte == cc_at t vsusp
    then signal_char t byte (λ u. post_signal u sigtstp)
    else if has t.termios.lflag icanon
    then (ok tt, feed_line t byte)
    else (ok tt, echo_char (record t { ready = t.ready ++ byte ∷ [] }) byte)

-- The loop ends where a round raises.
unfoldable pub feed_cooked : Tty → Bytes → Fed
feed_cooked t [] = (ok tt, t)
feed_cooked t (b ∷ bs) =
    let (r, t') = feed_byte t b in elim r [ ok _ ↦ feed_cooked t' bs | err e ↦ (err e, t') ]

-- `ESCAPE_HELP` of kmonitor.py behind a newline, and the farewell, in UTF-8.
abbrev help_text : Bytes
help_text =
    10 ∷ 67 ∷ 116 ∷ 114 ∷ 108 ∷ 45 ∷ 65 ∷ 32 ∷ 99 ∷ 32 ∷ 32 ∷ 32 ∷ 232 ∷ 191 ∷ 155 ∷ 229 ∷ 133 ∷ 165
    ∷ 32 ∷ 109 ∷ 111 ∷ 110 ∷ 105 ∷ 116 ∷ 111 ∷ 114 ∷ 32 ∷ 230 ∷ 142 ∷ 167 ∷ 229 ∷ 136 ∷ 182 ∷ 229
    ∷ 143 ∷ 176 ∷ 10 ∷ 67 ∷ 116 ∷ 114 ∷ 108 ∷ 45 ∷ 65 ∷ 32 ∷ 120 ∷ 32 ∷ 32 ∷ 32 ∷ 233 ∷ 128 ∷ 128
    ∷ 229 ∷ 135 ∷ 186 ∷ 228 ∷ 187 ∷ 191 ∷ 231 ∷ 156 ∷ 159 ∷ 229 ∷ 153 ∷ 168 ∷ 10 ∷ 67 ∷ 116 ∷ 114
    ∷ 108 ∷ 45 ∷ 65 ∷ 32 ∷ 97 ∷ 32 ∷ 32 ∷ 32 ∷ 229 ∷ 143 ∷ 145 ∷ 233 ∷ 128 ∷ 129 ∷ 228 ∷ 184 ∷ 128
    ∷ 228 ∷ 184 ∷ 170 ∷ 231 ∷ 156 ∷ 159 ∷ 230 ∷ 173 ∷ 163 ∷ 231 ∷ 154 ∷ 132 ∷ 32 ∷ 67 ∷ 116 ∷ 114
    ∷ 108 ∷ 45 ∷ 65 ∷ 32 ∷ 231 ∷ 187 ∷ 153 ∷ 232 ∷ 162 ∷ 171 ∷ 228 ∷ 187 ∷ 191 ∷ 231 ∷ 156 ∷ 159
    ∷ 231 ∷ 168 ∷ 139 ∷ 229 ∷ 186 ∷ 143 ∷ 10 ∷ 67 ∷ 116 ∷ 114 ∷ 108 ∷ 45 ∷ 65 ∷ 32 ∷ 63 ∷ 32 ∷ 32
    ∷ 32 ∷ 230 ∷ 152 ∷ 190 ∷ 231 ∷ 164 ∷ 186 ∷ 232 ∷ 191 ∷ 153 ∷ 228 ∷ 187 ∷ 189 ∷ 229 ∷ 184 ∷ 174
    ∷ 229 ∷ 138 ∷ 169 ∷ 10 ∷ []

abbrev quit_text : Bytes
quit_text =
    10 ∷ 228 ∷ 187 ∷ 191 ∷ 231 ∷ 156 ∷ 159 ∷ 229 ∷ 153 ∷ 168 ∷ 233 ∷ 128 ∷ 128 ∷ 229 ∷ 135 ∷ 186
    ∷ 227 ∷ 128 ∷ 130 ∷ 10 ∷ []

-- What `Kernel.on_escape` writes for a command; the flags of the kernel that it sets are left to the log.
unfoldable pub message : ℕ → Option Bytes
message b =
    if b == b'x' || b == b'X'
    then some quit_text
    else if b == b'?' || (b == b'h' || b == b'H')
    then some help_text
    else none

unfoldable pub answer : Tty → ℕ → Tty
answer t b = elim (message b) [ none ↦ t | some m ↦ (write t m).0 ]

abbrev pub is_command_a : Tty → ℕ → Bool
is_command_a t b = b == t.escape || (b == b'a' || b == b'A')

-- One round of the loop of `_strip_escapes`: what it does to the state, and the bytes it lets through.
unfoldable pub filter_state : Tty → ℕ → Tty
filter_state t b =
    if t.escape_armed
    then (if is_command_a t b
        then record t { escape_armed = false }
        else record (answer t b) { escape_armed = false; escapes = t.escapes ++ b ∷ [] })
    else if b == t.escape
    then record t { escape_armed = true }
    else t

unfoldable pub filter_output : Tty → ℕ → Bytes
filter_output t b =
    if t.escape_armed
    then (if is_command_a t b then t.escape ∷ [] else [])
    else if b == t.escape
    then []
    else b ∷ []

-- The state with the commands noted, and what is left for the line discipline.
unfoldable pub strip_escapes : Tty → Bytes → Tty × Bytes
unfolding filter_state filter_output
strip_escapes t [] = (t, [])
strip_escapes t (b ∷ bs) =
    let (t', out) = strip_escapes (filter_state t b) bs in (t', filter_output t b ++ out)

-- The commands of the input come first, and then what is left of it.
unfoldable pub feed : Tty → Bytes → Fed
unfolding feed_cooked strip_escapes
feed t d =
    let (t', left) = strip_escapes t d in
    if t.on_escape then feed_cooked t' left else feed_cooked t d

-- `pump`, with the bytes that the terminal had, and whether it reports its end.
unfoldable pub pump : Tty → Bytes → Bool → Fed
pump t d at_eof =
    if no_bytes d
    then (ok tt, if at_eof && no_bytes t.ready then record t { eof_pending = true } else t)
    else feed t d

-- `read`, with what the pump finds: the bytes, no bytes at the end of the file, or a wait.
unfoldable pub read : Tty → Bytes → Bool → ℕ → Tty × Result ValueError (Option Bytes)
read t d at_eof n =
    let (r, t') = pump t d at_eof in
    elim r [
      | err e ↦ (t', err e)
      | ok _ ↦
          if no_bytes t'.ready
          then (if t'.eof_pending
              then (record t' { eof_pending = false }, ok (some []))
              else (t', ok none))
          else (record t' { ready = drop n t'.ready }, ok (some (take n t'.ready)))
    ]
