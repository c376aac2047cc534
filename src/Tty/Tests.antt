-- ===== src/Tty/Tests.antt =====
-- The line discipline of ktty.py on a terminal with the default settings.
use minixfs.Prelude.{
  ◌≤◌, ◌≡◌, ◌↔◌, refl, inl, true, false, none, some, [], ◌∷◌, ◌++◌, get_or, length, arith, ok, err,
  drop,
}
use minixfs.Tty.{
  answer, Tty, default_termios, feed, feed_byte, feed_cooked, pump, read, sigint, echo_char, write,
  feed_line, message, default_cc, value_error, signal_char, echo_ctl,
}
use minixfs.Tty.Feed.{feed-append, is_quiet, no_answer}
use minixfs.Tty.Edit.{
  Canonical, IsPlain, CanErase, feed_cooked_commits, interrupt, SignalOutcome, feed_byte_signals,
  got, read_lem,
}

abbrev console : Tty
console = record {
  termios = default_termios;
  pgrp = 4;
  line = b'x' ∷ [];
  ready = [];
  eof_pending = false;
  escape = 1;
  on_escape = true;
  escape_armed = false;
  is_tty = true;
  console_tail = [];
  written = [];
  signals = [];
  escapes = [];
}

default-Canonical : Canonical default_termios
default-Canonical = record {
  canonical = refl;
  newline_free = (omega arith, omega arith, omega arith, omega arith, omega arith, omega arith);
}

default-CanErase : CanErase default_termios
default-CanErase = record {
  canonical = refl;
  no_return = omega arith;
  no_signal = (omega arith, omega arith, omega arith);
}

a-IsPlain : IsPlain default_termios b'a'
a-IsPlain = record {
  no_newline = omega arith;
  no_return = omega arith;
  no_signal = (omega arith, omega arith, omega arith);
  no_editing = (omega arith, omega arith, omega arith);
  no_end = inl refl;
}

-- A line ended by a carriage return, with its echo.
types_line : (feed console (b'a' ∷ 13 ∷ [])).1.written ≡ b'a' ∷ 13 ∷ 10 ∷ []
unfolding feed feed_cooked feed_byte feed_line echo_char write
types_line = refl

-- The escape key, then a command, between two letters.
takes_command : (feed console (b'a' ∷ 1 ∷ b'c' ∷ b'b' ∷ [])).1.escapes ≡ b'c' ∷ []
unfolding feed feed_cooked feed_byte feed_line echo_char write answer message
takes_command = refl

-- The help comes before the echo of a letter that is typed before it, but not where the input is cut.
help_first : get_or (feed console (b'a' ∷ 1 ∷ b'?' ∷ [])).1.written 0 0 ≡ 13
unfolding feed feed_cooked feed_byte feed_line echo_char write answer message
help_first = refl

help_last : get_or (feed (feed console (b'a' ∷ 1 ∷ [])).1 (b'?' ∷ [])).1.written 0 0 ≡ b'a'
unfolding feed feed_cooked feed_byte feed_line echo_char write answer message
help_last = refl

feed-append_example :
    feed console ((b'a' ∷ 1 ∷ []) ++ (b'c' ∷ 3 ∷ []))
    ≡ feed (feed console (b'a' ∷ 1 ∷ [])).1 (b'c' ∷ 3 ∷ [])
unfolding feed feed_cooked feed_byte feed_line echo_char write is_quiet message
feed-append_example = feed-append console (b'a' ∷ 1 ∷ []) (b'c' ∷ 3 ∷ []) refl (no_answer refl)

feed_cooked_commits_example :
    ((feed_cooked console (b'a' ∷ 10 ∷ [])).0 ≡ ok tt)
    × ((feed_cooked console (b'a' ∷ 10 ∷ [])).1.ready ≡ b'x' ∷ b'a' ∷ 10 ∷ [])
    × ((feed_cooked console (b'a' ∷ 10 ∷ [])).1.line ≡ [])
feed_cooked_commits_example =
    feed_cooked_commits console (b'a' ∷ []) default-Canonical (a-IsPlain, tt)

feed_byte_signals_example : SignalOutcome console 3 sigint true (feed_byte console 3)
feed_byte_signals_example = feed_byte_signals console 3 refl (omega arith) (interrupt refl)

-- A control character that has no echo.
abbrev odd : Tty
odd = record console { termios = record default_termios { cc_chars = 200 ∷ drop 1 default_cc } }

raises : feed_byte odd 200 ≡ (err value_error, odd)
unfolding feed_byte signal_char echo_ctl
raises = refl

read_lem_example :
    let (r, u) = pump console (b'a' ∷ 10 ∷ []) false in
    let (t', out) = read console (b'a' ∷ 10 ∷ []) false 2 in
    (u.ready ≡ got out ++ t'.ready)
    × (length (got out) ≤ 2)
    × ((out ≡ ok none) ↔ ((r ≡ ok tt) × (u.ready ≡ []) × (u.eof_pending ≡ false)))
    × (out ≡ ok (some []) → u.ready ≡ [] → t'.eof_pending ≡ false)
    × ((out ≡ err value_error) ↔ (r ≡ err value_error))
read_lem_example = read_lem console (b'a' ∷ 10 ∷ []) false 2
