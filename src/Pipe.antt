-- ===== src/Pipe.antt =====
-- The pipe of kvfs.py: one page of buffer between the read ends and the write ends.
pub mod Flow
mod Tests
use minixfs.Prelude.{
  ℕ, ◌+◌, ◌-◌, Bool, true, false, Option, none, some, List, [], ◌∷◌, ◌++◌, ◌==◌, if◌then◌else◌,
  length, take, drop, Bytes, Result, ok, err,
}

abbrev pub pipe_size : ℕ
pipe_size = 4096

pub record Pipe : Type 0 where
  pub buf : Bytes
  pub readers : ℕ
  pub writers : ℕ

abbrev pub empty : Pipe
empty = record { buf = []; readers = 0; writers = 0 }

abbrev pub space : Pipe → ℕ
space p = pipe_size - 1 - length p.buf

-- The only error, EPIPE: the read ends are all closed.
pub data BrokenPipe : Type 0 where
  epipe : BrokenPipe

abbrev is_empty : Bytes → Bool
is_empty [] = true
is_empty (b ∷ bs) = false

-- The bytes, no bytes at the end of the file, or `none` where the caller waits.
unfoldable pub read : Pipe → ℕ → Pipe × Option Bytes
read p n =
    if is_empty p.buf
    then (if p.writers == 0 then (p, some []) else (p, none))
    else (record p { buf = drop n p.buf }, some (take n p.buf))

-- The number of bytes taken, or `none` where the caller waits.
unfoldable pub write : Pipe → Bytes → Pipe × Result BrokenPipe (Option ℕ)
write p d =
    if p.readers == 0
    then (p, err epipe)
    else if is_empty d
    then (p, ok (some 0))
    else if space p == 0
    then (p, ok none)
    else (record p { buf = p.buf ++ take (space p) d }, ok (some (length (take (space p) d))))
