-- ===== src/Pipe/Flow.antt =====
-- The pipe of kvfs.py as a bounded queue of bytes.
use minixfs.Prelude.{
  ℕ, zero, suc, ◌-◌, ◌≤◌, ◌≡◌, refl, sym, ap, ◌∙◌, ◌⊎◌, ◌↔◌, ◌≢◌, inl, inr, Option, none, some,
  List, [], ◌∷◌, ◌++◌, length, take, Bytes, Result, ok, err, arith, length-append, length-take,
  length-drop, take-append-drop,
}
use mathlib.Core.List.{append_assoc, append-nil}
use minixfs.Pipe.{Pipe, pipe_size, space, read, write, epipe, BrokenPipe}

-- A pipe never holds more than a page less one byte.
abbrev pub IsBounded : Pipe → Type 0
IsBounded p = length p.buf ≤ pipe_size - 1

-- The end points of a pipe open and close between the calls.
pub data Op : Type 0 where
  read_up_to : ℕ → Op
  write_bytes : Bytes → Op
  set_ends : ℕ → ℕ → Op

-- A pipe with the bytes that it has accepted and those that it has delivered since it was made.
pub record Run : Type 0 where
  pub pipe : Pipe
  pub accepted : Bytes
  pub delivered : Bytes

abbrev got : Option Bytes → Bytes
got none = []
got (some b) = b

-- What a call accepted: as many bytes of its argument as it reports.
abbrev put : Bytes → Result BrokenPipe (Option ℕ) → Bytes
put d (ok (some n)) = take n d
put d (ok none) = []
put d (err e) = []

unfoldable pub step : Run → Op → Run
step r (read_up_to n) =
    let (p, out) = read r.pipe n in record r { pipe = p; delivered = r.delivered ++ got out }
step r (write_bytes d) =
    let (p, out) = write r.pipe d in record r { pipe = p; accepted = r.accepted ++ put d out }
step r (set_ends a b) = record r { pipe = record { buf = r.pipe.buf; readers = a; writers = b } }

unfoldable pub run : Run → List Op → Run
unfolding step
run r [] = r
run r (o ∷ os) = run (step r o) os

-- What was accepted is what was delivered and then what the buffer holds, in order.
pub record InOrder (r : Run) : Type 0 where
  pub bounded : IsBounded r.pipe
  pub queue : r.accepted ≡ r.delivered ++ r.pipe.buf

take-length-take : (k : ℕ) (d : Bytes) → take (length (take k d)) d ≡ take k d
take-length-take zero d = refl
take-length-take (suc k) [] = refl
take-length-take (suc k) (b ∷ d) = ap (λ t. b ∷ t) (take-length-take k d)

read_queue : (p : Pipe) (n : ℕ) → p.buf ≡ got (read p n).1 ++ (read p n).0.buf
unfolding read
read_queue p n = ground (arith, take-append-drop n p.buf)

read-IsBounded : (p : Pipe) (n : ℕ) → IsBounded p → IsBounded (read p n).0
unfolding read
read-IsBounded p n h = ground (arith, length-drop n p.buf)

write_queue : (p : Pipe) (d : Bytes) → (write p d).0.buf ≡ p.buf ++ put d (write p d).1
unfolding write
write_queue p d = ground (arith, take-length-take (space p) d, append-nil p.buf)

write-IsBounded : (p : Pipe) (d : Bytes) → IsBounded p → IsBounded (write p d).0
unfolding write
write-IsBounded p d h =
    ground (arith, length-append p.buf (take (space p) d), length-take (space p) d)

step-InOrder : (r : Run) (o : Op) → InOrder r → InOrder (step r o)
unfolding step
step-InOrder r (read_up_to n) h = record {
  bounded = read-IsBounded r.pipe n h.bounded;
  queue =
      h.queue
      ∙ ap (λ t. r.delivered ++ t) (read_queue r.pipe n)
      ∙ sym (append_assoc r.delivered (got (read r.pipe n).1) (read r.pipe n).0.buf);
}
step-InOrder r (write_bytes d) h = record {
  bounded = write-IsBounded r.pipe d h.bounded;
  queue =
      ap (λ t. t ++ put d (write r.pipe d).1) h.queue
      ∙ append_assoc r.delivered r.pipe.buf (put d (write r.pipe d).1)
      ∙ ap (λ t. r.delivered ++ t) (sym (write_queue r.pipe d));
}
step-InOrder r (set_ends a b) h = record { bounded = h.bounded; queue = h.queue }

-- However the calls on a pipe are ordered and its ends open and close, no byte is lost, doubled or
-- reordered, and the buffer stays below the page: the bytes accepted so far are the bytes delivered
-- so far followed by the buffer.
pub run-InOrder : (r : Run) (os : List Op) → InOrder r → InOrder (run r os)
unfolding run
run-InOrder r [] h = h
run-InOrder r (o ∷ os) h = run-InOrder (step r o) os (step-InOrder r o h)

take_none : (n : ℕ) (b : Bytes) → take n b ≡ [] → (b ≡ []) ⊎ (n ≡ 0)
take_none zero b h = inr refl
take_none (suc n) [] h = inl refl
take_none (suc n) (x ∷ b) h = cc

take_zero : (n : ℕ) (b : Bytes) → n ≡ 0 → take n b ≡ []
take_zero n b h = ap (λ k. take k b) h

-- What a call reports, in every state: EPIPE exactly without a reader; a wait of a write exactly
-- with bytes to write and a full buffer; a wait of a read exactly with an empty buffer and a writer;
-- and the end of the file exactly with an empty buffer and no writer, or for a read of no bytes.
pub reports :
    (p : Pipe) (d : Bytes) (n : ℕ)
    → IsBounded p
    → (((write p d).1 ≡ err epipe) ↔ (p.readers ≡ 0))
      × (((write p d).1 ≡ ok none) ↔ ((p.readers ≢ 0) × (d ≢ []) × (length p.buf ≡ pipe_size - 1)))
      × (((read p n).1 ≡ none) ↔ ((p.buf ≡ []) × (p.writers ≢ 0)))
      × (((read p n).1 ≡ some []) ↔ (((p.buf ≡ []) × (p.writers ≡ 0)) ⊎ ((p.buf ≢ []) × (n ≡ 0))))
unfolding write read
reports p d n h = (
  (ground arith, ground arith),
  (ground arith, λ (r, b, full). ground arith),
  (ground arith, λ (e, w). ground arith),
  (λ e. waits e, λ e. ended e),
)
  where
    waits : (read p n).1 ≡ some [] → ((p.buf ≡ []) × (p.writers ≡ 0)) ⊎ ((p.buf ≢ []) × (n ≡ 0))
    waits e = ground (arith, take_none n p.buf)

    ended : ((p.buf ≡ []) × (p.writers ≡ 0)) ⊎ ((p.buf ≢ []) × (n ≡ 0)) → (read p n).1 ≡ some []
    ended (inl (b, w)) = ground arith
    ended (inr (b, z)) = ground (arith, take_zero n p.buf z)
