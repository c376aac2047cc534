-- ===== src/Pipe/Tests.antt =====
-- The pipe of kvfs.py on small runs.
use minixfs.Prelude.{
  ℕ, ◌≡◌, ◌≢◌, ◌↔◌, ◌⊎◌, ◌-◌, refl, none, some, Bytes, List, [], ◌∷◌, length, arith, ok, err,
}
use minixfs.Pipe.{Pipe, empty, read, write, epipe, pipe_size}
use minixfs.Pipe.Flow.{
  Op, read_up_to, write_bytes, set_ends, Run, run, InOrder, run-InOrder, reports,
}

abbrev fresh : Run
fresh = record { pipe = empty; accepted = []; delivered = [] }

abbrev calls : List Op
calls = set_ends 1 1 ∷ write_bytes (1 ∷ 2 ∷ 3 ∷ []) ∷ read_up_to 2 ∷ write_bytes (4 ∷ []) ∷ []

abbrev busy : Pipe
busy = record { buf = 1 ∷ 2 ∷ []; readers = 1; writers = 1 }

abbrev one_byte : Bytes
one_byte = 7 ∷ []

run-InOrder_example : InOrder (run fresh calls)
run-InOrder_example = run-InOrder fresh calls (record { bounded = omega arith; queue = refl })

run-calls : (run fresh calls).delivered ≡ 1 ∷ 2 ∷ []
unfolding run read write
run-calls = refl

reports_example :
    (((write busy one_byte).1 ≡ err epipe) ↔ (busy.readers ≡ 0))
    × (((write busy one_byte).1 ≡ ok none)
        ↔ ((busy.readers ≢ 0) × (one_byte ≢ []) × (length busy.buf ≡ pipe_size - 1)))
    × (((read busy 1).1 ≡ none) ↔ ((busy.buf ≡ []) × (busy.writers ≢ 0)))
    × (((read busy 1).1 ≡ some [])
        ↔ (((busy.buf ≡ []) × (busy.writers ≡ 0)) ⊎ ((busy.buf ≢ []) × (◌≡◌ {A = ℕ} 1 0))))
reports_example = reports busy one_byte 1 (omega arith)
