-- ===== src/Tty/Rearm.antt =====
-- The line discipline of ktty.py, byte by byte, beside what only the escape filter looks at.
use minixfs.Prelude.{
  ℕ, ◌≡◌, refl, sym, ap, ◌∙◌, Bool, ◌&&◌, [], ◌∷◌, ◌++◌, ◌==◌, inl, inr, if◌then◌else◌, Bytes,
  arith, Result-cases, ok, err,
}
use minixfs.Tty.{
  Tty, Fed, ValueError, has, icrnl, write, echo_char, echo_ctl, signal_char, flush_input,
  post_signal, feed_line, feed_byte, sigint, sigquit, sigtstp, feed_cooked,
}

feed_cooked-ok :
    (t u : Tty) (b : ℕ) (d : Bytes)
    → feed_byte t b ≡ (ok tt, u)
    → feed_cooked t (b ∷ d) ≡ feed_cooked u d
unfolding feed_cooked
feed_cooked-ok t u b d e = ground (arith, e)

feed_cooked-err :
    (t u : Tty) (b : ℕ) (d : Bytes) (x : ValueError)
    → feed_byte t b ≡ (err x, u)
    → feed_cooked t (b ∷ d) ≡ (err x, u)
unfolding feed_cooked
feed_cooked-err t u b d x e = ground (arith, e)

-- The rest is fed where the first part raises nothing.
pub feed_cooked-append :
    (t : Tty) (a b : Bytes)
    → (feed_cooked t a).0 ≡ ok tt
    → feed_cooked t (a ++ b) ≡ feed_cooked (feed_cooked t a).1 b
unfolding feed_cooked
feed_cooked-append t [] b h = refl
feed_cooked-append t (x ∷ a) b h = elim (Result-cases (feed_byte t x).0) [
  | inl (k, e) ↦
      let u = (feed_byte t x).1 in
      let one : feed_byte t x ≡ (ok tt, u) = ap (λ r. (r, u)) e in
      let first = feed_cooked-ok t u x a one in
      feed_cooked-ok t u x (a ++ b) one
      ∙ feed_cooked-append u a b (sym (ap (λ r. r.0) first) ∙ h)
      ∙ ap (λ r. feed_cooked r.1 b) (sym first)
  | inr (k, e) ↦
      let u = (feed_byte t x).1 in
      cc (sym h ∙ ap (λ r. r.0) (feed_cooked-err t u x a k (ap (λ r. (r, u)) e)))
]

-- The fields that only the escape filter reads and writes.
abbrev pub rearm : Tty → Bool → Bytes → ℕ → Bool → Tty
rearm t a e x y = record t { escape_armed = a; escapes = e; escape = x; on_escape = y }

module _ (a : Bool) (e : Bytes) (x : ℕ) (y : Bool) where
  abbrev pub rearm_fed : Fed → Fed
  rearm_fed r = (r.0, rearm r.1 a e x y)

  echo_char-rearm :
      (t : Tty) (ch : ℕ) → echo_char (rearm t a e x y) ch ≡ rearm (echo_char t ch) a e x y
  unfolding echo_char write
  echo_char-rearm t ch = ground arith

  echo_ctl-rearm : (t : Tty) (ch : ℕ) → echo_ctl (rearm t a e x y) ch ≡ rearm_fed (echo_ctl t ch)
  unfolding echo_ctl write
  echo_ctl-rearm t ch = ground arith

  flush_input-rearm : (t : Tty) → flush_input (rearm t a e x y) ≡ rearm (flush_input t) a e x y
  unfolding flush_input
  flush_input-rearm t = ground arith

  signal_char-rearm :
      (t : Tty) (b : ℕ) (k : Tty → Tty)
      → ((u : Tty) → k (rearm u a e x y) ≡ rearm (k u) a e x y)
      → signal_char (rearm t a e x y) b k ≡ rearm_fed (signal_char t b k)
  unfolding signal_char
  signal_char-rearm t b k same =
      let u = (echo_ctl t b).1 in
      ap (λ r. elim r.0 [ ok _ ↦ (ok tt, k r.1) | err e ↦ (err e, r.1) ]) (echo_ctl-rearm t b)
      ∙ (elim (Result-cases (echo_ctl t b).0) [
        | inl (v, h) ↦ ground (arith, h, same u)
        | inr (v, h) ↦ ground (arith, h)
      ])

  feed_line-rearm :
      (t : Tty) (b : ℕ) → feed_line (rearm t a e x y) b ≡ rearm (feed_line t b) a e x y
  unfolding feed_line write
  feed_line-rearm t b = ground (arith, echo_char-rearm t b)

  discarding :
      (sig : ℕ)
      → (u : Tty)
      → post_signal (flush_input (rearm u a e x y)) sig
        ≡ rearm (post_signal (flush_input u) sig) a e x y
  unfolding post_signal
  discarding sig u = ap (λ v. post_signal v sig) (flush_input-rearm u)

  keeping :
      (sig : ℕ) → (u : Tty) → post_signal (rearm u a e x y) sig ≡ rearm (post_signal u sig) a e x y
  unfolding post_signal
  keeping sig u = refl

  feed_byte-rearm : (t : Tty) (b : ℕ) → feed_byte (rearm t a e x y) b ≡ rearm_fed (feed_byte t b)
  unfolding feed_byte
  feed_byte-rearm t b =
      let byte : ℕ = if has t.termios.iflag icrnl && b == 13 then 10 else b in
      ground (
        arith,
        feed_line-rearm t byte,
        signal_char-rearm t byte (λ u. post_signal (flush_input u) sigint) (discarding sigint),
        signal_char-rearm t byte (λ u. post_signal (flush_input u) sigquit) (discarding sigquit),
        signal_char-rearm t byte (λ u. post_signal u sigtstp) (keeping sigtstp),
        echo_char-rearm (record t { ready = t.ready ++ byte ∷ [] }) byte,
      )

  pub feed_cooked-rearm :
      (t : Tty) (d : Bytes) → feed_cooked (rearm t a e x y) d ≡ rearm_fed (feed_cooked t d)
  unfolding feed_cooked
  feed_cooked-rearm t [] = refl
  feed_cooked-rearm t (b ∷ d) =
      let u = (feed_byte t b).1 in
      elim (Result-cases (feed_byte t b).0) [
        | inl (k, h) ↦
            let one : feed_byte t b ≡ (ok tt, u) = ap (λ r. (r, u)) h in
            feed_cooked-ok (rearm t a e x y) (rearm u a e x y) b d
              (feed_byte-rearm t b ∙ ap rearm_fed one)
            ∙ feed_cooked-rearm u d
            ∙ ap rearm_fed (sym (feed_cooked-ok t u b d one))
        | inr (k, h) ↦
            let one : feed_byte t b ≡ (err k, u) = ap (λ r. (r, u)) h in
            feed_cooked-err (rearm t a e x y) (rearm u a e x y) b d k
              (feed_byte-rearm t b ∙ ap rearm_fed one)
            ∙ ap rearm_fed (sym (feed_cooked-err t u b d k one))
      ]

-- What the escape filter looks at stays as it was under the line discipline.
pub record SameEscapes (t u : Tty) : Type 0 where
  pub escape : t.escape ≡ u.escape
  pub on_escape : t.on_escape ≡ u.on_escape
  pub armed : t.escape_armed ≡ u.escape_armed
  pub escapes : t.escapes ≡ u.escapes

pub feed_cooked-SameEscapes : (t : Tty) (d : Bytes) → SameEscapes (feed_cooked t d).1 t
feed_cooked-SameEscapes t d =
    let same = feed_cooked-rearm t.escape_armed t.escapes t.escape t.on_escape t d in
    record {
      escape = ap (λ r. r.1.escape) same;
      on_escape = ap (λ r. r.1.on_escape) same;
      armed = ap (λ r. r.1.escape_armed) same;
      escapes = ap (λ r. r.1.escapes) same;
    }
