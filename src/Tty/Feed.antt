-- ===== src/Tty/Feed.antt =====
-- Input to the line discipline of ktty.py that comes in pieces.
use minixfs.Prelude.{
  ℕ, ◌≡◌, refl, sym, ap, ap₂, ◌∙◌, Bool, true, false, not, ◌&&◌, none, some, [], ◌∷◌, ◌++◌, ◌==◌,
  ◌||◌, Option-cases, Bool-cases, inl, inr, if◌then◌else◌, Bytes, arith, ok,
}
use mathlib.Core.List.{append_assoc}
use minixfs.Tty.{
  Tty, Fed, write, feed_cooked, message, answer, is_command_a, strip_escapes, filter_state,
  filter_output, feed,
}
use minixfs.Tty.Rearm.{feed_cooked-append, rearm, feed_cooked-rearm, feed_cooked-SameEscapes}

-- Whether a byte is a command that writes to the terminal, and whether none of some input is.
abbrev pub is_answered : Tty → ℕ → Bool
is_answered t b =
    t.escape_armed && (not (is_command_a t b) && elim (message b) [ none ↦ false | some m ↦ true ])

unfoldable pub is_quiet : Tty → Bytes → Bool
unfolding filter_state
is_quiet t [] = true
is_quiet t (b ∷ d) = let rest = is_quiet (filter_state t b) d in not (is_answered t b) && rest

-- The round of a byte that is not answered changes only what the filter knows.
abbrev next_armed : Tty → ℕ → Bool
next_armed t b = not t.escape_armed && b == t.escape

abbrev next_log : Tty → ℕ → Bytes
next_log t b = if t.escape_armed && not (is_command_a t b) then t.escapes ++ b ∷ [] else t.escapes

abbrev advance : Tty → ℕ → Tty
advance t b = rearm t (next_armed t b) (next_log t b) t.escape t.on_escape

quiet_round : (t : Tty) (b : ℕ) → is_answered t b ≡ false → filter_state t b ≡ advance t b
unfolding filter_state answer
quiet_round t b q = elim (Option-cases (message b)) [
  | inl none_to_say ↦ ground (arith, none_to_say)
  | inr (m, e) ↦ ground (arith, e, q)
]

-- The escape filter and the line discipline do not disturb one another where nothing is answered.
module _ (c : Bytes) where
  is_answered-feed_cooked : (t : Tty) (b : ℕ) → is_answered (feed_cooked t c).1 b ≡ is_answered t b
  is_answered-feed_cooked t b =
      let s = feed_cooked-SameEscapes t c in
      ap₂
        (λ armed escape.
          armed
          && (not (b == escape || (b == b'a' || b == b'A'))
              && elim (message b) [ none ↦ false | some m ↦ true ]))
        s.armed s.escape

  filter_state-feed_cooked :
      (t : Tty) (b : ℕ)
      → is_answered t b ≡ false
      → feed_cooked (filter_state t b) c ≡ ((feed_cooked t c).0, filter_state (feed_cooked t c).1 b)
  filter_state-feed_cooked t b q =
      let u = (feed_cooked t c).1 in
      let s = feed_cooked-SameEscapes t c in
      let same : rearm u (next_armed t b) (next_log t b) t.escape t.on_escape ≡ advance u b =
        ground (arith, s.escape, s.armed, s.escapes, s.on_escape) in
      ap (λ v. feed_cooked v c) (quiet_round t b q)
      ∙ feed_cooked-rearm (next_armed t b) (next_log t b) t.escape t.on_escape t c
      ∙ ap (λ v. ((feed_cooked t c).0, v))
          (same ∙ sym (quiet_round u b (is_answered-feed_cooked t b ∙ q)))

  filter_output-feed_cooked :
      (t : Tty) (b : ℕ) → filter_output (feed_cooked t c).1 b ≡ filter_output t b
  unfolding filter_output
  filter_output-feed_cooked t b =
      let s = feed_cooked-SameEscapes t c in ground (arith, s.escape, s.armed)

  strip_escapes-feed_cooked :
      (t : Tty) (d : Bytes)
      → is_quiet t d ≡ true
      → (feed_cooked (strip_escapes t d).0 c
          ≡ ((feed_cooked t c).0, (strip_escapes (feed_cooked t c).1 d).0))
        × ((strip_escapes (feed_cooked t c).1 d).1 ≡ (strip_escapes t d).1)
  unfolding strip_escapes is_quiet
  strip_escapes-feed_cooked t [] q = (refl, refl)
  strip_escapes-feed_cooked t (b ∷ d) q =
      let u = (feed_cooked t c).1 in
      let one = filter_state-feed_cooked t b (ground (arith, q)) in
      let (states, outputs) = strip_escapes-feed_cooked (filter_state t b) d (ground (arith, q)) in
      (
        states ∙ ap (λ (r : Fed). (r.0, (strip_escapes r.1 d).0)) one,
        ap₂ ◌++◌ (filter_output-feed_cooked t b)
            (ap (λ (r : Fed). (strip_escapes r.1 d).1) (sym one) ∙ outputs),
      )

strip_escapes-append :
    (t : Tty) (a b : Bytes)
    → let (t1, o1) = strip_escapes t a in
      let (t2, o2) = strip_escapes t1 b in strip_escapes t (a ++ b) ≡ (t2, o1 ++ o2)
unfolding strip_escapes
strip_escapes-append t [] b = refl
strip_escapes-append t (x ∷ a) b = ground (
  arith,
  strip_escapes-append (filter_state t x) a b,
  append_assoc (filter_output t x) (strip_escapes (filter_state t x) a).1
      (strip_escapes (strip_escapes (filter_state t x) a).0 b).1,
)

on_escape-filter_state : (t : Tty) (b : ℕ) → (filter_state t b).on_escape ≡ t.on_escape
unfolding filter_state answer write
on_escape-filter_state t b = elim (Option-cases (message b)) [
  | inl e ↦ ground (arith, e)
  | inr (m, e) ↦ ground (arith, e)
]

on_escape-strip_escapes : (t : Tty) (d : Bytes) → (strip_escapes t d).0.on_escape ≡ t.on_escape
unfolding strip_escapes
on_escape-strip_escapes t [] = refl
on_escape-strip_escapes t (b ∷ d) =
    on_escape-strip_escapes (filter_state t b) d ∙ on_escape-filter_state t b

-- Where the order of commands and of other input does not matter: there is no callback, the first piece
-- leaves nothing to the line discipline, or the second has no command that writes.
pub data Separable (t : Tty) (a b : Bytes) : Type 0 where
  no_callback : t.on_escape ≡ false → Separable t a b
  only_commands : (strip_escapes t a).1 ≡ [] → Separable t a b
  no_answer : is_quiet (strip_escapes t a).0 b ≡ true → Separable t a b

feed-on :
    (t : Tty) (d : Bytes)
    → t.on_escape ≡ true
    → feed t d ≡ feed_cooked (strip_escapes t d).0 (strip_escapes t d).1
unfolding feed
feed-on t d on = rw on refl

feed-off : (t : Tty) (d : Bytes) → t.on_escape ≡ false → feed t d ≡ feed_cooked t d
unfolding feed
feed-off t d off = rw off refl

module _ (t : Tty) (a b : Bytes) (on : t.on_escape ≡ true) where
  abbrev stripped : Tty
  stripped = (strip_escapes t a).0

  abbrev left : Bytes
  left = (strip_escapes t a).1

  abbrev fed : Tty
  fed = (feed_cooked stripped left).1

  joined :
      feed t (a ++ b)
      ≡ feed_cooked (strip_escapes stripped b).0 (left ++ (strip_escapes stripped b).1)
  joined = feed-on t (a ++ b) on ∙ ap (λ r. feed_cooked r.0 r.1) (strip_escapes-append t a b)

  split : feed (feed t a).1 b ≡ feed_cooked (strip_escapes fed b).0 (strip_escapes fed b).1
  split =
      ap (λ (r : Fed). feed r.1 b) (feed-on t a on)
      ∙ feed-on fed b
          ((feed_cooked-SameEscapes stripped left).on_escape ∙ on_escape-strip_escapes t a ∙ on)

  join_commands : left ≡ [] → feed t (a ++ b) ≡ feed (feed t a).1 b
  unfolding feed_cooked
  join_commands none_left =
      joined
      ∙ ap (λ o. feed_cooked (strip_escapes stripped b).0 (o ++ (strip_escapes stripped b).1))
          none_left
      ∙ sym (
          split
          ∙ ap
              (λ o.
                let u = (feed_cooked stripped o).1 in
                feed_cooked (strip_escapes u b).0 (strip_escapes u b).1)
              none_left)

  join_quiet :
      (feed t a).0 ≡ ok tt → is_quiet stripped b ≡ true → feed t (a ++ b) ≡ feed (feed t a).1 b
  join_quiet good q =
      let (states, outputs) = strip_escapes-feed_cooked left stripped b q in
      let done : (feed_cooked stripped left).0 ≡ ok tt =
        sym (ap (λ (r : Fed). r.0) (feed-on t a on)) ∙ good in
      joined
      ∙ feed_cooked-append (strip_escapes stripped b).0 left (strip_escapes stripped b).1
          (ap (λ (r : Fed). r.0) states ∙ done)
      ∙ ap₂ feed_cooked (ap (λ (r : Fed). r.1) states) (sym outputs)
      ∙ sym split

-- Where the first piece raises nothing and the pieces are separable, input that comes in two pieces has
-- the effect of the input in one piece: on the line, the bytes ready, the echo, the signals, the escape
-- commands and everything else, errors included, also where an escape sequence is cut in two. They are
-- separable where there is no callback, where the first piece leaves nothing to the line discipline, or
-- where the second has no command that the callback answers on the terminal.
pub feed-append :
    (t : Tty) (a b : Bytes)
    → (feed t a).0 ≡ ok tt
    → Separable t a b
    → feed t (a ++ b) ≡ feed (feed t a).1 b
feed-append t a b good sep = elim (Bool-cases t.on_escape) [
  | inr off ↦
      let first = feed-off t a off in
      let s = feed_cooked-SameEscapes t a in
      feed-off t (a ++ b) off
      ∙ feed_cooked-append t a b (sym (ap (λ (r : Fed). r.0) first) ∙ good)
      ∙ sym
          (ap (λ (r : Fed). feed r.1 b) first ∙ feed-off (feed_cooked t a).1 b (s.on_escape ∙ off))
  | inl on ↦ elim sep [
    | no_callback off ↦ cc
    | only_commands none_left ↦ join_commands t a b on none_left
    | no_answer q ↦ join_quiet t a b on good q
  ]
]
