-- ===== src/Kernel/Masking.antt =====
-- What `sigaction` and the start of handlers in kernel.py do to the mask and to the action of SIGKILL.
use minixfs.Prelude.{
  ℕ, zero, suc, ◌/◌, ◌%◌, ◌≤◌, ◌≡◌, refl, ap, ◌∙◌, Bool, true, false, not, ◌&&◌, ◌||◌, max,
  Bool-cases, Result-cases, inl, inr, List, [], ◌∷◌, get_or, set, ◌==◌, if◌then◌else◌, ok, arith,
}
use Prim.Native.Nat.{bit_or, bit_or-bitwise, digits}
use minixfs.Kernel.State.{Process, SigAction, no_action, bit_at}
use minixfs.Kernel.Frames.{
  push_words, saved_words, stack_pointer, spent, sa_oneshot, push_frame, magic_sigreturn,
}

-- The digit at a place, by halving.
digit : ℕ → ℕ → ℕ
digit n zero = n % 2
digit n (suc k) = digit (n / 2) k

digit_zero : (k : ℕ) → digit 0 k ≡ 0
unfolding digit
digit_zero zero = refl
digit_zero (suc k) = digit_zero k

digits-digit :
    (n a b k : ℕ) → a ≤ n → digit (digits (λ b. b) max n a b) k ≡ max (digit a k) (digit b k)
unfolding digit
digits-digit zero a b k h =
    let none_left : digit a k ≡ 0 =
      ap (λ n. digit n k) {x = a} {y = 0} (omega (arith, h)) ∙ digit_zero k in
    omega (arith, none_left)
digits-digit (suc n) zero b k h = omega (arith, digit_zero k)
digits-digit (suc n) (suc a) b zero h = omega arith
digits-digit (suc n) (suc a) b (suc k) h =
    ap (λ u. digit u k) {y = digits (λ b. b) max n (suc a / 2) (b / 2)} (omega arith)
    ∙ digits-digit n (suc a / 2) (b / 2) k (omega (arith, h))

bit_or_lem : (a b : ℕ) → bit_at (bit_or a b) 8 ≡ (bit_at a 8 || bit_at b 8)
unfolding digit
bit_or_lem a b =
    let whole : bit_or a b ≡ digits (λ b. b) max a a b = λ i. bit_or-bitwise a b i in
    let there : digit (bit_or a b) 8 ≡ max (digit a 8) (digit b 8) =
      ap (λ n. digit n 8) whole ∙ digits-digit a a b 8 (omega arith) in
    ground (arith, there)

module _ {I : Type 0} where
  -- A frame that is pushed as a whole: what it leaves of the process that matters to a signal.
  push_frame_done :
      (sig : ℕ) (act : SigAction) (p : Process I)
      → (push_frame sig act p).1 ≡ ok tt
      → ((push_frame sig act p).0.pid ≡ p.pid)
        × ((push_frame sig act p).0.blocked ≡ bit_or p.blocked act.mask)
        × ((push_frame sig act p).0.sigactions ≡ spent sig act p.sigactions)
  unfolding push_frame
  push_frame_done sig act p h =
      let one = push_words (saved_words p act) p.mem (stack_pointer p) in
      let restorer : ℕ = if act.restorer == 0 then magic_sigreturn else act.restorer in
      let two = push_words (sig ∷ restorer ∷ []) one.0 one.1 in
      elim (Result-cases one.2) [
        | inr (e, bad) ↦ ground (arith, bad, h)
        | inl (k, good) ↦ elim (Result-cases two.2) [
          | inr (e, bad) ↦ ground (arith, good, bad, h)
          | inl (k, fine) ↦
              (ground (arith, good, fine), ground (arith, good, fine), ground (arith, good, fine))
        ]
      ]

-- The action of a signal that is spent is the default one, so that the others are as they were.
set-handler :
    (acts : List SigAction) (i j : ℕ) (a : SigAction)
    → a.handler ≡ 0
    → (get_or acts j no_action).handler ≡ 0
    → (get_or (set acts i a) j no_action).handler ≡ 0
set-handler [] i j a z h = h
set-handler (x ∷ xs) zero zero a z h = z
set-handler (x ∷ xs) zero (suc j) a z h = h
set-handler (x ∷ xs) (suc i) zero a z h = h
set-handler (x ∷ xs) (suc i) (suc j) a z h = set-handler xs i j a z h

spent-handler :
    (sig : ℕ) (act : SigAction) (acts : List SigAction)
    → (get_or acts 9 no_action).handler ≡ 0
    → (get_or (spent sig act acts) 9 no_action).handler ≡ 0
spent-handler sig act acts h = elim (Bool-cases (bit_at act.sa_flags sa_oneshot)) [
  | inl y ↦ rw y (set-handler acts sig 9 (record act { handler = 0 }) refl h)
  | inr n ↦ rw n h
]

-- Handlers that start one in another: the masks of their actions, the last one first.
pub data Starts {I : Type 0} (p : Process I) : Process I → List ℕ → Type 0 where
  no_handler : Starts p p []
  starts :
      (sig : ℕ) (act : SigAction) (q : Process I) (masks : List ℕ)
      → Starts p q masks
      → (push_frame sig act q).1 ≡ ok tt
      → Starts p (push_frame sig act q).0 (act.mask ∷ masks)

-- No mask has the bit of SIGKILL.
unfoldable pub spares : List ℕ → Bool
spares [] = true
spares (m ∷ ms) = let rest = spares ms in not (bit_at m 8) && rest

-- What the handlers leave of what a signal looks at.
pub record Started {I : Type 0} (p q : Process I) (masks : List ℕ) : Type 0 where
  pub own : q.pid ≡ p.pid
  pub blocked : bit_at q.blocked 8 ≡ not (spares masks)
  pub default : (get_or q.sigactions 9 no_action).handler ≡ 0

pub Starts-Started :
    {I : Type 0} (p q : Process I) (masks : List ℕ)
    → bit_at p.blocked 8 ≡ false
    → (get_or p.sigactions 9 no_action).handler ≡ 0
    → Starts p q masks
    → Started p q masks
unfolding spares
Starts-Started p q masks clear default no_handler = record {
  own = refl;
  blocked = clear;
  default = default;
}
Starts-Started p q masks clear default (starts sig act r ms before pushed) =
    let h = Starts-Started p r ms clear default before in
    let (own, blocked, actions) = push_frame_done sig act r pushed in
    record {
      own = own ∙ h.own;
      blocked =
          ap (λ m. bit_at m 8) blocked ∙ bit_or_lem r.blocked act.mask ∙ ground (arith, h.blocked);
      default =
          ap (λ a. (get_or a 9 no_action).handler) actions
          ∙ spent-handler sig act r.sigactions h.default;
    }
