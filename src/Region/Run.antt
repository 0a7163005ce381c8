-- ===== src/Region/Run.antt =====
-- Runs of C code over a state: its outcomes, sequencing, and loops on fuel.
use memif_user_release.Base.{ℕ, zero, suc, ◌≡◌, refl, Bool, true, false}

-- `bug`: an assertion or BUG() stopped the code. `spinning`: a loop used up its fuel.
pub data Outcome (S : Type 0) (A : Type 0) : Type 0 where
  ok : A → S → Outcome S A
  bug : Outcome S A
  spinning : Outcome S A

abbrev pub Code : Type 0 → Type 0 → Type 0
Code S A = S → Outcome S A

abbrev pub pure : {S A : Type 0} → A → Code S A
pure a s = ok a s

abbrev pub after : {S A B : Type 0} → Outcome S A → (A → Code S B) → Outcome S B
after (ok a s) k = k a s
after bug k = bug
after spinning k = spinning

infixl 5 ◌>>=◌ ◌>>◌
abbrev pub ◌>>=◌ : {S A B : Type 0} → Code S A → (A → Code S B) → Code S B
◌>>=◌ m k s = after (m s) k

abbrev pub ◌>>◌ : {S A B : Type 0} → Code S A → Code S B → Code S B
◌>>◌ m k s = after (m s) (λ _. k)

-- `assert(b)`
abbrev pub assert : {S : Type 0} → Bool → Code S (Unit {0})
assert true s = ok tt s
assert false s = bug

-- One turn of a loop leaves its variables for the next turn, or ends the loop with a result.
pub data Turn (V : Type 0) (A : Type 0) : Type 0 where
  again : V → Turn V A
  finish : A → Turn V A

abbrev next_turn : {S V A : Type 0} → (V → Code S A) → Turn V A → Code S A
next_turn k (again v) = k v
next_turn k (finish a) = pure a

unfoldable pub loop : {S V A : Type 0} → ℕ → (V → Code S (Turn V A)) → V → Code S A
loop zero turn v = λ _. spinning
loop (suc fuel) turn v = turn v >>= next_turn (loop fuel turn)

module _ {S V A : Type 0} (turn : V → Code S (Turn V A)) where
  pub loop-finish :
      (fuel : ℕ) {v : V} {a : A} {s t : S}
      → turn v s ≡ ok (finish a) t
      → loop (suc fuel) turn v s ≡ ok a t
  unfolding loop
  loop-finish fuel e = rw e

  pub loop-again :
      (fuel : ℕ) {v w : V} {s t : S}
      → turn v s ≡ ok (again w) t
      → loop (suc fuel) turn v s ≡ loop fuel turn w t
  unfolding loop
  loop-again fuel e = rw e

-- The first part of a run that gets through.
pub after-ok :
    {S A B : Type 0} (o : Outcome S A) {k : A → Code S B} {b : B} {t : S}
    → after o k ≡ ok b t
    → (a : A) × (s : S) × (o ≡ ok a s) × (k a s ≡ ok b t)
after-ok (ok a s) e = (a, s, refl, e)
after-ok bug e = cc
after-ok spinning e = cc

-- Total correctness: the run neither stops at an assertion nor spins, and ends with `P`.
pub data Yields {S A : Type 0} (P : A → S → Type 0) : Outcome S A → Type 0 where
  yields : {a : A} {s : S} → P a s → Yields P (ok a s)

module _ {S A : Type 0} {P : A → S → Type 0} where
  pub Yields-of_eq : {o : Outcome S A} {a : A} {s : S} → o ≡ ok a s → P a s → Yields P o
  Yields-of_eq e p = rw e (yields p)

  pub Yields-ok : {o : Outcome S A} → Yields P o → (a : A) × (s : S) × (o ≡ ok a s) × P a s
  Yields-ok (yields p) = (_, _, refl, p)

  pub then-Yields :
      {B : Type 0} {Q : B → S → Type 0} {o : Outcome S A} {k : A → Code S B}
      → Yields P o
      → ((a : A) (s : S) → P a s → Yields Q (k a s))
      → Yields Q (after o k)
  then-Yields (yields p) next = next _ _ p

  pub Yields-mono :
      {Q : A → S → Type 0} {o : Outcome S A}
      → Yields P o
      → ((a : A) (s : S) → P a s → Q a s)
      → Yields Q o
  Yields-mono (yields p) weaken = yields (weaken _ _ p)

module _ {S V A : Type 0} (turn : V → Code S (Turn V A)) {P : A → S → Type 0} where
  pub loop-Yields :
      (fuel : ℕ) {v : V} {s : S}
      → Yields (λ out t. (a : A) × (out ≡ finish a) × P a t) (turn v s)
      → Yields P (loop (suc fuel) turn v s)
  unfolding loop
  loop-Yields fuel h = then-Yields h λ out t (a, e, p). rw e (yields p)

module _ {S V A : Type 0} (turn : V → Code S (Turn V A)) (fuel : ℕ) {Q : A → S → Type 0} where
  -- A turn that is known not to be the last.
  pub again-Yields :
      {P : V → S → Type 0} {v : V} {s : S}
      → Yields (λ out t. (w : V) × (out ≡ again w) × P w t) (turn v s)
      → ((w : V) (t : S) → P w t → Yields Q (loop fuel turn w t))
      → Yields Q (loop (suc fuel) turn v s)
  unfolding loop
  again-Yields h more = then-Yields h λ out t (w, e, p). rw e (more w t p)

  next_turn-Yields :
      (P : Turn V A → S → Type 0)
      → ((v : V) (t : S) → P (again v) t → Yields Q (loop fuel turn v t))
      → ((a : A) (t : S) → P (finish a) t → Q a t)
      → (x : Turn V A) (t : S) → P x t
      → Yields Q (next_turn (loop fuel turn) x t)
  next_turn-Yields P more done (again v) t p = more v t p
  next_turn-Yields P more done (finish a) t p = yields (done a t p)

  -- One turn of a loop, and what follows it.
  pub turn-Yields :
      {P : Turn V A → S → Type 0} {v : V} {s : S}
      → Yields P (turn v s)
      → ((w : V) (t : S) → P (again w) t → Yields Q (loop fuel turn w t))
      → ((a : A) (t : S) → P (finish a) t → Q a t)
      → Yields Q (loop (suc fuel) turn v s)
  unfolding loop
  turn-Yields {P} h more done = then-Yields h (next_turn-Yields P more done)
