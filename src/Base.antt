-- ===== src/Base.antt =====
-- Names that the modules share: the libraries', passed on, Boolean tests on the native numbers, and
-- point updates of finite maps.
pub use Prim.Native.Nat.{ℕ, zero, suc, ◌+◌, ◌-◌, ◌*◌, ◌/◌, ◌%◌, ◌^◌, ◌≤◌, ◌<◌}
pub use mathlib.Core.Path.{◌≡◌, refl, sym, ap, ap₂, ◌∙◌, subst}
pub use mathlib.Core.Logic.{◌≢◌, ◌↔◌, ◌⊎◌, inl, inr, ite}
use mathlib.Core.Logic.{if_pos, if_neg}
use mathlib.Core.Path.{fun_ext}
pub use mathlib.Core.Bool.{Bool, true, false, not, ◌&&◌, ◌||◌}
pub use mathlib.Core.Option.{Option, none, some}
pub use mathlib.Core.List.{List, [], ◌∷◌, ◌++◌, map}
pub use native.Mathlib.Omega.{arith}
unfoldable pub use native.Mathlib.Decide.{dec_lt, ℕ_discrete}
use Prim.Native.Nat.{compare, Ordering}

abbrev pub ltb : ℕ → ℕ → Bool
ltb a b = elim (compare a b) [ Ordering.lt ↦ true | _ ↦ false ]

abbrev pub leb : ℕ → ℕ → Bool
leb a b = elim (compare a b) [ Ordering.gt ↦ false | _ ↦ true ]

infix 50 ◌==◌
abbrev pub ◌==◌ : ℕ → ℕ → Bool
a == b = elim (compare a b) [ Ordering.eq ↦ true | _ ↦ false ]

infix 1 if◌then◌else◌
abbrev pub if◌then◌else◌ {ℓ} : {A : Type ℓ} → Bool → A → A → A
if true then x else y = x
if false then x else y = y

pub Bool-cases : (b : Bool) → (b ≡ true) ⊎ (b ≡ false)
Bool-cases true = inl refl
Bool-cases false = inr refl

pub Option-cases {ℓ} : {A : Type ℓ} (o : Option A) → (o ≡ none) ⊎ ((a : A) × (o ≡ some a))
Option-cases none = inl refl
Option-cases (some a) = inr (a, refl)

pub List-cases {ℓ} : {A : Type ℓ} (l : List A) → (l ≡ []) ⊎ ((a : A) × (t : List A) × (l ≡ a ∷ t))
List-cases [] = inl refl
List-cases (a ∷ t) = inr (a, t, refl)

pub ==-refl : (a : ℕ) → (a == a) ≡ true
==-refl a = ground arith

pub eq_of_== : (a b : ℕ) → (a == b) ≡ true → a ≡ b
eq_of_== a b h = ground arith

pub lt→ltb : (a b : ℕ) → a < b → ltb a b ≡ true
lt→ltb a b h = ground arith

-- A map with one key given a new value.
abbrev pub update {ℓ κ} : {K : Type ℓ} {V : Type κ} → Discrete K → (K → V) → K → V → K → V
update dec f k v j = ite (dec k j) v (f j)

pub update_self {ℓ κ} :
    {K : Type ℓ} {V : Type κ} (dec : Discrete K) (f : K → V) (k : K) (v : V)
    → update dec f k v k ≡ v
update_self dec f k v = if_pos (dec k k) refl v (f k)

pub update_other {ℓ κ} :
    {K : Type ℓ} {V : Type κ} (dec : Discrete K) (f : K → V) (k j : K) (v : V)
    → k ≢ j
    → update dec f k v j ≡ f j
update_other dec f k j v n = if_neg (dec k j) n v (f j)

pub update_same {ℓ κ} :
    {K : Type ℓ} {V : Type κ} (dec : Discrete K) (f : K → V) (k : K) → update dec f k (f k) ≡ f
update_same dec f k =
    fun_ext λ j. elim (dec k j) as (λ d. ite d (f k) (f j) ≡ f j) [ yes e ↦ ap f e | no n ↦ refl ]

-- What relates the new values, and the old ones at all other keys, relates two updated maps.
pub update_cases {ℓ κ μ ν} :
    {K : Type ℓ} {V : Type κ} {W : Type μ} (dec : Discrete K) (P : K → V → W → Type ν) (f : K → V)
    (g : K → W) (k : K) (v : V) (w : W)
    → P k v w
    → ((j : K) → k ≢ j → P j (f j) (g j))
    → (j : K) → P j (update dec f k v j) (update dec g k w j)
update_cases dec P f g k v w new old j =
    elim (dec k j) as (λ d. P j (ite d v (f j)) (ite d w (g j))) [
      | yes e ↦ subst (λ i. P i v w) e new
      | no n ↦ old j n
    ]

module _ {ℓ} {A : Type ℓ} where
  abbrev pub length : List A → ℕ
  length [] = 0
  length (x ∷ xs) = suc (length xs)

  abbrev pub All {κ} : (A → Type κ) → List A → Type κ
  All P [] = Unit
  All P (x ∷ xs) = P x × All P xs

  pub length-append : (xs ys : List A) → length (xs ++ ys) ≡ length xs + length ys
  length-append [] ys = omega arith
  length-append (x ∷ xs) ys = omega (arith, length-append xs ys)

module _ {ℓ κ} {A : Type ℓ} (P : A → Type κ) where
  pub All-append : (xs ys : List A) → All P xs → All P ys → All P (xs ++ ys)
  All-append [] ys h k = k
  All-append (x ∷ xs) ys h k = (h.0, All-append xs ys h.1 k)

  pub All-append_iff : (xs ys : List A) → All P (xs ++ ys) → All P xs × All P ys
  All-append_iff [] ys h = (tt, h)
  All-append_iff (x ∷ xs) ys h =
      let (front, back) = All-append_iff xs ys h.1 in ((h.0, front), back)
