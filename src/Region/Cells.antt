-- ===== src/Region/Cells.antt =====
-- Chains of descriptors as lists of cells: the address of each node with what memory holds there.
-- The shape of a chain is stated of the list alone, so only `Holds` has to follow the memory.
use memif_user_release.Base.{
  ℕ, ◌≡◌, refl, sym, ◌≢◌, ◌<◌, List, [], ◌∷◌, ◌++◌, arith, All, All-append, All-append_iff, ◌∙◌,
}
use memif_user_release.Desc.{Desc}

pub record Cell : Type 0 where
  pub addr : ℕ
  pub body : Desc

-- From index `i` the links lead through the cells to index `j`.
abbrev pub Linked : ℕ → List Cell → ℕ → Type 0
Linked i [] j = i ≡ j
Linked i (c ∷ cs) j = (i ≡ c.addr) × Linked c.body.next.index cs j

-- Address `a` is none of the cells'.
abbrev pub IsNew : ℕ → Cell → Type 0
IsNew a c = c.addr ≢ a

abbrev pub Fresh : ℕ → List Cell → Type 0
Fresh a = All (IsNew a)

abbrev pub Distinct : List Cell → Type 0
Distinct [] = Unit
Distinct (c ∷ cs) = Fresh c.addr cs × Distinct cs

-- The link carries the color.
abbrev pub HasColor : ℕ → Cell → Type 0
HasColor k c = c.body.next.color ≡ k

abbrev pub Colored : ℕ → List Cell → Type 0
Colored k = All (HasColor k)

-- Memory holds the cell, which lies below `n` and belongs to `tag`.
abbrev pub IsHeld : {O : Type 0} → (ℕ → Desc) → (ℕ → O) → ℕ → O → Cell → Type 0
IsHeld m owner n tag c = (m c.addr ≡ c.body) × (owner c.addr ≡ tag) × (c.addr < n)

abbrev pub Holds : {O : Type 0} → (ℕ → Desc) → (ℕ → O) → ℕ → O → List Cell → Type 0
Holds m owner n tag = All (IsHeld m owner n tag)

pub Linked-append :
    (xs ys : List Cell) (i j k : ℕ) → Linked i xs j → Linked j ys k → Linked i (xs ++ ys) k
Linked-append [] ys i j k h g = rw h g
Linked-append (x ∷ xs) ys i j k h g = (h.0, Linked-append xs ys x.body.next.index j k h.1 g)

-- The links of two lists in a row meet at some index.
pub Linked-split :
    (xs ys : List Cell) (i k : ℕ) → Linked i (xs ++ ys) k → (j : ℕ) × Linked i xs j × Linked j ys k
Linked-split [] ys i k h = (i, refl, h)
Linked-split (x ∷ xs) ys i k h =
    let (j, front, back) = Linked-split xs ys x.body.next.index k h.1 in (j, (h.0, front), back)

-- The end of a list of cells: distinct exactly if the last cell is new to those in front.
pub Distinct-snoc :
    (xs : List Cell) (c : Cell) → Distinct xs → Fresh c.addr xs → Distinct (xs ++ c ∷ [])
Distinct-snoc [] c d f = (tt, tt)
Distinct-snoc (x ∷ xs) c d f =
    (All-append (IsNew x.addr) xs (c ∷ []) d.0 (λ e. f.0 (sym e), tt), Distinct-snoc xs c d.1 f.1)

pub Distinct-unsnoc :
    (xs : List Cell) (c : Cell) → Distinct (xs ++ c ∷ []) → Distinct xs × Fresh c.addr xs
Distinct-unsnoc [] c d = (tt, tt)
Distinct-unsnoc (x ∷ xs) c d =
    let (apart, new) = Distinct-unsnoc xs c d.1 in
    let (front, back) = All-append_iff (IsNew x.addr) xs (c ∷ []) d.0 in
    ((front, apart), (λ e. back.0 (sym e), new))

module _ {O : Type 0} (tag : O) {m m' : ℕ → Desc} {owner owner' : ℕ → O} where
  -- What other cells' owners do is no concern of these.
  pub Holds-frame :
      (n : ℕ) (cs : List Cell)
      → Holds m owner n tag cs
      → ((a : ℕ) → owner a ≡ tag → (m' a ≡ m a) × (owner' a ≡ tag))
      → Holds m' owner' n tag cs
  Holds-frame n [] h same = tt
  Holds-frame n (c ∷ cs) h same =
      let (s, o) = same c.addr h.0.1 in ((s ∙ h.0.0, o, h.0.2), Holds-frame n cs h.1 same)

  -- Nor is what happens at an address that is new to them.
  pub Holds-frame-Fresh :
      (n a : ℕ) (cs : List Cell)
      → Holds m owner n tag cs
      → Fresh a cs
      → ((b : ℕ) → b ≢ a → (m' b ≡ m b) × (owner' b ≡ owner b))
      → Holds m' owner' n tag cs
  Holds-frame-Fresh n a [] h f same = tt
  Holds-frame-Fresh n a (c ∷ cs) h f same =
      let (s, o) = same c.addr f.0 in
      ((s ∙ h.0.0, o ∙ h.0.1, h.0.2), Holds-frame-Fresh n a cs h.1 f.1 same)

-- A cell of another owner is new to these.
pub Fresh-of_owner :
    {O : Type 0} (tag : O) (m : ℕ → Desc) (owner : ℕ → O) (n a : ℕ) (cs : List Cell)
    → Holds m owner n tag cs
    → owner a ≢ tag
    → Fresh a cs
Fresh-of_owner tag m owner n a [] h other = tt
Fresh-of_owner tag m owner n a (c ∷ cs) h other =
    (ground arith, Fresh-of_owner tag m owner n a cs h.1 other)
