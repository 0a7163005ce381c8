-- ===== src/FreeList/Threads/Invariant.antt =====
-- What holds of the free list between any two accesses of its threads.
use memif_user_release.Base.{
  ℕ, ◌≡◌, ◌≢◌, ◌<◌, ◌≤◌, ◌⊎◌, true, List, [], ◌∷◌, Option, none, some, All,
}
use memif_user_release.Desc.{DescPtr, bad_index}
use memif_user_release.Desc.Fields.{InRange}
use memif_user_release.FreeList.Threads.{
  Pc, idle, adding, linking, swapping, removing, reading, taking, claiming, World,
}

-- Who may touch a descriptor: it is on the free list, a thread has it, a thread is adding it, or
-- it is none of the free list's.
pub data Holder : Type 0 where
  listed : Holder
  by : ℕ → Holder
  adder : ℕ → Holder
  outside : Holder

-- The links on the free list, from the top, and the holder of each descriptor.
pub record Ghost : Type 0 where
  pub links : List DescPtr
  pub holder : ℕ → Holder

abbrev pub In : DescPtr → List DescPtr → Type 0
In p [] = ⊥
In p (c ∷ cs) = (p ≡ c) ⊎ In p cs

-- What a thread will put on top.
abbrev pub stamped : Pc → Option DescPtr
stamped idle = none
stamped (adding tmp) = some tmp
stamped (linking tmp top) = some tmp
stamped (swapping tmp top) = some tmp
stamped removing = none
stamped (reading top) = none
stamped (taking top tmp) = none
stamped (claiming i) = none

module _ (g : Ghost) (w : World) where
  -- A link on the list: in range, of a listed descriptor, with a count that is used up.
  abbrev pub IsListed : DescPtr → Type 0
  IsListed c =
      InRange c
      × (c.index < w.region.ndescs)
      × (g.holder c.index ≡ listed)
      × (c.count ≤ w.region.freelist.aba_counter)

  -- From link `p` memory leads through the links `cs` to the bad index.
  abbrev pub Leads : DescPtr → List DescPtr → Type 0
  Leads p [] = InRange p × (p.index ≡ bad_index)
  Leads p (c ∷ cs) =
      (p ≡ c) × IsListed c × All (λ d. d.index ≢ c.index) cs × Leads (w.region.desc c.index).next cs

  abbrev pub IsStamp : ℕ → DescPtr → Type 0
  IsStamp u tmp =
      InRange tmp
      × (tmp.index < w.region.ndescs)
      × (g.holder tmp.index ≡ adder u)
      × (tmp.count ≤ w.region.freelist.aba_counter)

  -- A link that was on top, and that no thread can put on top again.
  abbrev pub IsStale : DescPtr → Type 0
  IsStale t =
      InRange t
      × (t.index < w.region.ndescs)
      × (t.count ≤ w.region.freelist.aba_counter)
      × ((v : ℕ) → stamped (w.pc v) ≢ some t)

  -- What a thread relies on where it stands.
  abbrev pub Stands : ℕ → Pc → Type 0
  Stands u idle = Unit
  Stands u (adding tmp) = IsStamp u tmp
  Stands u (linking tmp top) = IsStamp u tmp × InRange top
  Stands u (swapping tmp top) = IsStamp u tmp × InRange top × ((w.region.desc tmp.index).next ≡ top)
  Stands u removing = Unit
  Stands u (reading t) = IsStale t
  Stands u (taking t tmp) = IsStale t × (In t g.links → (w.region.desc t.index).next ≡ tmp)
  Stands u (claiming i) = (g.holder i ≡ by u) × (i < w.region.ndescs)

  pub record IsSafe : Type 0 where
    pub small : w.region.ndescs ≤ bad_index
    pub unshared : (i : ℕ) → i < w.region.ndescs → (w.region.desc i).refcnt ≡ 0
    pub leads : Leads w.region.freelist.top g.links
    pub stands : (u : ℕ) → Stands u (w.pc u)
    pub has : (u d : ℕ) → w.has u d ≡ true → (g.holder d ≡ by u) × (d < w.region.ndescs)
