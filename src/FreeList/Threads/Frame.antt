-- ===== src/FreeList/Threads/Frame.antt =====
-- What one thread's access leaves alone: the list, and what the other threads rely on.
use memif_user_release.Base.{
  ℕ, ◌≡◌, ◌≢◌, ◌≤◌, ◌∙◌, List, [], ◌∷◌, some, All, update, ℕ_discrete, arith, sym, inl, inr, subst,
  ap, ite,
}
use memif_user_release.Desc.{DescPtr}
use memif_user_release.FreeList.Threads.{
  Pc, idle, adding, linking, swapping, removing, reading, taking, claiming, World,
}
use memif_user_release.FreeList.Threads.Invariant.{
  listed, by, adder, Ghost, In, stamped, Leads, IsStamp, IsStale, Stands,
}

-- Every link on the list is of a listed descriptor.
pub All-listed :
    (g : Ghost) (w : World) (Q : ℕ → Type 0) (p : DescPtr) (cs : List DescPtr)
    → Leads g w p cs
    → ((d : ℕ) → g.holder d ≡ listed → Q d)
    → All (λ c. Q c.index) cs
All-listed g w Q p [] l h = tt
All-listed g w Q p (c ∷ cs) l h = (h c.index l.1.2, All-listed g w Q _ cs l.3 h)

-- So are those behind a descriptor, and they are of others.
pub All-behind :
    (g : Ghost) (w : World) (Q : ℕ → Type 0) (i : ℕ) (p : DescPtr) (cs : List DescPtr)
    → All (λ d. d.index ≢ i) cs
    → Leads g w p cs
    → ((d : ℕ) → d ≢ i → g.holder d ≡ listed → Q d)
    → All (λ c. Q c.index) cs
All-behind g w Q i p [] f l h = tt
All-behind g w Q i p (c ∷ cs) f l h = (h c.index f.0 l.1.2, All-behind g w Q i _ cs f.1 l.3 h)

pub In-listed :
    (g : Ghost) (w : World) (t p : DescPtr) (cs : List DescPtr)
    → Leads g w p cs
    → In t cs
    → g.holder t.index ≡ listed
In-listed g w t p [] l h = absurd h
In-listed g w t p (c ∷ cs) l (inl e) = subst (λ x. g.holder x.index ≡ listed) (sym e) l.1.2
In-listed g w t p (c ∷ cs) l (inr h) = In-listed g w t _ cs l.3 h

module _ (g : Ghost) (w : World) (g' : Ghost) (w' : World) where
  -- The list is where it was, if its descriptors stay listed and keep their links.
  pub Leads-frame :
      (p : DescPtr) (cs : List DescPtr)
      → w'.region.ndescs ≡ w.region.ndescs
      → w.region.freelist.aba_counter ≤ w'.region.freelist.aba_counter
      → All
          (λ c.
            (g'.holder c.index ≡ listed)
            × ((w'.region.desc c.index).next ≡ (w.region.desc c.index).next))
          cs
      → Leads g w p cs
      → Leads g' w' p cs
  Leads-frame p [] size count same l = l
  Leads-frame p (c ∷ cs) size count same l = (
    l.0,
    (l.1.0, omega arith, same.0.0, omega arith),
    l.2,
    subst (λ q. Leads g' w' q cs) (sym same.0.1)
        (Leads-frame (w.region.desc c.index).next cs size count same.1 l.3),
  )

  -- What an access of thread `u` leaves alone.
  pub record Keeps (u : ℕ) : Type 0 where
    pub size : w'.region.ndescs ≡ w.region.ndescs
    pub count : w.region.freelist.aba_counter ≤ w'.region.freelist.aba_counter
    pub giving :
        (v d : ℕ)
        → u ≢ v
        → g.holder d ≡ adder v
        → (g'.holder d ≡ adder v) × (w'.region.desc d ≡ w.region.desc d)
    pub having : (v d : ℕ) → u ≢ v → g.holder d ≡ by v → g'.holder d ≡ by v
    pub stamp : (t : DescPtr) → IsStale g w t → (v : ℕ) → stamped (w'.pc v) ≢ some t
    pub links :
        (t : DescPtr)
        → IsStale g w t
        → In t g'.links
        → In t g.links × ((w'.region.desc t.index).next ≡ (w.region.desc t.index).next)

  module _ {u : ℕ} (k : Keeps u) where
    pub IsStale-frame : (t : DescPtr) → IsStale g w t → IsStale g' w' t
    IsStale-frame t s = (s.0, omega (arith, k.size), omega (arith, k.count), k.stamp t s)

    IsStamp-frame : (v : ℕ) (t : DescPtr) → u ≢ v → IsStamp g w v t → IsStamp g' w' v t
    IsStamp-frame v t other s =
        (s.0, omega (arith, k.size), (k.giving v t.index other s.2).0, omega (arith, k.count))

    pub Stands-frame : (v : ℕ) (p : Pc) → u ≢ v → Stands g w v p → Stands g' w' v p
    Stands-frame v idle other s = tt
    Stands-frame v (adding tmp) other s = IsStamp-frame v tmp other s
    Stands-frame v (linking tmp top) other s = (IsStamp-frame v tmp other s.0, s.1)
    Stands-frame v (swapping tmp top) other s = (
      IsStamp-frame v tmp other s.0,
      s.1,
      ap (λ d. d.next) (k.giving v tmp.index other s.0.2).1 ∙ s.2,
    )
    Stands-frame v removing other s = tt
    Stands-frame v (reading t) other s = IsStale-frame t s
    Stands-frame v (taking t tmp) other s =
        (IsStale-frame t s.0, λ i. let (old, same) = k.links t s.0 i in same ∙ s.1 old)
    Stands-frame v (claiming i) other s = (k.having v i other s.0, omega (arith, k.size))

-- A thread goes to where its new place allows it to stand, and the others stand as they did.
pub Stands-update :
    (g : Ghost) (w : World) (g' : Ghost) (w' : World) (u : ℕ) (p : Pc)
    → Keeps g w g' w' u
    → w'.pc ≡ update ℕ_discrete w.pc u p
    → ((v : ℕ) → Stands g w v (w.pc v))
    → Stands g' w' u p
    → (v : ℕ) → Stands g' w' v (w'.pc v)
Stands-update g w g' w' u p k moved s new v =
    subst (λ f. Stands g' w' v (f v)) (sym moved)
      (elim (ℕ_discrete u v) as (λ d. Stands g' w' v (ite d p (w.pc v))) [
        | yes e ↦ subst (λ i. Stands g' w' i p) e new
        | no other ↦ Stands-frame g w g' w' k v (w.pc v) other (s v)
      ])
