-- ===== src/FreeList/Threads/Exclusion.antt =====
-- Any schedule of the threads keeps the free list and the descriptors in use apart.
use memif_user_release.Base.{
  ℕ, ◌+◌, ◌^◌, ◌≡◌, ◌≢◌, ◌<◌, ◌⊎◌, true, List, [], ◌∷◌, arith, subst, inl, inr, All,
}
use memif_user_release.Desc.{DescPtr, bad_index}
use memif_user_release.Region.{Region}
use memif_user_release.Region.Run.{Yields, Yields-mono}
use memif_user_release.FreeList.Threads.{
  Pc, idle, adding, linking, swapping, removing, reading, taking, claiming, World, Action, run,
  total_adds,
}
use memif_user_release.FreeList.Threads.Invariant.{by, adder, Ghost, Leads, Stands, IsSafe}
use memif_user_release.FreeList.Threads.Frame.{All-listed}
use memif_user_release.FreeList.Threads.Schedule.{Narrow, run-Stays}

-- The thread is handed the descriptor, is about to be, or is giving it back.
abbrev pub Busy : Pc → ℕ → Type 0
Busy idle d = ⊥
Busy (adding tmp) d = tmp.index ≡ d
Busy (linking tmp top) d = tmp.index ≡ d
Busy (swapping tmp top) d = tmp.index ≡ d
Busy removing d = ⊥
Busy (reading top) d = ⊥
Busy (taking top tmp) d = ⊥
Busy (claiming i) d = i ≡ d

abbrev pub Uses : World → ℕ → ℕ → Type 0
Uses w u d = (w.has u d ≡ true) ⊎ Busy (w.pc u) d

-- The links that lead from `p` to the bad index.
abbrev pub Follows : Region → DescPtr → List DescPtr → Type 0
Follows r p [] = p.index ≡ bad_index
Follows r p (c ∷ cs) =
    (p ≡ c)
    × (c.index < r.ndescs)
    × All (λ d. d.index ≢ c.index) cs
    × Follows r (r.desc c.index).next cs

-- No descriptor is in the hands of two threads, and the free list is a chain of different
-- descriptors, none of them in the hands of a thread.
pub record IsApart (w : World) : Type 0 where
  pub exclusive : (u v d : ℕ) → Uses w u d → Uses w v d → u ≡ v
  pub links : List DescPtr
  pub follows : Follows w.region w.region.freelist.top links
  pub apart : (u d : ℕ) → Uses w u d → All (λ c. c.index ≢ d) links

Leads-Follows :
    (g : Ghost) (w : World) (p : DescPtr) (cs : List DescPtr)
    → Leads g w p cs
    → Follows w.region p cs
Leads-Follows g w p [] l = l.1
Leads-Follows g w p (c ∷ cs) l =
    (l.0, l.1.1, l.2, Leads-Follows g w (w.region.desc c.index).next cs l.3)

-- Whose hands a descriptor is in.
abbrev InHands : Ghost → ℕ → ℕ → Type 0
InHands g u d = (g.holder d ≡ by u) ⊎ (g.holder d ≡ adder u)

Busy-InHands :
    (g : Ghost) (w : World) (u d : ℕ) (p : Pc) → Stands g w u p → Busy p d → InHands g u d
Busy-InHands g w u d idle s b = absurd b
Busy-InHands g w u d (adding tmp) s b = inr (subst (λ i. g.holder i ≡ adder u) b s.2)
Busy-InHands g w u d (linking tmp top) s b = inr (subst (λ i. g.holder i ≡ adder u) b s.0.2)
Busy-InHands g w u d (swapping tmp top) s b = inr (subst (λ i. g.holder i ≡ adder u) b s.0.2)
Busy-InHands g w u d removing s b = absurd b
Busy-InHands g w u d (reading top) s b = absurd b
Busy-InHands g w u d (taking top tmp) s b = absurd b
Busy-InHands g w u d (claiming i) s b = inl (subst (λ i. g.holder i ≡ by u) b s.0)

module _ {g : Ghost} {w : World} (safe : IsSafe g w) where
  Uses-InHands : (u d : ℕ) → Uses w u d → InHands g u d
  Uses-InHands u d (inl h) = inl (safe.has u d h).0
  Uses-InHands u d (inr b) = Busy-InHands g w u d (w.pc u) (safe.stands u) b

  IsSafe-IsApart : IsApart w
  IsSafe-IsApart = record {
    exclusive = λ u v d a b. ground (arith, Uses-InHands u d a, Uses-InHands v d b);
    links = g.links;
    follows = Leads-Follows g w w.region.freelist.top g.links safe.leads;
    apart = λ u d a.
        All-listed g w (λ i. i ≢ d) w.region.freelist.top g.links safe.leads
          (λ e l. ground (arith, Uses-InHands u d a));
  }

-- Any number of threads call `freelist_add` on what they have and `freelist_remove`, and are
-- interrupted between any two accesses to memory; they write at will to what they have. From a safe
-- state, while the counts that tell the same link from its earlier lives do not pass 16 bits: no
-- assertion fails in any schedule, no descriptor is in the hands of two threads, and
-- the free list is a chain of different descriptors, none of which a thread has.
pub run-IsApart :
    (l : List Action) (g : Ghost) (w : World)
    → IsSafe g w
    → All Narrow l
    → w.region.freelist.aba_counter + total_adds l < 2 ^ 16
    → Yields (λ _ w'. IsApart w') (run l w)
run-IsApart l g w safe narrow fewer =
    Yields-mono (run-Stays l g w safe narrow fewer) λ _ w' (g', safe'). IsSafe-IsApart safe'
