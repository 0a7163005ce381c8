-- ===== src/FreeList/Threads/Moves.antt =====
-- An access of one thread, seen by the others; those that change nothing but where the thread
-- stands.
use memif_user_release.Base.{
  ℕ, ◌+◌, ◌≡◌, ◌≢◌, ◌≤◌, ◌∙◌, refl, List, [], ◌∷◌, none, some, update, ℕ_discrete, arith, sym,
  subst, ap, ite,
}
use memif_user_release.Desc.{DescPtr, bad_index, raw}
use memif_user_release.Desc.Fields.{InRange, raw-injective}
use memif_user_release.Region.Run.{Outcome, Yields, yields}
use memif_user_release.FreeList.Threads.{
  Pc, idle, adding, linking, swapping, removing, reading, taking, claiming, World, set_pc,
}
use memif_user_release.FreeList.Threads.Invariant.{
  adder, Ghost, stamped, IsListed, Leads, IsStale, Stands, IsSafe,
}
use memif_user_release.FreeList.Threads.Frame.{Keeps, Stands-update}

-- A run ends safely, with at most `n` more counts used up.
abbrev pub Stays : World → ℕ → Outcome World (Unit {0}) → Type 0
Stays w n = Yields λ _ w'.
    (g : Ghost) × IsSafe g w' × (w'.region.freelist.aba_counter ≤ w.region.freelist.aba_counter + n)

-- A thread that gets to stand at `p` stamps no link that was stale.
abbrev pub NoStamp : Ghost → World → Pc → Type 0
NoStamp g w p = (t : DescPtr) → IsStale g w t → stamped p ≢ some t

pub stamp-update :
    (g : Ghost) (w : World) (u : ℕ) (p : Pc)
    → NoStamp g w p
    → (t : DescPtr) → IsStale g w t
    → (v : ℕ) → stamped (update ℕ_discrete w.pc u p v) ≢ some t
stamp-update g w u p new t s v =
    elim (ℕ_discrete u v) as (λ d. stamped (ite d p (w.pc v)) ≢ some t) [
      | yes e ↦ new t s
      | no other ↦ s.3 v
    ]

-- The stamp that the thread has had.
pub NoStamp-same :
    (g : Ghost) (w : World) (u : ℕ) (p : Pc) {q : Pc}
    → w.pc u ≡ q
    → stamped p ≡ stamped q
    → NoStamp g w p
NoStamp-same g w u p at e t s h = s.3 u (ap stamped at ∙ sym e ∙ h)

pub NoStamp-none : (g : Ghost) (w : World) (p : Pc) → stamped p ≡ none → NoStamp g w p
NoStamp-none g w p e t s h = cc

Keeps-move : (g : Ghost) (w : World) (u : ℕ) (p : Pc) → NoStamp g w p → Keeps g w g (set_pc u p w) u
Keeps-move g w u p new = record {
  size = refl;
  count = omega arith;
  giving = λ v d other h. (h, refl);
  having = λ v d other h. h;
  stamp = stamp-update g w u p new;
  links = λ t s i. (i, refl);
}

module _ {g : Ghost} {w : World} (safe : IsSafe g w) where
  -- A load, or a failed swap.
  pub move-IsSafe :
      (u : ℕ) (p : Pc) → NoStamp g w p → Stands g (set_pc u p w) u p → IsSafe g (set_pc u p w)
  move-IsSafe u p new place = record {
    small = safe.small;
    unshared = safe.unshared;
    leads = safe.leads;
    stands = Stands-update g w g (set_pc u p w) u p (Keeps-move g w u p new) refl safe.stands place;
    has = safe.has;
  }

  pub move-Stays :
      (u : ℕ) (p : Pc)
      → NoStamp g w p
      → Stands g (set_pc u p w) u p
      → (r : Outcome World (Unit {0})) → r ≡ Outcome.ok tt (set_pc u p w)
      → Stays w 0 r
  move-Stays u p new place r e =
      subst (Stays w 0) (sym e) (yields (g, move-IsSafe u p new place, omega arith))

Leads-InRange :
    (g : Ghost) (w : World) (p : DescPtr) (cs : List DescPtr) → Leads g w p cs → InRange p
Leads-InRange g w p [] l = l.0
Leads-InRange g w p (c ∷ cs) l = subst InRange (sym l.0) l.1.0

Leads-IsListed :
    (g : Ghost) (w : World) (p : DescPtr) (cs : List DescPtr)
    → Leads g w p cs
    → p.index ≢ bad_index
    → IsListed g w p
Leads-IsListed g w p [] l more = absurd (more l.1)
Leads-IsListed g w p (c ∷ cs) l more = subst (IsListed g w) (sym l.0) l.1

-- The descriptor of a stamp is in its thread's hands.
pub stamped-adder :
    (g : Ghost) (w : World) (v : ℕ) (p : Pc) (t : DescPtr)
    → Stands g w v p
    → stamped p ≡ some t
    → g.holder t.index ≡ adder v
stamped-adder g w v idle t s e = cc
stamped-adder g w v (adding tmp) t s e = ground (arith, s)
stamped-adder g w v (linking tmp top) t s e = ground (arith, s)
stamped-adder g w v (swapping tmp top) t s e = ground (arith, s)
stamped-adder g w v removing t s e = cc
stamped-adder g w v (reading top) t s e = cc
stamped-adder g w v (taking top tmp) t s e = cc
stamped-adder g w v (claiming i) t s e = cc

module _ {g : Ghost} {w : World} (safe : IsSafe g w) where
  pub top-InRange : InRange w.region.freelist.top
  top-InRange = Leads-InRange g w w.region.freelist.top g.links safe.leads

  -- A link on top is one that no thread will put there again.
  pub top-IsStale : w.region.freelist.top.index ≢ bad_index → IsStale g w w.region.freelist.top
  top-IsStale more =
      let l = Leads-IsListed g w w.region.freelist.top g.links safe.leads more in
      (
        l.0,
        l.1,
        l.3,
        λ v e.
            let own = stamped-adder g w v (w.pc v) w.region.freelist.top (safe.stands v) e in
            cc (own, l.2),
      )

  -- A swap that succeeds finds the very link that it compares with.
  pub top-eq :
      (t : DescPtr) → InRange t → raw w.region.freelist.top ≡ raw t → w.region.freelist.top ≡ t
  top-eq t inside e = raw-injective w.region.freelist.top t top-InRange inside e
