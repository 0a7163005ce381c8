-- ===== src/FreeList/Threads/Removing.antt =====
-- The accesses of `freelist_remove`, among other threads.
use memif_user_release.Base.{
  ℕ, ◌==◌, ◌≡◌, ◌<◌, ◌∙◌, refl, true, List, ◌∷◌, none, update, update_self, ℕ_discrete, arith, sym,
  subst, ap, inl, inr, Bool-cases, List-cases, lt→ltb, eq_of_==,
}
use memif_user_release.Desc.{DescPtr, bad_index, raw}
use memif_user_release.Region.{write_top, cas_top}
use memif_user_release.Region.Run.{yields}
use memif_user_release.FreeList.Threads.{
  Pc, idle, removing, reading, taking, claiming, World, set_pc, set_has, advance, access, hand,
}
use memif_user_release.FreeList.Threads.Invariant.{
  listed, by, Ghost, In, stamped, Leads, IsStale, IsSafe,
}
use memif_user_release.FreeList.Threads.Frame.{Keeps, Stands-update, Leads-frame, All-behind}
use memif_user_release.FreeList.Threads.Moves.{
  Stays, NoStamp-none, stamp-update, move-Stays, top-IsStale, top-eq,
}

module _ {g : Ghost} {w : World} (safe : IsSafe g w) (u : ℕ) where
  IsStale-move :
      (p : Pc) (t : DescPtr) → stamped p ≡ none → IsStale g w t → IsStale g (set_pc u p w) t
  IsStale-move p t e s = (s.0, s.1, s.2, stamp-update g w u p (NoStamp-none g w p e) t s)

  pub removing-Stays : Stays w 0 (access u (advance removing w.region) w)
  unfolding advance
  removing-Stays = elim (Bool-cases (w.region.freelist.top.index == bad_index)) [
    | inl e ↦ rw e (move-Stays safe u idle (NoStamp-none g w idle refl) tt _ refl)
    | inr e ↦
        let t : DescPtr = w.region.freelist.top in
        rw e (
          move-Stays safe u (reading t) (NoStamp-none g w (reading t) refl)
            (IsStale-move (reading t) t refl (top-IsStale safe (ground arith))) _ refl)
  ]

  pub reading-Stays :
      (t : DescPtr) → IsStale g w t → Stays w 0 (access u (advance (reading t) w.region) w)
  unfolding advance
  reading-Stays t s =
      let p : Pc = taking t (w.region.desc t.index).next in
      rw (lt→ltb t.index w.region.ndescs s.1)
        (move-Stays safe u p (NoStamp-none g w p refl) (IsStale-move p t refl s, λ i. refl) _ refl)

  -- The swap takes the first link off the list.
  module _ (t : DescPtr) (cs : List DescPtr) (s : IsStale g w t) (front : g.links ≡ t ∷ cs) where
    popped : World
    popped =
        set_pc u (claiming t.index)
          (record w { region = write_top (w.region.desc t.index).next w.region })

    shorter : Ghost
    shorter = record { links = cs; holder = update ℕ_discrete g.holder t.index (by u) }

    popped-Keeps : g.holder t.index ≡ listed → Keeps g w shorter popped u
    unfolding popped shorter
    popped-Keeps was = record {
      size = refl;
      count = omega arith;
      giving = λ v e other h. (ground arith, refl);
      having = λ v e other h. ground arith;
      stamp = stamp-update g w u (claiming t.index) (NoStamp-none g w (claiming t.index) refl);
      links = λ p stale i. (subst (In p) (sym front) (inr i), refl);
    }

    popped-IsSafe : Leads g w w.region.freelist.top (t ∷ cs) → IsSafe shorter popped
    unfolding popped shorter
    popped-IsSafe l = record {
      small = safe.small;
      unshared = safe.unshared;
      leads =
          Leads-frame g w shorter popped _ cs refl (omega arith)
            (All-behind g w
              (λ e. (shorter.holder e ≡ listed) × ((w.region.desc e).next ≡ (w.region.desc e).next))
              t.index _ cs l.2 l.3 (λ e ne h. (ground arith, refl)))
            l.3;
      stands =
          Stands-update g w shorter popped u (claiming t.index) (popped-Keeps l.1.2) refl
            safe.stands (update_self ℕ_discrete g.holder t.index (by u), s.1);
      has = λ v e h. ground (arith, safe.has v e, l.1.2);
    }

  abbrev swapped : DescPtr → World
  swapped t =
      set_pc u (claiming t.index)
        (record w { region = write_top (w.region.desc t.index).next w.region })

  -- A swap that succeeds finds the link on the list, and takes it off.
  take-IsSafe :
      (t : DescPtr)
      → IsStale g w t
      → w.region.freelist.top ≡ t
      → In t g.links × (g' : Ghost) × IsSafe g' (swapped t)
  unfolding popped
  take-IsSafe t s same = elim (List-cases g.links) [
    | inl e ↦
        let l = subst (Leads g w w.region.freelist.top) e safe.leads in
        absurd (ground (arith, l, s, safe.small))
    | inr (c, cs, e) ↦
        let l = subst (Leads g w w.region.freelist.top) e safe.leads in
        let first : c ≡ t = sym l.0 ∙ same in
        let front = e ∙ ap (λ d. d ∷ cs) first in
        (
          subst (In t) (sym front) (inl refl),
          shorter t cs s front,
          popped-IsSafe t cs s front
              (subst (λ d. Leads g w w.region.freelist.top (d ∷ cs)) first l),
        )
  ]

  pub taking-Stays :
      (t tmp : DescPtr)
      → IsStale g w t
      → (In t g.links → (w.region.desc t.index).next ≡ tmp)
      → Stays w 0 (access u (advance (taking t tmp) w.region) w)
  unfolding advance cas_top
  taking-Stays t tmp s next = elim (Bool-cases (raw w.region.freelist.top == raw t)) [
    | inl e ↦
        let (on, g', safe') = take-IsSafe t s (top-eq safe t s.0 (eq_of_== _ _ e)) in
        rw (e, ← next on) (yields (g', safe', omega arith))
    | inr e ↦ rw e (move-Stays safe u removing (NoStamp-none g w removing refl) tt _ refl)
  ]

  -- The last access: the descriptor is the thread's from the swap on.
  claimed : ℕ → World
  claimed i = set_pc u idle (set_has u i true w)

  claimed-IsSafe : (i : ℕ) → g.holder i ≡ by u → i < w.region.ndescs → IsSafe g (claimed i)
  unfolding claimed
  claimed-IsSafe i own inside = record {
    small = safe.small;
    unshared = safe.unshared;
    leads = safe.leads;
    stands = Stands-update g w g (claimed i) u idle keep refl safe.stands tt;
    has = λ v e h. ground (arith, safe.has v e);
  }
    where
      keep : Keeps g w g (claimed i) u
      keep = record {
        size = refl;
        count = omega arith;
        giving = λ v d other h. (h, refl);
        having = λ v d other h. h;
        stamp = stamp-update g w u idle (NoStamp-none g w idle refl);
        links = λ t s on. (on, refl);
      }

  pub claiming-Stays :
      (i : ℕ)
      → g.holder i ≡ by u
      → i < w.region.ndescs
      → Stays w 0 (access u (advance (claiming i) w.region) (hand u (claiming i) w))
  unfolding advance claimed
  claiming-Stays i own inside =
      rw (lt→ltb i w.region.ndescs inside, safe.unshared i inside)
        (yields (g, claimed-IsSafe i own inside, omega arith))
