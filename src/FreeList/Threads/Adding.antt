-- ===== src/FreeList/Threads/Adding.antt =====
-- The accesses of `freelist_add`, among other threads.
use memif_user_release.Base.{
  ℕ, ◌+◌, ◌%◌, ◌^◌, ◌==◌, ◌≡◌, ◌≢◌, ◌<◌, ◌∙◌, refl, true, false, ◌∷◌, some, update, update_self,
  ℕ_discrete, arith, sym, subst, ap, inl, inr, Bool-cases, lt→ltb, eq_of_==,
}
use memif_user_release.Desc.{DescPtr, raw}
use memif_user_release.Desc.Fields.{InRange}
use memif_user_release.Region.{write_next, write_top, cas_top}
use memif_user_release.Region.Run.{ok, yields, Yields-of_eq}
use memif_user_release.FreeList.Threads.{
  idle, adding, linking, swapping, World, set_pc, set_has, start_add, advance, access,
}
use memif_user_release.FreeList.Threads.Invariant.{
  listed, adder, Ghost, In, stamped, Leads, IsStamp, IsStale, IsSafe,
}
use memif_user_release.FreeList.Threads.Frame.{
  Keeps, Stands-update, Leads-frame, All-listed, In-listed,
}
use memif_user_release.FreeList.Threads.Moves.{
  Stays, NoStamp-same, NoStamp-none, stamp-update, move-Stays, top-InRange, top-eq,
}

module _ {g : Ghost} {w : World} (safe : IsSafe g w) (u : ℕ) where
  -- The call takes the descriptor out of the thread's hands, with a count that is new.
  module _ (junk d : ℕ) (mine : w.has u d ≡ true) where
    started : World
    started =
        let n : ℕ = w.region.freelist.aba_counter + 1 in
        set_pc u (adding (record { index = d; count = n; color = junk })) (
          set_has u d false (record w {
            region = record (w.region) {
              freelist = record (w.region.freelist) { aba_counter = n };
            };
          }))

    given : Ghost
    given = record g { holder = update ℕ_discrete g.holder d (adder u) }

    start_add-eq :
        w.region.freelist.aba_counter + 1 < 2 ^ 16
        → access u (start_add junk d w.region) (set_has u d false w) ≡ ok tt started
    unfolding start_add started
    start_add-eq fewer =
        let inside = (safe.has u d mine).1 in
        let unshared = safe.unshared d inside in
        let fits : d % 2 ^ 16 ≡ d = omega (arith, safe.small) in
        let wide : (w.region.freelist.aba_counter + 1) % 2 ^ 64
            ≡ w.region.freelist.aba_counter + 1 =
          omega arith in
        let fresh : (w.region.freelist.aba_counter + 1) % 2 ^ 16
            ≡ w.region.freelist.aba_counter + 1 =
          omega arith in
        rw (lt→ltb d w.region.ndescs inside, unshared, fits, wide, fresh)

    started-Keeps : Keeps g w given started u
    unfolding started given
    started-Keeps = record {
      size = refl;
      count = omega arith;
      giving = λ v e other h. (ground (arith, safe.has u d mine), refl);
      having = λ v e other h. ground (arith, safe.has u d mine);
      stamp = stamp-update g w u _ (λ t s e. ground (arith, s));
      links = λ t s i. (i, refl);
    }

    started-IsSafe :
        junk < 2 ^ 16 → w.region.freelist.aba_counter + 1 < 2 ^ 16 → IsSafe given started
    unfolding started given
    started-IsSafe narrow fewer = record {
      small = safe.small;
      unshared = safe.unshared;
      leads =
          Leads-frame g w given started w.region.freelist.top g.links refl (omega arith)
            (All-listed g w
              (λ e.
                (update ℕ_discrete g.holder d (adder u) e ≡ listed)
                × ((w.region.desc e).next ≡ (w.region.desc e).next))
              w.region.freelist.top g.links safe.leads
              (λ e l. (ground (arith, safe.has u d mine), refl)))
            safe.leads;
      stands = Stands-update g w given started u _ started-Keeps refl safe.stands (
        record {
          index = omega (arith, safe.small, safe.has u d mine);
          count = fewer;
          color = narrow;
        },
        (safe.has u d mine).1,
        update_self ℕ_discrete g.holder d (adder u),
        omega arith,
      );
      has = λ v e h. ground (arith, safe.has v e, safe.has u d mine);
    }

    pub start_add-Stays :
        junk < 2 ^ 16
        → w.region.freelist.aba_counter + 1 < 2 ^ 16
        → Stays w 1 (access u (start_add junk d w.region) (set_has u d false w))
    unfolding started
    start_add-Stays narrow fewer =
        Yields-of_eq (start_add-eq fewer) (given, started-IsSafe narrow fewer, omega arith)

  pub adding-Stays :
      (tmp : DescPtr)
      → w.pc u ≡ adding tmp
      → IsStamp g w u tmp
      → Stays w 0 (access u (advance (adding tmp) w.region) w)
  unfolding advance
  adding-Stays tmp at s =
      move-Stays safe u (linking tmp w.region.freelist.top)
        (NoStamp-same g w u (linking tmp w.region.freelist.top) at refl) (s, top-InRange safe) _
        refl

  -- The store goes to a descriptor that is in no list, and in no other thread's hands.
  module _ (tmp top : DescPtr) (at : w.pc u ≡ linking tmp top) (s : IsStamp g w u tmp) where
    linked : World
    linked = set_pc u (swapping tmp top) (record w { region = write_next tmp.index top w.region })

    linked-Keeps : Keeps g w g linked u
    unfolding linked
    linked-Keeps = record {
      size = refl;
      count = omega arith;
      giving = λ v e other h. (h, ground (arith, s));
      having = λ v e other h. h;
      stamp = stamp-update g w u (swapping tmp top) (NoStamp-same g w u (swapping tmp top) at refl);
      links = λ t stale i.
          (i, ground (arith, s, In-listed g w t w.region.freelist.top g.links safe.leads i));
    }

    linked-IsSafe : InRange top → IsSafe g linked
    unfolding linked
    linked-IsSafe range = record {
      small = safe.small;
      unshared = λ i inside. ground (arith, safe.unshared i inside);
      leads =
          Leads-frame g w g linked w.region.freelist.top g.links refl (omega arith)
            (All-listed g w
              (λ e. (g.holder e ≡ listed) × ((linked.region.desc e).next ≡ (w.region.desc e).next))
              w.region.freelist.top g.links safe.leads (λ e l. (l, ground (arith, s))))
            safe.leads;
      stands =
          Stands-update g w g linked u (swapping tmp top) linked-Keeps refl safe.stands
            (s, range, ground arith);
      has = safe.has;
    }

    pub linking-Stays : InRange top → Stays w 0 (access u (advance (linking tmp top) w.region) w)
    unfolding linked advance
    linking-Stays range =
        rw (lt→ltb tmp.index w.region.ndescs s.1) (yields (g, linked-IsSafe range, omega arith))

  module _ (tmp top : DescPtr) (at : w.pc u ≡ swapping tmp top) (s : IsStamp g w u tmp) where
    pushed : World
    pushed = set_pc u idle (record w { region = write_top tmp w.region })

    longer : Ghost
    longer = record { links = tmp ∷ g.links; holder = update ℕ_discrete g.holder tmp.index listed }

    pushed-Keeps : Keeps g w longer pushed u
    unfolding pushed longer
    pushed-Keeps = record {
      size = refl;
      count = omega arith;
      giving = λ v e other h. (ground (arith, s), refl);
      having = λ v e other h. ground (arith, s);
      stamp = stamp-update g w u idle (NoStamp-none g w idle refl);
      links = λ t stale i. (old t stale i, refl);
    }
      where
        old : (t : DescPtr) → IsStale g w t → In t (tmp ∷ g.links) → In t g.links
        old t stale (inl e) = absurd (stale.3 u (ap stamped at ∙ ap some (sym e)))
        old t stale (inr i) = i

    pushed-IsSafe :
        (w.region.desc tmp.index).next ≡ top → w.region.freelist.top ≡ top → IsSafe longer pushed
    unfolding pushed longer
    pushed-IsSafe next same = record {
      small = safe.small;
      unshared = safe.unshared;
      leads = (
        refl,
        (s.0, s.1, update_self ℕ_discrete g.holder tmp.index listed, s.3),
        All-listed g w (λ e. e ≢ tmp.index) w.region.freelist.top g.links safe.leads
            (λ e l. ground (arith, s)),
        subst (λ p. Leads longer pushed p g.links) (same ∙ sym next)
            (Leads-frame g w longer pushed w.region.freelist.top g.links refl (omega arith)
              (All-listed g w
                (λ e.
                  (longer.holder e ≡ listed) × ((w.region.desc e).next ≡ (w.region.desc e).next))
                w.region.freelist.top g.links safe.leads (λ e l. (ground arith, refl)))
              safe.leads),
      );
      stands = Stands-update g w longer pushed u idle pushed-Keeps refl safe.stands tt;
      has = λ v e h. ground (arith, safe.has v e, s);
    }

    pub swapping-Stays :
        InRange top
        → (w.region.desc tmp.index).next ≡ top
        → Stays w 0 (access u (advance (swapping tmp top) w.region) w)
    unfolding advance cas_top pushed
    swapping-Stays range next = elim (Bool-cases (raw w.region.freelist.top == raw top)) [
      | inl e ↦ rw e (
          yields (longer, pushed-IsSafe next (top-eq safe top range (eq_of_== _ _ e)), omega arith))
      | inr e ↦
          rw e (move-Stays safe u (adding tmp) (NoStamp-same g w u (adding tmp) at refl) s _ refl)
    ]
