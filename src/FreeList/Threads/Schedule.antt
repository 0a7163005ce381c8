-- ===== src/FreeList/Threads/Schedule.antt =====
-- Each step of a thread, and so each schedule, keeps what holds between accesses.
use memif_user_release.Base.{
  ℕ, ◌+◌, ◌^◌, ◌≡◌, ◌<◌, refl, true, List, [], ◌∷◌, arith, inl, inr, Bool-cases, All,
}
use memif_user_release.Desc.{Desc}
use memif_user_release.Region.{write_desc}
use memif_user_release.Region.Run.{ok, Yields, yields, then-Yields}
use memif_user_release.FreeList.Threads.{
  Pc, idle, adding, linking, swapping, removing, reading, taking, claiming, World, advance, access,
  hand, Action, add, remove, step, write, act, run, adds, total_adds, is_idle,
}
use memif_user_release.FreeList.Threads.Invariant.{listed, Ghost, Stands, IsSafe}
use memif_user_release.FreeList.Threads.Frame.{
  Keeps, Stands-frame, Leads-frame, All-listed, In-listed,
}
use memif_user_release.FreeList.Threads.Moves.{Stays, NoStamp-none, move-Stays}
use memif_user_release.FreeList.Threads.Adding.{
  start_add-Stays, adding-Stays, linking-Stays, swapping-Stays,
}
use memif_user_release.FreeList.Threads.Removing.{
  removing-Stays, reading-Stays, taking-Stays, claiming-Stays,
}

-- A schedule in which the colors in uninitialised locals are 16-bit values.
abbrev pub Narrow : Action → Type 0
Narrow (add u junk desc) = junk < 2 ^ 16
Narrow (remove u) = Unit
Narrow (step u) = Unit
Narrow (write u desc body) = Unit

module _ {g : Ghost} {w : World} (safe : IsSafe g w) (u : ℕ) where
  stay : Stays w 0 (ok tt w)
  stay = yields (g, safe, omega arith)

  -- A thread makes the access that is next where it stands.
  step-Stays :
      (p : Pc)
      → w.pc u ≡ p
      → Stands g w u p
      → Stays w 0 (access u (advance p w.region) (hand u p w))
  unfolding advance
  step-Stays idle at s = move-Stays safe u idle (NoStamp-none g w idle refl) tt _ refl
  step-Stays (adding tmp) at s = adding-Stays safe u tmp at s
  step-Stays (linking tmp top) at s = linking-Stays safe u tmp top at s.0 s.1
  step-Stays (swapping tmp top) at s = swapping-Stays safe u tmp top at s.0 s.1 s.2
  step-Stays removing at s = removing-Stays safe u
  step-Stays (reading t) at s = reading-Stays safe u t s
  step-Stays (taking t tmp) at s = taking-Stays safe u t tmp s.0 s.1
  step-Stays (claiming i) at s = claiming-Stays safe u i s.0 s.1

  act_step-Stays : Stays w 0 (act (step u) w)
  unfolding act
  act_step-Stays = step-Stays (w.pc u) refl (safe.stands u)

  add-Stays :
      (junk d : ℕ)
      → junk < 2 ^ 16
      → w.region.freelist.aba_counter + 1 < 2 ^ 16
      → Stays w 1 (act (add u junk d) w)
  unfolding act
  add-Stays junk d narrow fewer = elim (Bool-cases (is_idle (w.pc u))) [
    | inl ready ↦ elim (Bool-cases (w.has u d)) [
      | inl mine ↦ rw (ready, mine) (start_add-Stays safe u junk d mine narrow fewer)
      | inr other ↦ rw (ready, other) (yields (g, safe, omega arith))
    ]
    | inr busy ↦ rw busy (yields (g, safe, omega arith))
  ]

  remove-Stays : Stays w 0 (act (remove u) w)
  unfolding act
  remove-Stays = elim (Bool-cases (is_idle (w.pc u))) [
    | inl ready ↦ rw ready (move-Stays safe u removing (NoStamp-none g w removing refl) tt _ refl)
    | inr busy ↦ rw busy stay
  ]

  -- What a thread writes to its own descriptor.
  module _ (d : ℕ) (body : Desc) (mine : w.has u d ≡ true) where
    written : World
    written = record w {
      region = write_desc d (record body { refcnt = (w.region.desc d).refcnt }) w.region;
    }

    written-Keeps : (v : ℕ) → Keeps g w g written v
    unfolding written
    written-Keeps v = record {
      size = refl;
      count = omega arith;
      giving = λ v e other h. (h, ground (arith, safe.has u d mine));
      having = λ v e other h. h;
      stamp = λ t s. s.3;
      links = λ t s on. (
        on,
        ground
            (arith, safe.has u d mine, In-listed g w t w.region.freelist.top g.links safe.leads on),
      );
    }

    written-IsSafe : IsSafe g written
    unfolding written
    written-IsSafe = record {
      small = safe.small;
      unshared = λ i inside. ground (arith, safe.unshared i inside);
      leads =
          Leads-frame g w g written w.region.freelist.top g.links refl (omega arith)
            (All-listed g w
              (λ e. (g.holder e ≡ listed) × ((written.region.desc e).next ≡ (w.region.desc e).next))
              w.region.freelist.top g.links safe.leads
              (λ e l. (l, ground (arith, safe.has u d mine))))
            safe.leads;
      stands = λ v.
          Stands-frame g w g written (written-Keeps (v + 1)) v (w.pc v) (omega arith)
            (safe.stands v);
      has = safe.has;
    }

  write-Stays : (d : ℕ) (body : Desc) → Stays w 0 (act (write u d body) w)
  unfolding act written
  write-Stays d body = elim (Bool-cases (w.has u d)) [
    | inl mine ↦ rw mine (yields (g, written-IsSafe d body mine, omega arith))
    | inr other ↦ rw other stay
  ]

act-Stays :
    (g : Ghost) (w : World) (a : Action)
    → IsSafe g w
    → Narrow a
    → w.region.freelist.aba_counter + adds a < 2 ^ 16
    → Stays w (adds a) (act a w)
act-Stays g w (add u junk desc) safe narrow fewer = add-Stays safe u junk desc narrow fewer
act-Stays g w (remove u) safe narrow fewer = remove-Stays safe u
act-Stays g w (step u) safe narrow fewer = act_step-Stays safe u
act-Stays g w (write u desc body) safe narrow fewer = write-Stays safe u desc body

pub run-Stays :
    (l : List Action) (g : Ghost) (w : World)
    → IsSafe g w
    → All Narrow l
    → w.region.freelist.aba_counter + total_adds l < 2 ^ 16
    → Yields (λ _ w'. (g' : Ghost) × IsSafe g' w') (run l w)
unfolding run
run-Stays [] g w safe narrow fewer = yields (g, safe)
run-Stays (a ∷ l) g w safe narrow fewer =
    then-Yields (act-Stays g w a safe narrow.0 (omega arith))
      λ _ w' (g', safe', few). run-Stays l g' w' safe' narrow.1 (omega arith)
