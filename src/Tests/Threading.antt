-- ===== src/Tests/Threading.antt =====
-- Two threads on the free list of the small region, and a schedule that interleaves them.
use memif_user_release.Base.{
  ℕ, ◌≡◌, refl, true, false, List, [], ◌∷◌, arith, zero, suc, Bool, ℕ_discrete,
}
use memif_user_release.Desc.{color_none, raw}
use memif_user_release.Region.{cas_top}
use memif_user_release.Region.Run.{Yields, ok, Outcome, bug, spinning}
use memif_user_release.FreeList.Threads.{
  start_add, idle, advance, World, Action, add, remove, step, write, act, run,
}
use memif_user_release.FreeList.Threads.Invariant.{Holder, listed, outside, Ghost, IsSafe}
use memif_user_release.FreeList.Threads.Exclusion.{IsApart, run-IsApart}
use memif_user_release.Tests.{to, desc, region, unshared}

abbrev world : World
world = record { region = region 1; pc = λ u. idle; has = λ u d. false }

abbrev holders : ℕ → Holder
holders zero = outside
holders (suc zero) = outside
holders (suc (suc zero)) = outside
holders (suc (suc (suc zero))) = outside
holders (suc (suc (suc (suc zero)))) = listed
holders (suc (suc (suc (suc (suc zero))))) = listed
holders (suc (suc (suc (suc (suc (suc i)))))) = outside

abbrev ghost : Ghost
ghost = record { links = to 4 color_none ∷ to 5 color_none ∷ []; holder = holders }

world-IsSafe : IsSafe ghost world
world-IsSafe = record {
  small = omega arith;
  unshared = unshared 1;
  leads = (
    refl,
    (
      record { index = omega arith; count = omega arith; color = omega arith },
      omega arith,
      refl,
      omega arith,
    ),
    (λ e. omega (arith, e), tt),
    (
      refl,
      (
        record { index = omega arith; count = omega arith; color = omega arith },
        omega arith,
        refl,
        omega arith,
      ),
      tt,
      (record { index = omega arith; count = omega arith; color = omega arith }, refl),
    ),
  );
  stands = λ u. tt;
  has = λ u d e. cc;
}

-- Thread 1 has loaded the top and its link when thread 2 takes both descriptors and gives the first
-- one back; then thread 1 goes on.
abbrev schedule : List Action
schedule =
    remove 1
    ∷ step 1
    ∷ step 1
    ∷ remove 2
    ∷ step 2
    ∷ step 2
    ∷ step 2
    ∷ step 2
    ∷ remove 2
    ∷ step 2
    ∷ step 2
    ∷ step 2
    ∷ step 2
    ∷ write 2 4 (desc 77 (to 1 1))
    ∷ add 2 9 4
    ∷ step 2
    ∷ step 2
    ∷ step 2
    ∷ step 1
    ∷ step 1
    ∷ step 1
    ∷ step 1
    ∷ step 1
    ∷ []

apart_example : Yields (λ _ w. IsApart w) (run schedule world)
apart_example = run-IsApart schedule ghost world world-IsSafe (omega arith) (omega arith)

-- Its swap fails on the new count, and it takes the descriptor in its new life.
abbrev who : Outcome World (Unit {0}) → Bool × Bool × Bool
who (ok _ w) = (w.has 1 4, w.has 2 4, w.has 2 5)
who bug = (false, false, false)
who spinning = (false, false, false)

schedule_ends : who (run schedule world) ≡ (true, false, true)
unfolding run act advance start_add cas_top raw ℕ_discrete
schedule_ends = refl
