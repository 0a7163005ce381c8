-- ===== src/Tests/Sending.antt =====
-- Two threads that put descriptors into one queue, and a schedule that interleaves them.
use memif_user_release.Base.{
  ℕ, ◌≡◌, refl, List, [], ◌∷◌, arith, zero, suc, ℕ_discrete, map, ◌==◌, if◌then◌else◌,
}
use memif_user_release.Desc.{bad_index, raw}
use memif_user_release.Desc.Fields.{InRange}
use memif_user_release.Region.{req, cas_tail, cas_next}
use memif_user_release.Region.Run.{Yields, ok, Outcome, bug, spinning}
use memif_user_release.Region.View.{nodes}
use memif_user_release.Queue.Threads.{
  advance, advance_loop, World, Action, enqueue, step, write, act, run,
}
use memif_user_release.Queue.Threads.Chain.{Node}
use memif_user_release.Queue.Threads.Lossless.{IsLossless}
use memif_user_release.Queue.Threads.Start.{node_of, starting, starting-IsLossless}
use memif_user_release.Tests.{to, desc, view, region, region-IsWellFormed, memory}

-- Thread 1 has descriptor 6 and thread 2 has descriptor 7.
abbrev keeper : ℕ → ℕ
keeper d = if d == 6 then 1 else 2

abbrev world : World
world = starting (view 1) (region 1) keeper

ranged : (i : ℕ) → InRange (memory 1 i).next
ranged zero = record { index = omega arith; count = omega arith; color = omega arith }
ranged (suc zero) = record { index = omega arith; count = omega arith; color = omega arith }
ranged (suc (suc zero)) = record { index = omega arith; count = omega arith; color = omega arith }
ranged (suc (suc (suc zero))) = record {
  index = omega arith;
  count = omega arith;
  color = omega arith;
}
ranged (suc (suc (suc (suc zero)))) = record {
  index = omega arith;
  count = omega arith;
  color = omega arith;
}
ranged (suc (suc (suc (suc (suc i))))) = record {
  index = omega arith;
  count = omega arith;
  color = omega arith;
}

written_ranged : InRange (to 3 5)
written_ranged = record { index = omega arith; count = omega arith; color = omega arith }

-- The tail lags. Thread 1 moves it on and comes to the last node; thread 2 links its descriptor
-- first; thread 1 fails to link, loads again, and links behind it.
abbrev schedule : List Action
schedule =
    enqueue 1 (to 0 0) 6
    ∷ step 1
    ∷ step 1
    ∷ step 1
    ∷ step 1
    ∷ step 1
    ∷ step 1
    ∷ step 1
    ∷ write 2 7 (desc 77 (to 3 5))
    ∷ enqueue 2 (to 9 9) 7
    ∷ step 2
    ∷ step 2
    ∷ step 2
    ∷ step 2
    ∷ step 2
    ∷ step 1
    ∷ step 1
    ∷ step 2
    ∷ step 1
    ∷ step 1
    ∷ step 1
    ∷ step 1
    ∷ step 1
    ∷ step 1
    ∷ []

senders_example :
    Yields
      (λ _ w.
        (sent : List Node) × IsLossless 1 req (map node_of (nodes ((view 1).queue req))) sent w)
      (run req schedule world)
senders_example =
    starting-IsLossless req keeper (view 1) (region 1) (region-IsWellFormed 1 (omega arith))
      schedule ranged
      (
        tt,
        (
          tt,
          (
            tt,
            (
              tt,
              (
                tt,
                (
                  tt,
                  (
                    tt,
                    (
                      tt,
                      (
                        written_ranged,
                        (
                          tt,
                          (
                            tt,
                            (
                              tt,
                              (
                                tt,
                                (
                                  tt,
                                  (tt, (tt, (tt, (tt, (tt, (tt, (tt, (tt, (tt, (tt, tt)))))))))),
                                ),
                              ),
                            ),
                          ),
                        ),
                      ),
                    ),
                  ),
                ),
              ),
            ),
          ),
        ),
      )

-- The links of the nodes, from the dummy on, and where the tail is.
abbrev links : Outcome World (Unit {0}) → List ℕ
links (ok _ w) =
    (w.region.desc 0).next.index
    ∷ (w.region.desc 1).next.index
    ∷ (w.region.desc 7).next.index
    ∷ (w.region.desc 6).next.index
    ∷ (w.region.queue req).tail.index
    ∷ []
links bug = []
links spinning = []

schedule_ends : links (run req schedule world) ≡ 1 ∷ 7 ∷ 6 ∷ bad_index ∷ 6 ∷ []
unfolding run act advance advance_loop cas_tail cas_next raw ℕ_discrete
schedule_ends = refl
