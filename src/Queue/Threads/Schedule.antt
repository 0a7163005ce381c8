-- ===== src/Queue/Threads/Schedule.antt =====
-- Each step of a thread, and so each schedule, keeps what holds between accesses.
use mathlib.Core.List.{append_assoc}
use memif_user_release.Base.{ℕ, ◌≡◌, refl, List, [], ◌∷◌, ◌++◌, ◌∙◌, ap, inl, inr, Bool-cases, All}
use memif_user_release.Desc.Fields.{InRange}
use memif_user_release.Region.{QueueId}
use memif_user_release.Region.Run.{then-Yields, Yields-mono}
use memif_user_release.Queue.Threads.{
  Place, looking, reading, checking, tainting, linking, swinging, Pc, idle, sending, finishing,
  World, advance, advance_loop, access, is_idle, Action, enqueue, step, write, act, run,
}
use memif_user_release.Queue.Threads.Invariant.{Ghost, StandsAt, IsSent, Stands, IsSound}
use memif_user_release.Queue.Threads.Moves.{
  Stays, Stays-same, untouched, goes-Stays, own_none, looking-Stays, reading-Stays, checking-Stays,
}
use memif_user_release.Queue.Threads.Swaps.{swinging-Stays, finishing-Stays, tainting-Stays}
use memif_user_release.Queue.Threads.Linking.{linking-Stays}
use memif_user_release.Queue.Threads.Begin.{begun-Stays}
use memif_user_release.Queue.Threads.Write.{written-Stays}

-- What threads write into links lies in their C types.
abbrev pub Narrow : Action → Type 0
Narrow (enqueue u junk desc) = Unit
Narrow (step u) = Unit
Narrow (write u desc body) = InRange body.next

module _ {k : ℕ} {q : QueueId} {g : Ghost} {w : World} (safe : IsSound k g w q) (u : ℕ) where
  loop-Stays :
      (d : ℕ) (p : Place)
      → w.pc u ≡ sending d p
      → IsSent k g w u d
      → StandsAt k g w d p
      → Stays k q g (access u (advance_loop q d p w.region) w)
  loop-Stays d (looking tmp) at mine s = looking-Stays safe u d mine tmp at
  loop-Stays d (reading tmp tail) at mine s = reading-Stays safe u d mine tmp tail at s
  loop-Stays d (checking tmp tail next) at mine s =
      checking-Stays safe u d mine tmp tail next at s.0 s.1
  loop-Stays d (tainting tail next) at mine s =
      tainting-Stays safe u d tail next mine s.1 at s.0 s.2
  loop-Stays d (linking tail next tmp) at mine s = linking-Stays safe u d tail next tmp at mine s
  loop-Stays d (swinging tmp tail next) at mine s = swinging-Stays safe u d tmp tail next at mine s

  advance-Stays :
      (p : Pc) → w.pc u ≡ p → Stands k g w u p → Stays k q g (access u (advance q p w.region) w)
  unfolding advance
  advance-Stays idle at s =
      goes-Stays safe u w.region idle (untouched safe u) tt
        (own_none safe u idle idle w.region at (λ e h. h))
  advance-Stays (sending d p) at s = loop-Stays d p at s.0 s.1
  advance-Stays (finishing d tail tmp) at s = finishing-Stays safe u d tail tmp at s.0 s.1

act-Stays :
    {k : ℕ} {q : QueueId} {g : Ghost} {w : World} (a : Action)
    → IsSound k g w q
    → Narrow a
    → Stays k q g (act q a w)
unfolding act
act-Stays {w} (enqueue u junk d) safe narrow = elim (Bool-cases (is_idle (w.pc u))) [
  | inl ready ↦ elim (Bool-cases (w.has u d)) [
    | inl mine ↦ rw (ready, mine) (begun-Stays safe u junk d ready mine)
    | inr other ↦ rw (ready, other) (Stays-same safe)
  ]
  | inr busy ↦ rw busy (Stays-same safe)
]
act-Stays {w} (step u) safe narrow = advance-Stays safe u (w.pc u) refl (safe.stands u)
act-Stays {w} (write u d body) safe narrow = elim (Bool-cases (w.has u d)) [
  | inl mine ↦ rw mine (written-Stays safe u d body narrow mine)
  | inr other ↦ rw other (Stays-same safe)
]

pub run-Stays :
    {k : ℕ} {q : QueueId} (l : List Action) (g : Ghost) (w : World)
    → IsSound k g w q
    → All Narrow l
    → Stays k q g (run q l w)
unfolding run
run-Stays [] g w safe narrow = Stays-same safe
run-Stays {k} {q} (a ∷ l) g w safe narrow =
    then-Yields (act-Stays a safe narrow.0) λ _ w' (g', safe', start, (more, sent)).
      Yields-mono (run-Stays {k = k} {q = q} l g' w' safe' narrow.1)
        λ _ w'' (g'', safe'', start', (more', sent')). (
          g'',
          safe'',
          start' ∙ start,
          (more ++ more', sent' ∙ ap (λ x. x ++ more') sent ∙ append_assoc g.sent more more'),
        )
