-- ===== src/Queue/Threads/Lossless.antt =====
-- Threads that put descriptors into a queue lose none, in any schedule.
use memif_user_release.Base.{ℕ, ◌≡◌, ◌≢◌, ◌<◌, ◌⊎◌, List, [], ◌∷◌, ◌++◌, All, subst, inl, inr}
use memif_user_release.Desc.{bad_index}
use memif_user_release.Region.{QueueId, Region}
use memif_user_release.Region.Run.{Yields, Yields-mono}
use memif_user_release.Region.View.{payload}
use memif_user_release.Queue.Threads.{World, Action, run}
use memif_user_release.Queue.Threads.Chain.{Holder, Node, In, At, Leads}
use memif_user_release.Queue.Threads.Invariant.{Ghost, nodes, Sends, IsSound, Tracked}
use memif_user_release.Queue.Threads.Schedule.{Narrow, run-Stays}

-- From index `i` memory leads through the nodes to the bad index: different descriptors with their
-- payloads, and links of one color.
abbrev pub Follows : (k : ℕ) → Region → ℕ → List Node → Type 0
Follows k r i [] = i ≡ bad_index
Follows k r i (c ∷ cs) =
    (i ≡ c.0)
    × (c.0 < r.ndescs)
    × (payload (r.desc c.0) ≡ c.1)
    × ((r.desc c.0).next.color ≡ k)
    × All (λ d. d.0 ≢ c.0) cs
    × Follows k r (r.desc c.0).next.index cs

-- The queue has the nodes `start` and behind them `sent`.
pub record IsLossless (k : ℕ) (q : QueueId) (start sent : List Node) (w : World) : Type 0 where
  pub follows : Follows k w.region (w.region.queue q).head.index (start ++ sent)
  pub tail : At (w.region.queue q).tail.index (start ++ sent)
  pub calls : All (λ c. In c w.called) sent
  pub none_lost : (c : Node) → In c w.called → In c sent ⊎ ((u : ℕ) × Sends (w.pc u) c.0)

Leads-Follows :
    (k : ℕ) (h : ℕ → Holder) (r : Region) (i : ℕ) (cs : List Node)
    → Leads r.ndescs k h r.desc i cs
    → Follows k r i cs
Leads-Follows k h r i [] l = l
Leads-Follows k h r i (c ∷ cs) l =
    (l.0, l.1.0, l.1.2, l.1.3, l.2, Leads-Follows k h r (r.desc c.0).next.index cs l.3)

Tracked-none_lost :
    (k : ℕ) (g : Ghost) (w : World) (c : Node)
    → Tracked k g w c
    → In c g.sent ⊎ ((u : ℕ) × Sends (w.pc u) c.0)
Tracked-none_lost k g w c (inl i) = inl i
Tracked-none_lost k g w c (inr (u, b, same)) = inr (u, b)

IsSound-IsLossless :
    {k : ℕ} {q : QueueId} {g : Ghost} {w : World}
    → IsSound k g w q
    → IsLossless k q g.start g.sent w
IsSound-IsLossless {k} {q} {g} {w} s = record {
  follows = Leads-Follows k g.holder w.region (w.region.queue q).head.index (nodes g) s.leads;
  tail = s.tail;
  calls = s.calls;
  none_lost = λ c i. Tracked-none_lost k g w c (s.tracked c i);
}

-- A schedule from any sound state.
pub run-IsLossless :
    {k : ℕ} {q : QueueId} (l : List Action) (g : Ghost) (w : World)
    → IsSound k g w q
    → All Narrow l
    → Yields (λ _ w'. (more : List Node) × IsLossless k q g.start (g.sent ++ more) w') (run q l w)
run-IsLossless {k} {q} l g w safe narrow =
    Yields-mono (run-Stays {k = k} {q = q} l g w safe narrow)
      λ _ w' (g', safe', same, (more, sent)). (
        more,
        subst (λ x. IsLossless k q x (g.sent ++ more) w') same
            (subst (λ x. IsLossless k q g'.start x w') sent (IsSound-IsLossless safe')),
      )
