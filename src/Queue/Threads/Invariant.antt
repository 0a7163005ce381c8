-- ===== src/Queue/Threads/Invariant.antt =====
-- What holds of a queue between any two accesses of the threads that put descriptors into it.
use memif_user_release.Base.{ℕ, ◌≡◌, ◌≢◌, ◌<◌, ◌≤◌, ◌⊎◌, ◌^◌, true, List, ◌++◌, All}
use memif_user_release.Desc.{DescPtr, bad_index}
use memif_user_release.Desc.Fields.{InRange}
use memif_user_release.Region.{QueueId}
use memif_user_release.Region.View.{payload}
use memif_user_release.Queue.Threads.{
  Place, looking, reading, checking, tainting, linking, swinging, Pc, idle, sending, finishing,
  World,
}
use memif_user_release.Queue.Threads.Chain.{Holder, by, sender, Node, In, At, Leads}

-- The nodes at the start, those sent since, and the holder of each descriptor.
pub record Ghost : Type 0 where
  pub start : List Node
  pub sent : List Node
  pub holder : ℕ → Holder

abbrev pub nodes : Ghost → List Node
nodes g = g.start ++ g.sent

-- The descriptor that a thread has yet to link.
abbrev pub Sends : Pc → ℕ → Type 0
Sends idle d = ⊥
Sends (sending desc place) d = desc ≡ d
Sends (finishing desc tail tmp) d = ⊥

module _ (k : ℕ) (g : Ghost) (w : World) where
  -- A loaded link: of the color of the queue, and to a node if it is to any descriptor.
  abbrev pub IsLink : DescPtr → Type 0
  IsLink next = InRange next × (next.color ≡ k) × (next.index ≢ bad_index → At next.index (nodes g))

  abbrev pub StandsAt : ℕ → Place → Type 0
  StandsAt d (looking tmp) = Unit
  StandsAt d (reading tmp tail) = At tail.index (nodes g)
  StandsAt d (checking tmp tail next) = At tail.index (nodes g) × IsLink next
  StandsAt d (tainting tail next) = At tail.index (nodes g) × IsLink next × (next.index ≡ bad_index)
  StandsAt d (linking tail next tmp) =
      At tail.index (nodes g)
      × InRange next
      × (next.index ≡ bad_index)
      × InRange tmp
      × (tmp.index ≡ d)
      × (tmp.color ≡ k)
      × ((w.region.desc d).next.color ≡ k)
  StandsAt d (swinging tmp tail next) = At next.index (nodes g)

  -- A descriptor on its way: the thread's own, the end of a chain, and recorded as called.
  abbrev pub IsSent : ℕ → ℕ → Type 0
  IsSent u d =
      (g.holder d ≡ sender u)
      × (d < w.region.ndescs)
      × ((w.region.desc d).next.index ≡ bad_index)
      × In (d, payload (w.region.desc d)) w.called

  abbrev pub Stands : ℕ → Pc → Type 0
  Stands u idle = Unit
  Stands u (sending d place) = IsSent u d × StandsAt d place
  Stands u (finishing d tail tmp) = At d (nodes g) × (d < w.region.ndescs)

  -- What was called is sent, or is on its way.
  abbrev pub Tracked : Node → Type 0
  Tracked c = In c g.sent ⊎ ((u : ℕ) × Sends (w.pc u) c.0 × (payload (w.region.desc c.0) ≡ c.1))

  pub record IsSound (q : QueueId) : Type 0 where
    pub small : w.region.ndescs ≤ bad_index
    pub plain : k < 2 ^ 15
    pub ranged : (i : ℕ) → InRange (w.region.desc i).next
    pub leads :
        Leads w.region.ndescs k g.holder w.region.desc (w.region.queue q).head.index (nodes g)
    pub tail : At (w.region.queue q).tail.index (nodes g)
    pub stands : (u : ℕ) → Stands u (w.pc u)
    pub has : (u d : ℕ) → w.has u d ≡ true → (g.holder d ≡ by u) × (d < w.region.ndescs)
    pub calls : All (λ c. In c w.called) g.sent
    pub tracked : (c : Node) → In c w.called → Tracked c
