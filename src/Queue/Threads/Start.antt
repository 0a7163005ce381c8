-- ===== src/Queue/Threads/Start.antt =====
-- A well-formed region on which no thread is inside `mig_enqueue`.
use mathlib.Core.List.{append-nil}
use mathlib.Core.Logic.{if_pos}
use memif_user_release.Base.{
  ℕ, ◌≡◌, ◌≢◌, refl, ◌<◌, ◌&&◌, ◌==◌, Bool, true, false, List, [], ◌∷◌, ◌++◌, All, map, subst, ap,
  sym, ◌∙◌, arith, ite, ltb, inl, inr,
}
use memif_user_release.Desc.{bad_index}
use memif_user_release.Desc.Fields.{InRange}
use memif_user_release.Region.{QueueId, QueueId-discrete, Region}
use memif_user_release.Region.Run.{Yields}
use memif_user_release.Region.Cells.{Cell, Linked, Distinct, Colored, Holds, Fresh}
use memif_user_release.Region.View.{
  Owner, free, held, in_queue, View, payload, payload_of, nodes, IsWellFormed,
}
use memif_user_release.Queue.Threads.{World, idle, Action, run}
use memif_user_release.Queue.Threads.Chain.{Holder, node, by, outside, Node, At, Leads}
use memif_user_release.Queue.Threads.Invariant.{Ghost, IsSound}
use memif_user_release.Queue.Threads.Schedule.{Narrow}
use memif_user_release.Queue.Threads.Lossless.{IsLossless, run-IsLossless}

abbrev pub node_of : Cell → Node
node_of c = (c.addr, payload_of c)

abbrev pub is_held : Owner → Bool
is_held free = false
is_held held = true
is_held (in_queue p) = false

-- `keeper` tells which thread has each descriptor that is held.
abbrev pub starting : View → Region → (keeper : ℕ → ℕ) → World
starting v r keeper = record {
  region = r;
  pc = λ u. idle;
  has = λ u d. is_held (v.owner d) && ltb d r.ndescs && keeper d == u;
  called = [];
}

module _ (q : QueueId) (keeper : ℕ → ℕ) where
  abbrev holder_of : Owner → ℕ → Holder
  holder_of free d = outside
  holder_of held d = by (keeper d)
  holder_of (in_queue p) d = ite (QueueId-discrete p q) node outside

  module _ (v : View) (r : Region) (w : IsWellFormed v r) where
    Fresh-nodes :
        (a : ℕ) (cs : List Cell) → Fresh a cs → All (λ (d : Node). d.0 ≢ a) (map node_of cs)
    Fresh-nodes a [] f = tt
    Fresh-nodes a (c ∷ cs) f = (f.0, Fresh-nodes a cs f.1)

    cells-Leads :
        (k i : ℕ) (cs : List Cell)
        → Linked i cs bad_index
        → Holds r.desc v.owner r.ndescs (in_queue q) cs
        → Distinct cs
        → Colored k cs
        → Leads r.ndescs k (λ d. holder_of (v.owner d) d) r.desc i (map node_of cs)
    cells-Leads k i [] l h d c = l
    cells-Leads k i (x ∷ cs) l h d c = (
      l.0,
      (
        h.0.2,
        ap (λ o. holder_of o x.addr) h.0.1 ∙ if_pos (QueueId-discrete q q) refl node outside,
        ap payload h.0.0,
        ap (λ b. b.next.color) h.0.0 ∙ c.0,
      ),
      Fresh-nodes x.addr cs d.0,
      cells-Leads k (r.desc x.addr).next.index cs
          (subst (λ b. Linked b.next.index cs bad_index) (sym h.0.0) l.1) h.1 d.1 c.1,
    )

    last-At :
        (a : ℕ) (xs : List Cell) (c : Cell) (ys : List Cell)
        → a ≡ c.addr
        → At a (map node_of (xs ++ c ∷ ys))
    last-At a [] c ys e = inl e
    last-At a (x ∷ xs) c ys e = inr (last-At a xs c ys e)

    owned-holder :
        (u d : ℕ) (o : Owner)
        → is_held o && ltb d r.ndescs && keeper d == u ≡ true
        → (holder_of o d ≡ by u) × (d < r.ndescs)
    owned-holder u d free e = cc
    owned-holder u d held e = grind arith
    owned-holder u d (in_queue p) e = cc

    abbrev ghost : Ghost
    ghost = record {
      start = map node_of (nodes (v.queue q));
      sent = [];
      holder = λ d. holder_of (v.owner d) d;
    }

    starting-IsSound :
        ((i : ℕ) → InRange (r.desc i).next)
        → IsSound (v.queue q).color ghost (starting v r keeper) q
    starting-IsSound ranged = record {
      small = w.small;
      plain = (w.queue q).plain;
      ranged = ranged;
      leads =
          subst (Leads r.ndescs (v.queue q).color ghost.holder r.desc (r.queue q).head.index)
            (sym (append-nil ghost.start))
            (cells-Leads (v.queue q).color (r.queue q).head.index (nodes (v.queue q))
              (w.queue q).linked (w.queue q).holds (w.queue q).distinct (w.queue q).colored);
      tail = subst (At (r.queue q).tail.index) (sym (append-nil ghost.start)) (
          last-At (r.queue q).tail.index (v.queue q).passed (v.queue q).last (v.queue q).beyond
            (w.queue q).tail);
      stands = λ u. tt;
      has = λ u d e. owned-holder u d (v.owner d) e;
      calls = tt;
      tracked = λ c i. absurd i;
    }

    -- From a well-formed region whose links lie in their C types, where no thread is inside
    -- `mig_enqueue`. Any number of threads call `mig_enqueue` on descriptors that they have, write
    -- links that lie in their C types, and are interrupted between any two accesses to memory; none
    -- takes from the queue or changes its color. In any schedule no assertion fails. What was in the
    -- queue stays in front, in order; behind it come descriptors that were sent, with the payloads
    -- that they had when `mig_enqueue` was called and with the color of the queue, no descriptor
    -- twice. Nothing else is in the queue, every descriptor for which `mig_enqueue` was called is in
    -- the queue or still on its way, and the tail names a node.
    pub starting-IsLossless :
        (l : List Action)
        → ((i : ℕ) → InRange (r.desc i).next)
        → All Narrow l
        → Yields
            (λ _ w'.
              (sent : List Node) × IsLossless
                (v.queue q).color
                q
                (map node_of (nodes (v.queue q)))
                sent
                w')
            (run q l (starting v r keeper))
    starting-IsLossless l ranged narrow =
        run-IsLossless l ghost (starting v r keeper) (starting-IsSound ranged) narrow
