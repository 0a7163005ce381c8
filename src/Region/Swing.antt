-- ===== src/Region/Swing.antt =====
-- A tail that is swung one node further: the queue is the same to those who use it.
use memif_user_release.Base.{
  ℕ, ◌≡◌, refl, ◌≢◌, ◌<◌, List, ◌∷◌, update_self, update_other, subst, sym, ap, ◌∙◌, All-append_iff,
}
use memif_user_release.Desc.{DescPtr}
use memif_user_release.Region.{QueueId, QueueId-discrete, Region, write_queue}
use memif_user_release.Region.Cells.{Cell, IsHeld}
use memif_user_release.Region.View.{
  in_queue, QueueView, queue_view, View, nodes, IsQueue, IsWellFormed,
}
use memif_user_release.Region.Nodes.{
  advance, nodes-advance, IsQueue-tail, with_queue, with_queue-IsWellFormed,
}

-- One queue has another split of the same nodes; memory and all else are the same.
pub record Swung (q : QueueId) (v : View) (r : Region) (v' : View) (r' : Region) : Type 0 where
  pub well : IsWellFormed v' r'
  pub size : r'.ndescs ≡ r.ndescs
  pub owner : v'.owner ≡ v.owner
  pub spare : v'.spare ≡ v.spare
  pub others : (p : QueueId) → q ≢ p → v'.queue p ≡ v.queue p
  pub color : (v'.queue q).color ≡ (v.queue q).color
  pub nodes : nodes (v'.queue q) ≡ nodes (v.queue q)
  pub memory : r'.desc ≡ r.desc

module _ (q : QueueId) {v : View} {r : Region} (passed : List Cell) (last b : Cell) (bs : List Cell)
    (k : ℕ) (e : v.queue q ≡ queue_view passed last (b ∷ bs) k) (w : IsWellFormed v r) where
  pub lag_here : IsQueue (r.queue q) r.desc r.ndescs v.owner q (queue_view passed last (b ∷ bs) k)
  lag_here = subst (IsQueue (r.queue q) r.desc r.ndescs v.owner q) e (w.queue q)

  pub next_inside : b.addr < r.ndescs
  next_inside =
      let keeps = IsHeld r.desc v.owner r.ndescs (in_queue q) in
      (All-append_iff keeps passed (last ∷ b ∷ bs) lag_here.holds).1.1.0.2

  -- The swing to the next node.
  pub swing-Swung :
      (tail : DescPtr)
      → tail.index ≡ b.addr
      → Swung q v r
          (with_queue q (advance (queue_view passed last (b ∷ bs) k) b bs) v)
          (write_queue q (record (r.queue q) { tail = tail }) r)
  swing-Swung tail at = record {
    well =
        with_queue-IsWellFormed w q (record (r.queue q) { tail = tail })
          (advance (queue_view passed last (b ∷ bs) k) b bs) r.desc v.owner w.unshared
          (λ a out free. (refl, refl))
          (IsQueue-tail tail lag_here (nodes-advance (queue_view passed last (b ∷ bs) k) b bs refl)
            refl at);
    size = refl;
    owner = refl;
    spare = refl;
    others = λ p other. update_other QueueId-discrete v.queue q p _ other;
    color = ap (λ (x : QueueView). x.color) now ∙ ap (λ (x : QueueView). x.color) (sym e);
    nodes =
        ap nodes now
        ∙ nodes-advance (queue_view passed last (b ∷ bs) k) b bs refl
        ∙ ap nodes (sym e);
    memory = refl;
  }
    where
      now :
          (with_queue q (advance (queue_view passed last (b ∷ bs) k) b bs) v).queue q
          ≡ advance (queue_view passed last (b ∷ bs) k) b bs
      now = update_self QueueId-discrete v.queue q _
