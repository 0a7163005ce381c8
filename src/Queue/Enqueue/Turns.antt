-- ===== src/Queue/Enqueue/Turns.antt =====
-- The turns of the loop of `mig_enqueue`, until the descriptor is linked behind the last node.
use memif_user_release.Base.{
  ℕ, zero, suc, ◌≡◌, refl, ◌≢◌, ◌<◌, ◌^◌, [], ◌∷◌, List, arith, ==-refl, length, update_self, ap,
  ◌∙◌, sym,
}
use memif_user_release.Desc.{DescPtr, Desc, bad_index, raw, next_count}
use memif_user_release.Region.{QueueId, QueueId-discrete, Region, write_queue, cas_tail, cas_next}
use memif_user_release.Region.Run.{
  ok, loop, loop-finish, loop-again, again, finish, Yields, Yields-of_eq, Yields-mono,
}
use memif_user_release.Region.Cells.{Cell}
use memif_user_release.Region.View.{held, QueueView, queue_view, View, IsWellFormed}
use memif_user_release.Region.Nodes.{at_last}
use memif_user_release.Region.Swing.{Swung, swing-Swung, lag_here, next_inside}
use memif_user_release.Queue.Link.{
  link_to, linked_memory, here, at, not_last, now, Enqueued, appended-Enqueued, Enqueued-after,
}
use memif_user_release.Queue.{append_node, swing_tail, enqueue_turn}

-- A turn at a tail that lags: it is swung, and the loop goes on.
swing_turn :
    (q : QueueId) (desc : ℕ) (tmp : DescPtr) (r : Region) (i : ℕ) (d : Desc)
    → (r.queue q).tail.index ≡ i
    → i < r.ndescs
    → r.desc i ≡ d
    → d.next.index ≢ bad_index
    → enqueue_turn q desc tmp r
      ≡ ok
          (again (record tmp { index = d.next.index; count = next_count (r.queue q).tail.count }))
          (write_queue q
            (record (r.queue q) {
              tail = record tmp { index = d.next.index; count = next_count (r.queue q).tail.count };
            })
            r)
unfolding enqueue_turn swing_tail cas_tail
swing_turn q desc tmp r i d at inside body more = ground (arith, ==-refl (raw (r.queue q).tail))

-- A turn at a tail that is the last node: the descriptor is linked behind it.
append_turn :
    (q : QueueId) (desc : ℕ) (tmp : DescPtr) (r : Region) (last : Cell)
    → (r.queue q).tail.index ≡ last.addr
    → last.addr < r.ndescs
    → r.desc last.addr ≡ last.body
    → last.body.next.index ≡ bad_index
    → last.body.next.color < 2 ^ 15
    → last.addr ≢ desc
    → desc < 2 ^ 16
    → enqueue_turn q desc tmp r
      ≡ ok
          (finish ((r.queue q).tail, link_to desc last))
          (record r { desc = linked_memory desc last r.desc })
unfolding enqueue_turn append_node cas_next
append_turn q desc tmp r last at inside body ends plain other fits =
    ground (arith, ==-refl (raw (r.queue q).tail), ==-refl (raw last.body.next))

-- Where the loop of `mig_enqueue` ends: the descriptor is the one node that the tail lags behind.
pub record LinkedIn (q : QueueId) (desc : ℕ) (v : View) (r : Region) (out : DescPtr × DescPtr)
    (v' : View) (r' : Region) : Type 0 where
  pub done : Enqueued q desc v r v' r'
  pub checkpoint : (r'.queue q).tail ≡ out.0
  pub tint : out.1.color ≡ (v.queue q).color
  pub lag : (c : Cell) × (c.addr ≡ desc) × ((v'.queue q).beyond ≡ c ∷ [])

linked_after :
    {q : QueueId} {desc : ℕ} {v v' v'' : View} {r r' r'' : Region} {out : DescPtr × DescPtr}
    → Swung q v r v' r'
    → LinkedIn q desc v' r' out v'' r''
    → LinkedIn q desc v r out v'' r''
linked_after s l = record {
  done = Enqueued-after s l.done;
  checkpoint = l.checkpoint;
  tint = l.tint ∙ s.color;
  lag = l.lag;
}

module _ (q : QueueId) (desc : ℕ) where
  append_step :
      {v : View} {r : Region} (passed : List Cell) (last : Cell) (k : ℕ) (tmp : DescPtr) (fuel : ℕ)
      → v.queue q ≡ queue_view passed last [] k
      → IsWellFormed v r
      → v.owner desc ≡ held
      → desc < r.ndescs
      → (r.desc desc).next.index ≡ bad_index
      → Yields
          (λ out r'. (v' : View) × LinkedIn q desc v r out v' r')
          (loop (suc fuel) (enqueue_turn q desc) tmp r)
  append_step {v} {r} passed last k tmp fuel e w taken inside ends =
      let h = here q desc passed last k e w taken inside ends in
      let a = at q desc passed last k e w taken inside ends in
      let ne = not_last q desc passed last k e w taken inside ends in
      Yields-of_eq
        (loop-finish (enqueue_turn q desc) fuel (
          append_turn q desc tmp r last h.tail a.inside a.body a.behind
            (omega (arith, a.color, h.plain)) ne (omega (arith, w.small))))
        (
          _,
          record {
            done = appended-Enqueued q desc passed last k e w taken inside ends;
            checkpoint = refl;
            tint = a.color ∙ ap (λ (x : QueueView). x.color) (sym e);
            lag = (
              _,
              refl,
              ap (λ (x : QueueView). x.beyond) (now q desc passed last k e w taken inside ends),
            );
          },
        )

  -- The loop needs a turn for each node that the tail lags behind, and one for the link.
  pub enqueue_loop :
      (bs : List Cell) {v : View} {r : Region} (passed : List Cell) (last : Cell) (k : ℕ)
      (tmp : DescPtr) (fuel : ℕ)
      → v.queue q ≡ queue_view passed last bs k
      → IsWellFormed v r
      → v.owner desc ≡ held
      → desc < r.ndescs
      → (r.desc desc).next.index ≡ bad_index
      → length bs < fuel
      → Yields
          (λ out r'. (v' : View) × LinkedIn q desc v r out v' r')
          (loop fuel (enqueue_turn q desc) tmp r)
  enqueue_loop bs passed last k tmp zero e w taken inside ends enough = absurd (omega arith)
  enqueue_loop [] passed last k tmp (suc fuel) e w taken inside ends enough =
      append_step passed last k tmp fuel e w taken inside ends
  enqueue_loop (b ∷ bs) {v} {r} passed last k tmp (suc fuel) e w taken inside ends enough =
      let h = lag_here q passed last b bs k e w in
      let a = at_last h in
      let more : last.body.next.index ≢ bad_index =
        ground (arith, a.behind.0, next_inside q passed last b bs k e w, w.small) in
      let tail : DescPtr = record tmp {
        index = last.body.next.index;
        count = next_count (r.queue q).tail.count;
      } in
      let s = swing-Swung q passed last b bs k e w tail a.behind.0 in
      rw
        (loop-again (enqueue_turn q desc) fuel
          (swing_turn q desc tmp r last.addr last.body h.tail a.inside a.body more))
        (Yields-mono
          (enqueue_loop bs _ b k tail fuel (update_self QueueId-discrete v.queue q _) s.well taken
            inside ends (omega arith))
          λ out r' (v', l). (v', linked_after s l))
