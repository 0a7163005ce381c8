-- ===== src/Queue/Enqueue.antt =====
-- `mig_enqueue`: once the descriptor is linked behind the last node, the tail is swung to it.
mod Turns
use memif_user_release.Base.{
  ℕ, zero, suc, ◌≡◌, refl, ◌≢◌, ◌<◌, ◌%◌, ◌^◌, [], ◌∷◌, ◌++◌, List, arith, ==-refl, true, length,
  update_self, ap, ◌∙◌, sym,
}
use memif_user_release.Desc.{DescPtr, Desc, bad_index, raw, next_count}
use memif_user_release.Region.{
  QueueId, QueueId-discrete, Region, write_next, write_queue, cas_tail, cas_next,
}
use memif_user_release.Region.Run.{
  ok, pure, ◌>>◌, loop, loop-finish, loop-again, again, finish, Yields, yields, Yields-of_eq,
  then-Yields, Yields-mono,
}
use memif_user_release.Region.Cells.{Cell}
use memif_user_release.Region.View.{
  held, QueueView, queue_view, View, contents, payload, IsWellFormed,
}
use memif_user_release.Region.Nodes.{at_last, write_held-IsWellFormed}
use memif_user_release.Region.Swing.{Swung, swing-Swung, lag_here, next_inside}
use memif_user_release.Queue.Link.{
  link_to, linked_memory, here, at, not_last, now, Enqueued, appended-Enqueued, Enqueued-after,
  Enqueued-then,
}
use memif_user_release.Queue.{append_node, swing_tail, enqueue_turn, mig_enqueue}
use memif_user_release.Queue.Enqueue.Turns.{LinkedIn, enqueue_loop}

-- The checkpoint of the tail is current: the last swap succeeds.
cas_tail-ok :
    (q : QueueId) (new : DescPtr) {old : DescPtr} (r : Region)
    → (r.queue q).tail ≡ old
    → cas_tail q old new r ≡ ok true (write_queue q (record (r.queue q) { tail = new }) r)
unfolding cas_tail
cas_tail-ok q new r e = rw (← e, ==-refl)

-- What `mig_enqueue` promises.
abbrev pub Delivered : QueueId → ℕ → View → Region → ℕ → Region → Type 0
Delivered q desc v r color r' =
    (color ≡ (v.queue q).color)
    × (v' : View) × Enqueued q desc v r v' r'
    × ((v'.queue q).last.addr ≡ desc)
    × ((v'.queue q).beyond ≡ [])

last_swing :
    (q : QueueId) (desc : ℕ) {v v' : View} {r r' : Region} (tail tmp : DescPtr)
    → LinkedIn q desc v r (tail, tmp) v' r'
    → Yields (Delivered q desc v r) (
        (do
          cas_tail q tail (record tmp { index = desc; count = next_count tail.count })
          pure tmp.color)
          r')
last_swing q desc {v} {v'} {r} {r'} tail tmp l =
    let x = v'.queue q in
    let (c, at_desc, lag) = l.lag in
    let e : x ≡ queue_view x.passed x.last (c ∷ []) x.color = λ i. record x { beyond = lag i } in
    let new : DescPtr = record tmp { index = desc; count = next_count tail.count } in
    let s = swing-Swung q x.passed x.last c [] x.color e l.done.well new (sym at_desc) in
    let now = update_self QueueId-discrete v'.queue q _ in
    rw (cas_tail-ok q new r' l.checkpoint) (
      yields (
        l.tint,
        _,
        Enqueued-then l.done s,
        ap (λ (y : QueueView). y.last.addr) now ∙ at_desc,
        ap (λ (y : QueueView). y.beyond) now,
      ))

cleared-Enqueued :
    {q : QueueId} {desc : ℕ} {v v' : View} {r r' : Region} (p : DescPtr)
    → Enqueued q desc v (write_next desc p r) v' r'
    → Enqueued q desc v r v' r'
cleared-Enqueued {q} {desc} {v} {r} p h = record {
  well = h.well;
  size = h.size;
  owner = h.owner;
  spare = h.spare;
  others = h.others;
  color = h.color;
  contents =
      let same : payload ((write_next desc p r).desc desc) ≡ payload (r.desc desc) = ground arith in
      h.contents ∙ ap (λ b. contents (v.queue q) ++ b ∷ []) same;
  memory = λ a other out. h.memory a other out ∙ ground arith;
}

-- On a well-formed region, given a descriptor that its caller holds, and one turn more than the
-- nodes that the tail lags behind, `mig_enqueue` returns the color of the queue, whatever its
-- uninitialised local holds. The payload of the descriptor is then behind all others in the queue,
-- the tail names the descriptor, and the other queues, the free list and the descriptors outside
-- the queue are as they were.
pub mig_enqueue-Delivered :
    (fuel : ℕ) (junk : DescPtr) (q : QueueId) (desc : ℕ) {v : View} {r : Region}
    → IsWellFormed v r
    → v.owner desc ≡ held
    → desc < r.ndescs
    → length (v.queue q).beyond < fuel
    → Yields (Delivered q desc v r) (mig_enqueue fuel junk q desc r)
unfolding mig_enqueue
mig_enqueue-Delivered fuel junk q desc {v} {r} w taken inside enough =
    let x = v.queue q in
    let p : DescPtr = record ((r.desc desc).next) { index = bad_index } in
    let fits : desc % 2 ^ 16 ≡ desc = omega (arith, w.small) in
    let w' =
      write_held-IsWellFormed desc (record (r.desc desc) { next = p }) w taken
        (w.unshared desc inside) in
    let ends : ((write_next desc p r).desc desc).next.index ≡ bad_index = ground arith in
    rw fits (
      then-Yields
        (enqueue_loop q desc x.beyond x.passed x.last x.color junk fuel refl w' taken inside ends
          enough)
        λ out r' (v', l).
          Yields-mono (last_swing q desc out.0 out.1 l)
            λ c r'' (tint, v'', h, at, end). (tint, v'', cleared-Enqueued p h, at, end))
