-- ===== src/Queue/Dequeue.antt =====
-- `mig_dequeue`: on an empty queue NULL; otherwise a replica of the oldest node, taken from the
-- free list, to which the old dummy goes back.
mod Turns
use memif_user_release.Base.{
  ℕ, zero, suc, ◌≡◌, refl, ◌≢◌, ◌<◌, ◌≤◌, [], ◌∷◌, List, map, Option, some, none, ==-refl, length,
  update_self, ℕ_discrete, arith, ap, sym, ◌∙◌, subst,
}
use memif_user_release.Desc.{DescPtr, Desc, bad_index, raw, next_count}
use memif_user_release.Region.{QueueId, QueueId-discrete, Region, write_queue, cas_tail}
use memif_user_release.Region.Run.{
  ok, loop, loop-finish, loop-again, loop-Yields, again, finish, Yields, yields, Yields-of_eq,
  then-Yields, Yields-mono,
}
use memif_user_release.Region.Cells.{Cell}
use memif_user_release.Region.View.{
  Owner, held, QueueView, queue_view, View, contents, payload_of, rest, IsQueue, IsWellFormed,
}
use memif_user_release.Region.Swing.{Swung, swing-Swung, lag_here, next_inside}
use memif_user_release.FreeList.Remove.{Removed, Handed, freelist_remove-Handed}
use memif_user_release.Queue.Retire.{first_node, full, front, contents-ne-nil}
use memif_user_release.Queue.{
  give_up, or_bug, replica, push_tail, take_node, dequeue_turn, mig_dequeue,
}
use memif_user_release.Queue.Copy.{Dequeued, Copied, copy_node-Copied}
use memif_user_release.Queue.Dequeue.Turns.{
  empty_turn, push_turn, take_turn, Handed-on, replica-Removed, Removed-Copied,
}

abbrev TakenSome : QueueId → View → Region → Option ℕ → Region → Type 0
TakenSome q v r out r' = (ret : ℕ) × (out ≡ some ret) × (v' : View) × Dequeued q ret v r v' r'

-- What `mig_dequeue` promises where it returns.
abbrev pub Taken : QueueId → View → Region → Option ℕ → Region → Type 0
Taken q v r none r' = (contents (v.queue q) ≡ []) × (r' ≡ r)
Taken q v r (some ret) r' = (v' : View) × Dequeued q ret v r v' r'

module _ (fuel junk : ℕ) (q : QueueId) {v : View} {r : Region} (dummy : Cell) (ps : List Cell)
    (last : Cell) (bs : List Cell) (k : ℕ) (e : v.queue q ≡ queue_view (dummy ∷ ps) last bs k)
    (w : IsWellFormed v r) (some_spare : v.spare ≢ []) where
  take-Dequeued :
      Yields
        (λ out r'. (ret : ℕ) × (out ≡ finish (some ret)) × (v' : View) × Dequeued q ret v r v' r')
        (take_node (suc fuel) junk q none (r.queue q).head dummy.body.next r)
  unfolding take_node
  take-Dequeued = then-Yields (replica-Removed fuel w some_spare) λ ret r' (v', a).
      let (f, fs, split) = first_node ps last bs in
      Yields-mono
        (copy_node-Copied junk q ret dummy ps last bs k (a.queue q ∙ e) a.well
          (a.owner ret ∙ update_self ℕ_discrete v.owner ret held) (rw a.size a.inside) f fs split
          fuel (r.queue q).head (ap (λ g. (g q).head) a.queues))
        λ out r'' (done, v'', c). (ret, done, v'', Removed-Copied a c)

  -- With a tail that is past the dummy, in one turn.
  take_loop :
      (n : ℕ) → Yields (TakenSome q v r) (loop (suc n) (dequeue_turn (suc fuel) junk q) none r)
  take_loop n =
      let (f, fs, split) = first_node ps last bs in
      let h = front q dummy ps last bs k e w f fs split in
      let at_tail = (full q dummy ps last bs k e w).tail in
      let ne : (r.queue q).tail.index ≢ dummy.addr = λ x. h.not_tail (sym at_tail ∙ x) in
      let more : dummy.body.next.index ≢ bad_index =
        omega (arith, h.next, h.next_inside, w.small) in
      loop-Yields (dequeue_turn (suc fuel) junk q) n (
        rw
          (take_turn (suc fuel) junk q r dummy.addr dummy.body w.small h.head ne h.inside h.body
            more)
          (Yields-mono take-Dequeued
            λ out r' (ret, done, v', d). (some ret, done, (ret, refl, v', d))))

Swung-Dequeued :
    {q : QueueId} {ret : ℕ} {v v' v'' : View} {r r' r'' : Region}
    → Swung q v r v' r'
    → Dequeued q ret v' r' v'' r''
    → Dequeued q ret v r v'' r''
Swung-Dequeued {ret} {v} {r} s d = record {
  well = d.well;
  size = d.size ∙ s.size;
  contents = ap (λ l. map payload_of (rest l)) (sym s.nodes) ∙ d.contents;
  tint = d.tint ∙ s.color;
  color = d.color ∙ s.color;
  others = λ p other. d.others p other ∙ s.others p other;
  inside = rw (← s.size) d.inside;
  was_free = ap (λ (f : ℕ → Owner). f ret) (sym s.owner) ∙ d.was_free;
  taken = d.taken;
  kept = λ a own.
      let (still, same) = d.kept a (ap (λ (f : ℕ → Owner). f a) s.owner ∙ own) in
      (still, same ∙ ap (λ (m : ℕ → Desc). m a) s.memory);
  spare = d.spare ∙ ap length s.spare;
}

module _ (fuel junk : ℕ) (q : QueueId) {v : View} {r : Region} (w : IsWellFormed v r) where
  dequeue_loop :
      (n : ℕ) (passed : List Cell) (last : Cell) (beyond : List Cell) (k : ℕ)
      → v.queue q ≡ queue_view passed last beyond k
      → (contents (v.queue q) ≢ [] → v.spare ≢ [])
      → Yields (Taken q v r) (loop (suc (suc n)) (dequeue_turn (suc fuel) junk q) none r)
  dequeue_loop n [] last [] k e enough =
      let h = subst (IsQueue (r.queue q) r.desc r.ndescs v.owner q) e (w.queue q) in
      Yields-of_eq
        (loop-finish (dequeue_turn (suc fuel) junk q) (suc n) (
          empty_turn (suc fuel) junk q r last.addr w.small h.linked.0 h.tail h.holds.0.2
            (ap (λ (d : Desc). d.next.index) h.holds.0.0 ∙ h.linked.1)))
        (ap contents e, refl)
  dequeue_loop n [] last (b ∷ bs) k e enough =
      let h = lag_here q [] last b bs k e w in
      let at : (r.desc last.addr).next.index ≡ b.addr =
        ap (λ (d : Desc). d.next.index) h.holds.0.0 ∙ h.linked.1.0 in
      let more : (r.desc last.addr).next.index ≢ bad_index =
        omega (arith, at, next_inside q [] last b bs k e w, w.small) in
      let tail : DescPtr = record ((r.desc last.addr).next) {
        count = next_count (r.queue q).tail.count;
      } in
      let s = swing-Swung q [] last b bs k e w tail at in
      rw
        (loop-again (dequeue_turn (suc fuel) junk q) (suc n)
          (push_turn (suc fuel) junk q r last.addr w.small h.linked.0 h.tail h.holds.0.2 more))
        (Yields-mono
          (take_loop fuel junk q last [] b bs k (update_self QueueId-discrete v.queue q _) s.well
            (enough (λ z. cc (sym (ap contents e) ∙ z))) n)
          (λ out r' (ret, done, v', d). rw done (v', Swung-Dequeued s d)))
  dequeue_loop n (dummy ∷ ps) last bs k e enough =
      Yields-mono
        (take_loop fuel junk q dummy ps last bs k e w
          (enough (contents-ne-nil q dummy ps last bs k e w)) (suc n))
        λ out r' (ret, done, v', d). rw done (v', d)

-- On a well-formed region, where the free list has a descriptor for the replica, or the queue is
-- empty, `mig_dequeue` ends within two turns. It returns NULL exactly if the queue is empty, and
-- then changes nothing. Otherwise it returns a descriptor that was free, with the oldest payload
-- and the queue's color; the queue keeps its color and the other payloads, in order; the free list
-- is as long as before; and what others hold, and the other queues, are as they were.
pub mig_dequeue-Taken :
    (fuel junk : ℕ) (q : QueueId) {v : View} {r : Region}
    → IsWellFormed v r
    → (contents (v.queue q) ≢ [] → v.spare ≢ [])
    → 2 ≤ fuel
    → Yields (Taken q v r) (mig_dequeue fuel junk q r)
unfolding mig_dequeue
mig_dequeue-Taken zero junk q w enough h = absurd (omega arith)
mig_dequeue-Taken (suc zero) junk q w enough h = absurd (omega arith)
mig_dequeue-Taken (suc (suc n)) junk q {v} w enough h =
    let x = v.queue q in
    dequeue_loop (suc n) junk q w n x.passed x.last x.beyond x.color refl enough
