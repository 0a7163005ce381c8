-- ===== src/Queue/Dequeue/Turns.antt =====
-- The turns of the loop of `mig_dequeue`, one by one.
use memif_user_release.Base.{
  ℕ, suc, ◌≡◌, ◌≢◌, ◌<◌, ◌≤◌, [], Option, some, none, ==-refl, length, arith, ap, sym, ◌∙◌,
}
use memif_user_release.Desc.{Desc, bad_index, raw, next_count}
use memif_user_release.Region.{QueueId, Region, write_queue, cas_tail}
use memif_user_release.Region.Run.{ok, again, finish, Yields, yields, then-Yields}
use memif_user_release.Region.View.{QueueView, View, contents, IsWellFormed}
use memif_user_release.FreeList.Remove.{Removed, Handed, freelist_remove-Handed}
use memif_user_release.Queue.{give_up, or_bug, replica, push_tail, take_node, dequeue_turn}
use memif_user_release.Queue.Copy.{Dequeued, Copied}

pub empty_turn :
    (fuel junk : ℕ) (q : QueueId) (r : Region) (i : ℕ)
    → r.ndescs ≤ bad_index
    → (r.queue q).head.index ≡ i
    → (r.queue q).tail.index ≡ i
    → i < r.ndescs
    → (r.desc i).next.index ≡ bad_index
    → dequeue_turn fuel junk q none r ≡ ok (finish none) r
unfolding dequeue_turn give_up
empty_turn fuel junk q r i small head tail inside ends =
    ground (arith, ==-refl (raw (r.queue q).head))

pub push_turn :
    (fuel junk : ℕ) (q : QueueId) (r : Region) (i : ℕ)
    → r.ndescs ≤ bad_index
    → (r.queue q).head.index ≡ i
    → (r.queue q).tail.index ≡ i
    → i < r.ndescs
    → (r.desc i).next.index ≢ bad_index
    → dequeue_turn fuel junk q none r
      ≡ ok (again none) (
          write_queue q
            (record (r.queue q) {
              tail = record ((r.desc i).next) { count = next_count (r.queue q).tail.count };
            })
            r)
unfolding dequeue_turn push_tail cas_tail
push_turn fuel junk q r i small head tail inside more =
    ground (arith, ==-refl (raw (r.queue q).head), ==-refl (raw (r.queue q).tail))

pub take_turn :
    (fuel junk : ℕ) (q : QueueId) (r : Region) (i : ℕ) (d : Desc)
    → r.ndescs ≤ bad_index
    → (r.queue q).head.index ≡ i
    → (r.queue q).tail.index ≢ i
    → i < r.ndescs
    → r.desc i ≡ d
    → d.next.index ≢ bad_index
    → dequeue_turn fuel junk q none r ≡ take_node fuel junk q none (r.queue q).head d.next r
unfolding dequeue_turn
take_turn fuel junk q r i d small head tail inside body more =
    ground (arith, ==-refl (raw (r.queue q).head))

pub Handed-on :
    {v : View} {r : Region}
    → v.spare ≢ []
    → (o : Option ℕ) (r' : Region) → Handed v r o r'
    → Yields (λ d r''. (v' : View) × Removed d v r v' r'') (or_bug o r')
Handed-on some_spare none r' (e, same) = absurd (some_spare e)
Handed-on some_spare (some d) r' h = yields h

pub replica-Removed :
    (fuel : ℕ) {v : View} {r : Region}
    → IsWellFormed v r
    → v.spare ≢ []
    → Yields (λ d r'. (v' : View) × Removed d v r v' r') (replica (suc fuel) none r)
unfolding replica
replica-Removed fuel {v} {r} w some_spare =
    then-Yields (freelist_remove-Handed fuel w) (Handed-on some_spare)

pub Removed-Copied :
    {q : QueueId} {ret : ℕ} {v v' v'' : View} {r r' r'' : Region}
    → Removed ret v r v' r'
    → Copied q ret v' r' v'' r''
    → Dequeued q ret v r v'' r''
Removed-Copied {q} {ret} {v} {v'} {v''} {r} {r'} {r''} a c = record {
  well = c.well;
  size = c.size ∙ a.size;
  contents = ap contents (sym (a.queue q)) ∙ c.contents;
  tint = c.tint ∙ ap (λ (x : QueueView). x.color) (a.queue q);
  color = c.color ∙ ap (λ (x : QueueView). x.color) (a.queue q);
  others = λ p other. c.others p other ∙ a.queue p;
  inside = a.inside;
  was_free = a.was_free;
  taken = c.taken;
  kept = λ b own.
      let apart : b ≢ ret = λ x. ground (arith, a.was_free, ap v.owner x) in
      let (still, same) = c.kept b apart (a.owner b ∙ ground arith) in (still, same ∙ a.memory b);
  spare = let (x, at, less) = a.top in c.spare ∙ omega (arith, ap length less);
}
