-- ===== src/Init/Carve.antt =====
-- Making a descriptor the dummy of a queue, on the way to a new region.
use memif_user_release.Base.{
  ℕ, suc, ◌≡◌, refl, ◌≢◌, ◌<◌, ◌≤◌, ◌%◌, ◌^◌, ◌∷◌, List, update_self, update_other, arith, ap,
}
use memif_user_release.Desc.{bad_index}
use memif_user_release.Region.{
  QueueId, QueueId-discrete, Queue, Region, write_next, write_queue, write_top,
}
use memif_user_release.Region.Run.{ok, Yields, yields}
use memif_user_release.Region.Cells.{Cell, Holds-frame-Fresh}
use memif_user_release.Region.View.{free}
use memif_user_release.FreeList.Remove.{freelist_remove-top}
use memif_user_release.Queue.{migqueue_create_color}
use memif_user_release.Init.Chain.{IsChain}
use memif_user_release.Init.{with_dummy}

-- A descriptor becomes the dummy of a queue.
pub record Carved (q : QueueId) (k : ℕ) (c : Cell) (cs : List Cell) (r r' : Region) : Type 0 where
  pub chain : IsChain r' cs
  pub size : r'.ndescs ≡ r.ndescs
  pub ends : (r'.desc c.addr).next.index ≡ bad_index
  pub color : (r'.desc c.addr).next.color ≡ k
  pub other : (a : ℕ) → a ≢ c.addr → r'.desc a ≡ r.desc a
  pub unshared : (a : ℕ) → (r'.desc a).refcnt ≡ (r.desc a).refcnt
  pub head : (r'.queue q).head.index ≡ c.addr
  pub tail : (r'.queue q).tail.index ≡ c.addr
  pub queues : (p : QueueId) → q ≢ p → r'.queue p ≡ r.queue p

abbrev pub created : QueueId → ℕ → ℕ → Region → Region
created q dummy k r =
    write_queue q
      (record {
        tail = record ((r.queue q).tail) { index = dummy };
        head = record ((r.queue q).head) { index = dummy };
      })
      (write_next dummy (record ((r.desc dummy).next) { index = bad_index; color = k }) r)

create-created :
    (q : QueueId) (dummy k : ℕ) (r : Region)
    → dummy < 2 ^ 16
    → migqueue_create_color q dummy k r ≡ ok tt (created q dummy k r)
unfolding migqueue_create_color
create-created q dummy k r fits = let e : dummy % 2 ^ 16 ≡ dummy = omega arith in rw e

pub carve :
    (fuel : ℕ) (q : QueueId) (k : ℕ) (c : Cell) (cs : List Cell) (r : Region)
    → r.ndescs ≤ bad_index
    → (r.desc c.addr).refcnt ≡ 0
    → IsChain r (c ∷ cs)
    → Yields
        (λ _ r'. Carved q k c cs r r')
        (with_dummy (suc fuel) (λ head. migqueue_create_color q head k) r)
unfolding with_dummy
carve fuel q k c cs r small unshared f =
    rw
      (
        freelist_remove-top fuel {r = r} c cs small unshared f,
        create-created q c.addr k (write_top c.body.next r) (omega (arith, f.holds.0)),
      )
      (yields (record {
        chain = record {
          linked = f.linked.1;
          holds =
              Holds-frame-Fresh free r.ndescs c.addr cs f.holds.1 f.distinct.0
                (λ b other. (ground arith, refl));
          distinct = f.distinct.1;
        };
        size = refl;
        ends = ground arith;
        color = ground arith;
        other = λ a other. ground arith;
        unshared = λ a. ground arith;
        head = ap (λ (u : Queue). u.head.index) (update_self QueueId-discrete r.queue q _);
        tail = ap (λ (u : Queue). u.tail.index) (update_self QueueId-discrete r.queue q _);
        queues = λ p other. update_other QueueId-discrete r.queue q p _ other;
      }))
