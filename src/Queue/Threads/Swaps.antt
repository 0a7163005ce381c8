-- ===== src/Queue/Threads/Swaps.antt =====
-- The accesses of a thread to the tail and to its own descriptor.
use memif_user_release.Base.{
  ℕ, ◌%◌, ◌^◌, ◌≡◌, refl, ◌<◌, true, not, ◌∙◌, update_self, update_other, ite, ℕ_discrete, arith,
  sym, inl, inr, subst, ap, ◌==◌, Bool-cases,
}
use memif_user_release.Desc.{DescPtr, Desc, bad_index, raw, next_count, is_negative}
use memif_user_release.Desc.Fields.{InRange}
use memif_user_release.Region.{
  QueueId, Queue, Region, QueueId-discrete, cas_tail, write_queue, write_next, desc_to_index,
}
use memif_user_release.Region.Run.{after, pure}
use memif_user_release.Region.View.{payload}
use memif_user_release.Queue.Threads.{
  looking, tainting, linking, swinging, Pc, idle, sending, finishing, World, advance_loop, advance,
  access,
}
use memif_user_release.Queue.Threads.Chain.{sender, Node, In, At}
use memif_user_release.Queue.Threads.Invariant.{
  Ghost, nodes, Sends, IsLink, IsSent, Stands, Tracked, IsSound,
}
use memif_user_release.Queue.Threads.Moves.{
  Stays, Touches, goes, goes-Stays, untouched, own_still, own_none,
}

module _ {k : ℕ} {q : QueueId} {g : Ghost} {w : World} (safe : IsSound k g w q) (u : ℕ) where
  -- The tail may name any node.
  tail_to : DescPtr → Region
  tail_to new = write_queue q (record (w.region.queue q) { tail = new }) w.region

  tail_to-Touches : (new : DescPtr) → At new.index (nodes g) → Touches safe u (tail_to new)
  unfolding tail_to
  tail_to-Touches new at =
      let now =
        update_self QueueId-discrete w.region.queue q (record (w.region.queue q) { tail = new }) in
      record {
        size = refl;
        head = ap (λ (x : Queue). x.head) now;
        tail = subst (λ (x : Queue). At x.tail.index (nodes g)) (sym now) at;
        ranged = safe.ranged;
        same = λ a other. refl;
      }

  -- A swap of the tail, whether it succeeds or not.
  swap_tail-Stays :
      (old new : DescPtr) (p : Pc)
      → At new.index (nodes g)
      → ((r : Region)
          → r.desc ≡ w.region.desc
          → r.ndescs ≡ w.region.ndescs
          → Stands k g (goes safe u r p) u p)
      → ((r : Region)
          → r.desc ≡ w.region.desc
          → (c : Node) → Sends (w.pc u) c.0
          → payload (w.region.desc c.0) ≡ c.1
          → Tracked k g (goes safe u r p) c)
      → Stays k q g (access u (after (cas_tail q old new w.region) (λ _. pure p)) w)
  unfolding cas_tail tail_to
  swap_tail-Stays old new p at place own =
      elim (Bool-cases (raw (w.region.queue q).tail == raw old)) [
        | inl same ↦ rw same (
            goes-Stays safe u (tail_to new) p (tail_to-Touches new at)
              (place (tail_to new) refl refl) (own (tail_to new) refl))
        | inr moved ↦ rw moved (
            goes-Stays safe u w.region p (untouched safe u) (place w.region refl refl)
              (own w.region refl))
      ]

  pub swinging-Stays :
      (d : ℕ) (tmp tail next : DescPtr)
      → w.pc u ≡ sending d (swinging tmp tail next)
      → IsSent k g w u d
      → At next.index (nodes g)
      → Stays k q g (access u (advance_loop q d (swinging tmp tail next) w.region) w)
  unfolding advance_loop
  swinging-Stays d tmp tail next at mine s =
      swap_tail-Stays tail _ (sending d (looking _)) s
        (λ r same size. (
          (
            mine.0,
            omega (arith, mine.1, size),
            ap (λ (f : ℕ → Desc). (f d).next.index) same ∙ mine.2,
            subst (λ (f : ℕ → Desc). In (d, payload (f d)) w.called) (sym same) mine.3,
          ),
          tt,
        ))
        (λ r same.
          own_still safe u d (swinging tmp tail next) (looking _) r at
            (ap (λ (f : ℕ → Desc). payload (f d)) same))

  pub finishing-Stays :
      (d : ℕ) (tail tmp : DescPtr)
      → w.pc u ≡ finishing d tail tmp
      → At d (nodes g)
      → d < w.region.ndescs
      → Stays k q g (access u (advance q (finishing d tail tmp) w.region) w)
  unfolding advance
  finishing-Stays d tail tmp at s inside =
      let fits : d ≡ d % 2 ^ 16 = omega (arith, inside, safe.small) in
      swap_tail-Stays tail (record tmp { index = desc_to_index d; count = next_count tail.count })
        idle (subst (λ i. At i (nodes g)) fits s) (λ r same size. tt)
        (λ r same. own_none safe u (finishing d tail tmp) idle r at (λ e h. h))

  -- The thread's own descriptor takes the color of the loaded link.
  module _ (d : ℕ) (tail next : DescPtr) (mine : IsSent k g w u d) (link : IsLink k g w next) where
    tainted : Region
    tainted = write_next d (record ((w.region.desc d).next) { color = next.color }) w.region

    tainted-Touches : Touches safe u tainted
    unfolding tainted
    tainted-Touches = record {
      size = refl;
      head = refl;
      tail = safe.tail;
      ranged = λ i.
          elim (ℕ_discrete d i)
            as (λ e.
              InRange
                (ite e
                  (record (w.region.desc d) {
                    next = record ((w.region.desc d).next) { color = next.color };
                  })
                  (w.region.desc i)).next) [
                    | yes e ↦ record {
                      index = (safe.ranged d).index;
                      count = (safe.ranged d).count;
                      color = link.0.color;
                    }
                    | no other ↦ safe.ranged i
                  ];
      same = λ a other.
          update_other ℕ_discrete w.region.desc d a _
            (λ e. other (subst (λ x. g.holder x ≡ sender u) e mine.0));
    }

    pub tainting-Stays :
        w.pc u ≡ sending d (tainting tail next)
        → At tail.index (nodes g)
        → next.index ≡ bad_index
        → Stays k q g (access u (advance_loop q d (tainting tail next) w.region) w)
    unfolding advance_loop tainted
    tainting-Stays at s last =
        let plain : not (is_negative next.color) ≡ true = ground (arith, link.1, safe.plain) in
        let now = update_self ℕ_discrete w.region.desc d (record (w.region.desc d) {
          next = record ((w.region.desc d).next) { color = next.color };
        }) in
        rw plain (
          goes-Stays safe u tainted (sending d (linking tail next _)) tainted-Touches
            (
              (
                mine.0,
                mine.1,
                ap (λ (x : Desc). x.next.index) now ∙ mine.2,
                subst (λ (x : Desc). In (d, payload x) w.called) (sym now) mine.3,
              ),
              (
                s,
                link.0,
                last,
                record { index = omega arith; count = omega arith; color = link.0.color },
                omega (arith, mine.1, safe.small),
                link.1,
                ap (λ (x : Desc). x.next.color) now ∙ link.1,
              ),
            )
            (own_still safe u d (tainting tail next) (linking tail next _) tainted at
              (ap payload now)))
