-- ===== src/Queue/Threads/Begin.antt =====
-- A thread begins to send a descriptor that it has.
use mathlib.Core.List.{append-nil}
use memif_user_release.Base.{
  ℕ, ◌≡◌, ◌≢◌, ◌<◌, refl, true, false, List, [], ◌∷◌, ◌∙◌, sym, ap, subst, arith, inl, inr, All,
  update, update_self, update_other, ℕ_discrete, ite,
}
use memif_user_release.Desc.{DescPtr, Desc, bad_index}
use memif_user_release.Desc.Fields.{InRange}
use memif_user_release.Region.{QueueId}
use memif_user_release.Region.Run.{ok, yields}
use memif_user_release.Region.View.{payload}
use memif_user_release.Queue.Threads.{
  looking, Pc, idle, sending, finishing, World, is_idle, start_enqueue,
}
use memif_user_release.Queue.Threads.Chain.{by, sender, Node, In}
use memif_user_release.Queue.Threads.Invariant.{Ghost, Sends, IsSent, Tracked, IsSound}
use memif_user_release.Queue.Threads.Frame.{Keeps, Stands-update, Tracked-frame}
use memif_user_release.Queue.Threads.Moves.{Stays, Leads-in}

All-weaken :
    {P Q : Node → Type 0} → ((c : Node) → P c → Q c) → (cs : List Node) → All P cs → All Q cs
All-weaken f [] h = tt
All-weaken f (c ∷ cs) h = (f c h.0, All-weaken f cs h.1)

idle-Sends : (p : Pc) → is_idle p ≡ true → (d : ℕ) → ¬ Sends p d
idle-Sends idle e d b = b
idle-Sends (sending desc place) e d b = cc
idle-Sends (finishing desc tail tmp) e d b = b

module _ {k : ℕ} {q : QueueId} {g : Ghost} {w : World} (safe : IsSound k g w q) (u : ℕ) where
  -- The thread begins to send a descriptor that it has.
  module _ (junk : DescPtr) (d : ℕ) (ready : is_idle (w.pc u) ≡ true)
      (mine : w.has u d ≡ true) where
    begun_ghost : Ghost
    begun_ghost = record g { holder = update ℕ_discrete g.holder d (sender u) }

    holder_kept : (a : ℕ) → d ≢ a → begun_ghost.holder a ≡ g.holder a
    unfolding begun_ghost
    holder_kept a other = update_other ℕ_discrete g.holder d a (sender u) other

    memory_kept : (a : ℕ) → d ≢ a → (start_enqueue u junk d w).region.desc a ≡ w.region.desc a
    memory_kept a other = update_other ℕ_discrete w.region.desc d a _ other

    memory_d :
        (start_enqueue u junk d w).region.desc d
        ≡ record (w.region.desc d) { next = record ((w.region.desc d).next) { index = bad_index } }
    memory_d = update_self ℕ_discrete w.region.desc d _

    begun-Keeps : Keeps k g w begun_ghost (start_enqueue u junk d w) u
    unfolding begun_ghost
    begun-Keeps =
        let own = (safe.has u d mine).0 in
        record {
          size = refl;
          sending = λ v e other h. (
            holder_kept e (λ x. cc (ap g.holder x, own, h)) ∙ h,
            memory_kept e (λ x. cc (ap g.holder x, own, h)),
          );
          grows = λ a at. at;
          sent = λ c i. i;
          called = λ c i. inr i;
        }

    begun-IsSent : IsSent k begun_ghost (start_enqueue u junk d w) u d
    unfolding begun_ghost
    begun-IsSent = (
      update_self ℕ_discrete g.holder d (sender u),
      (safe.has u d mine).1,
      ap (λ (x : Desc). x.next.index) memory_d,
      inl (λ i. (d, payload (memory_d i))),
    )

    -- What was on its way is so still, and the new one is.
    begun-Tracked :
        (c : Node)
        → In c (start_enqueue u junk d w).called
        → Tracked k begun_ghost (start_enqueue u junk d w) c
    unfolding begun_ghost
    begun-Tracked c (inl e) = inr (
      u,
      subst (λ p. Sends p c.0) (sym (update_self ℕ_discrete w.pc u (sending d (looking junk))))
          (ap (λ (x : Node). x.0) (sym e)),
      subst (λ (x : Node). payload ((start_enqueue u junk d w).region.desc x.0) ≡ x.1) (sym e)
          (ap payload memory_d),
    )
    begun-Tracked c (inr i) =
        Tracked-frame k g w begun_ghost (start_enqueue u junk d w) begun-Keeps
          (sending d (looking junk)) refl safe.stands
          (λ c' b same. absurd (idle-Sends (w.pc u) ready c'.0 b)) c (safe.tracked c i)

    has_kept :
        (v e : ℕ)
        → (start_enqueue u junk d w).has v e ≡ true
        → (begun_ghost.holder e ≡ by v) × (e < w.region.ndescs)
    unfolding begun_ghost
    has_kept v e =
        let own = (safe.has u d mine).0 in
        elim (ℕ_discrete u v)
          as (λ x.
            ite x (update ℕ_discrete (w.has u) d false) (w.has v) e ≡ true
            → (begun_ghost.holder e ≡ by v) × (e < w.region.ndescs)) [
              | yes same ↦
                  elim (ℕ_discrete d e)
                    as (λ y.
                      ite y false (w.has u e) ≡ true
                      → (begun_ghost.holder e ≡ by v) × (e < w.region.ndescs)) [
                        | yes it ↦ λ h. cc
                        | no other ↦ λ h.
                            let (own', inside) = safe.has u e h in
                            (holder_kept e other ∙ own' ∙ ap by same, inside)
                      ]
              | no away ↦ λ h.
                  let (own', inside) = safe.has v e h in
                  (holder_kept e (λ x. away (cc (ap g.holder x, own, own'))) ∙ own', inside)
            ]

    begun-IsSound : IsSound k begun_ghost (start_enqueue u junk d w) q
    unfolding begun_ghost
    begun-IsSound =
        let own = (safe.has u d mine).0 in
        record {
          small = safe.small;
          plain = safe.plain;
          ranged = λ i.
              elim (ℕ_discrete d i)
                as (λ e.
                  InRange
                    (ite e
                      (record (w.region.desc d) {
                        next = record ((w.region.desc d).next) { index = bad_index };
                      })
                      (w.region.desc i)).next) [
                        | yes e ↦ record {
                          index = omega arith;
                          count = (safe.ranged d).count;
                          color = (safe.ranged d).color;
                        }
                        | no other ↦ safe.ranged i
                      ];
          leads =
              Leads-in safe u (start_enqueue u junk d w).region begun_ghost.holder
                (λ a h. (
                  holder_kept a (λ x. cc (ap g.holder x, own, h)) ∙ h,
                  memory_kept a (λ x. cc (ap g.holder x, own, h)),
                ))
                refl refl;
          tail = safe.tail;
          stands =
              Stands-update k g w begun_ghost (start_enqueue u junk d w) u
                (sending d (looking junk)) begun-Keeps refl safe.stands (begun-IsSent, tt);
          has = has_kept;
          calls = All-weaken (λ c i. inr i) g.sent safe.calls;
          tracked = begun-Tracked;
        }

    pub begun-Stays : Stays k q g (ok tt (start_enqueue u junk d w))
    unfolding begun_ghost
    begun-Stays = yields (begun_ghost, begun-IsSound, refl, ([], sym (append-nil g.sent)))
