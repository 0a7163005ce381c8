-- ===== src/Queue/Threads/Write.antt =====
-- What a thread writes to a descriptor that it has.
use memif_user_release.Base.{
  ℕ, ◌+◌, ◌≡◌, ◌≢◌, refl, true, ◌∙◌, sym, ap, arith, inl, inr, update_other, ℕ_discrete, ite,
}
use memif_user_release.Desc.{Desc}
use memif_user_release.Desc.Fields.{InRange}
use memif_user_release.Region.{QueueId, write_desc}
use memif_user_release.Region.Run.{ok}
use memif_user_release.Region.View.{payload}
use memif_user_release.Queue.Threads.{World}
use memif_user_release.Queue.Threads.Chain.{by, Node}
use memif_user_release.Queue.Threads.Invariant.{Ghost, Tracked, IsSound}
use memif_user_release.Queue.Threads.Frame.{Keeps, Stands-frame, Sends-held}
use memif_user_release.Queue.Threads.Moves.{Stays, Stays-same, Leads-in}

module _ {k : ℕ} {q : QueueId} {g : Ghost} {w : World} (safe : IsSound k g w q) (u : ℕ) where
  -- What a thread writes to its own descriptor.
  module _ (d : ℕ) (body : Desc) (narrow : InRange body.next) (mine : w.has u d ≡ true) where
    pub written : World
    written = record w { region = write_desc d body w.region }

    other_kept : (a : ℕ) → g.holder a ≢ by u → written.region.desc a ≡ w.region.desc a
    unfolding written
    other_kept a other =
        update_other ℕ_discrete w.region.desc d a body
          (λ x. other (ap g.holder (sym x) ∙ (safe.has u d mine).0))

    written-Keeps : (v : ℕ) → Keeps k g w g written v
    unfolding written
    written-Keeps v = record {
      size = refl;
      sending = λ v e away h. (h, other_kept e (λ x. cc (x, h)));
      grows = λ a at. at;
      sent = λ c i. i;
      called = λ c i. i;
    }

    written-Tracked : (c : Node) → Tracked k g w c → Tracked k g written c
    unfolding written
    written-Tracked c (inl i) = inl i
    written-Tracked c (inr (v, b, same)) =
        let held = Sends-held k g w g written (written-Keeps v) v c.0 (w.pc v) (safe.stands v) b in
        inr (v, b, ap payload (other_kept c.0 (λ x. cc (x, held))) ∙ same)

    written-IsSound : IsSound k g written q
    unfolding written
    written-IsSound = record {
      small = safe.small;
      plain = safe.plain;
      ranged = λ i. elim (ℕ_discrete d i) as (λ e. InRange (ite e body (w.region.desc i)).next) [
        | yes e ↦ narrow
        | no other ↦ safe.ranged i
      ];
      leads =
          Leads-in safe u written.region g.holder (λ a h. (h, other_kept a (λ x. cc (x, h)))) refl
            refl;
      tail = safe.tail;
      stands = λ v.
          Stands-frame k g w g written (written-Keeps (v + 1)) v (w.pc v) (omega arith)
            (safe.stands v);
      has = safe.has;
      calls = safe.calls;
      tracked = λ c i. written-Tracked c (safe.tracked c i);
    }

    pub written-Stays : Stays k q g (ok tt (record w { region = write_desc d body w.region }))
    unfolding written
    written-Stays = Stays-same written-IsSound
