-- ===== src/Queue/Threads/Linking.antt =====
-- The access that links a descriptor behind the last node.
use mathlib.Core.List.{append_assoc}
use memif_user_release.Base.{
  ℕ, ◌≡◌, ◌≢◌, refl, ◌<◌, true, ◌∙◌, [], ◌∷◌, ◌++◌, All-append, update, update_self, update_other,
  ite, ℕ_discrete, arith, sym, inl, inr, subst, ap, ◌==◌, Bool-cases, ltb,
}
use memif_user_release.Desc.{DescPtr, Desc, raw}
use memif_user_release.Desc.Fields.{InRange, raw-injective}
use memif_user_release.Region.{QueueId, cas_next, write_next}
use memif_user_release.Region.Run.{yields}
use memif_user_release.Region.View.{payload}
use memif_user_release.Queue.Threads.{
  looking, linking, sending, finishing, World, advance_loop, access,
}
use memif_user_release.Queue.Threads.Chain.{node, Node, In, At, Leads, Leads-At}
use memif_user_release.Queue.Threads.Invariant.{Ghost, nodes, Sends, StandsAt, IsSent, IsSound}
use memif_user_release.Queue.Threads.Frame.{Keeps, Stands-update, Tracked-frame}
use memif_user_release.Queue.Threads.Moves.{Stays, load-Stays}
use memif_user_release.Queue.Threads.Chain.{
  Links, Leads-link, At-append, At-last, In-append, In-last,
}

module _ {k : ℕ} {q : QueueId} {g : Ghost} {w : World} (safe : IsSound k g w q) (u d : ℕ)
    (tail next tmp : DescPtr) (mine : IsSent k g w u d)
    (s : StandsAt k g w d (linking tail next tmp))
    (current : (w.region.desc tail.index).next ≡ next) where
  abbrev fresh : Node
  fresh = (d, payload (w.region.desc d))

  abbrev linked_ghost : Ghost
  linked_ghost = record g {
    sent = g.sent ++ fresh ∷ [];
    holder = update ℕ_discrete g.holder d node;
  }

  abbrev linked_world : World
  linked_world = record w {
    region = write_next tail.index tmp w.region;
    pc = update ℕ_discrete w.pc u (finishing d tail tmp);
  }

  node_t :
      (tail.index < w.region.ndescs)
      × (g.holder tail.index ≡ node)
      × ((w.region.desc tail.index).next.color ≡ k)
  node_t =
      Leads-At w.region.ndescs k g.holder w.region.desc tail.index (w.region.queue q).head.index
        (nodes g) safe.leads s.0

  apart : d ≢ tail.index
  apart e = cc (ap g.holder e, mine.0, node_t.1)

  -- All descriptors but the new one have the holder that they had.
  holder_kept : (a : ℕ) → d ≢ a → linked_ghost.holder a ≡ g.holder a
  holder_kept a other = update_other ℕ_discrete g.holder d a node other

  memory_kept : (a : ℕ) → tail.index ≢ a → linked_world.region.desc a ≡ w.region.desc a
  memory_kept a other = update_other ℕ_discrete w.region.desc tail.index a _ other

  memory_t : linked_world.region.desc tail.index ≡ record (w.region.desc tail.index) { next = tmp }
  memory_t = update_self ℕ_discrete w.region.desc tail.index _

  links :
      Links w.region.ndescs k g.holder linked_ghost.holder w.region.desc linked_world.region.desc
        tail.index fresh
  links =
      let still_d = memory_kept d (λ e. apart (sym e)) in
      record {
        last = ap (λ (x : DescPtr). x.index) current ∙ s.2;
        no_node = λ e. cc (e, mine.0);
        others = λ a other own. (
          holder_kept a (λ e. cc (ap g.holder e, mine.0, own)) ∙ own,
          memory_kept a (λ e. other (sym e)),
        );
        still = holder_kept tail.index apart ∙ node_t.1;
        kept = ap payload memory_t;
        names = ap (λ (x : Desc). x.next.index) memory_t ∙ s.4;
        tint = ap (λ (x : Desc). x.next.color) memory_t ∙ s.5;
        is_new = (
          mine.1,
          update_self ℕ_discrete g.holder d node,
          ap payload still_d,
          ap (λ (x : Desc). x.next.color) still_d ∙ s.6,
        );
        ends = ap (λ (x : Desc). x.next.index) still_d ∙ mine.2;
      }

  behind : nodes g ++ fresh ∷ [] ≡ nodes linked_ghost
  behind = append_assoc g.start g.sent (fresh ∷ [])

  linked-Keeps : Keeps k g w linked_ghost linked_world u
  linked-Keeps = record {
    size = refl;
    sending = λ v e other h. (
      holder_kept e (λ x. other (cc (ap g.holder x, mine.0, h))) ∙ h,
      memory_kept e (λ x. cc (ap g.holder x, node_t.1, h)),
    );
    grows = λ a at. subst (At a) behind (At-append a (nodes g) (fresh ∷ []) at);
    sent = λ c i. In-append c g.sent (fresh ∷ []) i;
    called = λ c i. i;
  }

  linked-IsSound :
      w.pc u ≡ sending d (linking tail next tmp) → IsSound k linked_ghost linked_world q
  linked-IsSound at = record {
    small = safe.small;
    plain = safe.plain;
    ranged = λ i.
        elim (ℕ_discrete tail.index i)
          as (λ e.
            InRange
              (ite e (record (w.region.desc tail.index) { next = tmp }) (w.region.desc i)).next) [
                | yes e ↦ s.3
                | no other ↦ safe.ranged i
              ];
    leads =
        subst
          (λ ns.
            Leads w.region.ndescs k linked_ghost.holder linked_world.region.desc
              (w.region.queue q).head.index ns)
          behind
          (Leads-link w.region.ndescs k g.holder linked_ghost.holder w.region.desc
            linked_world.region.desc safe.small tail.index fresh links (w.region.queue q).head.index
            (nodes g) safe.leads s.0);
    tail = linked-Keeps.grows _ safe.tail;
    stands =
        Stands-update k g w linked_ghost linked_world u (finishing d tail tmp) linked-Keeps refl
          safe.stands (subst (At d) behind (At-last fresh (nodes g)), mine.1);
    has = λ v e h.
        let (own, inside) = safe.has v e h in
        (holder_kept e (λ x. cc (ap g.holder x, mine.0, own)) ∙ own, inside);
    calls = All-append (λ c. In c w.called) g.sent (fresh ∷ []) safe.calls (mine.3, tt);
    tracked = λ c i.
        Tracked-frame k g w linked_ghost linked_world linked-Keeps (finishing d tail tmp) refl
          safe.stands
          (λ c' b same.
            let mine' : d ≡ c'.0 = subst (λ p. Sends p c'.0) at b in
            let kept : payload (w.region.desc d) ≡ c'.1 =
              ap (λ e. payload (w.region.desc e)) mine' ∙ same in
            let whole : fresh ≡ c' = λ i. (mine' i, kept i) in
            inl (subst (λ x. In x (g.sent ++ fresh ∷ [])) whole (In-last fresh g.sent)))
          c (safe.tracked c i);
  }

module _ {k : ℕ} {q : QueueId} {g : Ghost} {w : World} (safe : IsSound k g w q) (u : ℕ) where
  pub linking-Stays :
      (d : ℕ) (tail next tmp : DescPtr)
      → w.pc u ≡ sending d (linking tail next tmp)
      → IsSent k g w u d
      → StandsAt k g w d (linking tail next tmp)
      → Stays k q g (access u (advance_loop q d (linking tail next tmp) w.region) w)
  unfolding advance_loop cas_next
  linking-Stays d tail next tmp at mine s =
      let (lt, own, tint) =
        Leads-At w.region.ndescs k g.holder w.region.desc tail.index (w.region.queue q).head.index
          (nodes g) safe.leads s.0 in
      let inside : ltb tail.index w.region.ndescs ≡ true = ground (arith, lt) in
      elim (Bool-cases (raw (w.region.desc tail.index).next == raw next)) [
        | inl same ↦
            let equal : raw (w.region.desc tail.index).next ≡ raw next = ground (arith, same) in
            let current : (w.region.desc tail.index).next ≡ next =
              raw-injective _ next (safe.ranged tail.index) s.1 equal in
            rw (inside, same)
              (yields (
                linked_ghost safe u d tail next tmp mine s current,
                linked-IsSound safe u d tail next tmp mine s current at,
                refl,
                ((d, payload (w.region.desc d)) ∷ [], refl),
              ))
        | inr moved ↦
            rw (inside, moved)
              (load-Stays safe u d (linking tail next tmp) (looking tmp) at mine tt)
      ]
