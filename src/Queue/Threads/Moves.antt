-- ===== src/Queue/Threads/Moves.antt =====
-- The accesses of a thread that link nothing.
use mathlib.Core.List.{append-nil}
use memif_user_release.Base.{
  ℕ, ◌≡◌, ◌≢◌, refl, true, ◌∙◌, List, [], ◌++◌, update, update_self, ℕ_discrete, arith, sym, inl,
  inr, subst, ◌==◌, Bool-cases, ltb,
}
use memif_user_release.Desc.{DescPtr, bad_index, raw}
use memif_user_release.Desc.Fields.{InRange}
use memif_user_release.Region.{QueueId, Region}
use memif_user_release.Region.Run.{Outcome, ok, Yields, yields}
use memif_user_release.Region.View.{payload}
use memif_user_release.Queue.Threads.{
  Place, looking, reading, checking, tainting, swinging, Pc, sending, World, advance_loop, access,
}
use memif_user_release.Queue.Threads.Chain.{
  Holder, node, sender, Node, At, Leads, Leads-frame, Leads-At, next-At,
}
use memif_user_release.Queue.Threads.Invariant.{
  Ghost, nodes, Sends, IsLink, StandsAt, IsSent, Stands, Tracked, IsSound,
}
use memif_user_release.Queue.Threads.Frame.{Keeps, Stands-update, Tracked-frame}

-- A run ends soundly, and what was sent before is still in front.
abbrev pub Stays : ℕ → QueueId → Ghost → Outcome World (Unit {0}) → Type 0
Stays k q g = Yields λ _ w'.
    (g' : Ghost) × IsSound k g' w' q
    × (g'.start ≡ g.start)
    × ((more : List Node) × (g'.sent ≡ g.sent ++ more))

pub Stays-same :
    {k : ℕ} {q : QueueId} {g : Ghost} {w : World} → IsSound k g w q → Stays k q g (ok tt w)
Stays-same {g} s = yields (g, s, refl, ([], sym (append-nil g.sent)))

module _ {k : ℕ} {q : QueueId} {g : Ghost} {w : World} (safe : IsSound k g w q) (u : ℕ) where
  -- What an access to the tail, or to the thread's own descriptor, leaves.
  pub record Touches (r : Region) : Type 0 where
    pub size : r.ndescs ≡ w.region.ndescs
    pub head : (r.queue q).head ≡ (w.region.queue q).head
    pub tail : At (r.queue q).tail.index (nodes g)
    pub ranged : (i : ℕ) → InRange (r.desc i).next
    pub same : (a : ℕ) → g.holder a ≢ sender u → r.desc a ≡ w.region.desc a

  pub untouched : Touches w.region
  untouched = record {
    size = refl;
    head = refl;
    tail = safe.tail;
    ranged = safe.ranged;
    same = λ a other. refl;
  }

  abbrev pub goes : Region → Pc → World
  goes r p = record w { region = r; pc = update ℕ_discrete w.pc u p }

  pub Leads-in :
      (r : Region) (h : ℕ → Holder)
      → ((a : ℕ) → g.holder a ≡ node → (h a ≡ node) × (r.desc a ≡ w.region.desc a))
      → r.ndescs ≡ w.region.ndescs
      → (r.queue q).head ≡ (w.region.queue q).head
      → Leads r.ndescs k h r.desc (r.queue q).head.index (nodes g)
  Leads-in r h same size head =
      subst (λ n. Leads n k h r.desc (r.queue q).head.index (nodes g)) (sym size)
        (subst (λ (x : DescPtr). Leads w.region.ndescs k h r.desc x.index (nodes g)) (sym head)
          (Leads-frame w.region.ndescs k g.holder h w.region.desc r.desc
            (w.region.queue q).head.index (nodes g) same safe.leads))

  Keeps-goes : (r : Region) (p : Pc) → Touches r → Keeps k g w g (goes r p) u
  Keeps-goes r p t = record {
    size = t.size;
    sending = λ v d other h. (h, t.same d (λ e. other (ground (arith, e, h))));
    grows = λ a at. at;
    sent = λ c i. i;
    called = λ c i. i;
  }

  pub goes-Stays :
      (r : Region) (p : Pc)
      → Touches r
      → Stands k g (goes r p) u p
      → ((c : Node)
          → Sends (w.pc u) c.0
          → payload (w.region.desc c.0) ≡ c.1
          → Tracked k g (goes r p) c)
      → Stays k q g (ok tt (goes r p))
  goes-Stays r p t place own = Stays-same (record {
    small = omega (arith, safe.small, t.size);
    plain = safe.plain;
    ranged = t.ranged;
    leads = Leads-in r g.holder (λ a own. (own, t.same a (λ e. cc (own, e)))) t.size t.head;
    tail = t.tail;
    stands = Stands-update k g w g (goes r p) u p (Keeps-goes r p t) refl safe.stands place;
    has = λ v d h. (((safe.has v d h).0), omega (arith, safe.has v d h, t.size));
    calls = safe.calls;
    tracked = λ c i.
        Tracked-frame k g w g (goes r p) (Keeps-goes r p t) p refl safe.stands own c
          (safe.tracked c i);
  })

  -- The thread still has its descriptor to send.
  pub own_still :
      (d : ℕ) (place place' : Place) (r : Region)
      → w.pc u ≡ sending d place
      → payload (r.desc d) ≡ payload (w.region.desc d)
      → (c : Node) → Sends (w.pc u) c.0
      → payload (w.region.desc c.0) ≡ c.1
      → Tracked k g (goes r (sending d place')) c
  own_still d place place' r at kept c b same =
      let mine : d ≡ c.0 = subst (λ p. Sends p c.0) at b in
      inr (
        u,
        subst (λ p. Sends p c.0) (sym (update_self ℕ_discrete w.pc u (sending d place'))) mine,
        subst (λ e. payload (r.desc e) ≡ payload (w.region.desc e)) mine kept ∙ same,
      )

  -- It has none.
  pub own_none :
      (p p' : Pc) (r : Region)
      → w.pc u ≡ p
      → ((d : ℕ) → ¬ Sends p d)
      → (c : Node) → Sends (w.pc u) c.0
      → payload (w.region.desc c.0) ≡ c.1
      → Tracked k g (goes r p') c
  own_none p p' r at nothing c b same = absurd (nothing c.0 (subst (λ x. Sends x c.0) at b))

  -- A step that leaves memory as it is.
  pub load-Stays :
      (d : ℕ) (place place' : Place)
      → w.pc u ≡ sending d place
      → IsSent k g w u d
      → StandsAt k g w d place'
      → Stays k q g (ok tt (goes w.region (sending d place')))
  load-Stays d place place' at mine s =
      goes-Stays w.region (sending d place') untouched (mine, s)
        (own_still d place place' w.region at refl)

  module _ (d : ℕ) (mine : IsSent k g w u d) where
    pub looking-Stays :
        (tmp : DescPtr)
        → w.pc u ≡ sending d (looking tmp)
        → Stays k q g (access u (advance_loop q d (looking tmp) w.region) w)
    unfolding advance_loop
    looking-Stays tmp at =
        load-Stays d (looking tmp) (reading tmp (w.region.queue q).tail) at mine safe.tail

    pub reading-Stays :
        (tmp tail : DescPtr)
        → w.pc u ≡ sending d (reading tmp tail)
        → At tail.index (nodes g)
        → Stays k q g (access u (advance_loop q d (reading tmp tail) w.region) w)
    unfolding advance_loop
    reading-Stays tmp tail at s =
        let n = w.region.ndescs in
        let i = (w.region.queue q).head.index in
        let (lt, own, tint) =
          Leads-At n k g.holder w.region.desc tail.index i (nodes g) safe.leads s in
        let inside : ltb tail.index n ≡ true = ground (arith, lt) in
        rw inside (
          load-Stays d (reading tmp tail) (checking tmp tail (w.region.desc tail.index).next) at
            mine
            (
              s,
              (
                safe.ranged tail.index,
                tint,
                next-At n k g.holder w.region.desc tail.index i (nodes g) safe.leads s,
              ),
            ))

    pub checking-Stays :
        (tmp tail next : DescPtr)
        → w.pc u ≡ sending d (checking tmp tail next)
        → At tail.index (nodes g)
        → IsLink k g w next
        → Stays k q g (access u (advance_loop q d (checking tmp tail next) w.region) w)
    unfolding advance_loop
    checking-Stays tmp tail next at s link =
        elim (Bool-cases (raw tail == raw (w.region.queue q).tail)) [
          | inl same ↦ elim (Bool-cases (next.index == bad_index)) [
            | inl last ↦
                rw (same, last)
                  (load-Stays d (checking tmp tail next) (tainting tail next) at mine
                    (s, link, ground (arith, last)))
            | inr more ↦
                rw (same, more)
                  (load-Stays d (checking tmp tail next) (swinging tmp tail next) at mine
                    (link.2 (ground (arith, more))))
          ]
          | inr moved ↦ rw moved (load-Stays d (checking tmp tail next) (looking tmp) at mine tt)
        ]
