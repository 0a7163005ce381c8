-- ===== src/Queue/Threads/Frame.antt =====
-- What one thread's access leaves alone: what the other threads rely on.
use memif_user_release.Base.{
  ℕ, ◌≡◌, ◌≢◌, ◌∙◌, update, update_other, ℕ_discrete, arith, sym, inl, inr, subst, ap, ite,
}
use memif_user_release.Desc.{DescPtr, Desc}
use memif_user_release.Region.View.{payload}
use memif_user_release.Queue.Threads.{
  Place, looking, reading, checking, tainting, linking, swinging, Pc, idle, sending, finishing,
  World,
}
use memif_user_release.Queue.Threads.Chain.{sender, Node, In, At}
use memif_user_release.Queue.Threads.Invariant.{
  Ghost, nodes, Sends, IsLink, StandsAt, Stands, Tracked,
}

module _ (k : ℕ) (g : Ghost) (w : World) (g' : Ghost) (w' : World) where
  -- What an access of thread `u` leaves alone.
  pub record Keeps (u : ℕ) : Type 0 where
    pub size : w'.region.ndescs ≡ w.region.ndescs
    pub sending :
        (v d : ℕ)
        → u ≢ v
        → g.holder d ≡ sender v
        → (g'.holder d ≡ sender v) × (w'.region.desc d ≡ w.region.desc d)
    pub grows : (a : ℕ) → At a (nodes g) → At a (nodes g')
    pub sent : (c : Node) → In c g.sent → In c g'.sent
    pub called : (c : Node) → In c w.called → In c w'.called

  module _ {u : ℕ} (kp : Keeps u) where
    IsLink-frame : (p : DescPtr) → IsLink k g w p → IsLink k g' w' p
    IsLink-frame p l = (l.0, l.1, λ more. kp.grows p.index (l.2 more))

    pub StandsAt-frame :
        (d : ℕ) (p : Place)
        → w'.region.desc d ≡ w.region.desc d
        → StandsAt k g w d p
        → StandsAt k g' w' d p
    StandsAt-frame d (looking tmp) same s = tt
    StandsAt-frame d (reading tmp tail) same s = kp.grows tail.index s
    StandsAt-frame d (checking tmp tail next) same s =
        (kp.grows tail.index s.0, IsLink-frame next s.1)
    StandsAt-frame d (tainting tail next) same s =
        (kp.grows tail.index s.0, IsLink-frame next s.1, s.2)
    StandsAt-frame d (linking tail next tmp) same s = (
      kp.grows tail.index s.0,
      s.1,
      s.2,
      s.3,
      s.4,
      s.5,
      ap (λ (x : Desc). x.next.color) same ∙ s.6,
    )
    StandsAt-frame d (swinging tmp tail next) same s = kp.grows next.index s

    pub Stands-frame : (v : ℕ) (p : Pc) → u ≢ v → Stands k g w v p → Stands k g' w' v p
    Stands-frame v idle other s = tt
    Stands-frame v (sending d place) other s =
        let (still, same) = kp.sending v d other s.0.0 in
        (
          (
            still,
            omega (arith, kp.size, s.0.1),
            ap (λ (x : Desc). x.next.index) same ∙ s.0.2,
            kp.called (d, payload (w'.region.desc d))
                (subst (λ (x : Desc). In (d, payload x) w.called) (sym same) s.0.3),
          ),
          StandsAt-frame d place same s.1,
        )
    Stands-frame v (finishing d tail tmp) other s = (kp.grows d s.0, omega (arith, kp.size, s.1))

    pub Sends-held : (v d : ℕ) (p : Pc) → Stands k g w v p → Sends p d → g.holder d ≡ sender v
    Sends-held v d idle s b = absurd b
    Sends-held v d (sending e place) s b = subst (λ x. g.holder x ≡ sender v) b s.0.0
    Sends-held v d (finishing e tail tmp) s b = absurd b

    -- The others' descriptors are still on their way; the thread's own is where its new place says.
    pub Tracked-frame :
        (p : Pc)
        → w'.pc ≡ update ℕ_discrete w.pc u p
        → ((v : ℕ) → Stands k g w v (w.pc v))
        → ((c : Node) → Sends (w.pc u) c.0 → payload (w.region.desc c.0) ≡ c.1 → Tracked k g' w' c)
        → (c : Node) → Tracked k g w c
        → Tracked k g' w' c
    Tracked-frame p moved s own c (inl i) = inl (kp.sent c i)
    Tracked-frame p moved s own c (inr (v, b, same)) = elim (ℕ_discrete u v) [
      | yes e ↦ own c (subst (λ x. Sends (w.pc x) c.0) (sym e) b) same
      | no other ↦
          let away : w'.pc v ≡ w.pc v =
            ap (λ f. f v) moved ∙ update_other ℕ_discrete w.pc u v p other in
          inr (
            v,
            subst (λ x. Sends x c.0) (sym away) b,
            ap payload (kp.sending v c.0 other (Sends-held v c.0 (w.pc v) (s v) b)).1 ∙ same,
          )
    ]

-- A thread goes to where its new place allows it to stand, and the others stand as they did.
pub Stands-update :
    (k : ℕ) (g : Ghost) (w : World) (g' : Ghost) (w' : World) (u : ℕ) (p : Pc)
    → Keeps k g w g' w' u
    → w'.pc ≡ update ℕ_discrete w.pc u p
    → ((v : ℕ) → Stands k g w v (w.pc v))
    → Stands k g' w' u p
    → (v : ℕ) → Stands k g' w' v (w'.pc v)
Stands-update k g w g' w' u p kp moved s new v =
    subst (λ f. Stands k g' w' v (f v)) (sym moved)
      (elim (ℕ_discrete u v) as (λ d. Stands k g' w' v (ite d p (w.pc v))) [
        | yes e ↦ subst (λ i. Stands k g' w' i p) e new
        | no other ↦ Stands-frame k g w g' w' kp v (w.pc v) other (s v)
      ])
