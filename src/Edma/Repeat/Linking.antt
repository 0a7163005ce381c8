-- ===== src/Edma/Repeat/Linking.antt =====
-- The chain of PSETs that `edma3_start_xfer_multiple` and
-- `edma3_start_xfer_multiple_selfchaining` link.
use memif_user_release.Base.{
  ℕ, zero, suc, ◌+◌, ◌-◌, ◌%◌, ◌^◌, ◌≡◌, ◌≢◌, ◌<◌, ◌≤◌, ◌∙◌, refl, sym, ap, subst, Bool, true,
  false, not, ◌&&◌, ◌||◌, ◌==◌, ltb, leb, lt→ltb, List, [], ◌∷◌, length, update_self, update_other,
  ℕ_discrete, arith,
}
use memif_user_release.Region.Run.{ok, Code, Yields, yields, then-Yields}
use memif_user_release.Edma.{Pset, Drv}
use memif_user_release.Edma.Channel.{Registers, get_param_phys}
use memif_user_release.Edma.Channel.Links.{IsMapped}
use memif_user_release.Edma.Gather.{with_link}
use memif_user_release.Edma.Gather.Documented.{View}
use memif_user_release.Edma.Repeat.{link_rounds}
use memif_user_release.Edma.Repeat.Documented.{Account, Same, Grantor}

-- The requests granted, in order, channels that were not held.
abbrev pub Granted : (before : ℕ → Bool) → List ℕ → (now : ℕ → Bool) → Type 0
Granted before [] now = now ≡ before
Granted before (c ∷ cs) now = (before c ≡ false) × Granted (λ x. c == x || before x) cs now

pub apart_of : (h : ℕ → Bool) (a c : ℕ) → h a ≡ true → h c ≡ false → a ≢ c
apart_of h a c yes_a no_c e = cc

module _ {S : Type 0} {v : View S} {acc : Account S} {d : Drv S}
    {get_param : ℕ → S → Bool × Pset × S} {addr : ℕ → ℕ} (laws : Grantor v acc d get_param addr)
    (r : Registers) (mapped : IsMapped r) where
  -- The identifier of a channel's PSET, as links hold it.
  abbrev pub id_of : ℕ → ℕ
  id_of c = (addr c + r.modulus - r.virt + r.phys) % r.modulus % 2 ^ 16

  pub get_param_phys-Same :
      (c : ℕ) (s : S)
      → Yields (λ a t. (a % 2 ^ 16 ≡ id_of c) × Same v acc s t) (get_param_phys d r c s)
  unfolding get_param_phys
  get_param_phys-Same c s =
      let user : ltb r.virt 0xc0000000 ≡ true = lt→ltb _ _ mapped.user in
      let dead : not (ltb (addr c) r.virt && leb (r.virt + 0x8000) (addr c)) ≡ true =
        ground arith in
      let on_bus : not (r.phys == 0) ≡ true = ground (arith, mapped.phys) in
      let above : ltb r.phys r.virt ≡ true = lt→ltb _ _ mapped.above in
      rw (user, laws.addr_done c s, laws.addr_eq c s, dead, on_bus, above)
        (yields (refl, laws.addr_same c s))

  -- From channel `a` on, each PSET links to the next, and the last has the null link.
  -- Beside their links the PSETs are `pieces`, from `i` on.
  abbrev pub Chains : (pieces : ℕ → Pset) → (i : ℕ) → (ℕ → Pset) → ℕ → List ℕ → Type 0
  Chains pieces i m a [] = m a ≡ with_link 0xffff (pieces i)
  Chains pieces i m a (c ∷ cs) =
      (m a ≡ with_link (id_of c) (pieces i)) × Chains pieces (suc i) m c cs

  -- The same, for PSETs that `P` describes.
  abbrev pub Chained : (P : ℕ → Pset → Type 0) → (i : ℕ) → (m : ℕ → Pset) → ℕ → List ℕ → Type 0
  Chained P i m a [] = P i (m a) × ((m a).link_addr ≡ 0xffff)
  Chained P i m a (c ∷ cs) = P i (m a) × ((m a).link_addr ≡ id_of c) × Chained P (suc i) m c cs

  pub Chains-Chained :
      (P : ℕ → Pset → Type 0) (pieces m : ℕ → Pset)
      → ((i l : ℕ) → P i (with_link l (pieces i)))
      → (i a : ℕ) (cs : List ℕ) → Chains pieces i m a cs
      → Chained P i m a cs
  Chains-Chained P pieces m good i a [] h =
      (subst (P i) (sym h) (good i 0xffff), ap (λ p. p.link_addr) h)
  Chains-Chained P pieces m good i a (c ∷ cs) h = (
    subst (P i) (sym h.0) (good i (id_of c)),
    ap (λ p. p.link_addr) h.0,
    Chains-Chained P pieces m good (suc i) c cs h.1,
  )

  record Extended (p q : Pset) (prev c : ℕ) (s t : S) : Type 0 where
    new : acc.held s c ≡ false
    holds : acc.held t ≡ (λ x. c == x || acc.held s x)
    at_prev : v.psets t prev ≡ with_link (id_of c) p
    at_new : v.psets t c ≡ with_link 0xffff q
    others : (a : ℕ) → a ≢ c → a ≢ prev → v.psets t a ≡ v.psets s a
    started : v.launched t ≡ v.launched s
    room : acc.room s d.link_channel ≡ suc (acc.room t d.link_channel)

  pub record IsLinked (pieces : ℕ → Pset) (i prev left : ℕ) (cs : List ℕ) (s t : S) : Type 0 where
    pub count : length cs ≡ left
    pub granted : Granted (acc.held s) cs (acc.held t)
    pub chain : Chains pieces i (v.psets t) prev cs
    pub others : (a : ℕ) → acc.held s a ≡ true → a ≢ prev → v.psets t a ≡ v.psets s a
    pub started : v.launched t ≡ v.launched s

  -- One more.
  IsLinked-suc :
      (pieces : ℕ → Pset) (i prev c left : ℕ) (cs : List ℕ) (s t u : S)
      → acc.held s prev ≡ true
      → Extended (pieces i) (pieces (suc i)) prev c s t
      → IsLinked pieces (suc i) c left cs t u
      → IsLinked pieces i prev (suc left) (c ∷ cs) s u
  IsLinked-suc pieces i prev c left cs s t u mine e rest =
      let kept : (a : ℕ) → acc.held s a ≡ true → acc.held t a ≡ true =
        λ a h. ap (λ x. x a) e.holds ∙ ground (arith, h) in
      record {
        count = ap suc rest.count;
        granted = (e.new, subst (λ x. Granted x cs (acc.held u)) e.holds rest.granted);
        chain = (
          rest.others prev (kept prev mine) (apart_of (acc.held s) prev c mine e.new) ∙ e.at_prev,
          rest.chain,
        );
        others = λ a h ne.
            let other = apart_of (acc.held s) a c h e.new in
            rest.others a (kept a h) other ∙ e.others a other ne;
        started = rest.started ∙ e.started;
      }

  module _ (p q : Pset) (next : Pset → Pset) (prev tcc : ℕ) (s : S)
      (room : 0 < acc.room s d.link_channel) where
    abbrev channel : ℕ
    channel = (d.request_channel d.link_channel tcc s).1

    abbrev loaded : Bool × Pset × S
    loaded = get_param prev (d.request_channel d.link_channel tcc s).3

    abbrev linked : ℕ → S → S
    linked a t =
        (d.set_param channel (next loaded.1)
          (d.set_param prev (with_link (a % 2 ^ 16) loaded.1) t).1).1

    loaded-eq :
        acc.held s prev ≡ true → v.psets s prev ≡ with_link 0xffff p → loaded.1 ≡ with_link 0xffff p
    loaded-eq mine at =
        laws.load_eq prev (d.request_channel d.link_channel tcc s).3
        ∙ laws.request_psets d.link_channel tcc prev s room (λ e.
          apart_of (acc.held s) prev channel mine (laws.request_new d.link_channel tcc s room)
            (sym e))
        ∙ at

    linked-Extended :
        (a : ℕ) (t : S)
        → acc.held s prev ≡ true
        → v.psets s prev ≡ with_link 0xffff p
        → a % 2 ^ 16 ≡ id_of channel
        → Same v acc loaded.2 t
        → next (with_link 0xffff p) ≡ with_link 0xffff q
        → Extended p q prev channel s (linked a t)
    linked-Extended a t mine at e same continues =
        let got = d.request_channel d.link_channel tcc s in
        let was = laws.load_same prev got.3 in
        let y = with_link (a % 2 ^ 16) loaded.1 in
        let t1 = (d.set_param prev y t).1 in
        let z = next loaded.1 in
        let new = laws.request_new d.link_channel tcc s room in
        let apart = apart_of (acc.held s) prev channel mine new in
        let is = loaded-eq mine at in
        record {
          new = new;
          holds =
              laws.set_held channel z t1
              ∙ laws.set_held prev y t
              ∙ same.2
              ∙ was.2
              ∙ laws.request_held d.link_channel tcc s room;
          at_prev =
              ap (λ m. m prev) (laws.set_psets channel z t1)
              ∙ update_other ℕ_discrete (v.psets t1) channel prev z (λ e. apart (sym e))
              ∙ ap (λ m. m prev) (laws.set_psets prev y t)
              ∙ update_self ℕ_discrete (v.psets t) prev y
              ∙ ap (λ x. with_link (a % 2 ^ 16) x) is
              ∙ ap (λ x. with_link x p) e;
          at_new =
              ap (λ m. m channel) (laws.set_psets channel z t1)
              ∙ update_self ℕ_discrete (v.psets t1) channel z
              ∙ ap next is
              ∙ continues;
          others = λ x ne ne'.
              ap (λ m. m x) (laws.set_psets channel z t1)
              ∙ update_other ℕ_discrete (v.psets t1) channel x z (λ e. ne (sym e))
              ∙ ap (λ m. m x) (laws.set_psets prev y t)
              ∙ update_other ℕ_discrete (v.psets t) prev x y (λ e. ne' (sym e))
              ∙ ap (λ m. m x) (same.0 ∙ was.0)
              ∙ laws.request_psets d.link_channel tcc x s room (λ e. ne (sym e));
          started =
              laws.set_launched channel z t1
              ∙ laws.set_launched prev y t
              ∙ same.1
              ∙ was.1
              ∙ laws.request_launched d.link_channel tcc s;
          room =
              laws.request_link tcc s room
              ∙ ap (λ f. suc (f d.link_channel))
                  (sym (laws.set_room channel z t1 ∙ laws.set_room prev y t ∙ same.3 ∙ was.3));
        }

  module _ (store : (S → Bool × S) → Code S (Unit {0})) (next : ℕ → Pset → Pset) (pieces : ℕ → Pset)
      (stores : (call : S → Bool × S) (s : S) → (call s).0 ≡ true → store call s ≡ ok tt (call s).1)
      (continues : (i : ℕ)
        → next i (with_link 0xffff (pieces i)) ≡ with_link 0xffff (pieces (suc i))) where
    pub link_rounds-IsLinked :
        (left i prev tcc : ℕ) (s : S)
        → left ≤ acc.room s d.link_channel
        → acc.held s prev ≡ true
        → v.psets s prev ≡ with_link 0xffff (pieces i)
        → Yields
            (λ out t. IsLinked pieces i prev left out.0 s t)
            (link_rounds d get_param r store next left i prev tcc s)
    unfolding link_rounds
    link_rounds-IsLinked zero i prev tcc s room mine at = yields (record {
      count = refl;
      granted = refl;
      chain = at;
      others = λ a h ne. refl;
      started = refl;
    })
    link_rounds-IsLinked (suc left) i prev tcc s room mine at =
        let got = d.request_channel d.link_channel tcc s in
        let p = pieces i in
        let some_room : 0 < acc.room s d.link_channel = omega arith in
        let q = pieces (suc i) in
        let was = loaded p q (next i) prev tcc s some_room in
        rw (laws.request_done d.link_channel tcc s some_room, laws.load_done prev got.3)
          (then-Yields (get_param_phys-Same got.1 was.2) λ a t (e, same).
            let ext =
              linked-Extended p q (next i) prev tcc s some_room a t mine at e same (continues i) in
            let u = linked p q (next i) prev tcc s some_room a t in
            let y = with_link (a % 2 ^ 16) was.1 in
            let z = next i was.1 in
            let t1 = (d.set_param prev y t).1 in
            rw (laws.set_done prev y t, stores (d.set_param got.1 z) t1 (laws.set_done got.1 z t1))
              (then-Yields
                (link_rounds-IsLinked left (suc i) got.1 got.2 u (omega (arith, room, ext.room))
                  (ap (λ h. h got.1) ext.holds ∙ ground arith) ext.at_new)
                λ out w rest.
                  yields (IsLinked-suc pieces i prev got.1 left out.0 s u w mine ext rest)))
