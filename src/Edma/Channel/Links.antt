-- ===== src/Edma/Channel/Links.antt =====
-- The links that `edma3_allocate_channel_linked` keeps, and the range check of
-- `edma3_get_param_phys`.
use memif_user_release.Base.{
  ℕ, zero, suc, ◌+◌, ◌-◌, ◌%◌, ◌^◌, ◌<◌, ◌≡◌, ◌≢◌, ◌∙◌, refl, sym, ap, subst, true, not, ◌&&◌, none,
  ltb, leb, lt→ltb, ◌==◌, update, update_self, update_other, ℕ_discrete, arith,
}
use memif_user_release.Edma.{Drv, ChInfo}
use memif_user_release.Region.Run.{Yields, yields, then-Yields, Yields-mono}
use memif_user_release.Edma.Channel.{
  Registers, get_param_phys, keep_link, allocate_logic, allocate_channel_linked,
}

-- The registers are mapped below the kernel, above where they are on the bus.
pub record IsMapped (r : Registers) : Type 0 where
  pub user : r.virt < 0xc0000000
  pub phys : 0 < r.phys
  pub above : r.phys < r.virt

-- The driver as it is documented: it grants every request a channel that is not the wildcard, and
-- knows the address of each channel's PSET.
pub record Grants {S : Type 0} (d : Drv S) (addr : ℕ → ℕ) : Type 0 where
  pub malloc_done : (s : S) → (d.malloc s).0 ≡ true
  pub request_done : (chan tcc : ℕ) (s : S) → (d.request_channel chan tcc s).0 ≡ true
  pub channel : (chan tcc : ℕ) (s : S) → (d.request_channel chan tcc s).1 ≢ d.dma_channel_any
  pub code : (chan tcc : ℕ) (s : S) → (d.request_channel chan tcc s).2 ≢ d.tcc_any
  pub addr_done : (c : ℕ) (s : S) → (d.get_param_phys_addr c s).0 ≡ true
  pub addr_eq : (c : ℕ) (s : S) → (d.get_param_phys_addr c s).1 ≡ addr c

module _ {S : Type 0} {d : Drv S} {addr : ℕ → ℕ} (grants : Grants d addr) (r : Registers)
    (mapped : IsMapped r) where
  -- The address on the bus of a PSET.
  abbrev pub bus : ℕ → ℕ
  bus c = (addr c + r.modulus - r.virt + r.phys) % r.modulus

  -- `edma3_get_param_phys` returns the address moved from the mapping to the bus, whatever the
  -- driver says: no address is refused, in the mapped range or outside of it.
  pub get_param_phys-bus : (c : ℕ) (s : S) → Yields (λ a _. a ≡ bus c) (get_param_phys d r c s)
  unfolding get_param_phys
  get_param_phys-bus c s =
      let user : ltb r.virt 0xc0000000 ≡ true = lt→ltb _ _ mapped.user in
      let dead : not (ltb (addr c) r.virt && leb (r.virt + 0x8000) (addr c)) ≡ true =
        ground arith in
      let on_bus : not (r.phys == 0) ≡ true = ground (arith, mapped.phys) in
      let above : ltb r.phys r.virt ≡ true = lt→ltb _ _ mapped.above in
      rw (user, grants.addr_done c s, grants.addr_eq c s, dead, on_bus, above) (yields refl)

  -- The identifier of a channel's PSET, as links hold it.
  abbrev pub id : ℕ → ℕ
  id c = bus c % 2 ^ 16

  -- The first `i` logic channels have been linked.
  abbrev IsChain : ℕ → ChInfo → Type 0
  IsChain i c =
      (0 < i → c.link ≡ id (c.logic_chs 0))
      × ((j : ℕ) → suc j < i → c.links j ≡ id (c.logic_chs (suc j)))

  abbrev with_logic : ℕ → ℕ → ChInfo → ChInfo
  with_logic i x c = keep_link i (id x) (record c { logic_chs = update ℕ_discrete c.logic_chs i x })

  IsChain-suc : (i x : ℕ) (c : ChInfo) → IsChain i c → IsChain (suc i) (with_logic i x c)
  IsChain-suc zero x c h = (λ lt. ground arith, λ j lt. absurd (omega arith))
  IsChain-suc (suc i) x c h = (λ lt. ground (arith, h.0 (omega arith)), λ j lt. link j lt)
    where
      link :
          (j : ℕ)
          → suc j < suc (suc i)
          → (with_logic (suc i) x c).links j ≡ id ((with_logic (suc i) x c).logic_chs (suc j))
      link j lt = elim (ℕ_discrete i j) [
        | yes same ↦ ground arith
        | no other ↦
            update_other ℕ_discrete c.links i j _ other
            ∙ h.1 j (omega (arith, other))
            ∙ ap id (
                sym (
                  update_other ℕ_discrete c.logic_chs (suc i) (suc j) x
                    (λ e. other (omega (arith, e)))))
      ]

  -- What the loop leaves alone.
  abbrev SameBut : ChInfo → ChInfo → Type 0
  SameBut c c' =
      (c'.ch ≡ c.ch) × (c'.tcc ≡ c.tcc) × (c'.pset ≡ c.pset) × (c'.logic_cnt ≡ c.logic_cnt)

  SameBut-with_logic : (i x : ℕ) (c c' : ChInfo) → SameBut (with_logic i x c) c' → SameBut c c'
  SameBut-with_logic zero x c c' h = h
  SameBut-with_logic (suc i) x c c' h = h

  allocate_logic-IsChain :
      (left i tcc : ℕ) (c : ChInfo) (s : S)
      → IsChain i c
      → Yields (λ c' _. IsChain (i + left) c' × SameBut c c') (allocate_logic d r left i tcc c s)
  unfolding allocate_logic
  allocate_logic-IsChain zero i tcc c s h =
      yields (subst (λ n. IsChain n c) (omega arith) h, (refl, refl, refl, refl))
  allocate_logic-IsChain (suc left) i tcc c s h =
      let got = d.request_channel d.link_channel tcc s in
      rw (grants.request_done d.link_channel tcc s) (
        then-Yields (get_param_phys-bus got.1 got.3) λ a s1 e.
          subst
            (λ l.
              Yields (λ c' _. IsChain (i + suc left) c' × SameBut c c')
                (allocate_logic d r left (suc i) got.2
                  (keep_link i (l % 2 ^ 16)
                    (record c { logic_chs = update ℕ_discrete c.logic_chs i got.1 }))
                  s1))
            (sym e)
            (Yields-mono
              (allocate_logic-IsChain left (suc i) got.2 (with_logic i got.1 c) s1
                (IsChain-suc i got.1 c h))
              λ c' s2 (chain, same). (
                subst (λ n. IsChain n c') (omega arith) chain,
                SameBut-with_logic i got.1 c c' same,
              )))

  -- `edma3_allocate_channel_linked` with at least one logic channel, where the driver grants what
  -- it is asked for: none of its assertions fails. The channel's link is the identifier of the
  -- first logic channel's PSET, each logic channel's that of the next, and the last has the null
  -- link; nothing is preloaded.
  pub allocate-IsLinked :
      (junk : ChInfo) (logic_cnt : ℕ) (s : S)
      → 0 < logic_cnt
      → Yields
          (λ c _.
            (c.logic_cnt ≡ logic_cnt)
            × (c.pset ≡ none)
            × (c.link ≡ id (c.logic_chs 0))
            × ((j : ℕ) → suc j < logic_cnt → c.links j ≡ id (c.logic_chs (suc j)))
            × (c.links (logic_cnt - 1) ≡ 0xffff))
          (allocate_channel_linked d r junk logic_cnt s)
  unfolding allocate_channel_linked
  allocate-IsLinked junk logic_cnt s some_logic =
      let s1 = (d.malloc s).1 in
      let got = d.request_channel d.dma_channel_any d.tcc_any s1 in
      let no_code : not (got.2 == d.tcc_any) ≡ true =
        ground (arith, grants.code d.dma_channel_any d.tcc_any s1) in
      let no_channel : not (got.1 == d.dma_channel_any) ≡ true =
        ground (arith, grants.channel d.dma_channel_any d.tcc_any s1) in
      rw
        (
          grants.malloc_done s,
          grants.request_done d.dma_channel_any d.tcc_any s1,
          no_code,
          no_channel,
          grants.malloc_done got.3,
        )
        (then-Yields
          (allocate_logic-IsChain logic_cnt 0 d.tcc_any _ _
            (λ lt. absurd (omega arith), λ j lt. absurd (omega arith)))
          λ c s2 (chain, same). rw (lt→ltb 0 logic_cnt some_logic) (
            yields (
              same.3,
              same.2,
              chain.0 (omega arith),
              λ j lt.
                  update_other ℕ_discrete c.links (logic_cnt - 1) j 0xffff (λ e. omega (arith, e))
                  ∙ chain.1 j (omega arith),
              update_self ℕ_discrete c.links (logic_cnt - 1) 0xffff,
            )))
