-- ===== src/Edma/Channel.antt =====
-- Channels of libsmm/edma3.c: `edma3_get_param_phys`, `edma3_allocate_channel_linked` and
-- `edma3_free_channel`.
pub mod Links
use memif_user_release.Base.{
  ℕ, zero, suc, ◌+◌, ◌-◌, ◌%◌, ◌^◌, Bool, true, false, not, ◌&&◌, none, if◌then◌else◌, ltb, leb,
  ◌==◌, update, ℕ_discrete,
}
use memif_user_release.Region.Run.{Outcome, ok, bug, Code, pure, ◌>>=◌, ◌>>◌, assert}
use memif_user_release.Edma.{Drv, checked, ChInfo}

-- Where the registers of the controller are mapped, and two to the width of an unsigned long.
pub record Registers : Type 0 where
  pub virt : ℕ
  pub phys : ℕ
  pub modulus : ℕ

-- The link of logic channel `i`, kept with the channel before it.
abbrev pub keep_link : ℕ → ℕ → ChInfo → ChInfo
keep_link zero l c = record c { link = l }
keep_link (suc i) l c = record c { links = update ℕ_discrete c.links i l }

module _ {S : Type 0} (d : Drv S) where
  -- `EDMA3_DRV_getPaRAMPhyAddr`, with the assertion on its result.
  abbrev pub param_virt_addr : ℕ → Code S ℕ
  param_virt_addr c s =
      let (done, addr, s') = d.get_param_phys_addr c s in if done then ok addr s' else bug

  unfoldable pub get_param_phys : Registers → ℕ → Code S ℕ
  get_param_phys r chid = do
    assert (ltb r.virt 0xc0000000)
    param_virt ← param_virt_addr chid
    assert (not (ltb param_virt r.virt && leb (r.virt + 0x8000) param_virt))
    assert (not (r.phys == 0))
    assert (ltb r.phys r.virt)
    pure ((param_virt + r.modulus - r.virt + r.phys) % r.modulus)

  -- `EDMA3_DRV_requestChannel`; it passes out the channel and the completion code.
  abbrev pub request : (chan tcc : ℕ) → Code S (ℕ × ℕ)
  request chan tcc s =
      let (done, c, t, s') = d.request_channel chan tcc s in if done then ok (c, t) s' else bug

  -- The loop over the logic channels, with `left` rounds to go from round `i`.
  pub allocate_logic : Registers → (left i tcc : ℕ) → ChInfo → Code S ChInfo
  unfolding get_param_phys
  allocate_logic r zero i tcc c = pure c
  allocate_logic r (suc left) i tcc c = do
    got ← request d.link_channel tcc
    phys ← get_param_phys r got.0
    allocate_logic r left (suc i) got.1 (
        keep_link i (phys % 2 ^ 16)
          (record c { logic_chs = update ℕ_discrete c.logic_chs i got.0 }))

  -- `junk` is the memory that `malloc` returns. Without logic channels, the last store lies in
  -- front of the array: the run stops there.
  unfoldable pub allocate_channel_linked :
      Registers → (junk : ChInfo) → (logic_cnt : ℕ) → Code S ChInfo
  unfolding allocate_logic
  allocate_channel_linked r junk logic_cnt = do
    checked d.malloc
    got ← request d.dma_channel_any d.tcc_any
    assert (not (got.1 == d.tcc_any))
    assert (not (got.0 == d.dma_channel_any))
    checked d.malloc
    c ←
        allocate_logic r logic_cnt 0 d.tcc_any
          (record junk { ch = got.0; tcc = got.1; pset = none; logic_cnt = logic_cnt })
    assert (ltb 0 logic_cnt)
    pure (record c { links = update ℕ_discrete c.links (logic_cnt - 1) 0xffff })

  pub free_logic : ChInfo → (left i : ℕ) → Code S (Unit {0})
  free_logic c zero i = pure tt
  free_logic c (suc left) i = do checked (d.free_channel (c.logic_chs i)); free_logic c left (suc i)

  -- Without the release of the memory.
  unfoldable pub edma3_free_channel : ChInfo → Code S (Unit {0})
  unfolding free_logic
  edma3_free_channel c = do checked (d.free_channel c.ch); free_logic c c.logic_cnt 0
