-- ===== src/Edma/Repeat.antt =====
-- `edma3_start_xfer_multiple` of libsmm/edma3.c: one transfer, made several times. Each PSET links
-- to the next, and the physical channel is started once for each.
pub mod Documented
pub mod Linking
pub mod Kicks
pub mod Released
pub mod Whole
use memif_user_release.Base.{
  ℕ, zero, suc, ◌+◌, ◌-◌, ◌*◌, ◌%◌, ◌^◌, Bool, List, [], ◌∷◌, if◌then◌else◌,
}
use Prim.Native.Nat.{bit_and, bit_or}
use memif_user_release.Region.Run.{Outcome, ok, bug, Code, pure, ◌>>=◌, ◌>>◌}
use memif_user_release.Edma.{Pset, Drv, checked}
use memif_user_release.Edma.Geometry.{Sync, Geometry, get_xfer_geometry}
use memif_user_release.Edma.Channel.{Registers, get_param_phys, request}
use memif_user_release.Edma.Gather.{OptBits, set_bit, sync_opt}

abbrev pub code_bits : OptBits → (tcc : ℕ) → ℕ
code_bits b tcc = bit_and (tcc * 2 ^ b.tcc_shift % 2 ^ 32) b.tcc_mask

-- Completion is reported for each array and at the end.
abbrev pub repeat_opt : OptBits → (tcc : ℕ) → Sync → ℕ
repeat_opt b tcc mode = sync_opt b mode (
    set_bit b.tcinten_shift
      (set_bit b.itcinten_shift (bit_or (bit_and 0 0xfffffffc) (code_bits b tcc))))

-- A PSET with the null link. Counts and indices have 16 bits.
abbrev pub filled : (src dest opt : ℕ) → Geometry → Pset
filled src dest opt g = record {
  opt = opt;
  src_addr = src % 2 ^ 32;
  a_cnt = g.acnt % 2 ^ 16;
  b_cnt = g.bcnt % 2 ^ 16;
  dest_addr = dest % 2 ^ 32;
  src_b_idx = g.bidx % 2 ^ 16;
  dest_b_idx = g.bidx % 2 ^ 16;
  link_addr = 0xffff;
  b_cnt_reload = g.brcnt % 2 ^ 16;
  src_c_idx = g.cidx % 2 ^ 16;
  dest_c_idx = g.cidx % 2 ^ 16;
  c_cnt = g.ccnt % 2 ^ 16;
}

abbrev pub repeat_pset : OptBits → (src dest tcc : ℕ) → Geometry → Pset
repeat_pset b src dest tcc g = filled src dest (repeat_opt b tcc g.sync) g

-- `get_param` is EDMA3_DRV_getPaRAM.
module _ {S : Type 0} (d : Drv S) (get_param : ℕ → S → Bool × Pset × S) (r : Registers) where
  abbrev pub load_param : ℕ → Code S Pset
  load_param c s = let (done, p, s') = get_param c s in if done then ok p s' else bug

  -- Where the code does not look at the result.
  abbrev pub unchecked : (S → Bool × S) → Code S (Unit {0})
  unchecked call s = ok tt (call s).1

  -- The loop over the logic channels, with `left` rounds to go from round `i`. It returns them in
  -- order, and the completion code, which each request passes out. `next` makes the new PSET from
  -- the one before, and `store` is how the result of writing it is looked at.
  unfoldable pub link_rounds :
      (store : (S → Bool × S) → Code S (Unit {0}))
      → (next : ℕ → Pset → Pset) → (left i prev tcc : ℕ) → Code S (List ℕ × ℕ)
  link_rounds store next zero i prev tcc = pure ([], tcc)
  link_rounds store next (suc left) i prev tcc = do
    got ← request d d.link_channel tcc
    p ← load_param prev
    phys ← get_param_phys d r got.0
    checked (d.set_param prev (record p { link_addr = phys % 2 ^ 16 }))
    store (d.set_param got.0 (next i p))
    rest ← link_rounds store next left (suc i) got.0 got.1
    pure (got.0 ∷ rest.0, rest.1)

  abbrev pub kick : (ch tcc : ℕ) → Code S (Unit {0})
  kick ch tcc = do checked (d.enable_transfer ch); checked (d.wait_and_clear_tcc tcc)

  -- The kicks after the first.
  unfoldable pub kick_rounds : (left ch tcc : ℕ) → Code S (Unit {0})
  kick_rounds zero ch tcc = pure tt
  kick_rounds (suc left) ch tcc = do
    kick ch tcc
    get_param_phys d r ch
    unchecked (λ s. let (done, p, s') = get_param ch s in (done, s'))
    kick_rounds left ch tcc

  unfoldable pub free_rounds : List ℕ → Code S (Unit {0})
  free_rounds [] = pure tt
  free_rounds (c ∷ cs) = do checked (d.free_channel c); free_rounds cs

  -- The PSET of the transfer before, without a link.
  abbrev pub same_transfer : ℕ → Pset → Pset
  same_transfer i p = record p { link_addr = 0xffff }

  -- From the allocation of the logic channels on.
  unfoldable pub run_chain : (count ch tcc : ℕ) → Code S (Unit {0})
  run_chain count ch tcc = do
    checked d.malloc
    logic ← link_rounds unchecked same_transfer (count - 1) 0 ch tcc
    kick ch logic.1
    get_param_phys d r ch
    load_param ch
    kick_rounds (count - 1) ch logic.1
    checked (d.free_channel ch)
    free_rounds logic.0

  -- For a positive count. The search for a geometry is written out in it as in `get_xfer_geometry`.
  unfoldable pub start_xfer_multiple : OptBits → (fuel src dest size count : ℕ) → Code S (Unit {0})
  start_xfer_multiple b fuel src dest size count = do
    checked d.malloc
    g ← get_xfer_geometry fuel size
    got ← request d d.dma_channel_any d.tcc_any
    checked (d.set_param got.0 (repeat_pset b src dest got.1 g))
    get_param_phys d r got.0
    run_chain count got.0 got.1
