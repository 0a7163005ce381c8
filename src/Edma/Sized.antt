-- ===== src/Edma/Sized.antt =====
-- `edma3_start_gather` of libsmm/edma3.c: each buffer has a size of its own, and the PSETs are made
-- for each transfer.
pub mod Rounds
pub mod Chain
use memif_user_release.Base.{
  ℕ, zero, suc, ◌+◌, ◌-◌, ◌*◌, ◌%◌, ◌^◌, Bool, true, false, not, if◌then◌else◌, ltb, leb, ◌==◌,
}
use memif_user_release.Region.Run.{Outcome, ok, bug, Code, pure, ◌>>=◌, ◌>>◌, assert}
use memif_user_release.Edma.{Pset, Drv, checked, ChInfo}
use memif_user_release.Edma.Geometry.{Sync, sync_a, sync_ab, Geometry, get_xfer_geometry}
use memif_user_release.Edma.Gather.{
  OptBits, sync_opt, tcc_opt, middle_opt, end_opt, Scatter, chid, good_stride, Host,
}

-- The double check, and the geometry in the PSET, whose counts and indices have 16 bits.
unfoldable pub load_geometry : {S : Type 0} → OptBits → Geometry → Pset → Code S Pset
load_geometry b g p = do
  assert (if ltb 1 g.bcnt then leb g.bidx 32767 else true)
  assert (if ltb 1 g.ccnt then leb g.cidx 32767 else true)
  pure (record p {
    src_b_idx = g.bidx % 2 ^ 16;
    dest_b_idx = g.bidx % 2 ^ 16;
    src_c_idx = g.cidx % 2 ^ 16;
    dest_c_idx = g.cidx % 2 ^ 16;
    a_cnt = g.acnt % 2 ^ 16;
    b_cnt = g.bcnt % 2 ^ 16;
    c_cnt = g.ccnt % 2 ^ 16;
    b_cnt_reload = g.brcnt % 2 ^ 16;
    opt = sync_opt b g.sync p.opt;
  })

-- A size as before takes the geometry that is there, but not in the first round.
unfoldable pub sized : {S : Type 0} → OptBits → (fuel i size prev_size : ℕ) → Pset → Code S Pset
sized b fuel i size prev_size p =
    if not (size == prev_size)
    then get_xfer_geometry fuel size >>= (λ g. load_geometry b g p)
    else (assert (not (i == 0)) >> pure p)

-- The link of round `i` of `cnt`.
unfoldable pub gather_link : ChInfo → (cnt i : ℕ) → ℕ
gather_link chinfo cnt i =
    if i == 0 then chinfo.link else if suc i == cnt then 0xffff else chinfo.links (i - 1)

-- The option word of round `i`: `last` tells if it is the last.
unfoldable pub gather_opt : OptBits → (ch i : ℕ) → (last : Bool) → ℕ → ℕ
gather_opt b ch i last opt =
    let coded : ℕ = if i == 0 then tcc_opt b ch opt else opt in
    if last then end_opt b coded else middle_opt b coded

module _ {S : Type 0} (d : Drv S) (h : Host) (b : OptBits) (fuel : ℕ) (chinfo : ChInfo) where
  -- The loop over the buffers, with the rounds left, and the variables that it changes.
  pub sized_rounds :
      (src_stride voffset_stride size_stride dest cnt : ℕ)
      → (left i psrc pvoffset psz dest_off prev_size : ℕ) → Pset
      → Code S ℕ
  sized_rounds src_stride voffset_stride size_stride dest cnt zero i psrc pvoffset psz dest_off
        prev_size p =
      pure dest_off
  sized_rounds src_stride voffset_stride size_stride dest cnt (suc left) i psrc pvoffset psz
        dest_off prev_size p =
      do
        let voffset : ℕ = h.load pvoffset
        assert (ltb 0 voffset)
        let size : ℕ = h.load psz
        q ← sized b fuel i size prev_size p
        assert (chinfo.tcc == chinfo.ch)
        let r : Pset = record q {
          src_addr = (h.load psrc + h.modulus - voffset) % h.modulus;
          dest_addr = (dest + dest_off) % h.modulus;
          link_addr = gather_link chinfo cnt i;
          opt = gather_opt b chinfo.ch i (suc i == cnt) q.opt;
        }
        checked (d.set_param (chid chinfo i) r)
        sized_rounds src_stride voffset_stride size_stride dest cnt left (suc i)
            ((psrc + src_stride) % h.modulus) ((pvoffset + voffset_stride) % h.modulus)
            ((psz + size_stride) % h.modulus) ((dest_off + size) % h.modulus) size r

  unfoldable pub start_gather :
      (srcs src_stride voffsets voffset_stride sizes size_stride cnt dest : ℕ) → Code S Scatter
  unfolding sized_rounds
  start_gather srcs src_stride voffsets voffset_stride sizes size_stride cnt dest = do
    assert (good_stride h.pointer src_stride)
    assert (good_stride h.pointer size_stride)
    assert (good_stride h.pointer voffset_stride)
    checked d.malloc
    assert (leb cnt (chinfo.logic_cnt + 1))
    dest_off ←
        sized_rounds src_stride voffset_stride size_stride dest cnt cnt 0 srcs voffsets sizes 0 0
          (record {
            opt = 0;
            src_addr = 0;
            a_cnt = 0;
            b_cnt = 0;
            dest_addr = 0;
            src_b_idx = 0;
            dest_b_idx = 0;
            link_addr = 0;
            b_cnt_reload = 0;
            src_c_idx = 0;
            dest_c_idx = 0;
            c_cnt = 0;
          })
    checked (d.enable_transfer chinfo.ch)
    pure (record { cnt = cnt; totalsize = dest_off % 2 ^ 32 })

-- `edma3_wait_gather`, without the release of the memory.
pub wait_gather : {S : Type 0} → Drv S → ChInfo → Code S (Unit {0})
wait_gather d chinfo = checked (d.wait_and_clear_tcc chinfo.tcc)
