-- ===== src/Edma/Gather.antt =====
-- Preloaded PSETs of libsmm/edma3.c: `preload_psets`, `edma3_start_gather_preloaded` and
-- `edma3_wait_gather_preloaded`.
pub mod Documented
pub mod Rounds
pub mod Launch
pub mod Chain
pub mod Reload
pub mod Restore
use memif_user_release.Base.{
  ℕ, zero, suc, ◌+◌, ◌-◌, ◌*◌, ◌%◌, ◌^◌, Bool, true, false, not, ◌||◌, Option, none, some,
  if◌then◌else◌, ltb, leb, ◌==◌,
}
use Prim.Native.Nat.{bit_and, bit_or, bit_xor}
use memif_user_release.Region.Run.{Outcome, ok, bug, Code, pure, ◌>>=◌, ◌>>◌, assert}
use memif_user_release.Edma.{
  Pset, Entry, entry_src, entry_dst, entry_link_bcntrld, entry_opt, Drv, checked, ChInfo,
}
use memif_user_release.Edma.Geometry.{Sync, sync_a, sync_ab, Geometry, get_xfer_geometry}

-- The positions of bits in `opt`, from the driver's headers.
pub record OptBits : Type 0 where
  pub syncdim_shift : ℕ
  pub tcc_mask : ℕ
  pub tcc_shift : ℕ
  pub itcinten_shift : ℕ
  pub tcinten_shift : ℕ
  pub tcchen_shift : ℕ
  pub itcchen_shift : ℕ

-- `x & ~m`, `x | (1 << k)` and `x & ~(1 << k)` on 32-bit words.
abbrev pub mask_off : ℕ → ℕ → ℕ
mask_off m x = bit_and x (bit_xor m 0xffffffff)

abbrev pub set_bit : ℕ → ℕ → ℕ
set_bit k x = bit_or x (2 ^ k)

abbrev pub clear_bit : ℕ → ℕ → ℕ
clear_bit k x = mask_off (2 ^ k) x

-- The steps by which `opt` is made: the mode of synchronisation; increasing addresses and the
-- completion code; and the bits of a PSET that chains to the next and raises no interrupt.
unfoldable pub sync_opt : OptBits → Sync → ℕ → ℕ
sync_opt b sync_a opt = bit_and opt 0xfffffffb
sync_opt b sync_ab opt = set_bit b.syncdim_shift opt

unfoldable pub tcc_opt : OptBits → (tcc : ℕ) → ℕ → ℕ
tcc_opt b tcc opt =
    bit_or (mask_off b.tcc_mask (bit_and opt 0xfffffffc))
      (bit_and (tcc * 2 ^ b.tcc_shift % 2 ^ 32) b.tcc_mask)

unfoldable pub middle_opt : OptBits → ℕ → ℕ
middle_opt b opt =
    clear_bit b.itcchen_shift
      (set_bit b.tcchen_shift (clear_bit b.tcinten_shift (clear_bit b.itcinten_shift opt)))

-- `opt` of all preloaded PSETs.
abbrev pub chain_opt : OptBits → ℕ → Sync → ℕ
chain_opt b tcc mode = middle_opt b (tcc_opt b tcc (sync_opt b mode 0))

-- `opt` of the last: it raises the interrupt, and does not chain.
unfoldable pub end_opt : OptBits → ℕ → ℕ
end_opt b opt =
    clear_bit b.itcchen_shift
      (clear_bit b.tcchen_shift (set_bit b.tcinten_shift (clear_bit b.itcinten_shift opt)))

-- The fields that are the same in all PSETs. Counts and indices have 16 bits.
abbrev pub default_pset : OptBits → ℕ → Geometry → Pset
default_pset b tcc g = record {
  opt = chain_opt b tcc g.sync;
  src_addr = 0;
  a_cnt = g.acnt % 2 ^ 16;
  b_cnt = g.bcnt % 2 ^ 16;
  dest_addr = 0;
  src_b_idx = g.bidx % 2 ^ 16;
  dest_b_idx = g.bidx % 2 ^ 16;
  link_addr = 0;
  b_cnt_reload = g.brcnt % 2 ^ 16;
  src_c_idx = g.cidx % 2 ^ 16;
  dest_c_idx = g.cidx % 2 ^ 16;
  c_cnt = g.ccnt % 2 ^ 16;
}

abbrev pub with_link : ℕ → Pset → Pset
with_link l p = record p { link_addr = l }

abbrev pub is_loaded : Option Pset → Bool
is_loaded none = false
is_loaded (some p) = true

module _ {S : Type 0} (d : Drv S) where
  -- The loop over the logic channels, with `left` rounds to go from round `i`.
  pub preload_logic : ChInfo → Pset → (left i : ℕ) → Code S (Unit {0})
  preload_logic chinfo p zero i = pure tt
  preload_logic chinfo p (suc left) i = do
    checked (d.set_param (chinfo.logic_chs i) (with_link (chinfo.links i) p))
    preload_logic chinfo p left (suc i)

  -- The low 16 bits of the shifted count are zero, so that `+ 0xffff` is the `|` of the source.
  unfoldable pub preload_psets : OptBits → (fuel : ℕ) → ChInfo → (size : ℕ) → Code S ChInfo
  unfolding preload_logic
  preload_psets b fuel chinfo size = do
    assert (not (is_loaded chinfo.pset))
    checked d.malloc
    g ← get_xfer_geometry fuel size
    assert (chinfo.tcc == chinfo.ch)
    let p = default_pset b chinfo.tcc g
    checked (d.set_param chinfo.ch (with_link chinfo.link p))
    preload_logic chinfo p chinfo.logic_cnt 0
    pure (record chinfo {
      pset = some p;
      size = size;
      last_brcnt_link = g.brcnt * 2 ^ 16 % 2 ^ 32 + 0xffff;
      last_opt = end_opt b p.opt;
    })

-- A transfer under way; the `chinfo` that it points to stands beside this record. `totalsize` is an
-- int. So is `cnt`, which is at most one more than the int `logic_cnt`.
pub record Scatter : Type 0 where
  pub cnt : ℕ
  pub totalsize : ℕ

-- The channel of round `i`.
abbrev pub chid : ChInfo → ℕ → ℕ
chid chinfo zero = chinfo.ch
chid chinfo (suc i) = chinfo.logic_chs i

abbrev pub good_stride : ℕ → ℕ → Bool
good_stride pointer stride = stride == 0 || leb pointer stride

-- What `edma3_start_gather_preloaded` reads and writes to: the words of memory, the size of a
-- pointer in bytes, and two to the width of an unsigned long.
pub record Host : Type 0 where
  pub load : ℕ → ℕ
  pub pointer : ℕ
  pub modulus : ℕ

module _ {S : Type 0} (d : Drv S) (h : Host) where
  -- The last PSET of a transfer.
  abbrev pub finish_chain : ChInfo → ℕ → Bool → Code S (Unit {0})
  finish_chain chinfo c false = pure tt
  finish_chain chinfo c true = do
    checked (d.set_param_entry c entry_link_bcntrld chinfo.last_brcnt_link)
    checked (d.set_param_entry c entry_opt chinfo.last_opt)

  -- The loop over the buffers, with `left` rounds to go from round `i`; it ends with `dest_off`.
  pub gather_rounds :
      ChInfo → (src_stride voffset_stride dest : ℕ) → (left i psrc pvoffset dest_off : ℕ) → Code S ℕ
  gather_rounds chinfo src_stride voffset_stride dest zero i psrc pvoffset dest_off = pure dest_off
  gather_rounds chinfo src_stride voffset_stride dest (suc left) i psrc pvoffset dest_off = do
    let c : ℕ = chid chinfo i
    let voffset : ℕ = h.load pvoffset
    assert (ltb 0 voffset)
    let src : ℕ = (h.load psrc + h.modulus - voffset) % h.modulus
    checked (d.set_param_entry c entry_src src)
    checked (d.set_param_entry c entry_dst ((dest + dest_off) % h.modulus))
    finish_chain chinfo c (left == 0)
    gather_rounds chinfo src_stride voffset_stride dest left (suc i)
        ((psrc + src_stride) % h.modulus)
        (if voffset_stride == 0 then pvoffset else (pvoffset + voffset_stride) % h.modulus)
        ((dest_off + chinfo.size) % h.modulus)

  unfoldable pub start_gather_preloaded :
      ChInfo → (srcs src_stride voffsets voffset_stride cnt dest : ℕ) → Code S Scatter
  unfolding gather_rounds
  start_gather_preloaded chinfo srcs src_stride voffsets voffset_stride cnt dest = do
    assert (is_loaded chinfo.pset)
    assert (good_stride h.pointer src_stride)
    assert (good_stride h.pointer voffset_stride)
    checked d.malloc
    assert (leb cnt (chinfo.logic_cnt + 1))
    dest_off ← gather_rounds chinfo src_stride voffset_stride dest cnt 0 srcs voffsets 0
    checked (d.enable_transfer chinfo.ch)
    pure (record { cnt = cnt; totalsize = dest_off % 2 ^ 32 })

module _ {S : Type 0} (d : Drv S) where
  -- The PSET that the transfer ended with, if it is a logic channel's.
  abbrev pub restore_last : ChInfo → Pset → ℕ → Code S (Unit {0})
  restore_last chinfo p zero = pure tt
  restore_last chinfo p (suc zero) = pure tt
  restore_last chinfo p (suc (suc k)) =
      checked (d.set_param (chinfo.logic_chs k) (with_link (chinfo.links k) p))

  abbrev pub restore : ChInfo → Option Pset → ℕ → Code S (Unit {0})
  restore chinfo none cnt = λ _. bug
  restore chinfo (some p) cnt = do
    checked (d.set_param chinfo.ch (with_link chinfo.link p))
    restore_last chinfo p cnt

  -- The copy in `chinfo->pset` has link 0 again at the end, as before. It is written through if it
  -- is NULL: the run stops there.
  unfoldable pub wait_gather_preloaded : ChInfo → Scatter → Code S (Unit {0})
  wait_gather_preloaded chinfo x = do
    checked (d.wait_and_clear_tcc chinfo.tcc)
    restore chinfo chinfo.pset x.cnt
