-- ===== src/Edma/Selfchain.antt =====
-- `edma3_start_xfer_multiple_selfchaining` of libsmm/edma3.c: a transfer is cut into parts of equal
-- size, one for each PSET, and started once; the end of each part starts the next.
pub mod Whole
use memif_user_release.Base.{ℕ, suc, ◌+◌, ◌-◌, ◌*◌, ◌/◌, ◌%◌, ◌^◌, Bool, if◌then◌else◌, ◌==◌}
use Prim.Native.Nat.{bit_and, bit_or}
use memif_user_release.Region.Run.{Code, pure, ◌>>=◌, ◌>>◌, assert}
use memif_user_release.Edma.{Pset, Drv, checked}
use memif_user_release.Edma.Geometry.{Sync, Geometry, get_xfer_geometry}
use memif_user_release.Edma.Channel.{Registers, get_param_phys, request}
use memif_user_release.Edma.Gather.{OptBits, sync_opt, middle_opt, end_opt}
use memif_user_release.Edma.Repeat.{code_bits, filled, link_rounds, kick, unchecked, free_rounds}

abbrev pub first_opt : OptBits → (tcc : ℕ) → Sync → ℕ
first_opt b tcc mode =
    sync_opt b mode (middle_opt b (bit_or (bit_and 0 0xfffffffc) (code_bits b tcc)))

-- The option word of round `i`, from the one before.
unfoldable pub next_opt : OptBits → (ch count i : ℕ) → ℕ → ℕ
next_opt b ch count i opt =
    let coded : ℕ = bit_or opt (code_bits b ch) in
    if suc (suc i) == count then end_opt b coded else middle_opt b coded

abbrev pub next_part : OptBits → (src dest size ch count i : ℕ) → Pset → Pset
next_part b src dest size ch count i p = record p {
  src_addr = (src + suc i * size) % 2 ^ 32;
  dest_addr = (dest + suc i * size) % 2 ^ 32;
  link_addr = 0xffff;
  opt = next_opt b ch count i p.opt;
}

module _ {S : Type 0} (d : Drv S) (get_param : ℕ → S → Bool × Pset × S) (r : Registers) where
  -- From the allocation of the logic channels on.
  unfoldable pub run_parts : OptBits → (src dest size count ch tcc : ℕ) → Code S (Unit {0})
  run_parts b src dest size count ch tcc = do
    checked d.malloc
    logic ←
        link_rounds d get_param r checked (next_part b src dest size ch count) (count - 1) 0 ch tcc
    kick d get_param r ch logic.1
    get_param_phys d r ch
    unchecked d get_param r (λ s. let (done, p, s') = get_param ch s in (done, s'))
    checked (d.free_channel ch)
    free_rounds d get_param r logic.0

  -- For a positive count.
  unfoldable pub start_xfer_multiple_selfchaining :
      OptBits → (fuel src dest totalsize count : ℕ) → Code S (Unit {0})
  start_xfer_multiple_selfchaining b fuel src dest totalsize count = do
    assert (totalsize % count == 0)
    checked d.malloc
    g ← get_xfer_geometry fuel (totalsize / count)
    got ← request d 2 d.tcc_any
    checked (d.set_param got.0 (filled src dest (first_opt b got.1 g.sync) g))
    get_param_phys d r got.0
    run_parts b src dest (totalsize / count) count got.0 got.1
