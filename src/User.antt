-- ===== src/User.antt =====
-- The user's side, libsmm/migusr.c. The system calls are parameters.
pub mod Request
use memif_user_release.Base.{ℕ, Bool, if◌then◌else◌, ltb, leb, ◌==◌, Option, none, some}
use memif_user_release.Desc.{
  DescPtr, Desc, color_usr, virt_to_base, set_virt_base, set_virt_base_dest, set_order,
}
use memif_user_release.Region.{req, Region, Op, modify, write_desc}
use memif_user_release.Region.Run.{ok, pure, ◌>>=◌, ◌>>◌, Code, assert}
use memif_user_release.FreeList.{freelist_remove}
use memif_user_release.Queue.{or_bug, mig_enqueue}
use memif_user_release.Driver.{Kernel, on_region}

-- MIG_MOVE_SINGLE_NOREMAP
abbrev pub move_single_noremap : ℕ
move_single_noremap = 4

-- The stores to the fresh descriptor.
abbrev pub fill_desc : (src dst o : ℕ) → Desc → Desc
fill_desc src dst o d =
    set_order o (set_virt_base_dest (virt_to_base dst) (set_virt_base (virt_to_base src) d))

-- From the allocation of the descriptor to its submission, on the shared region.
unfoldable pub request : (fuel : ℕ) → (link : DescPtr) → (src dst o : ℕ) → Op (ℕ × ℕ)
request fuel link src dst o = do
  free ← freelist_remove fuel
  desc ← or_bug free
  modify (λ r. write_desc desc (fill_desc src dst o (r.desc desc)) r)
  clr ← mig_enqueue fuel link req desc
  pure (desc, clr)

-- `write` is the system call on the file: its result is negative or not, which is only logged.
unfoldable pub memif_start_replication :
    (fuel : ℕ)
    → (link : DescPtr) → (write : (fd cmd : ℕ) → Code Kernel Bool) → (fd src dst o : ℕ)
    → Code Kernel ℕ
memif_start_replication fuel link write fd src dst o = do
  assert (ltb 0 fd)
  (desc, clr) ← on_region (request fuel link src dst o)
  if clr == color_usr then (do write fd move_single_noremap; pure desc) else pure desc

-- What `memif_open` returns for a file and what `mmap` gives: the file and the region, or -1.
abbrev pub opened_at : ℕ → Option ℕ → Option (ℕ × ℕ)
opened_at fd none = none
opened_at fd (some region) = some (fd, region)

abbrev pub map_file : (mmap : ℕ → Option ℕ) → Option ℕ → Option (ℕ × ℕ)
map_file mmap none = none
map_file mmap (some fd) = opened_at fd (mmap fd)

-- `memif_open` of device `nr`; `open_file` and `mmap` are the system calls on the device's file.
unfoldable pub memif_open :
    (open_file : ℕ → Option ℕ) → (mmap : ℕ → Option ℕ) → (nr : ℕ) → Code Kernel (Option (ℕ × ℕ))
memif_open open_file mmap nr = do assert (leb nr 3); pure (map_file mmap (open_file nr))
