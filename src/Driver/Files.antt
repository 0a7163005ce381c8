-- ===== src/Driver/Files.antt =====
-- The file operations of migrate-x86/migrate-x86.c on a debugfs file: the commands that are
-- written, polling, and page faults in the mapping. The user's address space (`mm`) is left out.
pub mod Mapping
use memif_user_release.Base.{
  ℕ, zero, suc, ◌+◌, ◌-◌, ◌*◌, ◌%◌, ◌^◌, Bool, true, false, not, Option, none, some, if◌then◌else◌,
  ltb, leb, ◌==◌, update, ℕ_discrete,
}
use memif_user_release.Desc.{DescPtr, Desc, flag, virt_base, set_virt_base}
use memif_user_release.Region.{req, comp, Region, Op, modify, write_desc}
use memif_user_release.Region.Run.{ok, pure, ◌>>=◌, ◌>>◌, Code, Turn, again, finish, loop, assert}
use memif_user_release.FreeList.{freelist_remove}
use memif_user_release.Queue.{mig_enqueue, mig_dequeue, migqueue_is_empty}
use memif_user_release.Init.{init_migregion}
use memif_user_release.Driver.{IssueFunc, copy, mig, Kernel, Calls, on_region}
use memif_user_release.Driver.Flush.{user_flush}

abbrev pub page_size : ℕ
page_size = 4096

-- NPAGES: the pages of a file, N_MIGREGION_PAGES for the region and the last one for `mmap_info`.
abbrev pub npages : ℕ
npages = 4

-- A fault is served with a page, passed over with 0, or refused with -1.
pub data Fault : Type 0 where
  served : (page : ℕ) → Fault
  passed_over : Fault
  refused : Fault

-- `mmap_fault`: `region` is what the info holds, and `virt_to_page` is the kernel's.
unfoldable pub mmap_fault :
    (virt_to_page : ℕ → Option ℕ) → (region : Option ℕ) → (pgoff : ℕ) → Fault
mmap_fault virt_to_page none pgoff = passed_over
mmap_fault virt_to_page (some p) pgoff =
    if not (leb pgoff (npages - 1))
    then refused
    else (elim (virt_to_page ((p + pgoff * page_size) % 2 ^ 64)) [
      | none ↦ refused
      | some page ↦ served page
    ])

-- `region_to_mmap_info`
abbrev pub region_to_mmap_info : ℕ → ℕ
region_to_mmap_info r = (r + page_size * (npages - 1)) % 2 ^ 64

-- The loop of `test_fill_queue`, on the counter.
unfoldable pub fill_turn : (fuel : ℕ) → (link : DescPtr) → (cnt : ℕ) → Op (Turn ℕ ℕ)
fill_turn fuel link cnt = do
  desc ← freelist_remove fuel
  elim desc [
    | none ↦ pure (finish cnt)
    | some d ↦ (do
      modify (λ r. write_desc d (set_virt_base cnt (r.desc d)) r)
      mig_enqueue fuel link req d
      pure (if leb 8000 (cnt + 1) then finish (cnt + 1) else again (cnt + 1)))
  ]

unfoldable pub test_fill_queue : (fuel : ℕ) → (link : DescPtr) → Op (Unit {0})
test_fill_queue fuel link = do loop fuel (fill_turn fuel link) 1; pure tt

-- The loop of `test_empty_queue`, on the counters of the threads.
unfoldable pub check_turn : (fuel junk : ℕ) → (counts : ℕ → ℕ) → Op (Turn (ℕ → ℕ) (ℕ → ℕ))
check_turn fuel junk counts = do
  desc ← mig_dequeue fuel junk req
  elim desc [
    | none ↦ pure (finish counts)
    | some d ↦ λ r.
        (do
          assert (ltb (flag (r.desc d)) 4)
          assert (virt_base (r.desc d) % 2 ^ 32 == counts (flag (r.desc d)))
          pure (
              again (
                update ℕ_discrete counts (flag (r.desc d))
                  ((counts (flag (r.desc d)) + 1) % 2 ^ 32))))
          r
  ]

unfoldable pub test_empty_queue : (fuel junk : ℕ) → Op (Unit {0})
test_empty_queue fuel junk = do loop fuel (check_turn fuel junk) (λ t. 0); pure tt

-- What `write` returns: -EFAULT, or the size.
pub data Written : Type 0 where
  efault : Written
  wrote : ℕ → Written

-- The `switch` of `if_write`; `flush_single` stands for `flush_single_qreq`.
unfoldable pub run_command :
    (fuel junk : ℕ)
    → (link : DescPtr) → Calls
    → (flush_single : Code Kernel (Unit {0})) → (cmd : ℕ) → Code Kernel (Unit {0})
run_command fuel junk link calls flush_single cmd =
    if cmd == 0
    then on_region (init_migregion fuel junk ((npages - 1) * page_size))
    else if cmd == 1
    then on_region (test_fill_queue fuel link)
    else if cmd == 2
    then on_region (test_empty_queue fuel junk)
    else if cmd == 3
    then flush_single
    else if cmd == 4
    then (do user_flush fuel junk link calls copy; pure tt)
    else if cmd == 5
    then (do user_flush fuel junk link calls mig; pure tt)
    else pure tt

-- `if_write`: `cmd` is what `copy_from_user` reads, if it can.
unfoldable pub if_write :
    (fuel junk : ℕ)
    → (link : DescPtr) → Calls
    → (flush_single : Code Kernel (Unit {0})) → (cmd : Option ℕ) → (sz : ℕ) → Code Kernel Written
if_write fuel junk link calls flush_single cmd sz = if ltb sz 4 then pure efault else (elim cmd [
  | none ↦ pure efault
  | some c ↦ (do run_command fuel junk link calls flush_single c; pure (wrote sz))
])

-- `if_poll`: POLLIN | POLLRDNORM where the completion queue is not empty.
unfoldable pub if_poll : Region → ℕ
if_poll r = if not (migqueue_is_empty comp r) then 0x41 else 0
