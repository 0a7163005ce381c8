-- ===== src/Driver/Files/Mapping.antt =====
-- What the file operations give to the user.
use memif_user_release.Base.{
  ℕ, suc, if◌then◌else◌, ◌+◌, ◌*◌, ◌%◌, ◌^◌, ◌≡◌, refl, ◌≢◌, ◌↔◌, ◌≤◌, [], false, not, Option, some,
  arith, ap, sym, ◌∙◌, Bool-cases, inl, inr, ltb,
}
use memif_user_release.Desc.{DescPtr}
use memif_user_release.Region.{comp, Region}
use memif_user_release.Region.Run.{Code, Yields, yields, then-Yields}
use memif_user_release.Region.View.{View, contents, IsWellFormed}
use memif_user_release.Queue.{migqueue_is_empty}
use memif_user_release.Queue.Color.{is_empty_iff}
use memif_user_release.Init.{init_migregion}
use memif_user_release.Init.Fresh.{IsNewRegion}
use memif_user_release.Init.Whole.{init_migregion-IsNewRegion}
use memif_user_release.Driver.{Kernel, Calls, on_region-Yields}
use memif_user_release.Driver.Files.{
  mmap_fault, served, refused, region_to_mmap_info, if_poll, if_write, run_command, wrote,
}

-- With a region and a kernel that has a page at every address, a fault is served with the page at
-- its offset exactly if the offset is below NPAGES. The last such page is that of `mmap_info`,
-- which is not part of the region.
pub mmap_fault_lem :
    (virt_to_page : ℕ → Option ℕ) (page : ℕ → ℕ) (p pgoff : ℕ)
    → ((a : ℕ) → virt_to_page a ≡ some (page a))
    → (mmap_fault virt_to_page (some p) pgoff
        ≡ (if ltb pgoff 4 then served (page ((p + pgoff * 4096) % 2 ^ 64)) else refused))
      × (mmap_fault virt_to_page (some p) 3 ≡ served (page (region_to_mmap_info p)))
unfolding mmap_fault
mmap_fault_lem virt_to_page page p pgoff here =
    (ground (arith, here ((p + pgoff * 4096) % 2 ^ 64)), rw (here ((p + 3 * 4096) % 2 ^ 64)) refl)

-- On a well-formed region, where the tail of the completion queue names its last node, polling
-- tells the user exactly if there is a completion.
pub if_poll_iff :
    {v : View} {r : Region}
    → IsWellFormed v r
    → (v.queue comp).beyond ≡ []
    → (if_poll r ≢ 0) ↔ (contents (v.queue comp) ≢ [])
unfolding if_poll
if_poll_iff {v} {r} w settled =
    let told = is_empty_iff comp w settled in
    elim (Bool-cases (migqueue_is_empty comp r)) [
      | inl empty ↦ (
        λ h. absurd (h (ap (λ b. if not b then 0x41 else 0) empty)),
        λ h. absurd (h (told.0 empty)),
      )
      | inr full ↦ (
        λ _ e. cc (sym full ∙ told.1 e),
        λ _ e. cc (sym e ∙ ap (λ b. if not b then 0x41 else 0) full),
      )
    ]

-- The command MIG_INIT_REGION, in a write of at least four bytes, passes all assertions, whatever
-- the region holds: it has 379 descriptors then, three of them dummies, all others free, and
-- `write` returns the size.
pub if_write-IsNewRegion :
    (fuel junk : ℕ) (link : DescPtr) (calls : Calls) (flush_single : Code Kernel (Unit {0}))
    (sz : ℕ) (k : Kernel)
    → 4 ≤ sz
    → Yields
        (λ out k'. (out ≡ wrote sz) × (v : View) × IsNewRegion 379 v k'.region)
        (if_write (suc fuel) junk link calls flush_single (some 0) sz k)
unfolding if_write run_command
if_write-IsNewRegion fuel junk link calls flush_single sz k big =
    let enough : ltb sz 4 ≡ false = ground arith in
    rw enough (
      then-Yields
        (on_region-Yields (init_migregion (suc fuel) junk 12288) k (
          init_migregion-IsNewRegion fuel junk 12288 k.region (omega arith) (omega arith)
            (omega arith)))
        λ _ k' ((v, new), still). yields (refl, v, new))
