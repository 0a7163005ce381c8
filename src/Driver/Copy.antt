-- ===== src/Driver/Copy.antt =====
-- `issue_one_desc_copy` of migrate-x86/migrate-x86.c: it looks up the pages of a request, makes two
-- scatter lists of them, and submits one DMA transfer.
pub mod Expected
pub mod Lists
use memif_user_release.Base.{
  ℕ, zero, suc, ◌+◌, ◌^◌, ◌*◌, Bool, true, false, not, Option, none, some, List, [], ◌∷◌,
  if◌then◌else◌, ltb, leb, ◌==◌,
}
use memif_user_release.Desc.{Desc, order, huge_page, virt_base, virt_base_dest, base_to_virt}
use memif_user_release.Region.{Op}
use memif_user_release.Region.Run.{ok, bug, pure, ◌>>=◌, ◌>>◌, Code, assert}
use memif_user_release.Driver.{copy, Table, submitted, Kernel, on_region, emit}

-- A mapping of the process: `vm_start`, and what `vma_migratable` says.
pub record Vma : Type 0 where
  pub vm_start : ℕ
  pub migratable : Bool

-- What the look-up of a page leaves: an ERR_PTR, NULL, or a page.
pub data Lookup : Type 0 where
  err : Lookup
  null : Lookup
  found : ℕ → Lookup

-- One entry of a scatter list.
pub record Sg : Type 0 where
  pub page : ℕ
  pub length : ℕ
  pub dma_address : ℕ
  pub dma_length : ℕ

-- The kernel's part: the address space, page counts and addresses, and the DMA engine,
-- whose `device_prep_dma_sg` tells if there is a transfer for two lists. `field_modulus` is two to
-- the width in which `base_to_virt` shifts.
pub record Machine : Type 0 where
  pub max_nr_sg : ℕ
  pub field_modulus : ℕ
  pub find_vma : ℕ → Option Vma
  pub follow_page_range : Vma → (addr count : ℕ) → (j : ℕ) → Lookup
  pub follow_huge_page_range : Vma → (addr count : ℕ) → (j : ℕ) → Lookup
  pub page_mapcount : ℕ → ℕ
  pub page_to_phys : ℕ → ℕ
  pub prep_dma_sg : (dst src : List Sg) → (irq : Bool) → Bool
  pub processor_id : ℕ

-- `!vma || paddr < vma->vm_start || !vma_migratable(vma)` is a bug.
unfoldable pub checked_vma : {S : Type 0} → Option Vma → (paddr : ℕ) → Code S Vma
checked_vma none paddr = λ s. bug
checked_vma (some vma) paddr = do assert (leb vma.vm_start paddr); assert vma.migratable; pure vma

-- A page that is there, and mapped at most once.
unfoldable pub checked_page : {S : Type 0} → Machine → Lookup → Code S ℕ
checked_page m err = λ s. bug
checked_page m null = λ s. bug
checked_page m (found page) = do assert (leb (m.page_mapcount page) 1); pure page

abbrev pub bytes : (huge : Bool) → ℕ
bytes huge = if huge then 2 * 1024 * 1024 else 4096

-- `dma_length` is set in the source list only; `sg_init_table` cleared the other.
abbrev pub src_entry : Machine → (huge : Bool) → (page : ℕ) → Sg
src_entry m huge page = record {
  page = page;
  length = bytes huge;
  dma_address = m.page_to_phys page;
  dma_length = bytes huge;
}

abbrev pub dst_entry : Machine → (huge : Bool) → (page : ℕ) → Sg
dst_entry m huge page = record {
  page = page;
  length = bytes huge;
  dma_address = m.page_to_phys page;
  dma_length = 0;
}

-- The loop over the pages, with the rounds left: the destination list and the source list.
unfoldable pub sg_lists :
    {S : Type 0}
    → Machine
    → (huge : Bool) → (opage npage : ℕ → Lookup) → (rounds j : ℕ) → Code S (List Sg × List Sg)
sg_lists m huge opage npage zero j = pure ([], [])
sg_lists m huge opage npage (suc rounds) j = do
  src ← checked_page m (opage j)
  dst ← checked_page m (npage j)
  (dsts, srcs) ← sg_lists m huge opage npage rounds (j + 1)
  pure (dst_entry m huge dst ∷ dsts, src_entry m huge src ∷ srcs)

abbrev pub lookup : Machine → (huge : Bool) → Vma → (addr count : ℕ) → ℕ → Lookup
lookup m huge = if huge then m.follow_huge_page_range else m.follow_page_range

abbrev pub desc_of : ℕ → Op Desc
desc_of desc r = ok (r.desc desc) r

-- From the setup of the table to the end: one transfer of the two lists. The end mark in `pg_desc`
-- is left out.
unfoldable pub submit_copy :
    Machine → (desc count : ℕ) → (do_irq : Bool) → (dsts srcs : List Sg) → Code Kernel Table
submit_copy m desc count do_irq dsts srcs = do
  assert (m.prep_dma_sg dsts srcs do_irq)
  emit (submitted desc do_irq)
  pure (record { func = copy; num_pages = count; migdesc = desc; user_cpu = m.processor_id })

-- `has_memory` tells if the allocations succeed: of the table, the lists and the page arrays.
unfoldable pub issue_one_desc_copy :
    Machine → (has_memory : Bool) → (desc : ℕ) → (do_irq : Bool) → Code Kernel Table
issue_one_desc_copy m has_memory desc do_irq = do
  assert has_memory
  d ← on_region (desc_of desc)
  let count : ℕ = 2 ^ order d
  let huge : Bool = not (huge_page d == 0)
  let paddr : ℕ = base_to_virt m.field_modulus (virt_base d)
  let paddr1 : ℕ = base_to_virt m.field_modulus (virt_base_dest d)
  assert (leb count m.max_nr_sg)
  vma ← checked_vma (m.find_vma paddr) paddr
  vma1 ← checked_vma (m.find_vma paddr1) paddr1
  (dsts, srcs) ←
      sg_lists m huge (lookup m huge vma paddr count) (lookup m huge vma1 paddr1 count) count 0
  submit_copy m desc count do_irq dsts srcs
