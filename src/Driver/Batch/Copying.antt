-- ===== src/Driver/Batch/Copying.antt =====
-- `flush_single_qreq_noremap2` of migrate-x86/migrate-x86.c: the pages of all requests go into two
-- scatter lists, for one DMA transfer.
pub mod Flushed
pub mod Lists
use memif_user_release.Base.{
  ℕ, zero, suc, ◌+◌, ◌^◌, Bool, true, false, not, List, [], ◌∷◌, ◌++◌, ◌==◌,
}
use memif_user_release.Desc.{DescPtr, Desc, order, virt_base, virt_base_dest, base_to_virt}
use memif_user_release.Region.Run.{pure, ◌>>=◌, ◌>>◌, Code, assert}
use memif_user_release.Driver.Copy.{
  Lookup, Sg, Machine, checked_vma, checked_page, src_entry, dst_entry,
}
use memif_user_release.Driver.Batch.{BatchTable, transferred, State, emit, Batch, flush_single}

-- The two lists as far as they are filled, and the number of their entries.
pub record SgLists : Type 0 where
  pub npages : ℕ
  pub dsts : List Sg
  pub srcs : List Sg

abbrev pub no_pages : SgLists
no_pages = record { npages = 0; dsts = []; srcs = [] }

-- One page more. The lists have MAX_NR_SG entries, so `sgs` and `sgd` are NULL only where the test of
-- `npages` has failed before. A destination is entered without `dma_length`, and so is a source.
abbrev pub append_page : Machine → (src dst : ℕ) → SgLists → SgLists
append_page m src dst g = record {
  npages = g.npages + 1;
  dsts = g.dsts ++ dst_entry m false dst ∷ [];
  srcs = g.srcs ++ dst_entry m false src ∷ [];
}

-- The loop over the pages of a request, with the rounds left.
unfoldable pub append_pages :
    Machine → (opage npage : ℕ → Lookup) → (rounds j : ℕ) → SgLists → Code State SgLists
append_pages m opage npage zero j g = pure g
append_pages m opage npage (suc rounds) j g = do
  src ← checked_page m (opage j)
  dst ← checked_page m (npage j)
  assert (not (g.npages == m.max_nr_sg))
  append_pages m opage npage rounds (j + 1) (append_page m src dst g)

-- The pages of a request, of 4K each. `has_memory` tells if the page arrays can be allocated.
unfoldable pub add_copy : Machine → (has_memory : Bool) → Desc → SgLists → Code State SgLists
add_copy m has_memory d g = do
  let count : ℕ = 2 ^ order d
  let paddr : ℕ = base_to_virt m.field_modulus (virt_base d)
  let paddr1 : ℕ = base_to_virt m.field_modulus (virt_base_dest d)
  vma ← checked_vma (m.find_vma paddr) paddr
  vma1 ← checked_vma (m.find_vma paddr1) paddr1
  assert has_memory
  append_pages m (m.follow_page_range vma paddr count) (m.follow_page_range vma1 paddr1 count) count
      0 g

abbrev pub batch_table : Batch SgLists → BatchTable
batch_table b = record { num_mig_descs = b.count; num_pages = b.made.npages }

-- The setup of the table, and the transfer. The debugging number `tx_id` and the end mark in
-- `pg_desc` are left out.
unfoldable pub launch_copy : Machine → Batch SgLists → Code State (Unit {0})
launch_copy m b = do
  assert (not (b.made.npages == 0))
  assert (m.prep_dma_sg b.made.dsts b.made.srcs true)
  emit (transferred b.made.dsts b.made.srcs (batch_table b))

unfoldable pub flush_single_qreq_noremap2 :
    Machine
    → (has_memory : Bool) → (fuel junk : ℕ) → (link : DescPtr) → (user : Bool) → Code State ℕ
flush_single_qreq_noremap2 m has_memory fuel junk link user =
    flush_single has_memory fuel junk link user (add_copy m has_memory) (launch_copy m) no_pages
