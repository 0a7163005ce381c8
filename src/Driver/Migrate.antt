-- ===== src/Driver/Migrate.antt =====
-- `issue_one_desc_mig` of migrate-x86/migrate-x86.c: it gives every page of a request a new page on
-- the node of the request, lets the page tables name it, and submits one DMA transfer.
pub mod Pages
pub mod Whole
pub mod Complete
pub mod Install
use memif_user_release.Base.{
  ℕ, zero, suc, ◌+◌, ◌^◌, Bool, true, false, not, ◌&&◌, ◌||◌, Option, none, some, List, [], ◌∷◌,
  if◌then◌else◌, leb, ◌==◌,
}
use memif_user_release.Desc.{Desc, order, node, huge_page, virt_base, base_to_virt}
use memif_user_release.Region.Run.{ok, bug, spinning, Outcome, pure, ◌>>=◌, ◌>>◌, Code, assert}
use memif_user_release.Driver.{mig, Table, submitted, Kernel, on_region, emit}
use memif_user_release.Driver.Copy.{
  Lookup, err, null, found, Sg, Machine, checked_vma, checked_page, src_entry, dst_entry, lookup,
  desc_of,
}

-- What the kernel answers about a page when it is asked, beyond Machine; the new pages, by node and
-- round. NULL is `none`.
pub record Mm : Type 0 where
  pub machine : Machine
  pub isolate_lru_page : ℕ → Bool
  pub page_head : ℕ → Bool
  pub alloc_pages_exact_node : (node j : ℕ) → Lookup
  pub alloc_huge_page_node : (page node j : ℕ) → Lookup
  pub page_trans_huge : ℕ → Bool
  pub trylock_page : ℕ → Bool
  pub page_anon : ℕ → Bool
  pub page_ksm : ℕ → Bool
  pub page_get_anon_vma : ℕ → Option ℕ
  pub balloon_page_movable : ℕ → Bool
  pub index : ℕ → ℕ
  pub mapping : ℕ → Option ℕ
  pub page_swap_backed : ℕ → Bool
  pub page_writeback : ℕ → Bool

-- What is done to pages. `isolate` is all that follows a successful `isolate_lru_page`. `adopt`
-- gives a new page an index and a mapping; `walk` is the `rmap_walk` with `install_new_pte`, for
-- the page of a round.
pub data PageOp : Type 0 where
  isolate : ℕ → PageOp
  isolate_huge : ℕ → PageOp
  put : ℕ → PageOp
  lock : ℕ → PageOp
  adopt : (newpage index mapping : ℕ) → PageOp
  set_swap_backed : ℕ → PageOp
  walk : (newpage j : ℕ) → PageOp
  put_anon_vma : ℕ → PageOp

-- The kernel, the global variable `huge_page`, and what has been done to pages, newest first.
pub record Migrating : Type 0 where
  pub kernel : Kernel
  pub huge : Bool
  pub ops : List PageOp

abbrev pub page_op : PageOp → Code Migrating (Unit {0})
page_op o s = ok tt (record s { ops = o ∷ s.ops })

abbrev pub in_kernel : {A : Type 0} → Code Kernel A → Code Migrating A
in_kernel c s = elim (c s.kernel) [
  | ok a k ↦ ok a (record s { kernel = k })
  | bug ↦ bug
  | spinning ↦ spinning
]

abbrev pub set_huge : Bool → Code Migrating (Unit {0})
set_huge b s = ok tt (record s { huge = b })

-- `isolate_huge_page` is not asked for its result.
abbrev pub isolate_page : Mm → (huge : Bool) → ℕ → Code Migrating (Unit {0})
isolate_page m false page = do assert (m.isolate_lru_page page); page_op (isolate page)
isolate_page m true page = if m.page_head page then page_op (isolate_huge page) else pure tt

-- A page of 4K is on the node of the request, one of 2M always on node 1.
abbrev pub new_page : Mm → (huge : Bool) → (node page j : ℕ) → Lookup
new_page m false node page j = m.alloc_pages_exact_node node j
new_page m true node page j = m.alloc_huge_page_node page 1 j

-- The reference on the `anon_vma` of an anonymous page.
abbrev pub anon_vma_of : Mm → ℕ → Code Migrating (Option ℕ)
anon_vma_of m page =
    if m.page_anon page && not (m.page_ksm page)
    then elim (m.page_get_anon_vma page) [ none ↦ (λ _. bug) | some v ↦ pure (some v) ]
    else pure none

abbrev pub not_null : Option ℕ → Code Migrating ℕ
not_null none = λ _. bug
not_null (some x) = pure x

abbrev pub drop_anon_vma : Option ℕ → Code Migrating (Unit {0})
drop_anon_vma none = pure tt
drop_anon_vma (some v) = page_op (put_anon_vma v)

-- The body of the loop over the pages, up to the scatter lists: the old page and the new one, which
-- `pg_desc[j]` holds.
unfoldable pub migrate_page :
    Mm → (huge : Bool) → (node : ℕ) → (look : Lookup) → (j : ℕ) → Code Migrating (ℕ × ℕ)
migrate_page m huge node look j = do
  page ← checked_page m.machine look
  isolate_page m huge page
  page_op (put page)
  assert (node == 0 || node == 1)
  newpage ← checked_page m.machine (new_page m huge node page j)
  assert (huge || not (m.page_trans_huge newpage))
  assert (m.trylock_page page)
  page_op (lock page)
  anon_vma ← anon_vma_of m page
  assert (not (m.balloon_page_movable page))
  mapping ← not_null (m.mapping page)
  assert (m.trylock_page newpage)
  page_op (lock newpage)
  page_op (adopt newpage (m.index page) mapping)
  (if m.page_swap_backed page then page_op (set_swap_backed newpage) else pure tt)
  assert (not (m.page_writeback page))
  page_op (walk newpage j)
  drop_anon_vma anon_vma
  pure (page, newpage)

-- The loop, with the rounds left: the pages of each round, old and new.
unfoldable pub migrate_pages :
    Mm
    → (huge : Bool) → (node : ℕ) → (look : ℕ → Lookup) → (rounds j : ℕ)
    → Code Migrating (List (ℕ × ℕ))
migrate_pages m huge node look zero j = pure []
migrate_pages m huge node look (suc rounds) j = do
  pair ← migrate_page m huge node (look j) j
  rest ← migrate_pages m huge node look rounds (j + 1)
  pure (pair ∷ rest)

-- The scatter lists hold the pages of each round.
abbrev pub dsts_of : Mm → (huge : Bool) → List (ℕ × ℕ) → List Sg
dsts_of m huge [] = []
dsts_of m huge (p ∷ l) = dst_entry m.machine huge p.1 ∷ dsts_of m huge l

abbrev pub srcs_of : Mm → (huge : Bool) → List (ℕ × ℕ) → List Sg
srcs_of m huge [] = []
srcs_of m huge (p ∷ l) = src_entry m.machine huge p.0 ∷ srcs_of m huge l

-- The table, and its `pg_desc` without the end mark. `has_memory` tells if the allocations succeed: of the table, the
-- lists and the page array.
unfoldable pub issue_one_desc_mig :
    Mm → (has_memory : Bool) → (desc : ℕ) → (do_irq : Bool) → Code Migrating (Table × List (ℕ × ℕ))
issue_one_desc_mig m has_memory desc do_irq = do
  d ← in_kernel (on_region (desc_of desc))
  let count : ℕ = 2 ^ order d
  let huge : Bool = not (huge_page d == 0)
  let paddr : ℕ = base_to_virt m.machine.field_modulus (virt_base d)
  set_huge huge
  assert has_memory
  assert (leb count m.machine.max_nr_sg)
  vma ← checked_vma (m.machine.find_vma paddr) paddr
  pages ← migrate_pages m huge (node d) (lookup m.machine huge vma paddr count) count 0
  assert (m.machine.prep_dma_sg (dsts_of m huge pages) (srcs_of m huge pages) do_irq)
  in_kernel (emit (submitted desc do_irq))
  pure (
    record { func = mig; num_pages = count; migdesc = desc; user_cpu = m.machine.processor_id },
    pages,
  )
