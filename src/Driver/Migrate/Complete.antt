-- ===== src/Driver/Migrate/Complete.antt =====
-- `dma_complete_one_mig` of migrate-x86/migrate-x86.c: once its contents are copied, the new page
-- of a `mig_pg_desc` takes the place of the old one, unless someone has touched it.
pub mod Replaced
use memif_user_release.Base.{
  ℕ, ◌≡◌, ◌≢◌, refl, ◌⊎◌, Bool, true, false, not, ◌&&◌, ◌||◌, Option, none, some, List, [], ◌∷◌,
  ◌++◌, if◌then◌else◌, ◌==◌, arith, Bool-cases, inl, inr, ==-refl,
}
use memif_user_release.Region.Run.{ok, bug, Outcome, Code, ◌>>=◌, ◌>>◌, pure, assert}

-- The bits and fields of a `struct page` that the code looks at.
pub record Page : Type 0 where
  pub error : Bool
  pub referenced : Bool
  pub uptodate : Bool
  pub active : Bool
  pub unevictable : Bool
  pub checked : Bool
  pub mapped_to_disk : Bool
  pub dirty : Bool
  pub swap_backed : Bool
  pub swap_cache : Bool
  pub private_bit : Bool
  pub private_field : ℕ
  pub writeback : Bool
  pub locked : Bool
  pub mapping : Option ℕ

-- Calls into the memory manager, on the old page and the new one.
pub data Call : Type 0 where
  clear_page_dirty_for_io : Call
  set_page_dirty_nobuffers : Call
  mlock_migrate_page : Call
  ksm_migrate_page : Call
  end_page_writeback : Call
  list_del : Call
  dec_zone_page_state : Call
  putback_lru_page : Call
  putback_active_hugepage : Call
  hugetlb_cgroup_migrate : Call
  putback_new_lru_page : Call
  putback_new_active_hugepage : Call

-- The page table entry at `ptep`, the two pages, which are different, and the calls, newest first.
pub record Moving : Type 0 where
  pub pte : ℕ
  pub old : Page
  pub new : Page
  pub calls : List Call

abbrev pub call : Call → Code Moving (Unit {0})
call c s = ok tt (record s { calls = c ∷ s.calls })

abbrev pub set_old : (Page → Page) → Code Moving (Unit {0})
set_old f s = ok tt (record s { old = f s.old })

abbrev pub set_new : (Page → Page) → Code Moving (Unit {0})
set_new f s = ok tt (record s { new = f s.new })

-- `if (Page...(page)) ...`
abbrev pub if_old : (Page → Bool) → Code Moving (Unit {0}) → Code Moving (Unit {0})
if_old test c s = if test s.old then c s else ok tt s

-- `__sync_bool_compare_and_swap` on the entry.
abbrev pub cas_pte : (old new : ℕ) → Code Moving Bool
cas_pte old new s = if s.pte == old then ok true (record s { pte = new }) else ok false s

-- The bits that are copied one by one; `debug_vm` tells if VM_BUG_ON is compiled in.
unfoldable pub copy_bits : (debug_vm : Bool) → Code Moving (Unit {0})
copy_bits debug_vm = do
  if_old (λ p. p.error) (set_new (λ q. record q { error = true }))
  if_old (λ p. p.referenced) (set_new (λ q. record q { referenced = true }))
  if_old (λ p. p.uptodate) (set_new (λ q. record q { uptodate = true }))
  active ← (λ s. ok s.old.active (record s { old = record (s.old) { active = false } }))
  (if active
      then (do
        if_old (λ p. debug_vm && p.unevictable) (λ s. bug)
        set_new (λ q. record q { active = true }))
      else (do
        unevictable ←
            (λ s. ok s.old.unevictable (record s { old = record (s.old) { unevictable = false } }))
        if unevictable then set_new (λ q. record q { unevictable = true }) else pure tt))
  if_old (λ p. p.checked) (set_new (λ q. record q { checked = true }))
  if_old (λ p. p.mapped_to_disk) (set_new (λ q. record q { mapped_to_disk = true }))

-- A dirty page leaves a dirty page.
unfoldable pub copy_dirty : Code Moving (Unit {0})
copy_dirty =
    if_old (λ p. p.dirty)
      (do
        call clear_page_dirty_for_io
        λ s.
            if s.old.swap_backed
            then set_new (λ q. record q { dirty = true }) s
            else call set_page_dirty_nobuffers s)

-- Both pages go back to their lists. `huge` is the global variable `huge_page`.
unfoldable pub put_back : (huge : Bool) → Code Moving (Unit {0})
put_back true = do
  call putback_active_hugepage
  call hugetlb_cgroup_migrate
  call putback_new_active_hugepage
put_back false = do
  call list_del
  call dec_zone_page_state
  call putback_lru_page
  call putback_new_lru_page

-- The old page is given up.
unfoldable pub give_up : Code Moving (Unit {0})
give_up = do
  call mlock_migrate_page
  call ksm_migrate_page
  set_old (λ p. record p { swap_cache = false })
  set_old (λ p. record p { private_bit = false })
  set_old (λ p. record p { private_field = 0 })
  (λ s. if s.new.writeback then call end_page_writeback s else ok tt s)
  set_old (λ p. record p { mapping = none })
  set_new (λ q. record q { locked = false })
  set_old (λ p. record p { locked = false })

-- `pte` is the entry that `install_new_pte` has put there, and `pte_mkold` the kernel's. The result
-- is `true` for MIGRATEPAGE_SUCCESS, `false` for -1.
unfoldable pub dma_complete_one_mig :
    (pte_mkold : ℕ → ℕ) → (debug_vm huge : Bool) → (pte : ℕ) → Code Moving Bool
unfolding copy_bits copy_dirty give_up put_back
dma_complete_one_mig pte_mkold debug_vm huge pte = do
  swapped ← cas_pte pte (pte_mkold pte)
  if not swapped
      then pure false
      else do copy_bits debug_vm; copy_dirty; give_up; put_back huge; pure true
