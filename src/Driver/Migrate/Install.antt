-- ===== src/Driver/Migrate/Install.antt =====
-- `install_new_pte` of migrate-x86/migrate-x86.c: a page table entry that named the old page is
-- made to name the new one, and kept for `dma_complete_one_mig`.
use memif_user_release.Base.{
  ℕ, ◌≡◌, refl, Bool, true, false, Option, none, some, if◌then◌else◌, update, update_self,
  ℕ_discrete,
}
use memif_user_release.Region.Run.{ok, Code, pure}

-- What the architecture does with entries: `set_pte_at` may add bits of its own.
pub record Arch : Type 0 where
  pub mk_pte : (page : ℕ) → ℕ
  pub mkyoung : ℕ → ℕ
  pub mkold : ℕ → ℕ
  pub mkwrite : ℕ → ℕ
  pub mkhuge : ℕ → ℕ
  pub make_huge_pte : ℕ → ℕ
  pub writable : ℕ → Bool
  pub set_pte_at : ℕ → ℕ

-- What the architecture promises of them: each function sets its own bit, and keeps the page and
-- the other bits. `page_of` is `pte_page`, `young` is `pte_young`.
pub record Lawful (a : Arch) : Type 0 where
  pub page_of : ℕ → ℕ
  pub young : ℕ → Bool
  pub page_of-mk_pte : (page : ℕ) → page_of (a.mk_pte page) ≡ page
  pub page_of-mkyoung : (e : ℕ) → page_of (a.mkyoung e) ≡ page_of e
  pub page_of-mkold : (e : ℕ) → page_of (a.mkold e) ≡ page_of e
  pub page_of-mkwrite : (e : ℕ) → page_of (a.mkwrite e) ≡ page_of e
  pub page_of-mkhuge : (e : ℕ) → page_of (a.mkhuge e) ≡ page_of e
  pub page_of-make_huge_pte : (e : ℕ) → page_of (a.make_huge_pte e) ≡ page_of e
  pub page_of-set_pte_at : (e : ℕ) → page_of (a.set_pte_at e) ≡ page_of e
  pub young-mkyoung : (e : ℕ) → young (a.mkyoung e) ≡ true
  pub young-mkold : (e : ℕ) → young (a.mkold e) ≡ false
  pub young-mkwrite : (e : ℕ) → young (a.mkwrite e) ≡ young e
  pub young-mkhuge : (e : ℕ) → young (a.mkhuge e) ≡ young e
  pub young-make_huge_pte : (e : ℕ) → young (a.make_huge_pte e) ≡ young e
  pub young-set_pte_at : (e : ℕ) → young (a.set_pte_at e) ≡ young e
  pub writable-mkwrite : (e : ℕ) → a.writable (a.mkwrite e) ≡ true
  pub writable-mkold : (e : ℕ) → a.writable (a.mkold e) ≡ a.writable e
  pub writable-mkhuge : (e : ℕ) → a.writable (a.mkhuge e) ≡ a.writable e
  pub writable-make_huge_pte : (e : ℕ) → a.writable (a.make_huge_pte e) ≡ a.writable e
  pub writable-set_pte_at : (e : ℕ) → a.writable (a.set_pte_at e) ≡ a.writable e

-- How the walk finds the entry of an address: of a huge page by `huge_pte_offset`, of others by
-- `mm_find_pmd`, in which there is no transparent huge page. NULL is `none`.
pub record Walk : Type 0 where
  pub huge_pte_offset : Option ℕ
  pub find_pmd : Option ℕ
  pub trans_huge : ℕ → Bool
  pub pte_offset_map : ℕ → ℕ

abbrev pub small_entry : Walk → Option ℕ → Option ℕ
small_entry w none = none
small_entry w (some pmd) = if w.trans_huge pmd then none else some (w.pte_offset_map pmd)

abbrev pub find_entry : Walk → (huge : Bool) → Option ℕ
find_entry w true = w.huge_pte_offset
find_entry w false = small_entry w w.find_pmd

-- The entries in memory, and `ptep` and `pte` of the `mig_pg_desc`. References and the counts of
-- mappings are left out.
pub record Ptes : Type 0 where
  pub entry : ℕ → ℕ
  pub ptep : ℕ
  pub pte : ℕ

-- The entry for the new page.
unfoldable pub new_pte : Arch → (huge : Bool) → (newpage oldpte : ℕ) → ℕ
new_pte a huge newpage oldpte =
    let young : ℕ = a.mkyoung (a.mk_pte newpage) in
    let pte : ℕ = if a.writable oldpte then a.mkwrite young else young in
    if huge then a.make_huge_pte (a.mkhuge pte) else pte

abbrev pub install_at : Arch → (huge : Bool) → (newpage : ℕ) → Option ℕ → Code Ptes (Unit {0})
install_at a huge newpage none = pure tt
install_at a huge newpage (some p) = λ s.
    let entry : ℕ → ℕ =
      update ℕ_discrete s.entry p (a.set_pte_at (new_pte a huge newpage (s.entry p))) in
    ok tt (record { entry = entry; ptep = p; pte = entry p })

-- It returns SWAP_AGAIN on both paths. `huge` is what `PageHuge` says of the new page.
unfoldable pub install_new_pte : Arch → Walk → (huge : Bool) → (newpage : ℕ) → Code Ptes (Unit {0})
install_new_pte a w huge newpage = install_at a huge newpage (find_entry w huge)

module _ (a : Arch) (w : Walk) (huge : Bool) (newpage p : ℕ) (s : Ptes) where
  -- The entries after it.
  abbrev pub installed : Ptes
  installed =
      let new : ℕ = a.set_pte_at (new_pte a huge newpage (s.entry p)) in
      record { entry = update ℕ_discrete s.entry p new; ptep = p; pte = new }

  pub install_new_pte-installed :
      find_entry w huge ≡ some p → install_new_pte a w huge newpage s ≡ ok tt installed
  unfolding install_new_pte
  install_new_pte-installed found =
      rw
        (
          found,
          update_self ℕ_discrete s.entry p (a.set_pte_at (new_pte a huge newpage (s.entry p))),
        )
        refl

-- The entry that a new page gets where `old` names the old page: it names the new page, is young,
-- and may be written to if `old` may.
pub record IsEntryFor (a : Arch) (law : Lawful a) (newpage old pte : ℕ) : Type 0 where
  pub names : law.page_of pte ≡ newpage
  pub fresh : law.young pte ≡ true
  pub allowed : a.writable old ≡ true → a.writable pte ≡ true

module _ (a : Arch) (law : Lawful a) (newpage old : ℕ) where
  abbrev based : Bool → ℕ
  based true = a.mkwrite (a.mkyoung (a.mk_pte newpage))
  based false = a.mkyoung (a.mk_pte newpage)

-- The entry that takes the place of `pte` once the page is copied: it still names `newpage`, is old,
-- and may be written to as `pte` may.
pub record IsSettled (a : Arch) (law : Lawful a) (newpage pte final : ℕ) : Type 0 where
  pub names : law.page_of final ≡ newpage
  pub aged : law.young final ≡ false
  pub allowed : a.writable final ≡ a.writable pte
