-- ===== src/Tests/Migrating.antt =====
-- A request of two pages that are moved, and a page whose contents have been copied.
use memif_user_release.Base.{
  ℕ, ◌+◌, ◌*◌, ◌≡◌, refl, true, false, none, some, List, [], ◌∷◌, arith, ◌↔◌, if◌then◌else◌, ◌==◌,
  ◌/◌, ◌%◌,
}
use memif_user_release.Desc.{order, base_to_virt, virt_base, huge_page, node}
use memif_user_release.Region.Run.{ok}
use memif_user_release.Driver.Copy.{found}
use memif_user_release.Driver.Migrate.{Mm, Migrating, issue_one_desc_mig}
use memif_user_release.Driver.Migrate.Pages.{IsMovable}
use memif_user_release.Driver.Migrate.Whole.{
  IsMigratable, migrated, table_of, issue_one_desc_mig_iff,
}
use memif_user_release.Driver.Migrate.Complete.{Page, Moving, dma_complete_one_mig}
use memif_user_release.Driver.Migrate.Complete.Replaced.{replaced, dma_complete_one_mig-replaced}
use memif_user_release.Driver.Migrate.Install.{Arch, Walk, Ptes}
use memif_user_release.Tests.Copying.{machine, kernel, two_pages}

abbrev mm : Mm
mm = record {
  machine = machine;
  isolate_lru_page = λ page. true;
  page_head = λ page. false;
  alloc_pages_exact_node = λ node j. found (1000 + j);
  alloc_huge_page_node = λ page node j. found (2000 + j);
  page_trans_huge = λ page. false;
  trylock_page = λ page. true;
  page_anon = λ page. true;
  page_ksm = λ page. false;
  page_get_anon_vma = λ page. some 7;
  balloon_page_movable = λ page. false;
  index = λ page. page + 50;
  mapping = λ page. some 9;
  page_swap_backed = λ page. true;
  page_writeback = λ page. false;
}

abbrev before : Migrating
before = record { kernel = kernel; huge = true; ops = [] }

abbrev moves : List (ℕ × ℕ)
moves = (5, 1000) ∷ (6, 1001) ∷ []

movable :
    (j page newpage : ℕ) → newpage ≡ 1000 + j → IsMovable mm false 0 (found page) j page newpage
movable j page newpage e = record {
  here = refl;
  single = omega arith;
  isolated = λ b. refl;
  fresh_small = λ b. rw e refl;
  fresh_huge = λ b. cc;
  unmapped = omega arith;
  plain = λ b. refl;
  free = refl;
  anchored = λ b n. cc;
  solid = refl;
  mapped = refl;
  free_new = refl;
  clean = refl;
}

two_pages-IsMigratable : IsMigratable mm two_pages true moves
unfolding base_to_virt virt_base order huge_page node
two_pages-IsMigratable = record {
  few = omega arith;
  vma = record { vm_start = 4096; migratable = true };
  at = refl;
  inside = omega arith;
  free = refl;
  movable = (movable 0 5 1000 refl, (movable 1 6 1001 refl, tt));
  accepted = refl;
}

mig_example :
    (issue_one_desc_mig mm true 1 true before
      ≡ ok (table_of mm 1 two_pages, moves) (migrated mm 1 true moves before))
    ↔ (IsMigratable mm two_pages true moves
        × (table_of mm 1 two_pages ≡ table_of mm 1 two_pages)
        × (migrated mm 1 true moves before ≡ migrated mm 1 true moves before))
mig_example =
    issue_one_desc_mig_iff mm 1 true moves before (table_of mm 1 two_pages)
      (migrated mm 1 true moves before)

-- The right side holds.
mig_returns :
    issue_one_desc_mig mm true 1 true before
    ≡ ok (table_of mm 1 two_pages, moves) (migrated mm 1 true moves before)
mig_returns =
    (issue_one_desc_mig_iff mm 1 true moves before (table_of mm 1 two_pages)
        (migrated mm 1 true moves before)).1
      (two_pages-IsMigratable, refl, refl)

abbrev page : Page
page = record {
  error = false;
  referenced = true;
  uptodate = true;
  active = true;
  unevictable = false;
  checked = false;
  mapped_to_disk = false;
  dirty = true;
  swap_backed = true;
  swap_cache = false;
  private_bit = false;
  private_field = 0;
  writeback = false;
  locked = true;
  mapping = some 9;
}

abbrev moving : Moving
moving = record {
  pte = 77;
  old = page;
  new = record page { referenced = false; uptodate = false; active = false; dirty = false };
  calls = [];
}

complete_example :
    dma_complete_one_mig (λ e. e + 1) true false 77 moving
    ≡ (if moving.pte == 77 then ok true (replaced false 78 moving) else ok false moving)
complete_example = dma_complete_one_mig-replaced (λ e. e + 1) true false 77 moving refl

-- An entry that has the bit "young", the bit "writable", and the page from bit 2 on.
abbrev arch : Arch
arch = record {
  mk_pte = λ p. p * 4;
  mkyoung = λ e. e / 2 * 2 + 1;
  mkold = λ e. e / 2 * 2;
  mkwrite = λ e. e / 4 * 4 + 2 + e % 2;
  mkhuge = λ e. e;
  make_huge_pte = λ e. e;
  writable = λ e. e / 2 % 2 == 1;
  set_pte_at = λ e. e;
}

abbrev way : Walk
way = record {
  huge_pte_offset = none;
  find_pmd = some 3;
  trans_huge = λ p. false;
  pte_offset_map = λ p. p + 40;
}

abbrev ptes : Ptes
ptes = record { entry = λ i. 6; ptep = 0; pte = 0 }
