-- ===== src/Driver/Migrate/Whole.antt =====
-- When `issue_one_desc_mig` gets through, and what it has done then.
use memif_user_release.Base.{
  ℕ, zero, suc, ◌+◌, ◌^◌, ◌≡◌, refl, ◌<◌, ◌≤◌, ap, subst, ◌∙◌, Bool, true, false, not, Option, none,
  some, List, [], ◌∷◌, ◌++◌, leb, ◌==◌, arith, ◌↔◌,
}
use mathlib.Core.List.{append_assoc}
use memif_user_release.Desc.{Desc, order, node, huge_page, virt_base, base_to_virt}
use memif_user_release.Region.Run.{ok, bug, spinning, Outcome, assert, after-ok}
use memif_user_release.Driver.{mig, Table, submitted}
use memif_user_release.Driver.Copy.{Vma, Lookup, Sg, Machine, checked_vma, lookup}
use memif_user_release.Driver.Copy.Expected.{
  page_at, old_entry, new_entry, bytes-page_bytes, lookup-page_at,
}
use memif_user_release.Driver.Copy.Lists.{checked_vma_lem}
use memif_user_release.Driver.Migrate.{
  Mm, PageOp, Migrating, migrate_page, migrate_pages, dsts_of, srcs_of, issue_one_desc_mig,
}
use memif_user_release.Driver.Migrate.Pages.{IsMovable, moved, migrate_page_lem, IsMovable-of_ok}

-- Round by round, a page that can be moved, and its new page.
abbrev pub AllMovable :
    Mm → (huge : Bool) → (side : ℕ) → (ℕ → Lookup) → (rounds j : ℕ) → List (ℕ × ℕ) → Type 0
AllMovable m huge side look zero j [] = Unit
AllMovable m huge side look zero j (p ∷ l) = ⊥
AllMovable m huge side look (suc rounds) j [] = ⊥
AllMovable m huge side look (suc rounds) j (p ∷ l) =
    IsMovable m huge side (look j) j p.0 p.1 × AllMovable m huge side look rounds (j + 1) l

-- What is done for all pages from round `j` on, newest first.
abbrev pub all_moved : Mm → Bool → (j : ℕ) → List (ℕ × ℕ) → List PageOp
all_moved m huge j [] = []
all_moved m huge j (p ∷ l) = all_moved m huge (j + 1) l ++ moved m huge j p.0 p.1

migrate_pages_lem :
    (m : Mm) (huge : Bool) (side : ℕ) (look : ℕ → Lookup) (rounds j : ℕ) (pages : List (ℕ × ℕ))
    (s : Migrating)
    → side < 2
    → AllMovable m huge side look rounds j pages
    → migrate_pages m huge side look rounds j s
      ≡ ok pages (record s { ops = all_moved m huge j pages ++ s.ops })
unfolding migrate_pages
migrate_pages_lem m huge side look zero j [] s two h = refl
migrate_pages_lem m huge side look zero j (p ∷ l) s two h = absurd h
migrate_pages_lem m huge side look (suc rounds) j [] s two h = absurd h
migrate_pages_lem m huge side look (suc rounds) j ((page, newpage) ∷ l) s two h =
    rw
      (
        migrate_page_lem m huge side (look j) j page newpage s two h.0,
        migrate_pages_lem m huge side look rounds (j + 1) l _ two h.1,
        append_assoc (all_moved m huge (j + 1) l) (moved m huge j page newpage) s.ops,
      )
      refl

AllMovable-of_ok :
    (m : Mm) (huge : Bool) (side : ℕ) (look : ℕ → Lookup) (rounds j : ℕ) (pages : List (ℕ × ℕ))
    (s s' : Migrating)
    → migrate_pages m huge side look rounds j s ≡ ok pages s'
    → AllMovable m huge side look rounds j pages
unfolding migrate_pages
AllMovable-of_ok m huge side look zero j [] s s' e = tt
AllMovable-of_ok m huge side look zero j (p ∷ l) s s' e = cc
AllMovable-of_ok m huge side look (suc rounds) j [] s s' e =
    let (pair, s1, first, e1) = after-ok (migrate_page m huge side (look j) j s) e in
    let (rest, s2, more, e2) = after-ok (migrate_pages m huge side look rounds (j + 1) s1) e1 in cc
AllMovable-of_ok m huge side look (suc rounds) j (p ∷ l) s s' e =
    let (pair, s1, first, e1) = after-ok (migrate_page m huge side (look j) j s) e in
    let (rest, s2, more, e2) = after-ok (migrate_pages m huge side look rounds (j + 1) s1) e1 in
    let same : pair ≡ p = cc in
    let same_rest : rest ≡ l = cc in
    (
      subst (λ q. IsMovable m huge side (look j) j q.0 q.1) same
          (IsMovable-of_ok m huge side (look j) j pair.0 pair.1 s s1 first),
      subst (AllMovable m huge side look rounds (j + 1)) same_rest
          (AllMovable-of_ok m huge side look rounds (j + 1) rest s1 s2 more),
    )

-- The two lists that the DMA engine gets.
abbrev pub old_pages : Machine → (huge : Bool) → List (ℕ × ℕ) → List Sg
old_pages m huge [] = []
old_pages m huge ((old, new) ∷ l) = old_entry m huge old ∷ old_pages m huge l

abbrev pub new_pages : Machine → (huge : Bool) → List (ℕ × ℕ) → List Sg
new_pages m huge [] = []
new_pages m huge ((old, new) ∷ l) = new_entry m huge new ∷ new_pages m huge l

srcs_of-old_pages :
    (m : Mm) (huge : Bool) (l : List (ℕ × ℕ)) → srcs_of m huge l ≡ old_pages m.machine huge l
srcs_of-old_pages m huge [] = refl
srcs_of-old_pages m huge ((old, new) ∷ l) =
    rw (bytes-page_bytes huge, srcs_of-old_pages m huge l) refl

dsts_of-new_pages :
    (m : Mm) (huge : Bool) (l : List (ℕ × ℕ)) → dsts_of m huge l ≡ new_pages m.machine huge l
dsts_of-new_pages m huge [] = refl
dsts_of-new_pages m huge ((old, new) ∷ l) =
    rw (bytes-page_bytes huge, dsts_of-new_pages m huge l) refl

-- The request of descriptor `d`: a migratable mapping, and as many pages that can be moved as the
-- descriptor says, with lists that the DMA engine takes.
pub record IsMigratable (m : Mm) (d : Desc) (do_irq : Bool) (pages : List (ℕ × ℕ)) : Type 0 where
  pub few : 2 ^ order d ≤ m.machine.max_nr_sg
  pub vma : Vma
  pub at : m.machine.find_vma (base_to_virt m.machine.field_modulus (virt_base d)) ≡ some vma
  pub inside : vma.vm_start ≤ base_to_virt m.machine.field_modulus (virt_base d)
  pub free : vma.migratable ≡ true
  pub movable :
      AllMovable m
        (not (huge_page d == 0))
        (node d)
        (page_at m.machine
          (not (huge_page d == 0))
          vma
          (base_to_virt m.machine.field_modulus (virt_base d))
          (2 ^ order d))
        (2 ^ order d)
        0
        pages
  pub accepted :
      m.machine.prep_dma_sg
        (new_pages m.machine (not (huge_page d == 0)) pages)
        (old_pages m.machine (not (huge_page d == 0)) pages)
        do_irq
      ≡ true

-- After the migration: the global variable says which size of page, the pages are moved, and the
-- descriptor is submitted.
abbrev pub migrated : Mm → (desc : ℕ) → (do_irq : Bool) → List (ℕ × ℕ) → Migrating → Migrating
migrated m desc do_irq pages s = record {
  kernel = record (s.kernel) { trace = submitted desc do_irq ∷ s.kernel.trace };
  huge = not (huge_page (s.kernel.region.desc desc) == 0);
  ops = all_moved m (not (huge_page (s.kernel.region.desc desc) == 0)) 0 pages ++ s.ops;
}

abbrev pub table_of : Mm → (desc : ℕ) → Desc → Table
table_of m desc d = record {
  func = mig;
  num_pages = 2 ^ order d;
  migdesc = desc;
  user_cpu = m.machine.processor_id;
}

assert-ok : {S : Type 0} (b : Bool) (s : S) {s' : S} → assert b s ≡ ok tt s' → (b ≡ true) × (s' ≡ s)
assert-ok true s e = (refl, cc)
assert-ok false s e = cc

checked_vma-ok :
    {S : Type 0} (o : Option Vma) (paddr : ℕ) (s : S) {vma : Vma} {s' : S}
    → checked_vma o paddr s ≡ ok vma s'
    → (o ≡ some vma) × (vma.vm_start ≤ paddr) × (vma.migratable ≡ true)
unfolding checked_vma
checked_vma-ok none paddr s e = cc
checked_vma-ok (some v) paddr s e = (ground arith, ground arith, ground arith)

abbrev pages_of : Outcome Migrating (Table × List (ℕ × ℕ)) → List (ℕ × ℕ)
pages_of (ok (t, l) s) = l
pages_of bug = []
pages_of spinning = []

module _ (m : Mm) (desc : ℕ) (do_irq : Bool) (pages : List (ℕ × ℕ)) (s : Migrating) where
  pub issue_one_desc_mig-migrated :
      IsMigratable m (s.kernel.region.desc desc) do_irq pages
      → issue_one_desc_mig m true desc do_irq s
        ≡ ok (table_of m desc (s.kernel.region.desc desc), pages) (migrated m desc do_irq pages s)
  unfolding issue_one_desc_mig node
  issue_one_desc_mig-migrated h =
      let d = s.kernel.region.desc desc in
      let huge : Bool = not (huge_page d == 0) in
      let fits : leb (2 ^ order d) m.machine.max_nr_sg ≡ true = ground (arith, h.few) in
      rw
        (
          fits,
          checked_vma_lem (base_to_virt m.machine.field_modulus (virt_base d)) _ h.at h.inside
              h.free,
          lookup-page_at m.machine huge,
          migrate_pages_lem m huge (node d) _ (2 ^ order d) 0 pages _ (omega arith) h.movable,
          dsts_of-new_pages m huge pages,
          srcs_of-old_pages m huge pages,
          h.accepted,
        )
        refl

  IsMigratable-of_ok :
      (t : Table) (s' : Migrating)
      → issue_one_desc_mig m true desc do_irq s ≡ ok (t, pages) s'
      → IsMigratable m (s.kernel.region.desc desc) do_irq pages
  unfolding issue_one_desc_mig
  IsMigratable-of_ok t s' e =
      let d = s.kernel.region.desc desc in
      let huge : Bool = not (huge_page d == 0) in
      let paddr : ℕ = base_to_virt m.machine.field_modulus (virt_base d) in
      let (x, s1, few, e1) = after-ok (assert (leb (2 ^ order d) m.machine.max_nr_sg) _) e in
      let (vma, s2, at, e2) = after-ok (checked_vma (m.machine.find_vma paddr) paddr s1) e1 in
      let (got, s3, run, e3) =
        after-ok
          (migrate_pages m huge (node d) (lookup m.machine huge vma paddr (2 ^ order d))
            (2 ^ order d) 0 s2)
          e2 in
      let (y, s4, prep, e4) =
        after-ok
          (assert (m.machine.prep_dma_sg (dsts_of m huge got) (srcs_of m huge got) do_irq) s3) e3 in
      let same : got ≡ pages = ap pages_of e4 in
      let (known, inside, free) = checked_vma-ok (m.machine.find_vma paddr) paddr s1 at in
      record {
        few = ground (arith, (assert-ok _ _ few).0);
        vma = vma;
        at = known;
        inside = inside;
        free = free;
        movable =
            subst
              (λ f. AllMovable m huge (node d) (f vma paddr (2 ^ order d)) (2 ^ order d) 0 pages)
              (lookup-page_at m.machine huge)
              (subst (AllMovable m huge (node d) _ (2 ^ order d) 0) same
                (AllMovable-of_ok m huge (node d) _ (2 ^ order d) 0 got s2 s3 run));
        accepted =
            subst (λ l. m.machine.prep_dma_sg l (old_pages m.machine huge pages) do_irq ≡ true)
              (dsts_of-new_pages m huge pages)
              (subst (λ l. m.machine.prep_dma_sg (dsts_of m huge pages) l do_irq ≡ true)
                (srcs_of-old_pages m huge pages)
                (subst
                  (λ l. m.machine.prep_dma_sg (dsts_of m huge l) (srcs_of m huge l) do_irq ≡ true)
                  same (assert-ok _ _ prep).0));
      }

  -- Where the allocations of its own memory succeed, `issue_one_desc_mig` returns exactly if the
  -- request is within a migratable mapping and each of its pages is found, mapped at most once, can
  -- be isolated and locked, has a mapping, is neither a balloon page nor under writeback, and gets
  -- a new page (for a 4 KB page one from the node of the request, for a huge page always one from
  -- node 1), and the DMA engine takes the list of the new pages as destination with the list of the
  -- old pages as source; otherwise the kernel stops. Then every new page has the index and the
  -- mapping of its old page, the page tables are walked for it once both are locked, the descriptor
  -- is submitted once, and the table has its pages, old and new, in order.
  pub issue_one_desc_mig_iff :
      (t : Table) (s' : Migrating)
      → (issue_one_desc_mig m true desc do_irq s ≡ ok (t, pages) s') ↔ (
          IsMigratable m (s.kernel.region.desc desc) do_irq pages
          × (t ≡ table_of m desc (s.kernel.region.desc desc))
          × (s' ≡ migrated m desc do_irq pages s))
  issue_one_desc_mig_iff t s' = (
    λ e.
        let h = IsMigratable-of_ok t s' e in
        let done = issue_one_desc_mig-migrated h in (h, cc, cc),
    λ (h, same_table, same_state). issue_one_desc_mig-migrated h ∙ cc,
  )
