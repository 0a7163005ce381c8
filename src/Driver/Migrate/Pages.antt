-- ===== src/Driver/Migrate/Pages.antt =====
-- Which pages a migration moves, and what it does to them.
use memif_user_release.Base.{
  ℕ, ◌≡◌, ◌≢◌, ◌<◌, ◌≤◌, Bool, true, false, not, ◌&&◌, Option, none, some, List, [], ◌∷◌, ◌++◌,
  if◌then◌else◌, arith,
}
use memif_user_release.Desc.{node}
use memif_user_release.Region.Run.{ok}
use memif_user_release.Driver.Copy.{Lookup, found, checked_page}
use memif_user_release.Driver.Migrate.{
  Mm, PageOp, isolate, isolate_huge, put, lock, adopt, set_swap_backed, walk, put_anon_vma,
  Migrating, migrate_page,
}

-- Does the code take a reference on the page's `anon_vma`?
abbrev pub anonymous : Mm → ℕ → Bool
anonymous m page = m.page_anon page && not (m.page_ksm page)

-- The mapping of a page that has one.
abbrev pub mapping_of : Mm → ℕ → ℕ
mapping_of m page = elim (m.mapping page) [ none ↦ 0 | some x ↦ x ]

-- A page that can be moved to a new page.
pub record IsMovable (m : Mm) (huge : Bool) (node : ℕ) (look : Lookup) (j page newpage : ℕ)
    : Type 0 where
  pub here : look ≡ found page
  pub single : m.machine.page_mapcount page ≤ 1
  pub isolated : huge ≡ false → m.isolate_lru_page page ≡ true
  pub fresh_small : huge ≡ false → m.alloc_pages_exact_node node j ≡ found newpage
  pub fresh_huge : huge ≡ true → m.alloc_huge_page_node page 1 j ≡ found newpage
  pub unmapped : m.machine.page_mapcount newpage ≤ 1
  pub plain : huge ≡ false → m.page_trans_huge newpage ≡ false
  pub free : m.trylock_page page ≡ true
  pub anchored : anonymous m page ≡ true → m.page_get_anon_vma page ≢ none
  pub solid : m.balloon_page_movable page ≡ false
  pub mapped : m.mapping page ≡ some (mapping_of m page)
  pub free_new : m.trylock_page newpage ≡ true
  pub clean : m.page_writeback page ≡ false

-- What is done for one page, newest first.
abbrev pub when : Bool → PageOp → List PageOp
when true o = o ∷ []
when false o = []

abbrev pub released : Option ℕ → List PageOp
released none = []
released (some v) = put_anon_vma v ∷ []

abbrev pub taken_off : Mm → Bool → ℕ → List PageOp
taken_off m false page = isolate page ∷ []
taken_off m true page = when (m.page_head page) (isolate_huge page)

abbrev pub moved : Mm → Bool → (j page newpage : ℕ) → List PageOp
moved m huge j page newpage =
    (if anonymous m page then released (m.page_get_anon_vma page) else [])
    ++ (walk newpage j ∷ when (m.page_swap_backed page) (set_swap_backed newpage))
    ++ (adopt newpage (m.index page) (mapping_of m page)
        ∷ lock newpage
        ∷ lock page
        ∷ put page
        ∷ taken_off m huge page)

pub migrate_page_lem :
    (m : Mm) (huge : Bool) (node : ℕ) (look : Lookup) (j page newpage : ℕ) (s : Migrating)
    → node < 2
    → IsMovable m huge node look j page newpage
    → migrate_page m huge node look j s
      ≡ ok (page, newpage) (record s { ops = moved m huge j page newpage ++ s.ops })
unfolding migrate_page checked_page
migrate_page_lem m false node look j page newpage s two h = ground arith
migrate_page_lem m true node look j page newpage s two h = ground arith

-- A page that the loop gets past is one that can be moved.
pub IsMovable-of_ok :
    (m : Mm) (huge : Bool) (node : ℕ) (look : Lookup) (j page newpage : ℕ) (s s' : Migrating)
    → migrate_page m huge node look j s ≡ ok (page, newpage) s'
    → IsMovable m huge node look j page newpage
unfolding migrate_page checked_page
IsMovable-of_ok m huge node look j page newpage s s' e = record {
  here = ground arith;
  single = ground arith;
  isolated = λ b. ground arith;
  fresh_small = λ b. ground arith;
  fresh_huge = λ b. ground arith;
  unmapped = ground arith;
  plain = λ b. ground arith;
  free = ground arith;
  anchored = λ b n. ground arith;
  solid = ground arith;
  mapped = ground arith;
  free_new = ground arith;
  clean = ground arith;
}
