-- ===== src/Driver/Migrate/Complete/Replaced.antt =====
-- What `dma_complete_one_mig` makes of the two pages.
use memif_user_release.Base.{
  ℕ, ◌≡◌, ◌≢◌, Bool, true, false, not, ◌&&◌, ◌||◌, none, List, [], ◌∷◌, ◌++◌, if◌then◌else◌, ◌==◌,
  arith, Bool-cases, inl, inr, eq_of_==,
}
use memif_user_release.Region.Run.{ok}
use memif_user_release.Driver.Migrate.Complete.{
  Moving, Call, clear_page_dirty_for_io, set_page_dirty_nobuffers, mlock_migrate_page,
  ksm_migrate_page, end_page_writeback, list_del, dec_zone_page_state, putback_lru_page,
  putback_active_hugepage, hugetlb_cgroup_migrate, putback_new_lru_page,
  putback_new_active_hugepage, copy_bits, copy_dirty, give_up, put_back, dma_complete_one_mig,
}

-- The new page has gained these bits of the old one, `unevictable` only where the old one is not
-- active; `dirty` is not among them.
abbrev pub copied : Moving → Moving
copied s = record s {
  old = record (s.old) { active = false; unevictable = s.old.active && s.old.unevictable };
  new = record (s.new) {
    error = s.old.error || s.new.error;
    referenced = s.old.referenced || s.new.referenced;
    uptodate = s.old.uptodate || s.new.uptodate;
    active = s.old.active || s.new.active;
    unevictable = (not s.old.active && s.old.unevictable) || s.new.unevictable;
    checked = s.old.checked || s.new.checked;
    mapped_to_disk = s.old.mapped_to_disk || s.new.mapped_to_disk;
  };
}

copy_bits-copied :
    (debug_vm : Bool) (s : Moving)
    → (debug_vm && (s.old.active && s.old.unevictable)) ≡ false
    → copy_bits debug_vm s ≡ ok tt (copied s)
unfolding copy_bits
copy_bits-copied debug_vm s fine = ground arith

abbrev pub when : Bool → Call → List Call
when true c = c ∷ []
when false c = []

-- The calls on the pages, newest first.
abbrev pub returned : (huge : Bool) → List Call
returned true = putback_new_active_hugepage ∷ hugetlb_cgroup_migrate ∷ putback_active_hugepage ∷ []
returned false = putback_new_lru_page ∷ putback_lru_page ∷ dec_zone_page_state ∷ list_del ∷ []

abbrev pub cleaned : Moving → List Call
cleaned s =
    if s.old.dirty
    then when (not s.old.swap_backed) set_page_dirty_nobuffers ++ (clear_page_dirty_for_io ∷ [])
    else []

abbrev pub all_calls : (huge : Bool) → Moving → List Call
all_calls huge s =
    returned huge
    ++ (when s.new.writeback end_page_writeback
        ++ (ksm_migrate_page ∷ mlock_migrate_page ∷ cleaned s))

-- What has become of the pages: the new page has the bits that `copied` gives it and the dirty bit
-- of a swap-backed old page, and keeps the mapping that it was given; the old page is given up, both
-- are unlocked, and go back to their lists.
abbrev pub replaced : (huge : Bool) → (pte : ℕ) → Moving → Moving
replaced huge pte s =
    let c : Moving = copied s in
    record {
      pte = pte;
      old = record (c.old) {
        swap_cache = false;
        private_bit = false;
        private_field = 0;
        mapping = none;
        locked = false;
      };
      new = record (c.new) {
        dirty = (s.old.dirty && s.old.swap_backed) || s.new.dirty;
        locked = false;
      };
      calls = all_calls huge s ++ s.calls;
    }

module _ (pte_mkold : ℕ → ℕ) (debug_vm huge : Bool) (pte : ℕ) (s : Moving) where
  -- The swap fails.
  touched : s.pte ≢ pte → dma_complete_one_mig pte_mkold debug_vm huge pte s ≡ ok false s
  unfolding dma_complete_one_mig
  touched race = ground arith

  untouched :
      s.pte ≡ pte
      → (debug_vm && (s.old.active && s.old.unevictable)) ≡ false
      → dma_complete_one_mig pte_mkold debug_vm huge pte s
        ≡ ok true (replaced huge (pte_mkold pte) s)
  unfolding dma_complete_one_mig copy_dirty give_up put_back
  untouched still fine =
      ground (arith, copy_bits-copied debug_vm (record s { pte = pte_mkold pte }) fine)

  -- Unless the kernel checks for it and the old page is both active and unevictable. If the page
  -- table entry is not the one that was installed, someone has touched the new page:
  -- `dma_complete_one_mig` changes nothing and returns -1. Otherwise it makes the entry an old one
  -- and returns success. The new page then has, besides its own bits, the error, referenced,
  -- uptodate, active, checked and mapped-to-disk bits of the old page, and its unevictable bit if
  -- the old page is not active; if the old page is dirty it is made dirty here if it is
  -- swap-backed, and else by a call of `set_page_dirty_nobuffers`. It is unlocked and keeps its
  -- mapping; the old page has no mapping and no private data, and is unlocked; and both go back to
  -- their lists, which depend on the global variable `huge_page`, the new page last.
  pub dma_complete_one_mig-replaced :
      (debug_vm && (s.old.active && s.old.unevictable)) ≡ false
      → dma_complete_one_mig pte_mkold debug_vm huge pte s
        ≡ (if s.pte == pte then ok true (replaced huge (pte_mkold pte) s) else ok false s)
  dma_complete_one_mig-replaced fine = elim (Bool-cases (s.pte == pte)) [
    | inl still ↦ rw still (untouched (eq_of_== s.pte pte still) fine)
    | inr race ↦ rw race (touched (ground arith))
  ]
