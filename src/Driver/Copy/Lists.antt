-- ===== src/Driver/Copy/Lists.antt =====
-- Which pages a copy moves, and where to.
use memif_user_release.Base.{
  ℕ, zero, suc, ◌+◌, ◌^◌, ◌≡◌, refl, ◌<◌, ◌≤◌, Bool, true, not, Option, some, List, [], ◌∷◌, leb,
  ◌==◌, arith,
}
use memif_user_release.Desc.{Desc, order, huge_page, virt_base, virt_base_dest, base_to_virt}
use memif_user_release.Region.Run.{ok}
use memif_user_release.Driver.{copy, submitted, Kernel}
use memif_user_release.Driver.Copy.{
  Vma, Lookup, found, Sg, Machine, checked_vma, checked_page, sg_lists, issue_one_desc_copy,
  submit_copy,
}
use memif_user_release.Driver.Copy.Expected.{
  page_at, old_entry, new_entry, bytes-page_bytes, lookup-page_at,
}

-- The pages `page j`, `page (j + 1)`, ..., as entries of a list.
abbrev pub entries : (ℕ → Sg) → (rounds j : ℕ) → List Sg
entries entry zero j = []
entries entry (suc rounds) j = entry j ∷ entries entry rounds (j + 1)

-- All look-ups of the range find pages that are mapped at most once.
pub record Mapped (m : Machine) (look : ℕ → Lookup) (count : ℕ) (page : ℕ → ℕ) : Type 0 where
  pub here : (j : ℕ) → j < count → look j ≡ found (page j)
  pub single : (j : ℕ) → j < count → m.page_mapcount (page j) ≤ 1

module _ {S : Type 0} (m : Machine) (huge : Bool) {opage npage : ℕ → Lookup} {src dst : ℕ → ℕ}
    (count : ℕ) (old : Mapped m opage count src) (new : Mapped m npage count dst) where
  pub sg_lists_lem :
      (rounds j : ℕ) (s : S)
      → j + rounds ≤ count
      → sg_lists m huge opage npage rounds j s
        ≡ ok
            (
              entries (λ i. new_entry m huge (dst i)) rounds j,
              entries (λ i. old_entry m huge (src i)) rounds j,
            )
            s
  unfolding sg_lists checked_page
  sg_lists_lem zero j s h = refl
  sg_lists_lem (suc rounds) j s h =
      let lt : j < count = omega (arith, h) in
      let alone : leb (m.page_mapcount (src j)) 1 ≡ true = ground (arith, old.single j lt) in
      let alone' : leb (m.page_mapcount (dst j)) 1 ≡ true = ground (arith, new.single j lt) in
      rw
        (
          old.here j lt,
          new.here j lt,
          alone,
          alone',
          bytes-page_bytes huge,
          sg_lists_lem rounds (j + 1) s (omega (arith, h)),
        )
        refl

pub checked_vma_lem :
    {S : Type 0} {o : Option Vma} {vma : Vma} (paddr : ℕ) (s : S)
    → o ≡ some vma
    → vma.vm_start ≤ paddr
    → vma.migratable ≡ true
    → checked_vma o paddr s ≡ ok vma s
unfolding checked_vma
checked_vma_lem {vma} paddr s at inside free =
    let fits : leb vma.vm_start paddr ≡ true = ground (arith, inside) in rw (at, fits, free) refl

-- The mappings of a request are in order.
pub record Mappable (m : Machine) (d : Desc) (src dst : ℕ → ℕ) : Type 0 where
  pub vma : Vma
  pub vma1 : Vma
  pub at : m.find_vma (base_to_virt m.field_modulus (virt_base d)) ≡ some vma
  pub at1 : m.find_vma (base_to_virt m.field_modulus (virt_base_dest d)) ≡ some vma1
  pub inside : vma.vm_start ≤ base_to_virt m.field_modulus (virt_base d)
  pub inside1 : vma1.vm_start ≤ base_to_virt m.field_modulus (virt_base_dest d)
  pub free : vma.migratable ≡ true
  pub free1 : vma1.migratable ≡ true
  pub few : 2 ^ order d ≤ m.max_nr_sg
  pub old :
      Mapped m
        (page_at m
          (not (huge_page d == 0))
          vma
          (base_to_virt m.field_modulus (virt_base d))
          (2 ^ order d))
        (2 ^ order d)
        src
  pub new :
      Mapped m
        (page_at m
          (not (huge_page d == 0))
          vma1
          (base_to_virt m.field_modulus (virt_base_dest d))
          (2 ^ order d))
        (2 ^ order d)
        dst

-- Where the allocations succeed, both ranges of the request are mapped by migratable mappings to
-- pages that are mapped at most once, and the DMA engine takes the two lists of these pages, in
-- order and with the size of the request's pages, `issue_one_desc_copy` submits the descriptor
-- once, with an interrupt exactly if it is asked for, leaves the region as it was, and returns a
-- table with the descriptor and its number of pages.
pub issue_one_desc_copy_lem :
    (m : Machine) (desc : ℕ) (do_irq : Bool) (k : Kernel) (src dst : ℕ → ℕ)
    → Mappable m (k.region.desc desc) src dst
    → m.prep_dma_sg
        (entries
          (λ i. new_entry m (not (huge_page (k.region.desc desc) == 0)) (dst i))
          (2 ^ order (k.region.desc desc))
          0)
        (entries
          (λ i. old_entry m (not (huge_page (k.region.desc desc) == 0)) (src i))
          (2 ^ order (k.region.desc desc))
          0)
        do_irq
      ≡ true
    → issue_one_desc_copy m true desc do_irq k
      ≡ ok
          (record {
            func = copy;
            num_pages = 2 ^ order (k.region.desc desc);
            migdesc = desc;
            user_cpu = m.processor_id;
          })
          (record k { trace = submitted desc do_irq ∷ k.trace })
unfolding issue_one_desc_copy submit_copy
issue_one_desc_copy_lem m desc do_irq k src dst mapped prep =
    let d = k.region.desc desc in
    let fits : leb (2 ^ order d) m.max_nr_sg ≡ true = ground (arith, mapped.few) in
    rw
      (
        fits,
        checked_vma_lem (base_to_virt m.field_modulus (virt_base d)) k mapped.at mapped.inside
            mapped.free,
        checked_vma_lem (base_to_virt m.field_modulus (virt_base_dest d)) k mapped.at1
            mapped.inside1 mapped.free1,
        lookup-page_at m (not (huge_page d == 0)),
        sg_lists_lem m (not (huge_page d == 0)) (2 ^ order d) mapped.old mapped.new (2 ^ order d) 0
            k (omega arith),
        prep,
      )
      refl
