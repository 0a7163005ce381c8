-- ===== src/Tests/Copying.antt =====
-- A request of two pages in an address space in which all is mapped.
use memif_user_release.Base.{◌+◌, ◌^◌, ◌/◌, ◌≡◌, refl, true, some, ◌∷◌, [], arith}
use memif_user_release.Desc.{
  Desc, bad_index, order, base_to_virt, virt_base, virt_base_dest, huge_page,
}
use memif_user_release.Region.Run.{ok}
use memif_user_release.Driver.{copy, submitted, Kernel}
use memif_user_release.Driver.Copy.{Machine, found, issue_one_desc_copy}
use memif_user_release.Driver.Copy.Lists.{Mappable, issue_one_desc_copy_lem}
use memif_user_release.Tests.{to, desc, region}

abbrev pub two_pages : Desc
two_pages = desc (2 ^ 52 + 5) (to bad_index 1)

abbrev pub kernel : Kernel
kernel = record { region = record (region 1) { desc = λ i. two_pages }; trace = [] }

abbrev pub machine : Machine
machine = record {
  max_nr_sg = 128;
  field_modulus = 2 ^ 52;
  find_vma = λ addr. some (record { vm_start = 4096; migratable = true });
  follow_page_range = λ vma addr count j. found (addr / 4096 + j);
  follow_huge_page_range = λ vma addr count j. found (addr / 4096 + j);
  page_mapcount = λ page. 1;
  page_to_phys = λ page. page;
  prep_dma_sg = λ dst src irq. true;
  processor_id = 2;
}

two_pages-Mappable : Mappable machine two_pages (λ j. 5 + j) (λ j. 6 + j)
unfolding base_to_virt virt_base virt_base_dest order huge_page
two_pages-Mappable = record {
  vma = record { vm_start = 4096; migratable = true };
  vma1 = record { vm_start = 4096; migratable = true };
  at = refl;
  at1 = refl;
  inside = omega arith;
  inside1 = omega arith;
  free = refl;
  free1 = refl;
  few = omega arith;
  old = record { here = λ j lt. refl; single = λ j lt. omega arith };
  new = record { here = λ j lt. refl; single = λ j lt. omega arith };
}

copy_example :
    issue_one_desc_copy machine true 1 true kernel
    ≡ ok
        (record { func = copy; num_pages = 2; migdesc = 1; user_cpu = 2 })
        (record kernel { trace = submitted 1 true ∷ [] })
unfolding order
copy_example =
    issue_one_desc_copy_lem machine 1 true kernel (λ j. 5 + j) (λ j. 6 + j) two_pages-Mappable refl
