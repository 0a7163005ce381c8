-- ===== src/Tests/Issuing.antt =====
-- A kernel in which every address is in one mapping, each page of which is found.
use memif_user_release.Base.{true, some}
use memif_user_release.Driver.Copy.{Vma, Machine, found}
use memif_user_release.Tests.Copying.{machine}

abbrev pub open_vma : Vma
open_vma = record { vm_start = 0; migratable = true }

abbrev pub open_machine : Machine
open_machine = record machine {
  find_vma = λ addr. some open_vma;
  follow_page_range = λ vma addr count j. found j;
  follow_huge_page_range = λ vma addr count j. found j;
}
