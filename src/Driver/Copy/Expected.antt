-- ===== src/Driver/Copy/Expected.antt =====
-- What a request should do with its pages, written without the helpers of the code: where a page is
-- looked up, and the entry that it gets in the list of old pages and in that of new pages.
use memif_user_release.Base.{ℕ, ◌≡◌, refl, Bool, true, false}
use memif_user_release.Driver.Copy.{Vma, Lookup, Sg, Machine, bytes, lookup}

-- A request for 2 MB pages is looked up by `follow_huge_page_range`, one for 4 KB pages by
-- `follow_page_range`.
abbrev pub page_at : Machine → (huge : Bool) → Vma → (addr count j : ℕ) → Lookup
page_at m false = m.follow_page_range
page_at m true = m.follow_huge_page_range

abbrev pub page_bytes : (huge : Bool) → ℕ
page_bytes false = 4096
page_bytes true = 2097152

-- The DMA engine copies the old pages, whose entries say how long they are, to the new ones, whose
-- entries have no DMA length.
abbrev pub old_entry : Machine → (huge : Bool) → (page : ℕ) → Sg
old_entry m huge page = record {
  page = page;
  length = page_bytes huge;
  dma_address = m.page_to_phys page;
  dma_length = page_bytes huge;
}

abbrev pub new_entry : Machine → (huge : Bool) → (page : ℕ) → Sg
new_entry m huge page = record {
  page = page;
  length = page_bytes huge;
  dma_address = m.page_to_phys page;
  dma_length = 0;
}

pub bytes-page_bytes : (huge : Bool) → bytes huge ≡ page_bytes huge
bytes-page_bytes true = refl
bytes-page_bytes false = refl

pub lookup-page_at : (m : Machine) (huge : Bool) → lookup m huge ≡ page_at m huge
lookup-page_at m true = refl
lookup-page_at m false = refl
