-- ===== src/Driver.antt =====
-- The kernel side of migrate-x86/migrate-x86.c: its state, what it does to the outside, and the
-- calls whose code is elsewhere. The trace has the newest event first.
pub mod Batch
pub mod Copy
pub mod Migrate
pub mod Issue
pub mod Cycle
pub mod Drain
pub mod Files
pub mod Finish
pub mod Flush
pub mod Next
pub mod Open
pub mod Serve
pub mod Submit
pub mod Work
use memif_user_release.Base.{ℕ, ◌≡◌, refl, ◌≤◌, ◌+◌, Bool, true, false, List, [], ◌∷◌, not, ◌==◌}
use memif_user_release.Region.{Region, Op}
use memif_user_release.Region.Run.{Outcome, ok, bug, spinning, Code, Yields, yields, Yields-ok}

-- The two functions of type `issue_one_desc_t`: `issue_one_desc_copy` and `issue_one_desc_mig`.
pub data IssueFunc : Type 0 where
  copy : IssueFunc
  mig : IssueFunc

-- `struct mig_table`, as far as the flushing code reads it. `region` and `mm` are the ones at hand.
pub record Table : Type 0 where
  pub func : IssueFunc
  pub num_pages : ℕ
  pub migdesc : ℕ
  pub user_cpu : ℕ

pub data Event : Type 0 where
  submitted : (desc : ℕ) → (irq : Bool) → Event
  slept : (low high : ℕ) → Event
  page_done : (page : ℕ) → Event
  table_freed : Event
  woken : Event
  scheduled : (cpu : ℕ) → Event

pub record Kernel : Type 0 where
  pub region : Region
  pub trace : List Event

abbrev in_kernel : {A : Type 0} → List Event → Outcome Region A → Outcome Kernel A
in_kernel trace (ok a r) = ok a (record { region = r; trace = trace })
in_kernel trace bug = bug
in_kernel trace spinning = spinning

-- A function of libsmm on the region.
abbrev pub on_region : {A : Type 0} → Op A → Code Kernel A
on_region m k = in_kernel k.trace (m k.region)

abbrev pub emit : Event → Code Kernel (Unit {0})
emit e k = ok tt (record k { trace = e ∷ k.trace })

-- The calls through `issue_one_desc_func`, `dma_complete_one_mig` on a page of a table, and
-- `device_tx_status` on the channel: is the transfer complete?
pub record Calls : Type 0 where
  pub issue_one_desc : IssueFunc → (desc : ℕ) → (do_irq : Bool) → Code Kernel Table
  pub dma_complete_one_mig : Table → (page : ℕ) → Code Kernel (Unit {0})
  pub is_complete : Kernel → Bool

-- The checks since the last submission.
abbrev pub checks : List Event → ℕ
checks (slept low high ∷ es) = checks es + 1
checks (submitted desc irq ∷ es) = 0
checks (page_done page ∷ es) = 0
checks (table_freed ∷ es) = 0
checks (woken ∷ es) = 0
checks (scheduled cpu ∷ es) = 0
checks [] = 0

-- The descriptors handed to the DMA engine.
abbrev pub submissions : List Event → ℕ
submissions (submitted desc irq ∷ es) = submissions es + 1
submissions (slept low high ∷ es) = submissions es
submissions (page_done page ∷ es) = submissions es
submissions (table_freed ∷ es) = submissions es
submissions (woken ∷ es) = submissions es
submissions (scheduled cpu ∷ es) = submissions es
submissions [] = 0

-- What the driver relies on: an issuing function returns with the descriptor submitted and the
-- region as it was, the clean-up of a page leaves the region alone, and the tenth check after a
-- submission finds the transfer complete.
pub record Behaves (calls : Calls) : Type 0 where
  pub issues :
      (func : IssueFunc) (desc : ℕ) (irq : Bool) (k : Kernel)
      → Yields
          (λ t k'. (k'.region ≡ k.region) × (k'.trace ≡ submitted desc irq ∷ k.trace))
          (calls.issue_one_desc func desc irq k)
  pub completes :
      (table : Table) (page : ℕ) (k : Kernel)
      → Yields
          (λ t k'. (k'.region ≡ k.region) × (k'.trace ≡ page_done page ∷ k.trace))
          (calls.dma_complete_one_mig table page k)
  pub punctual : (k : Kernel) → 10 ≤ checks k.trace → calls.is_complete k ≡ true

pub on_region-Yields :
    {A : Type 0} {P : A → Region → Type 0} (m : Op A) (k : Kernel)
    → Yields P (m k.region)
    → Yields (λ a k'. P a k'.region × (k'.trace ≡ k.trace)) (on_region m k)
on_region-Yields m k h = let (a, r, e, p) = Yields-ok h in rw e (yields (p, refl))
