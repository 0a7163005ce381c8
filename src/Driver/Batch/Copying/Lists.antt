-- ===== src/Driver/Batch/Copying/Lists.antt =====
-- What `flush_single_qreq_noremap2` hands to the DMA engine: the pages of all requests, in order.
use mathlib.Core.List.{append-nil, append_assoc}
use memif_user_release.Base.{
  ℕ, zero, suc, ◌+◌, ◌^◌, ◌≡◌, refl, ◌<◌, ◌≤◌, true, false, not, some, List, [], ◌∷◌, ◌++◌, ◌==◌,
  ◌∙◌, arith, leb, All,
}
use memif_user_release.Desc.{Desc, order, virt_base, virt_base_dest, base_to_virt, bad_index}
use memif_user_release.Region.Run.{ok}
use memif_user_release.Region.View.{Payload, payload}
use memif_user_release.Driver.Copy.{Vma, Lookup, Sg, Machine, checked_page, dst_entry}
use memif_user_release.Driver.Copy.Lists.{entries, Mapped, checked_vma_lem}
use memif_user_release.Driver.Batch.{BatchEvent, State, Batch}
use memif_user_release.Driver.Batch.Gathered.{Adds, gathered, logged, AllFit}
use memif_user_release.Driver.Batch.Copying.{SgLists, append_page, append_pages, add_copy}

-- A descriptor with the payload: the fields of a request do not depend on the rest.
abbrev pub request : Payload → Desc
request p = record {
  word0 = p.0;
  word1 = p.1;
  refcnt = 0;
  next = record { index = bad_index; count = 0; color = 0 };
}

abbrev pub pages : Payload → ℕ
pages p = 2 ^ order (request p)

abbrev pub source : Machine → Payload → ℕ
source m p = base_to_virt m.field_modulus (virt_base (request p))

abbrev pub target : Machine → Payload → ℕ
target m p = base_to_virt m.field_modulus (virt_base_dest (request p))

abbrev pub total : List Payload → ℕ
total [] = 0
total (p ∷ ps) = pages p + total ps

-- Both ranges of the request are mapped, to pages that are mapped at most once.
pub record IsCopyable (m : Machine) (p : Payload) (src dst : ℕ → ℕ) : Type 0 where
  pub vma : Vma
  pub vma1 : Vma
  pub at : m.find_vma (source m p) ≡ some vma
  pub at1 : m.find_vma (target m p) ≡ some vma1
  pub inside : vma.vm_start ≤ source m p
  pub inside1 : vma1.vm_start ≤ target m p
  pub free : vma.migratable ≡ true
  pub free1 : vma1.migratable ≡ true
  pub old : Mapped m (m.follow_page_range vma (source m p) (pages p)) (pages p) src
  pub new : Mapped m (m.follow_page_range vma1 (target m p) (pages p)) (pages p) dst

module _ (m : Machine) {opage npage : ℕ → Lookup} {src dst : ℕ → ℕ} (count : ℕ)
    (old : Mapped m opage count src) (new : Mapped m npage count dst) where
  append_pages_lem :
      (rounds j : ℕ) (g : SgLists) (s : State)
      → j + rounds ≤ count
      → g.npages + rounds ≤ m.max_nr_sg
      → append_pages m opage npage rounds j g s
        ≡ ok
            (record {
              npages = g.npages + rounds;
              dsts = g.dsts ++ entries (λ i. dst_entry m false (dst i)) rounds j;
              srcs = g.srcs ++ entries (λ i. dst_entry m false (src i)) rounds j;
            })
            s
  unfolding append_pages checked_page
  append_pages_lem zero j g s h few = ground (arith, append-nil g.dsts, append-nil g.srcs)
  append_pages_lem (suc rounds) j g s h few =
      let lt : j < count = omega (arith, h) in
      let alone : leb (m.page_mapcount (src j)) 1 ≡ true = ground (arith, old.single j lt) in
      let alone' : leb (m.page_mapcount (dst j)) 1 ≡ true = ground (arith, new.single j lt) in
      let room : not (g.npages == m.max_nr_sg) ≡ true = ground (arith, few) in
      let number : (g.npages + 1) + rounds ≡ g.npages + suc rounds = omega arith in
      rw
        (
          old.here j lt,
          new.here j lt,
          alone,
          alone',
          room,
          append_pages_lem rounds (j + 1) (append_page m (src j) (dst j) g) s (omega (arith, h))
              (omega (arith, few)),
          number,
          append_assoc g.dsts (dst_entry m false (dst j) ∷ [])
              (entries (λ i. dst_entry m false (dst i)) rounds (j + 1)),
          append_assoc g.srcs (dst_entry m false (src j) ∷ [])
              (entries (λ i. dst_entry m false (src i)) rounds (j + 1)),
        )
        refl

module _ (m : Machine) (src dst : Payload → ℕ → ℕ) where
  abbrev pub dsts_of : List Payload → List Sg
  dsts_of [] = []
  dsts_of (p ∷ ps) = entries (λ i. dst_entry m false (dst p i)) (pages p) 0 ++ dsts_of ps

  abbrev pub srcs_of : List Payload → List Sg
  srcs_of [] = []
  srcs_of (p ∷ ps) = entries (λ i. dst_entry m false (src p i)) (pages p) 0 ++ srcs_of ps

  -- The lists with the pages of a request.
  abbrev pub with_request : Payload → SgLists → SgLists
  with_request p g = record {
    npages = g.npages + pages p;
    dsts = g.dsts ++ entries (λ i. dst_entry m false (dst p i)) (pages p) 0;
    srcs = g.srcs ++ entries (λ i. dst_entry m false (src p i)) (pages p) 0;
  }

  abbrev pub Fits : Payload → SgLists → Type 0
  Fits p g = IsCopyable m p (src p) (dst p) × (g.npages + pages p ≤ m.max_nr_sg)

  abbrev pub quiet : Payload → SgLists → List BatchEvent
  quiet p g = []

  add_copy_lem :
      (d : Desc) (g : SgLists) (s : State)
      → Fits (payload d) g
      → add_copy m true d g s ≡ ok (with_request (payload d) g) s
  unfolding add_copy order virt_base virt_base_dest
  add_copy_lem d g s (c, few) =
      rw
        (
          checked_vma_lem (source m (payload d)) s c.at c.inside c.free,
          checked_vma_lem (target m (payload d)) s c.at1 c.inside1 c.free1,
        )
        (append_pages_lem m (pages (payload d)) c.old c.new (pages (payload d)) 0 g s (omega arith)
          few)

  pub Copying-Adds : Adds (add_copy m true) with_request quiet Fits
  Copying-Adds = record { adds = add_copy_lem }

  pub quiet_log :
      (g : SgLists) (ps : List Payload) (es : List BatchEvent)
      → logged with_request quiet g ps es ≡ es
  quiet_log g [] es = refl
  quiet_log g (p ∷ ps) es = quiet_log (with_request p g) ps es

  -- The lists after all requests.
  pub gathered_lists :
      (b : Batch SgLists) (ps : List Payload)
      → (gathered with_request b ps).made ≡ record {
        npages = b.made.npages + total ps;
        dsts = b.made.dsts ++ dsts_of ps;
        srcs = b.made.srcs ++ srcs_of ps;
      }
  gathered_lists b [] = ground (arith, append-nil b.made.dsts, append-nil b.made.srcs)
  gathered_lists b (p ∷ ps) =
      let number : (b.made.npages + pages p) + total ps ≡ b.made.npages + (pages p + total ps) =
        omega arith in
      gathered_lists (record { table = true; count = b.count + 1; made = with_request p b.made }) ps
      ∙ rw
          (
            number,
            append_assoc b.made.dsts (entries (λ i. dst_entry m false (dst p i)) (pages p) 0)
                (dsts_of ps),
            append_assoc b.made.srcs (entries (λ i. dst_entry m false (src p i)) (pages p) 0)
                (srcs_of ps),
          )
          refl

  pub all_fit :
      (g : SgLists) (ps : List Payload)
      → All (λ p. IsCopyable m p (src p) (dst p)) ps
      → g.npages + total ps ≤ m.max_nr_sg
      → AllFit with_request Fits g ps
  all_fit g [] c few = tt
  all_fit g (p ∷ ps) c few =
      ((c.0, omega (arith, few)), all_fit (with_request p g) ps c.1 (omega (arith, few)))
