-- ===== src/Init/Whole.antt =====
-- `init_migregion` from raw pages to a new region.
use memif_user_release.Base.{
  ℕ, suc, ◌-◌, ◌/◌, ◌%◌, ◌^◌, ◌≡◌, refl, ◌≤◌, [], ◌∷◌, List, true, ltb, ◌==◌, ◌&&◌, arith, ◌∙◌, sym,
  subst,
}
use memif_user_release.Desc.{bad_index, color_none, color_usr}
use memif_user_release.Region.{req, issued, comp, Region}
use memif_user_release.Region.Run.{◌>>◌, Yields, then-Yields, Yields-mono}
use memif_user_release.Region.Cells.{Cell}
use memif_user_release.Region.View.{View}
use memif_user_release.Queue.{migqueue_create_color, migqueue_create}
use memif_user_release.Init.Chain.{Chained, add_all-Chained}
use memif_user_release.Init.Carve.{carve}
use memif_user_release.Init.Fresh.{IsNewRegion, first_view, first-IsNewRegion}
use memif_user_release.Init.{
  add_all, descs_in, clear_freelist, with_dummy, freelist_init, init_migregion,
}

-- The three queues, each over the next free descriptor.
three_queues :
    (fuel : ℕ) (cs : List Cell) (r : Region)
    → r.ndescs ≤ bad_index
    → 3 ≤ r.ndescs
    → Chained r.ndescs cs r
    → Yields
        (λ _ r'. (v : View) × IsNewRegion r.ndescs v r')
        ((do
          with_dummy (suc fuel) (λ head. migqueue_create_color req head color_usr)
          with_dummy (suc fuel) (migqueue_create issued)
          with_dummy (suc fuel) (migqueue_create comp))
          r)
unfolding migqueue_create
three_queues fuel [] r small room h = absurd (omega (arith, h.count))
three_queues fuel (a ∷ []) r small room h = absurd (omega (arith, h.count))
three_queues fuel (a ∷ b ∷ []) r small room h = absurd (omega (arith, h.count))
three_queues fuel (a ∷ b ∷ c ∷ cs) r small room h =
    then-Yields
      (carve fuel req color_usr a (b ∷ c ∷ cs) r small (h.unshared a.addr h.below.0) h.chain)
      λ _ r₁ h₁.
        then-Yields
          (carve fuel issued color_none b (c ∷ cs) r₁ (omega (arith, h₁.size))
            (h₁.unshared b.addr ∙ h.unshared b.addr h.below.1.0) h₁.chain)
          λ _ r₂ h₂.
            Yields-mono
              (carve fuel comp color_none c cs r₂ (omega (arith, h₁.size, h₂.size))
                (h₂.unshared c.addr ∙ h₁.unshared c.addr ∙ h.unshared c.addr h.below.1.1.0)
                h₂.chain)
              λ _ r₃ h₃. (first_view a b c cs r₃, first-IsNewRegion small h h₁ h₂ h₃)

-- The free list and the queues, once the number of descriptors is set.
fill :
    (fuel junk n : ℕ) (r : Region)
    → n ≤ bad_index
    → 3 ≤ n
    → r.ndescs ≡ n
    → Yields
        (λ _ r'. (v : View) × IsNewRegion n v r')
        ((do
          add_all (suc fuel) junk n 0
          with_dummy (suc fuel) (λ head. migqueue_create_color req head color_usr)
          with_dummy (suc fuel) (migqueue_create issued)
          with_dummy (suc fuel) (migqueue_create comp))
          (clear_freelist r))
fill fuel junk n r small room e =
    then-Yields
      (add_all-Chained fuel junk n 0 {cs = []} {r = clear_freelist r} (omega arith) (omega arith)
        (record {
          chain = record { linked = refl; holds = tt; distinct = tt };
          below = tt;
          count = refl;
          unshared = λ a lt. absurd (omega arith);
        }))
      λ _ r' (cs, h, size).
        let e' : r'.ndescs ≡ n = size ∙ e in
        Yields-mono
          (three_queues fuel cs r' (omega arith) (omega arith)
            (subst (λ m. Chained m cs r') (sym size) h))
          λ _ r'' (v, new). (v, subst (λ m. IsNewRegion m v r'') e' new)

-- Whatever the pages hold: where the size is a whole number of 4K pages, from one to 512 of them,
-- `init_migregion` passes all its assertions. The region has as many descriptors as fit behind its
-- header, three empty queues with the request queue colored for the user, and all descriptors but
-- the three dummies on the free list.
pub init_migregion-IsNewRegion :
    (fuel junk size : ℕ) (r : Region)
    → size % 4096 ≡ 0
    → 4096 ≤ size
    → size ≤ 2 ^ 21
    → Yields
        (λ _ r'. (v : View) × IsNewRegion ((size - 152) / 32) v r')
        (init_migregion (suc fuel) junk size r)
unfolding init_migregion freelist_init
init_migregion-IsNewRegion fuel junk size r whole least most =
    let n = (size - 152) / 32 in
    let pages : (size % 4096 == 0) ≡ true = ground arith in
    let count : descs_in size ≡ n = omega arith in
    let positive : (ltb 0 n && ltb n (2 ^ 31)) ≡ true = ground arith in
    rw (pages, count, positive)
      (fill fuel junk n (record r { ndescs = n }) (omega arith) (omega arith) refl)
