-- ===== src/Init/Chain.antt =====
-- The free list that `freelist_init` builds: every descriptor, the last one on top.
use memif_user_release.Base.{
  ℕ, zero, suc, ◌+◌, ◌≡◌, refl, ◌<◌, ◌≤◌, [], ◌∷◌, List, All, length, arith, subst,
}
use memif_user_release.Desc.{bad_index}
use memif_user_release.Region.{Region, write_desc}
use memif_user_release.Region.Run.{Yields, yields}
use memif_user_release.Region.Cells.{Cell, Holds-frame-Fresh, Fresh}
use memif_user_release.Region.View.{free, IsFreeList}
use memif_user_release.FreeList.Add.{added, freelist_add-added}
use memif_user_release.Init.{add_all}

-- Only the free list is there: nobody else owns anything.
abbrev pub IsChain : Region → List Cell → Type 0
IsChain r = IsFreeList r.freelist.top r.desc r.ndescs (λ _. free)

abbrev pub Below : ℕ → List Cell → Type 0
Below i = All (λ c. c.addr < i)

pub record Chained (i : ℕ) (cs : List Cell) (r : Region) : Type 0 where
  pub chain : IsChain r cs
  pub below : Below i cs
  pub count : length cs ≡ i
  pub unshared : (a : ℕ) → a < i → (r.desc a).refcnt ≡ 0

Fresh-of_Below : (i : ℕ) (cs : List Cell) → Below i cs → Fresh i cs
Fresh-of_Below i [] b = tt
Fresh-of_Below i (c ∷ cs) b = (ground arith, Fresh-of_Below i cs b.1)

Below-suc : (i : ℕ) (cs : List Cell) → Below i cs → Below (i + 1) cs
Below-suc i [] b = tt
Below-suc i (c ∷ cs) b = (omega arith, Below-suc i cs b.1)

abbrev cleared : ℕ → Region → Region
cleared i r = write_desc i (record (r.desc i) { refcnt = 0 }) r

add_step :
    (fuel junk i : ℕ) {cs : List Cell} {r : Region}
    → Chained i cs r
    → i < r.ndescs
    → (c : Cell) × Chained (i + 1) (c ∷ cs) (added junk i (cleared i r))
add_step fuel junk i {cs} {r} h inside =
    let new = Fresh-of_Below i cs h.below in
    (
      record { addr = i; body = record ((cleared i r).desc i) { next = r.freelist.top } },
      record {
        chain = record {
          linked = (refl, h.chain.linked);
          holds = (
            (ground arith, refl, inside),
            Holds-frame-Fresh free r.ndescs i cs h.chain.holds new
                (λ b other. (ground arith, refl)),
          );
          distinct = (new, h.chain.distinct);
        };
        below = (omega arith, Below-suc i cs h.below);
        count = omega (arith, h.count);
        unshared = λ a lt. ground (arith, h.unshared a);
      },
    )

pub add_all-Chained :
    (fuel junk rounds i : ℕ) {cs : List Cell} {r : Region}
    → r.ndescs ≤ bad_index
    → i + rounds ≡ r.ndescs
    → Chained i cs r
    → Yields
        (λ _ r'. (cs' : List Cell) × Chained r.ndescs cs' r' × (r'.ndescs ≡ r.ndescs))
        (add_all (suc fuel) junk rounds i r)
unfolding add_all
add_all-Chained fuel junk zero i {cs} {r} small all h =
    yields (cs, subst (λ n. Chained n cs r) (omega arith) h, refl)
add_all-Chained fuel junk (suc rounds) i {r} small all h =
    let (c, h') = add_step fuel junk i h (omega arith) in
    rw (freelist_add-added fuel junk i (cleared i r) small (omega arith) (ground arith))
      (add_all-Chained fuel junk rounds (i + 1) small (omega arith) h')
