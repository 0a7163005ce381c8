-- ===== src/Edma/Repeat/Released.antt =====
-- What `edma3_start_xfer_multiple` was granted it gives back.
use memif_user_release.Base.{
  ℕ, ◌≡◌, ◌∙◌, refl, sym, ap, subst, Bool, true, false, not, ◌&&◌, ◌||◌, ◌==◌, List, [], ◌∷◌, arith,
  ℕ_discrete, ==-refl,
}
use memif_user_release.Region.Run.{Yields, yields, Yields-mono}
use memif_user_release.Edma.{Pset, Drv}
use memif_user_release.Edma.Channel.{Registers}
use memif_user_release.Edma.Gather.Documented.{View}
use memif_user_release.Edma.Repeat.{free_rounds}
use memif_user_release.Edma.Repeat.Documented.{Account, Grantor}
use memif_user_release.Edma.Repeat.Linking.{Granted}

abbrev pub without : List ℕ → (ℕ → Bool) → ℕ → Bool
without [] h = h
without (c ∷ cs) h = without cs (λ x. not (c == x) && h x)

without-eq :
    (cs : List ℕ) (h k : ℕ → Bool) (x : ℕ) → ((y : ℕ) → h y ≡ k y) → without cs h x ≡ without cs k x
without-eq [] h k x e = e x
without-eq (c ∷ cs) h k x e =
    without-eq cs (λ y. not (c == y) && h y) (λ y. not (c == y) && k y) x
      (λ y. ap (λ b. not (c == y) && b) (e y))

swapped : (a b c : Bool) → (a && (b && c)) ≡ (b && (a && c))
swapped true b c = refl
swapped false true c = refl
swapped false false c = refl

without-and :
    (c : ℕ) (cs : List ℕ) (h : ℕ → Bool) (x : ℕ)
    → without cs (λ y. not (c == y) && h y) x ≡ (not (c == x) && without cs h x)
without-and c [] h x = refl
without-and c (a ∷ cs) h x =
    without-eq cs (λ y. not (a == y) && (not (c == y) && h y))
      (λ y. not (c == y) && (not (a == y) && h y)) x
      (λ y. swapped (not (a == y)) (not (c == y)) (h y))
    ∙ without-and c cs (λ y. not (a == y) && h y) x

dropped : (h : ℕ → Bool) (c x : ℕ) → h c ≡ false → (not (c == x) && (c == x || h x)) ≡ h x
dropped h c x e = elim (ℕ_discrete c x) [
  | yes same ↦ subst (λ y. (not (c == y) && (c == y || h y)) ≡ h y) same (rw (==-refl c) (sym e))
  | no other ↦ ground (arith, other)
]

pub without-Granted :
    (before : ℕ → Bool) (cs : List ℕ) (now : ℕ → Bool)
    → Granted before cs now
    → (x : ℕ) → without cs now x ≡ before x
without-Granted before [] now h x = ap (λ f. f x) h
without-Granted before (c ∷ cs) now h x =
    without-and c cs now x
    ∙ ap (λ b. not (c == x) && b) (without-Granted (λ y. c == y || before y) cs now h.1 x)
    ∙ dropped before c x h.0

module _ {S : Type 0} {v : View S} {acc : Account S} {d : Drv S}
    {get_param : ℕ → S → Bool × Pset × S} {addr : ℕ → ℕ} (laws : Grantor v acc d get_param addr)
    (r : Registers) where
  pub free_rounds-without :
      (cs : List ℕ) (s : S)
      → Yields
          (λ _ t. (acc.held t ≡ without cs (acc.held s)) × (v.launched t ≡ v.launched s))
          (free_rounds d get_param r cs s)
  unfolding free_rounds
  free_rounds-without [] s = yields (refl, refl)
  free_rounds-without (c ∷ cs) s = rw (laws.free_done c s) (
      Yields-mono (free_rounds-without cs (d.free_channel c s).1) λ _ t (holds, started).
        (holds ∙ ap (without cs) (laws.free_held c s), started ∙ laws.free_launched c s))
