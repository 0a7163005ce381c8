-- ===== src/Edma/Repeat/Kicks.antt =====
-- The starts of a chain of PSETs in `edma3_start_xfer_multiple`.
use memif_user_release.Base.{ℕ, zero, suc, ◌≡◌, ◌≢◌, ◌∙◌, refl, ap, subst, Bool, List, ◌∷◌}
use memif_user_release.Region.Run.{Yields, yields, then-Yields, Yields-mono}
use memif_user_release.Edma.{Pset, Drv}
use memif_user_release.Edma.Channel.{Registers}
use memif_user_release.Edma.Channel.Links.{IsMapped}
use memif_user_release.Edma.Gather.Documented.{View}
use memif_user_release.Edma.Repeat.{kick, kick_rounds}
use memif_user_release.Edma.Repeat.Documented.{Account, Grantor}
use memif_user_release.Edma.Repeat.Linking.{get_param_phys-Same}

-- The PSETs are `m` but for that of the channel, in which the controller loads the next.
abbrev pub SameBeside : ℕ → (m k : ℕ → Pset) → Type 0
SameBeside ch m k = (a : ℕ) → a ≢ ch → k a ≡ m a

-- The channel was started `n` times more, and each time found the PSETs `m` beside its own.
abbrev pub Kicked : (n ch : ℕ) → (m : ℕ → Pset) → (l l' : List (ℕ × (ℕ → Pset))) → Type 0
Kicked zero ch m l l' = l' ≡ l
Kicked (suc n) ch m l l' = (k : ℕ → Pset) × SameBeside ch m k × Kicked n ch m ((ch, k) ∷ l) l'

pub Kicked-eq :
    {n n' : ℕ} (ch : ℕ) (m : ℕ → Pset) {l l' k k' : List (ℕ × (ℕ → Pset))}
    → n ≡ n'
    → l ≡ l'
    → k ≡ k'
    → Kicked n' ch m l' k'
    → Kicked n ch m l k
Kicked-eq ch m n l k h = rw (n, l, k) h

module _ {S : Type 0} {v : View S} {acc : Account S} {d : Drv S}
    {get_param : ℕ → S → Bool × Pset × S} {addr : ℕ → ℕ} (laws : Grantor v acc d get_param addr)
    (r : Registers) (mapped : IsMapped r) where
  pub kick-launched :
      (ch tcc : ℕ) (s : S)
      → Yields
          (λ _ t.
            (v.launched t ≡ (ch, v.psets s) ∷ v.launched s)
            × SameBeside ch (v.psets s) (v.psets t)
            × (acc.held t ≡ acc.held s))
          (kick d get_param r ch tcc s)
  kick-launched ch tcc s =
      let s1 = (d.enable_transfer ch s).1 in
      rw (laws.enable_done ch s, laws.wait_done tcc s1)
        (yields (
          laws.wait_launched tcc s1 ∙ laws.enable_launched ch s,
          λ a ne.
              laws.wait_psets tcc ch a (v.psets s) (v.launched s) s1 (laws.enable_launched ch s) ne
              ∙ laws.enable_psets ch a s ne,
          laws.wait_held tcc s1 ∙ laws.enable_held ch s,
        ))

  pub kick_rounds-Kicked :
      (left ch tcc : ℕ) (m : ℕ → Pset) (s : S)
      → SameBeside ch m (v.psets s)
      → Yields
          (λ _ t. Kicked left ch m (v.launched s) (v.launched t) × (acc.held t ≡ acc.held s))
          (kick_rounds d get_param r left ch tcc s)
  unfolding kick_rounds
  kick_rounds-Kicked zero ch tcc m s same = yields (refl, refl)
  kick_rounds-Kicked (suc left) ch tcc m s same =
      then-Yields (kick-launched ch tcc s) λ _ s1 (started, beside, holds).
        then-Yields (get_param_phys-Same laws r mapped ch s1) λ a s2 (e, is).
          let s3 = (get_param ch s2).2 in
          let was = laws.load_same ch s2 in
          let all = was.1 ∙ is.1 ∙ started in
          Yields-mono
            (kick_rounds-Kicked left ch tcc m s3
              (λ x ne. ap (λ f. f x) (was.0 ∙ is.0) ∙ beside x ne ∙ same x ne))
            λ _ t (more, rest). (
              (v.psets s, same, subst (λ l. Kicked left ch m l (v.launched t)) all more),
              rest ∙ was.2 ∙ is.2 ∙ holds,
            )
