-- ===== src/Edma/Repeat/Whole.antt =====
-- All of `edma3_start_xfer_multiple`.
use memif_user_release.Base.{
  ℕ, suc, ◌-◌, ◌<◌, ◌≡◌, ◌∙◌, refl, sym, ap, subst, Bool, false, ◌||◌, ◌==◌, List, ◌∷◌, length,
  arith,
}
use memif_user_release.Region.Run.{◌>>◌, Yields, Yields-mono}
use memif_user_release.Edma.{Pset, Drv, checked}
use memif_user_release.Edma.Geometry.{Geometry}
use memif_user_release.Edma.Geometry.Fits.{Fits}
use memif_user_release.Edma.Geometry.Bytes.{Carries}
use memif_user_release.Edma.Channel.{Registers}
use memif_user_release.Edma.Channel.Links.{IsMapped}
use memif_user_release.Edma.Gather.{OptBits, with_link}
use memif_user_release.Edma.Gather.Documented.{View}
use memif_user_release.Edma.Repeat.{repeat_opt, free_rounds}
use memif_user_release.Edma.Repeat.Documented.{Account, Grantor}
use memif_user_release.Edma.Repeat.Linking.{Granted, Chained, Chains-Chained, IsLinked}
use memif_user_release.Edma.Repeat.Kicks.{Kicked, Kicked-eq}
use memif_user_release.Edma.Repeat.Released.{without, without-Granted, free_rounds-without}

-- A PSET for the whole transfer.
abbrev pub Repeats : OptBits → (src dest size tcc : ℕ) → Geometry → ℕ → Pset → Type 0
Repeats b src dest size tcc g i p = Carries p src dest size × (p.opt ≡ repeat_opt b tcc g.sync)

module _ {S : Type 0} {v : View S} {acc : Account S} {d : Drv S}
    {get_param : ℕ → S → Bool × Pset × S} {addr : ℕ → ℕ} (laws : Grantor v acc d get_param addr)
    (r : Registers) (mapped : IsMapped r) where
  -- Channel `ch` and the logic channels `cs` were granted and linked; `m` are the PSETs, in a chain of
  -- those that `P` describes, at the first start, after which the channel was started `more` times.
  pub record IsRepeated (P : ℕ → Pset → Type 0) (count more ch : ℕ) (cs : List ℕ) (m : ℕ → Pset)
      (s t : S) : Type 0 where
    pub number : suc (length cs) ≡ count
    pub now : ℕ → Bool
    pub granted : Granted (acc.held s) (ch ∷ cs) now
    pub chain : Chained laws r mapped P 0 m ch cs
    pub kicks : Kicked more ch m ((ch, m) ∷ v.launched s) (v.launched t)
    pub released : (x : ℕ) → acc.held t x ≡ acc.held s x

  -- The cleanup, after channels were linked and started.
  pub cleanup-IsRepeated :
      (P : ℕ → Pset → Type 0) {pieces : ℕ → Pset} {count more ch : ℕ} {cs : List ℕ} {s s1 s2 s3 : S}
      → ((i l : ℕ) → P i (with_link l (pieces i)))
      → 0 < count
      → acc.held s ch ≡ false
      → acc.held s1 ≡ (λ x. ch == x || acc.held s x)
      → v.launched s1 ≡ v.launched s
      → IsLinked laws r mapped pieces 0 ch (count - 1) cs s1 s2
      → acc.held s3 ≡ acc.held s2
      → Kicked more ch (v.psets s2) ((ch, v.psets s2) ∷ v.launched s2) (v.launched s3)
      → Yields
          (λ _ t. IsRepeated P count more ch cs (v.psets s2) s t)
          ((do checked (d.free_channel ch); free_rounds d get_param r cs) s3)
  cleanup-IsRepeated P {pieces} {more} {ch} {cs} {s} {s2} {s3} good some_count new holds started
        links same kicked =
      let granted : Granted (acc.held s) (ch ∷ cs) (acc.held s2) =
        (new, subst (λ h. Granted h cs (acc.held s2)) holds links.granted) in
      rw (laws.free_done ch s3) (
        Yields-mono (free_rounds-without laws r cs (d.free_channel ch s3).1) λ _ t (freed, still).
          record {
            number = ap suc links.count ∙ omega arith;
            now = acc.held s2;
            granted = granted;
            chain = Chains-Chained laws r mapped P pieces (v.psets s2) good 0 ch cs links.chain;
            kicks =
                Kicked-eq ch (v.psets s2) refl
                  (ap (λ l. (ch, v.psets s2) ∷ l) (sym (links.started ∙ started)))
                  (still ∙ laws.free_launched ch s3) kicked;
            released = λ x.
                ap (λ h. h x) (freed ∙ ap (without cs) (laws.free_held ch s3))
                ∙ ap (λ h. without (ch ∷ cs) h x) same
                ∙ without-Granted (acc.held s) (ch ∷ cs) (acc.held s2) granted x;
          })
