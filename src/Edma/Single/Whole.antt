-- ===== src/Edma/Single/Whole.antt =====
-- A single transfer, and the wait for it.
use memif_user_release.Base.{
  ℕ, ◌≡◌, ◌≢◌, ◌∙◌, refl, sym, ap, Bool, ◌∷◌, update_self, update_other, ℕ_discrete, subst, ◌<◌,
  ◌^◌,
}
use memif_user_release.Region.Run.{ok, Yields, yields, then-Yields, ◌>>=◌}
use memif_user_release.Edma.{Pset, Drv, ChInfo}
use memif_user_release.Edma.Geometry.{Geometry, get_xfer_geometry}
use memif_user_release.Edma.Geometry.Fits.{Fits}
use memif_user_release.Edma.Geometry.Bytes.{Carries, holding-Moves}
use memif_user_release.Edma.Gather.{OptBits}
use memif_user_release.Edma.Gather.Documented.{View}
use memif_user_release.Edma.Repeat.{repeat_opt, repeat_pset}
use memif_user_release.Edma.Repeat.Documented.{Account, Grantor}
use memif_user_release.Edma.Single.{launch, start_xfer_once1, wait_xfer1}

module _ {S : Type 0} {v : View S} {acc : Account S} {d : Drv S}
    {get_param : ℕ → S → Bool × Pset × S} {addr : ℕ → ℕ} (laws : Grantor v acc d get_param addr)
    (b : OptBits) (fuel src dest size : ℕ) (g : Geometry) where
  -- Channel `ch` was started once, with the PSETs `m`, and its own is that of the transfer.
  pub record IsMoved (ch tcc : ℕ) (m : ℕ → Pset) (s t : S) : Type 0 where
    pub own : Carries (m ch) src dest size
    pub option : (m ch).opt ≡ repeat_opt b tcc g.sync
    pub alone : (m ch).link_addr ≡ 0xffff
    pub launched : v.launched t ≡ (ch, m) ∷ v.launched s

  launch-IsMoved :
      (ch tcc : ℕ) (s : S)
      → Fits size g
      → g.bcnt < 2 ^ 16
      → Yields
          (λ x t.
            (x.ch ≡ ch)
            × (x.tcc ≡ tcc)
            × ((m : ℕ → Pset) × IsMoved ch tcc m s t)
            × (acc.held t ≡ acc.held s)
            × ((a : ℕ) → a ≢ ch → v.psets t a ≡ v.psets s a))
          (launch d b src dest g ch tcc s)
  unfolding launch
  launch-IsMoved ch tcc s fits few =
      let p = repeat_pset b src dest tcc g in
      let s1 = (d.set_param ch p s).1 in
      let at : v.psets s1 ch ≡ p =
        ap (λ f. f ch) (laws.set_psets ch p s) ∙ update_self ℕ_discrete (v.psets s) ch p in
      rw (laws.set_done ch p s, laws.enable_done ch s1)
        (yields (
          refl,
          refl,
          (
            v.psets s1,
            record {
              own =
                  subst (λ q. Carries q src dest size) (sym at)
                    (refl, refl, holding-Moves g size fits few);
              option = ap (λ q. q.opt) at;
              alone = ap (λ q. q.link_addr) at;
              launched =
                  laws.enable_launched ch s1
                  ∙ ap (λ l. (ch, v.psets s1) ∷ l) (laws.set_launched ch p s);
            },
          ),
          laws.enable_held ch s1 ∙ laws.set_held ch p s,
          λ a ne.
              laws.enable_psets ch a s1 ne
              ∙ ap (λ f. f a) (laws.set_psets ch p s)
              ∙ update_other ℕ_discrete (v.psets s) ch a p (λ e. ne (sym e)),
        ))

  -- `edma3_start_xfer_once1` and `edma3_wait_xfer1` on a channel that is there: it is started once,
  -- no channel is granted or freed, and no PSET but the channel's is changed.
  pub once1-wait-IsMoved :
      (chinfo : ChInfo) (s : S)
      → ((t : S) → get_xfer_geometry fuel size t ≡ ok g t)
      → Fits size g
      → g.bcnt < 2 ^ 16
      → Yields
          (λ _ t.
            ((m : ℕ → Pset) × IsMoved chinfo.ch chinfo.tcc m s t)
            × (acc.held t ≡ acc.held s)
            × ((a : ℕ) → a ≢ chinfo.ch → v.psets t a ≡ v.psets s a))
          ((do x ← start_xfer_once1 d b chinfo fuel src dest size; wait_xfer1 d x) s)
  unfolding start_xfer_once1 wait_xfer1
  once1-wait-IsMoved chinfo s geometric fits few =
      let was = laws.malloc_same s in
      let s1 = (d.malloc s).1 in
      rw (laws.malloc_done s, geometric s1)
        (then-Yields (launch-IsMoved chinfo.ch chinfo.tcc s1 fits few)
          λ x s2 (ch_eq, tcc_eq, (m, moved), same, others). rw (laws.wait_done x.tcc s2) (
            yields (
              (
                m,
                record {
                  own = moved.own;
                  option = moved.option;
                  alone = moved.alone;
                  launched =
                      laws.wait_launched x.tcc s2
                      ∙ moved.launched
                      ∙ ap (λ l. (chinfo.ch, m) ∷ l) was.1;
                },
              ),
              laws.wait_held x.tcc s2 ∙ same ∙ was.2,
              λ a ne.
                  laws.wait_psets x.tcc chinfo.ch a m (v.launched s1) s2 moved.launched ne
                  ∙ others a ne
                  ∙ ap (λ f. f a) was.0,
            )))
