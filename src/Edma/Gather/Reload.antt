-- ===== src/Edma/Gather/Reload.antt =====
-- The loops and the calls that load the PSETs of a channel.
use memif_user_release.Base.{
  ℕ, zero, suc, ◌+◌, ◌≤◌, ◌<◌, ◌≡◌, ◌≢◌, ◌∙◌, sym, ap, subst, some, update, update_self,
  update_other, ℕ_discrete, arith,
}
use memif_user_release.Region.Run.{Yields, yields, then-Yields, Yields-mono}
use memif_user_release.Edma.{Pset, Drv, checked, ChInfo}
use memif_user_release.Edma.Gather.{chid, with_link, preload_logic, restore, restore_last}
use memif_user_release.Edma.Gather.Documented.{View, Documented, IsChannel, bare, Like, link_of}

module _ {S : Type 0} {d : Drv S} {v : View S} (laws : Documented d v) (chinfo : ChInfo)
    (p : Pset) where
  -- The channels up to round `i` have their PSETs.
  abbrev pub Loaded : ℕ → S → Type 0
  Loaded i s = (j : ℕ) → j ≤ i → v.psets s (chid chinfo j) ≡ with_link (link_of chinfo j) p

  pub set_param-Yields :
      (c : ℕ) (q : Pset) (s : S)
      → Yields
          (λ _ s'. v.psets s' ≡ update ℕ_discrete (v.psets s) c q)
          (checked (d.set_param c q) s)
  set_param-Yields c q s = rw (laws.param_done c q s) (yields (laws.param_psets c q s))

  Loaded-suc :
      (i : ℕ) (m : ℕ → Pset) (s : S)
      → IsChannel chinfo
      → i < chinfo.logic_cnt
      → ((j : ℕ) → j ≤ i → m (chid chinfo j) ≡ with_link (link_of chinfo j) p)
      → v.psets s ≡ update ℕ_discrete m (chinfo.logic_chs i) (with_link (chinfo.links i) p)
      → Loaded (suc i) s
  Loaded-suc i m s ch inside old e zero lt =
      rw e (update_other ℕ_discrete m _ _ _ (ch.physical i inside) ∙ old 0 (omega arith))
  Loaded-suc i m s ch inside old e (suc j) lt = elim (ℕ_discrete i j) [
    | yes same ↦
        rw (e, ← same)
          (update_self ℕ_discrete m (chinfo.logic_chs i) (with_link (chinfo.links i) p))
    | no other ↦ rw e (
        update_other ℕ_discrete m _ _ _ (ch.logical i j inside (omega arith) other)
        ∙ old (suc j) (omega (arith, other)))
  ]

  pub preload_logic-Loaded :
      (left i : ℕ) (s : S)
      → IsChannel chinfo
      → i + left ≡ chinfo.logic_cnt
      → Loaded i s
      → Yields (λ _ s'. Loaded chinfo.logic_cnt s') (preload_logic d chinfo p left i s)
  unfolding preload_logic
  preload_logic-Loaded zero i s ch e old = yields (λ j lt. old j (omega arith))
  preload_logic-Loaded (suc left) i s ch e old =
      then-Yields (set_param-Yields (chinfo.logic_chs i) (with_link (chinfo.links i) p) s)
        λ _ s1 p1.
          preload_logic-Loaded left (suc i) s1 ch (omega arith)
            (Loaded-suc i (v.psets s) s1 ch (omega arith) old p1)

  -- The PSETs of logic channels that are not the last of `cnt` are as preloaded, up to addresses.
  abbrev pub Kept : ℕ → (ℕ → Pset) → Type 0
  Kept cnt m =
      (j : ℕ)
      → j < chinfo.logic_cnt
      → suc (suc j) ≢ cnt
      → Like (m (chinfo.logic_chs j)) (with_link (chinfo.links j) p)

  abbrev pub AllLike : (ℕ → Pset) → Type 0
  AllLike m =
      (i : ℕ) → i ≤ chinfo.logic_cnt → Like (m (chid chinfo i)) (with_link (link_of chinfo i) p)

  Kept-AllLike :
      (cnt : ℕ) (m : ℕ → Pset)
      → cnt ≤ 1
      → m chinfo.ch ≡ with_link chinfo.link p
      → Kept cnt m
      → AllLike m
  Kept-AllLike cnt m few first kept zero lt = ap bare first
  Kept-AllLike cnt m few first kept (suc j) lt = kept j (omega arith) (omega arith)

  restore_last-AllLike :
      (cnt : ℕ) (s : S)
      → IsChannel chinfo
      → cnt ≤ chinfo.logic_cnt + 1
      → v.psets s chinfo.ch ≡ with_link chinfo.link p
      → Kept cnt (v.psets s)
      → Yields (λ _ s'. AllLike (v.psets s')) (restore_last d chinfo p cnt s)
  restore_last-AllLike zero s ch enough first kept =
      yields (Kept-AllLike 0 (v.psets s) (omega arith) first kept)
  restore_last-AllLike (suc zero) s ch enough first kept =
      yields (Kept-AllLike 1 (v.psets s) (omega arith) first kept)
  restore_last-AllLike (suc (suc k)) s ch enough first kept =
      Yields-mono (set_param-Yields (chinfo.logic_chs k) (with_link (chinfo.links k) p) s)
        λ _ s1 p1 i lt. rw p1 (one i lt)
    where
      m : ℕ → Pset
      m = update ℕ_discrete (v.psets s) (chinfo.logic_chs k) (with_link (chinfo.links k) p)

      one : AllLike m
      one zero lt =
          ap bare (update_other ℕ_discrete (v.psets s) _ _ _ (ch.physical k (omega arith)) ∙ first)
      one (suc j) lt = elim (ℕ_discrete k j) [
        | yes same ↦
            subst (λ l. Like (m (chinfo.logic_chs l)) (with_link (chinfo.links l) p)) same
              (ap bare (update_self ℕ_discrete (v.psets s) (chinfo.logic_chs k) _))
        | no other ↦
            ap bare (
              update_other ℕ_discrete (v.psets s) (chinfo.logic_chs k) (chinfo.logic_chs j) _
                (ch.logical k j (omega arith) (omega arith) other))
            ∙ kept j (omega arith) (omega (arith, other))
      ]

  -- The channel's own PSET is loaded again, and that of the last round.
  pub restore-AllLike :
      (cnt : ℕ) (s : S)
      → IsChannel chinfo
      → cnt ≤ chinfo.logic_cnt + 1
      → Kept cnt (v.psets s)
      → Yields (λ _ s'. AllLike (v.psets s')) (restore d chinfo (some p) cnt s)
  restore-AllLike cnt s ch enough kept =
      then-Yields (set_param-Yields chinfo.ch (with_link chinfo.link p) s) λ _ s1 p1.
        restore_last-AllLike cnt s1 ch enough
          (rw p1 (update_self ℕ_discrete (v.psets s) chinfo.ch (with_link chinfo.link p)))
          (λ j lt other.
            ap (λ f. bare (f (chinfo.logic_chs j))) p1
            ∙ (ap bare (
                  update_other ℕ_discrete (v.psets s) chinfo.ch (chinfo.logic_chs j) _
                    (λ e. ch.physical j lt (sym e)))
                ∙ kept j lt other))
