-- ===== src/Driver/Serve.antt =====
-- One round of the kernel thread on a descriptor: the transfer, the sleeps, and the clean-up.
use memif_user_release.Base.{
  ℕ, zero, suc, ◌+◌, ◌≡◌, refl, ◌<◌, ◌≢◌, ◌∷◌, length, false, arith, sym, ◌∙◌, ap, subst,
  Bool-cases, inl, inr,
}
use memif_user_release.Desc.{DescPtr}
use memif_user_release.Region.{QueueId, comp, Region}
use memif_user_release.Region.Run.{Yields, yields, then-Yields, Yields-mono}
use memif_user_release.Region.View.{View}
use memif_user_release.Queue.{mig_enqueue}
use memif_user_release.Queue.Copy.{Dequeued}
use memif_user_release.Queue.Forward.{Forwarded}
use memif_user_release.Driver.{
  IssueFunc, copy, mig, Table, Kernel, Calls, Behaves, checks, submissions, slept, table_freed,
  on_region-Yields,
}
use memif_user_release.Driver.Flush.{complete_pages, clean_up}
use memif_user_release.Driver.Work.{await, serve_desc, sleep_range}
use memif_user_release.Driver.Drain.{forward_enqueue}

-- Only events that submit nothing.
abbrev pub Quiet : Kernel → Kernel → Type 0
Quiet k k' = (k'.region ≡ k.region) × (submissions k'.trace ≡ submissions k.trace)

module _ (calls : Calls) (b : Behaves calls) where
  -- With as many checks left as make ten, the wait ends.
  await-Quiet :
      (left : ℕ) (range : ℕ × ℕ) (k : Kernel)
      → checks k.trace + left ≡ 9
      → Yields (λ _ k'. Quiet k k') (await calls (suc left) range k)
  unfolding await
  await-Quiet zero (low, high) k e =
      rw (b.punctual (record k { trace = slept low high ∷ k.trace }) (omega (arith, e)))
        (yields (refl, refl))
  await-Quiet (suc left) (low, high) k e =
      elim (Bool-cases (calls.is_complete (record k { trace = slept low high ∷ k.trace }))) [
        | inl done ↦ rw done (yields (refl, refl))
        | inr not_yet ↦ rw not_yet (
            Yields-mono
              (await-Quiet left (30, 60) (record k { trace = slept low high ∷ k.trace })
                (omega (arith, e)))
              λ _ k' quiet. quiet)
      ]

  pub complete_pages-Quiet :
      (table : Table) (n i : ℕ) (k : Kernel)
      → Yields (λ _ k'. Quiet k k') (complete_pages calls table n i k)
  unfolding complete_pages
  complete_pages-Quiet table zero i k = yields (refl, refl)
  complete_pages-Quiet table (suc n) i k = then-Yields (b.completes table i k) λ _ k' (same, quiet).
      Yields-mono (complete_pages-Quiet table n (i + 1) k')
        λ _ k'' (same', quiet'). (same' ∙ same, quiet' ∙ ap submissions quiet)

  pub clean_up-Quiet :
      (table : Table) (func : IssueFunc) (k : Kernel)
      → Yields (λ _ k'. Quiet k k') (clean_up calls table func k)
  clean_up-Quiet table copy k = yields (refl, refl)
  clean_up-Quiet table mig k = complete_pages-Quiet table table.num_pages 0 k

  -- A descriptor that was just taken from `q` is submitted once and then complete.
  pub serve_desc-Forwarded :
      (fuel : ℕ) (link : DescPtr) (func : IssueFunc) {q : QueueId} {desc : ℕ} {v v' : View}
      {r : Region} (k : Kernel)
      → q ≢ comp
      → Dequeued q desc v r v' k.region
      → length (v.queue comp).beyond < fuel
      → Yields
          (λ _ k'.
            (v'' : View) × Forwarded q comp v r v'' k'.region
            × (length (v''.queue comp).beyond < fuel)
            × (submissions k'.trace ≡ submissions k.trace + 1))
          (serve_desc fuel link calls func desc k)
  unfolding serve_desc
  serve_desc-Forwarded fuel link func {q} {desc} {v} {v'} {r} k apart d lag =
      then-Yields (b.issues func desc false k) λ table k₁ (same, one).
        then-Yields (await-Quiet 9 (sleep_range _) k₁ (ap (λ t. checks t + 9) one))
          λ _ k₂ (same₂, quiet₂).
            then-Yields (clean_up-Quiet table table.func k₂) λ _ k₃ (same₃, quiet₃).
              let d' = subst (Dequeued q desc v r v') (sym (same₃ ∙ same₂ ∙ same)) d in
              then-Yields
                (on_region-Yields (mig_enqueue fuel link comp desc)
                  (record k₃ { trace = table_freed ∷ k₃.trace })
                  (forward_enqueue fuel link apart d' lag))
                λ _ k₄ ((v₄, f, lag'), still).
                  yields (v₄, f, lag', ap submissions still ∙ quiet₃ ∙ quiet₂ ∙ ap submissions one)
