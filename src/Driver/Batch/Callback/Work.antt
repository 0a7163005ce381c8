-- ===== src/Driver/Batch/Callback/Work.antt =====
-- The callback of the older flushing, and the work that it schedules, one by one.
use memif_user_release.Base.{
  ℕ, ◌≡◌, refl, ◌<◌, ◌≤◌, true, false, [], ◌∷◌, ◌++◌, ◌==◌, if◌then◌else◌, sym, ◌∙◌, ap, subst,
  arith, length, All,
}
use memif_user_release.Desc.{DescPtr, color_usr, color_ker}
use memif_user_release.Region.{req, issued, comp}
use memif_user_release.Region.Run.{loop, Yields, yields, then-Yields}
use memif_user_release.Region.View.{View, Payload, contents, IsWellFormed}
use memif_user_release.Queue.Color.{migqueue_color-eq}
use memif_user_release.Driver.Copy.{Machine}
use memif_user_release.Driver.Batch.{
  BatchTable, woken, scheduled, mm_put, table_freed, State, in_region-Yields,
}
use memif_user_release.Driver.Batch.Closing.{Closed, notices}
use memif_user_release.Driver.Batch.Copying.Lists.{IsCopyable, total}
use memif_user_release.Driver.Batch.Copying.Flushed.{transfer_of, flush-Flushed}
use memif_user_release.Driver.Batch.Callback.{
  complete_turn, dma_callback_noremap, dma_complete_work_noremap,
}
use memif_user_release.Driver.Batch.Callback.Returned.{Returned, complete_all-Returned}

module _ (fuel junk : ℕ) (link : DescPtr) (enough : 2 ≤ fuel) where
  -- On a well-formed region with a spare descriptor, with fuel above the issued requests and above
  -- the nodes by which the tail of the completion queue lags: `dma_callback_noremap` moves all
  -- issued requests, in order, behind the completed ones, with their flags set to completed, leaves
  -- the request queue alone, wakes pollers, and schedules the work.
  pub callback-Returned :
      (table : BatchTable) {v : View} (s : State)
      → IsWellFormed v s.region
      → 0 < length v.spare
      → length (contents (v.queue issued)) < fuel
      → length (v.queue comp).beyond < fuel
      → Yields
          (λ _ s'.
            ((v' : View) × Returned (contents (v.queue issued)) v s.region v' s'.region
              × (contents (v'.queue issued) ≡ []))
            × (s'.events ≡ scheduled table ∷ woken ∷ s.events))
          (dma_callback_noremap fuel junk link table s)
  unfolding dma_callback_noremap
  callback-Returned table {v} s w some_spare few lag =
      then-Yields
        (in_region-Yields (loop fuel (complete_turn fuel junk link) tt) s (
          complete_all-Returned fuel junk link enough fuel (contents (v.queue issued)) refl few w
            some_spare lag))
        λ _ s' (done, still). yields (done, ap (λ es. scheduled table ∷ woken ∷ es) still)

  module _ (m : Machine) (src dst : Payload → ℕ → ℕ) where
    abbrev Resting : View → State → State → Type 0
    Resting v s s' =
        ((v' : View) × Closed false 0 v s.region v' s'.region)
        × (s'.events ≡ mm_put ∷ notices false 0 s'.region ++ s.events)

    -- The queue went back to the user, and the address space and the table are released.
    abbrev pub Rested : View → State → State → Type 0
    Rested v s s' =
        ((v' : View) × Closed false 0 v s.region v' s'.region)
        × (s'.events ≡ table_freed ∷ mm_put ∷ notices false 0 s'.region ++ s.events)

    pub work-Rested :
        {v : View} (s : State)
        → IsWellFormed v s.region
        → 0 < length v.spare
        → length (v.queue issued).beyond < fuel
        → contents (v.queue req) ≡ []
        → (v.queue req).color ≡ color_ker
        → Yields (λ _ s'. Rested v s s') (dma_complete_work_noremap m true fuel junk link s)
    unfolding dma_complete_work_noremap
    work-Rested {v} s w some_spare lag ends ker =
        let usr : ((v.queue req).color == color_usr) ≡ false = ground (arith, ker) in
        let same : ((v.queue req).color == color_ker) ≡ true = ground (arith, ker) in
        rw (migqueue_color-eq req w, usr, same)
          (then-Yields {P = λ _ s'. Resting v s s'}
            (then-Yields
              (flush-Flushed m src dst fuel junk link false {v = v} s enough w some_spare lag
                (omega (arith, enough, ap length ends)) ker
                (subst (All (λ p. IsCopyable m p (src p) (dst p))) (sym ends) tt)
                (omega (arith, ap total ends)) (λ some. absurd (some ends)))
              λ n s' (number, (v', closed), log).
                let none : n ≡ 0 = number ∙ ap length ends in
                yields (
                  (v', subst (λ k. Closed false k v s.region v' s'.region) none closed),
                  log
                      ∙ ap
                          (λ k.
                            if k == 0
                            then mm_put ∷ notices false 0 s'.region ++ s.events
                            else transfer_of m src dst (contents (v.queue req)) ∷ s.events)
                          none,
                ))
            λ _ s' (closed, log). yields (closed, ap (λ es. table_freed ∷ es) log))
