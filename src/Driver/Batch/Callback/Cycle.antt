-- ===== src/Driver/Batch/Callback/Cycle.antt =====
-- The older flushing, its callback and the work after it: every request is completed.
use memif_user_release.Base.{
  ℕ, ◌+◌, ◌≡◌, ◌≢◌, refl, ◌<◌, ◌≤◌, true, false, List, [], ◌∷◌, ◌++◌, ◌==◌, if◌then◌else◌, map, ◌∙◌,
  ap, ap₂, arith, length, length-append, All,
}
use memif_user_release.Desc.{DescPtr, color_usr}
use memif_user_release.Region.{req, issued, comp}
use memif_user_release.Region.Run.{◌>>◌, Yields, then-Yields, Yields-mono}
use memif_user_release.Region.View.{
  QueueView, View, Payload, payload_of, rest, contents, IsWellFormed,
}
use memif_user_release.Region.Cells.{Cell}
use memif_user_release.Driver.Copy.{Machine}
use memif_user_release.Driver.Batch.{woken, scheduled, mm_put, table_freed, State}
use memif_user_release.Driver.Batch.Closing.{notices}
use memif_user_release.Driver.Batch.Copying.{flush_single_qreq_noremap2}
use memif_user_release.Driver.Batch.Copying.Lists.{IsCopyable, dsts_of, srcs_of, total}
use memif_user_release.Driver.Batch.Copying.Flushed.{table_of, transfer_of, flush-Flushed}
use memif_user_release.Driver.Batch.Callback.{dma_callback_noremap, dma_complete_work_noremap}
use memif_user_release.Driver.Batch.Callback.Returned.{completed}
use memif_user_release.Driver.Batch.Callback.Work.{callback-Returned, work-Rested}

passed_le :
    (passed : List Cell) (last : Cell) (beyond : List Cell)
    → length beyond ≤ length (map payload_of (rest (passed ++ last ∷ beyond)))
passed_le [] last [] = omega arith
passed_le [] last (c ∷ cs) = omega (arith, passed_le [] last cs)
passed_le (c ∷ []) last beyond = omega (arith, passed_le [] last beyond)
passed_le (c ∷ d ∷ cs) last beyond = omega (arith, passed_le (d ∷ cs) last beyond)

some_length : (ps : List Payload) → ps ≢ [] → (length ps == 0) ≡ false
some_length [] some = absurd (some refl)
some_length (p ∷ ps) some = ground arith

-- The tail of a queue lags behind fewer nodes than the queue holds.
beyond_le : (x : QueueView) → length x.beyond ≤ length (contents x)
beyond_le x = passed_le x.passed x.last x.beyond

module _ (m : Machine) (src dst : Payload → ℕ → ℕ) where
  -- All is completed, in order, and the user has the empty request queue.
  pub record Served (v : View) (s : State) (v' : View) (s' : State) : Type 0 where
    pub well : IsWellFormed v' s'.region
    pub spare : length v'.spare ≡ length v.spare
    pub served :
        contents (v'.queue comp)
        ≡ contents (v.queue comp)
          ++ map completed (contents (v.queue issued) ++ contents (v.queue req))
    pub none_issued : contents (v'.queue issued) ≡ []
    pub none_left : contents (v'.queue req) ≡ []
    pub color : (v'.queue req).color ≡ color_usr
    pub events :
        s'.events
        ≡ table_freed ∷ mm_put ∷ notices false 0 s'.region
          ++ scheduled (table_of m src dst (contents (v.queue req)))
            ∷ woken
            ∷ transfer_of m src dst (contents (v.queue req))
            ∷ s.events

module _ (fuel junk : ℕ) (link : DescPtr) (enough : 2 ≤ fuel) (m : Machine)
    (src dst : Payload → ℕ → ℕ) where
  -- The request queue has the user's color and requests, which a flush can copy: the region is
  -- well-formed with a spare descriptor, the fuel is above what is pending and above the nodes by
  -- which the tails lag, the requests name mapped pages that fit into a scatter list, and the DMA
  -- engine takes the lists. The flush of the user, then `dma_callback_noremap` and the work that
  -- it schedules run, and no request is made meanwhile. So all is
  -- completed that was pending before, issued or requested, in order, and marked so; the user
  -- has the empty queue again. There was one transfer, and after it the address space was put and
  -- the table freed, each exactly once.
  pub batch-Served :
      {v : View} (s : State)
      → IsWellFormed v s.region
      → 0 < length v.spare
      → length (v.queue comp).beyond < fuel
      → length (contents (v.queue issued)) + length (contents (v.queue req)) < fuel
      → (v.queue req).color ≡ color_usr
      → contents (v.queue req) ≢ []
      → All (λ p. IsCopyable m p (src p) (dst p)) (contents (v.queue req))
      → total (contents (v.queue req)) ≤ m.max_nr_sg
      → m.prep_dma_sg
          (dsts_of m src dst (contents (v.queue req)))
          (srcs_of m src dst (contents (v.queue req)))
          true
        ≡ true
      → Yields
          (λ _ s'. (v' : View) × Served m src dst v s v' s')
          ((do
            flush_single_qreq_noremap2 m true fuel junk link true
            dma_callback_noremap fuel junk link (table_of m src dst (contents (v.queue req)))
            dma_complete_work_noremap m true fuel junk link)
            s)
  batch-Served {v} s w some_spare lag few usr some good room taken =
      let ps = contents (v.queue req) in
      then-Yields
        (flush-Flushed m src dst fuel junk link true {v = v} s enough w some_spare
          (omega (arith, beyond_le (v.queue issued), few)) (omega (arith, few)) usr good room
          (λ _. taken))
        λ n s₁ (number, (v₁, c), log₁).
          then-Yields
            (callback-Returned fuel junk link enough (table_of m src dst ps) {v = v₁} s₁
              c.steady.well (omega (arith, some_spare, c.steady.spare))
              (omega (
                arith,
                few,
                ap length c.issued,
                length-append (contents (v.queue issued)) (contents (v.queue req)),
              ))
              (omega (arith, lag, ap (λ (x : QueueView). length x.beyond) c.comp)))
            λ _ s₂ ((v₂, d, none_issued), log₂).
              Yields-mono
                (work-Rested fuel junk link enough m src dst {v = v₂} s₂ d.well
                  (omega (arith, some_spare, c.steady.spare, d.spare))
                  (omega (arith, beyond_le (v₂.queue issued), ap length none_issued, enough))
                  (ap contents d.req ∙ c.none_left)
                  (ap (λ (x : QueueView). x.color) d.req ∙ c.color))
                λ _ s₃ ((v₃, e), log₃). (
                  v₃,
                  record {
                    well = e.steady.well;
                    spare = e.steady.spare ∙ d.spare ∙ c.steady.spare;
                    served =
                        ap contents e.comp
                        ∙ d.to
                        ∙ ap
                            (λ (x : QueueView).
                              contents x ++ map completed (contents (v₁.queue issued)))
                            c.comp
                        ∙ ap (λ l. contents (v.queue comp) ++ map completed l) c.issued;
                    none_issued = e.issued ∙ ap₂ ◌++◌ none_issued (ap contents d.req ∙ c.none_left);
                    none_left = e.none_left;
                    color = e.color;
                    events =
                        log₃
                        ∙ ap (λ es. table_freed ∷ mm_put ∷ notices false 0 s₃.region ++ es)
                            (log₂
                              ∙ ap (λ es. scheduled (table_of m src dst ps) ∷ woken ∷ es)
                                  (log₁
                                    ∙ ap
                                        (λ b.
                                          if b
                                          then mm_put ∷ notices true 0 s₁.region ++ s.events
                                          else transfer_of m src dst ps ∷ s.events)
                                        (ap (λ k. k == 0) number ∙ some_length ps some)));
                  },
                )
