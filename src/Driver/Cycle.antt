-- ===== src/Driver/Cycle.antt =====
-- From the end of the user's transfer to the last completion: `dma_callback_kthread`, then the work
-- that it schedules.
use mathlib.Core.List.{append_assoc, append-nil}
use memif_user_release.Base.{
  ℕ, ◌+◌, ◌≡◌, refl, ◌<◌, ◌≤◌, List, [], ◌∷◌, ◌++◌, length, length-append, arith, Bool-cases, inl,
  inr, ◌==◌, if◌then◌else◌, sym, ◌∙◌, ap, ap₂, subst,
}
use memif_user_release.Desc.{DescPtr, color_usr}
use memif_user_release.Region.{req, issued, comp, Region}
use memif_user_release.Region.Run.{◌>>◌, Yields, yields, then-Yields, Yields-mono}
use memif_user_release.Region.View.{held, QueueView, View, payload, contents, IsWellFormed}
use memif_user_release.Queue.{mig_enqueue}
use memif_user_release.Queue.Link.{Enqueued}
use memif_user_release.Queue.Enqueue.{mig_enqueue-Delivered}
use memif_user_release.Driver.{
  IssueFunc, Table, Event, woken, scheduled, Kernel, Calls, Behaves, submissions, on_region-Yields,
}
use memif_user_release.Driver.Flush.{dma_callback_kthread}
use memif_user_release.Driver.Work.{kernel_flush_work}
use memif_user_release.Driver.Serve.{clean_up-Quiet}
use memif_user_release.Driver.Submit.{Submitting}
use memif_user_release.Driver.Next.{of_kernel, of_user, pending, Finished}
use memif_user_release.Driver.Finish.{kernel_flush_work-Finished}

-- The descriptor of the table is completed, pollers are woken, and the work is scheduled.
pub record Completed (table : Table) (v : View) (k : Kernel) (v' : View) (k' : Kernel)
    : Type 0 where
  pub done : Enqueued comp table.migdesc v k.region v' k'.region
  pub settled : (v'.queue comp).beyond ≡ []
  pub quiet : submissions k'.trace ≡ submissions k.trace
  pub events : (es : List Event) × (k'.trace ≡ scheduled table.user_cpu ∷ woken ∷ es)

of_kernel_nil : (x : QueueView) → contents x ≡ [] → of_kernel x ≡ []
of_kernel_nil x e = elim (Bool-cases (x.color == color_usr)) [
  | inl usr ↦ ap (λ c. if c then [] else contents x) usr
  | inr ker ↦ ap (λ c. if c then [] else contents x) ker ∙ e
]

of_user_nil : (x : QueueView) → contents x ≡ [] → of_user x ≡ []
of_user_nil x e = elim (Bool-cases (x.color == color_usr)) [
  | inl usr ↦ ap (λ c. if c then contents x else []) usr ∙ e
  | inr ker ↦ ap (λ c. if c then contents x else []) ker
]

-- Nothing is pending any more, and the completion queue has it all.
pub record Cycled (v : View) (v' : View) (r' : Region) : Type 0 where
  pub well : IsWellFormed v' r'
  pub spare : length v'.spare ≡ length v.spare
  pub served :
      contents (v'.queue comp)
      ≡ contents (v.queue comp) ++ (contents (v.queue issued) ++ contents (v.queue req))
  pub none_issued : contents (v'.queue issued) ≡ []
  pub none_left : contents (v'.queue req) ≡ []
  pub color : (v'.queue req).color ≡ color_usr

module _ {table : Table} {v v₁ v₂ : View} {k k₁ k₂ : Kernel}
    (s : Submitting table.migdesc v k v₁ k₁) (c : Completed table v₁ k₁ v₂ k₂) where
  pending_behind : pending v₂ ≡ contents (v₁.queue issued)
  pending_behind =
      ap₂ ◌++◌ (ap contents (c.done.others issued (λ e. cc)))
        (of_kernel_nil (v₂.queue req) (ap contents (c.done.others req (λ e. cc)) ∙ s.none_left))
      ∙ append-nil (contents (v₁.queue issued))

  Finished-Cycled : {v₃ : View} {k₃ : Kernel} → Finished v₂ k₂ v₃ k₃ → Cycled v v₃ k₃.region
  Finished-Cycled f =
      let out = payload (k₁.region.desc table.migdesc) in
      record {
        well = f.steady.well;
        spare = f.steady.spare ∙ ap length c.done.spare ∙ s.steady.spare;
        served =
            f.served
            ∙ ap₂ ◌++◌ (c.done.contents ∙ ap (λ x. contents x ++ out ∷ []) s.comp) pending_behind
            ∙ append_assoc (contents (v.queue comp)) (out ∷ []) (contents (v₁.queue issued))
            ∙ ap (λ l. contents (v.queue comp) ++ l) (sym s.issued);
        none_issued = f.none_issued;
        none_left =
            f.left
            ∙ of_user_nil (v₂.queue req) (ap contents (c.done.others req (λ e. cc)) ∙ s.none_left);
        color = f.color;
      }

module _ (fuel : ℕ) (link : DescPtr) (calls : Calls) (b : Behaves calls) where
  -- Where the calls behave, on a well-formed region, with fuel above the nodes by which the tail of
  -- the completion queue lags: `dma_callback_kthread` on a table whose descriptor is in the
  -- driver's hands: in the end the payload is behind all others in the completion queue, pollers are
  -- woken before the work is scheduled on the table's CPU, and nothing is submitted.
  pub dma_callback-Completed :
      (table : Table) {v : View} {k : Kernel}
      → IsWellFormed v k.region
      → v.owner table.migdesc ≡ held
      → table.migdesc < k.region.ndescs
      → length (v.queue comp).beyond < fuel
      → Yields
          (λ _ k'. (v' : View) × Completed table v k v' k')
          (dma_callback_kthread fuel link calls table k)
  unfolding dma_callback_kthread
  dma_callback-Completed table {v} {k} w taken inside lag =
      then-Yields (clean_up-Quiet calls b table table.func k) λ _ k₁ (same, quiet).
        then-Yields
          (on_region-Yields (mig_enqueue fuel link comp table.migdesc) k₁ (
            mig_enqueue-Delivered fuel link comp table.migdesc (subst (IsWellFormed v) (sym same) w)
              taken (subst (λ r. table.migdesc < r.ndescs) (sym same) inside) lag))
          λ _ k₂ ((tint, v', e, at, settled), still). yields (
            v',
            record {
              done = subst (λ r. Enqueued comp table.migdesc v r v' k₂.region) same e;
              settled = settled;
              quiet = ap submissions still ∙ quiet;
              events = (k₂.trace, refl);
            },
          )

  -- Where the calls behave, a descriptor is spare, and the fuel is above the pending requests and
  -- above the nodes by which the tail of the completion queue lags. After `user_flush` has
  -- submitted the descriptor of the table: once its transfer is complete, the callback and
  -- the work that it schedules complete every request that was pending when the flush began, in the
  -- order of submission, and leave empty queues of requests in the user's color.
  pub cycle-Completed :
      (junk : ℕ) (table : Table) (func : IssueFunc) {v v' : View} {k k' : Kernel}
      → 2 ≤ fuel
      → Submitting table.migdesc v k v' k'
      → 0 < length v.spare
      → length (contents (v.queue issued)) + length (contents (v.queue req)) < fuel
      → length (v.queue comp).beyond < fuel
      → Yields
          (λ _ k''. (v'' : View) × Cycled v v'' k''.region)
          ((do
            dma_callback_kthread fuel link calls table
            kernel_flush_work fuel junk link calls func)
            k')
  cycle-Completed junk table func {v} {v'} {k} {k'} enough s some_spare few lag =
      then-Yields
        (dma_callback-Completed table s.steady.well s.taken s.inside
          (omega (arith, lag, ap (λ (x : QueueView). length x.beyond) s.comp)))
        λ _ k₁ (v₁, c).
          Yields-mono
            (kernel_flush_work-Finished fuel junk link calls func b enough c.done.well
              (omega (arith, some_spare, s.steady.spare, ap length c.done.spare))
              (omega (
                arith,
                few,
                ap length (pending_behind s c),
                ap length s.issued,
                length-append (contents (v.queue issued)) (contents (v.queue req)),
              ))
              (omega (arith, lag, ap length c.settled)))
            λ _ k₂ (v₂, f). (v₂, Finished-Cycled s c f)
