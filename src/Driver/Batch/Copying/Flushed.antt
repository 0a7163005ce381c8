-- ===== src/Driver/Batch/Copying/Flushed.antt =====
-- What `flush_single_qreq_noremap2` does with the requests of the queue.
use native.Mathlib.Nat.{pow-le-pow_right}
use memif_user_release.Base.{
  ℕ, ◌+◌, ◌^◌, ◌≡◌, ◌≢◌, refl, ◌<◌, ◌≤◌, Bool, true, not, List, [], ◌∷◌, ◌++◌, ◌==◌, if◌then◌else◌,
  ◌∙◌, ap, arith, length, All,
}
use memif_user_release.Desc.{DescPtr, order}
use memif_user_release.Region.{req, issued}
use memif_user_release.Region.Run.{ok, Yields, Yields-mono}
use memif_user_release.Region.View.{View, Payload, contents, IsWellFormed}
use memif_user_release.Driver.Copy.{Machine}
use memif_user_release.Driver.Batch.{BatchTable, BatchEvent, transferred, mm_put, State, old_color}
use memif_user_release.Driver.Batch.Closing.{Closed, notices}
use memif_user_release.Driver.Batch.Gathered.{gathered, gathered_count}
use memif_user_release.Driver.Batch.Whole.{nothing_yet, flush_single-FlushedAll}
use memif_user_release.Driver.Batch.Copying.{no_pages, launch_copy, flush_single_qreq_noremap2}
use memif_user_release.Driver.Batch.Copying.Lists.{
  request, pages, total, IsCopyable, dsts_of, srcs_of, with_request, Copying-Adds, quiet_log,
  gathered_lists, all_fit,
}

some_pages : (p : Payload) (ps : List Payload) → 1 ≤ total (p ∷ ps)
some_pages p ps =
    let one : 2 ^ 0 ≤ pages p =
      pow-le-pow_right {n = 2} (omega arith) {i = 0} {j = order (request p)} (omega arith) in
    omega (arith, one)

module _ (m : Machine) (src dst : Payload → ℕ → ℕ) where
  abbrev pub table_of : List Payload → BatchTable
  table_of ps = record { num_mig_descs = length ps; num_pages = total ps }

  -- One transfer of all pages of the requests `ps`, which are not none.
  abbrev pub transfer_of : List Payload → BatchEvent
  transfer_of ps = transferred (dsts_of m src dst ps) (srcs_of m src dst ps) (table_of ps)

  launch_lem :
      (p : Payload) (ps : List Payload) (s : State)
      → m.prep_dma_sg (dsts_of m src dst (p ∷ ps)) (srcs_of m src dst (p ∷ ps)) true ≡ true
      → launch_copy m (gathered (with_request m src dst) (nothing_yet no_pages) (p ∷ ps)) s
        ≡ ok tt (record s { events = transfer_of (p ∷ ps) ∷ s.events })
  unfolding launch_copy
  launch_lem p ps s taken =
      let some : not (total (p ∷ ps) == 0) ≡ true = ground (arith, some_pages p ps) in
      let zero_first : 0 + total (p ∷ ps) ≡ total (p ∷ ps) = omega arith in
      let number : 0 + length (p ∷ ps) ≡ length (p ∷ ps) = omega arith in
      rw
        (
          gathered_lists m src dst (nothing_yet no_pages) (p ∷ ps),
          gathered_count (with_request m src dst) (nothing_yet no_pages) (p ∷ ps),
          zero_first,
          number,
          some,
          taken,
        )
        refl

  launches :
      (ps : List Payload) (s : State)
      → ps ≢ []
      → (ps ≢ [] → m.prep_dma_sg (dsts_of m src dst ps) (srcs_of m src dst ps) true ≡ true)
      → launch_copy m (gathered (with_request m src dst) (nothing_yet no_pages) ps) s
        ≡ ok tt (record s { events = transfer_of ps ∷ s.events })
  launches [] s some taken = absurd (some refl)
  launches (p ∷ ps) s some taken = launch_lem p ps s (taken some)

  -- What a flush leaves: it returns the number of requests, and has submitted one transfer for all;
  -- where there are none, it has put the address space and may have woken pollers.
  abbrev pub Flushed : (user : Bool) → View → State → ℕ → State → Type 0
  Flushed user v s n s' =
      (n ≡ length (contents (v.queue req)))
      × ((v' : View) × Closed user n v s.region v' s'.region)
      × (s'.events ≡ (
          if n == 0
          then mm_put ∷ notices user 0 s'.region ++ s.events
          else transfer_of (contents (v.queue req)) ∷ s.events))

  -- On a well-formed region with a spare descriptor, with fuel above the requests and above the
  -- nodes by which the tail of the issued queue lags. The queue has the color of the side that
  -- flushes, every request names mapped pages, all of them together fit into a scatter list, and
  -- the DMA engine takes the lists. Then all requests are issued, in order, and their
  -- number is returned. Where there are some, one transfer is submitted, of all their pages in
  -- order; where there are none, the address space is put instead. The queue is the kernel's in the
  -- end, unless the kernel found it empty: then the user gets it back, and pollers are woken if
  -- the completion queue does not look empty.
  pub flush-Flushed :
      (fuel junk : ℕ) (link : DescPtr) (user : Bool) {v : View} (s : State)
      → 2 ≤ fuel
      → IsWellFormed v s.region
      → 0 < length v.spare
      → length (v.queue issued).beyond < fuel
      → length (contents (v.queue req)) < fuel
      → (v.queue req).color ≡ old_color user
      → All (λ p. IsCopyable m p (src p) (dst p)) (contents (v.queue req))
      → total (contents (v.queue req)) ≤ m.max_nr_sg
      → (contents (v.queue req) ≢ []
          → m.prep_dma_sg
              (dsts_of m src dst (contents (v.queue req)))
              (srcs_of m src dst (contents (v.queue req)))
              true
            ≡ true)
      → Yields (Flushed user v s) (flush_single_qreq_noremap2 m true fuel junk link user s)
  unfolding flush_single_qreq_noremap2
  flush-Flushed fuel junk link user {v} s enough w some_spare lag few old good room taken =
      let ps = contents (v.queue req) in
      Yields-mono
        (flush_single-FlushedAll fuel junk link user (Copying-Adds m src dst) enough (launch_copy m)
          (transfer_of ps) no_pages ps s refl few w some_spare lag old
          (all_fit m src dst no_pages ps good (omega (arith, room)))
          (λ s' some. launches ps s' some taken))
        λ n s' (number, closed, log). (
          number,
          closed,
          log
              ∙ ap
                  (λ es.
                    if n == 0
                    then mm_put ∷ notices user 0 s'.region ++ s.events
                    else transfer_of ps ∷ es)
                  (quiet_log m src dst no_pages ps s.events),
        )
