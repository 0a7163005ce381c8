-- ===== src/Driver/Submit.antt =====
-- What `user_flush` does, by the color of the request queue.
use memif_user_release.Base.{
  ℕ, zero, suc, ◌≡◌, ◌≢◌, refl, ◌<◌, ◌≤◌, List, [], ◌∷◌, ◌++◌, Option, sym, ◌∙◌, ap, arith, length,
  true, false, ◌==◌,
}
use memif_user_release.Desc.{DescPtr, color_ker}
use memif_user_release.Region.{req, issued, comp, Region}
use memif_user_release.Region.Run.{
  ok, bug, pure, ◌>>=◌, ◌>>◌, loop, finish, Yields, yields, then-Yields, Yields-ok, loop-Yields,
}
use memif_user_release.Region.View.{held, QueueView, View, payload, contents, IsWellFormed}
use memif_user_release.Queue.Copy.{Dequeued}
use memif_user_release.Queue.{or_bug, mig_dequeue}
use memif_user_release.Queue.Take.{mig_dequeue-some, mig_dequeue-none}
use memif_user_release.Queue.Color.{Recolored}
use memif_user_release.Queue.Recolor.{set_color-Repainted, Recolored-Steady}
use memif_user_release.Queue.Forward.{Steady, Steady-trans, Dequeued-Steady}
use memif_user_release.Driver.{IssueFunc, Kernel, Calls, Event, on_region}
use memif_user_release.Driver.Flush.{empty_turn, user_flush}
use memif_user_release.Driver.Drain.{Moved, move_all-Moved}

-- The request queue is empty and in the kernel's color; what was in it is issued.
pub record Flushed (v : View) (r : Region) (v' : View) (r' : Region) : Type 0 where
  pub steady : Steady v r v' r'
  pub issued : contents (v'.queue issued) ≡ contents (v.queue issued) ++ contents (v.queue req)
  pub none_left : contents (v'.queue req) ≡ []
  pub color : (v'.queue req).color ≡ color_ker
  pub comp : v'.queue comp ≡ v.queue comp

abbrev Emptied : View → Region → ℕ → Region → Type 0
Emptied v r c r' = (c ≡ (v.queue req).color) × (v' : View) × Flushed v r v' r'

Moved-Flushed :
    {v v' v'' : View} {r r' r'' : Region}
    → Moved v r v' r'
    → Recolored req color_ker v' r' v'' r''
    → Flushed v r v'' r''
Moved-Flushed {v} {v'} m c = record {
  steady = Steady-trans m.steady (Recolored-Steady c);
  issued = ap contents (c.others issued (λ e. cc)) ∙ m.issued;
  none_left = c.contents;
  color = c.color;
  comp = c.others comp (λ e. cc) ∙ m.comp;
}

-- A descriptor that is about to be handed to the DMA engine: it is its caller's, with the oldest of
-- all pending payloads, and the other ones are issued.
pub record Submitting (desc : ℕ) (v : View) (k : Kernel) (v' : View) (k' : Kernel) : Type 0 where
  pub steady : Steady v k.region v' k'.region
  pub trace : k'.trace ≡ k.trace
  pub inside : desc < k'.region.ndescs
  pub taken : v'.owner desc ≡ held
  pub issued :
      contents (v.queue issued) ++ contents (v.queue req)
      ≡ payload (k'.region.desc desc) ∷ contents (v'.queue issued)
  pub none_left : contents (v'.queue req) ≡ []
  pub color : (v'.queue req).color ≡ color_ker
  pub comp : v'.queue comp ≡ v.queue comp

module _ (fuel junk : ℕ) (link : DescPtr) (enough : 2 ≤ fuel) {v : View} {r : Region}
    (w : IsWellFormed v r) (some_spare : 0 < length v.spare)
    (lag : length (v.queue issued).beyond < fuel)
    (few : length (contents (v.queue req)) < fuel) where
  empty_turn-Flushed :
      Yields (λ t r'. (c : ℕ) × (t ≡ finish c) × Emptied v r c r') (empty_turn fuel junk link tt r)
  unfolding empty_turn
  empty_turn-Flushed =
      then-Yields
        (move_all-Moved fuel junk link enough fuel (contents (v.queue req)) refl few w some_spare
          lag)
        λ _ r' (v', m).
          then-Yields
            (set_color-Repainted fuel req color_ker (omega (arith, enough)) m.steady.well
              (omega arith) m.none_left)
            λ c r'' (fine, old, v'', p).
              rw fine (yields (c, refl, (old ∙ m.color req, v'', Moved-Flushed m p)))

  emptied : (n : ℕ) → 1 ≤ n → Yields (Emptied v r) (loop n (empty_turn fuel junk link) tt r)
  emptied zero h = absurd (omega (arith, h))
  emptied (suc n) h = loop-Yields (empty_turn fuel junk link) {P = Emptied v r} n empty_turn-Flushed

  take_issued :
      (desc : ℕ) {v' v'' : View} {r' r'' : Region}
      → Flushed v r v' r'
      → Dequeued issued desc v' r' v'' r''
      → (trace : List Event)
      → Submitting desc v
          (record { region = r; trace = trace })
          v''
          (record { region = r''; trace = trace })
  take_issued desc f d trace = record {
    steady = Steady-trans f.steady (Dequeued-Steady d);
    trace = refl;
    inside = omega (arith, d.inside, d.size);
    taken = d.taken;
    issued = sym f.issued ∙ d.contents;
    none_left = ap contents (d.others req (λ e. cc)) ∙ f.none_left;
    color = ap (λ (x : QueueView). x.color) (d.others req (λ e. cc)) ∙ f.color;
    comp = d.others comp (λ e. cc) ∙ f.comp;
  }

  -- The loop ends with the color of the queue; what follows depends on it.
  after_emptied :
      (calls : Calls) (func : IssueFunc) (trace : List Event) (c : ℕ) (r' : Region)
      → loop fuel (empty_turn fuel junk link) tt r ≡ ok c r'
      → (c == color_ker) ≡ false
      → (o : Option ℕ) (r'' : Region) → mig_dequeue fuel junk issued r' ≡ ok o r''
      → user_flush fuel junk link calls func (record { region = r; trace = trace })
        ≡ (do desc ← on_region (or_bug o); calls.issue_one_desc func desc true; pure 0)
            (record { region = r''; trace = trace })
  unfolding user_flush
  after_emptied calls func trace c r' run other o r'' run' = rw (run, other, run') refl

  -- On a well-formed region with a spare descriptor, with fuel above the requests and above the
  -- nodes by which the tail of the issued queue lags. The queue is not in the kernel's color, and
  -- something is pending, requested or issued: `user_flush` moves all requests on to the
  -- issued queue, gives the empty request queue the kernel's color, and hands exactly one
  -- descriptor, with the oldest pending payload, to the issuing function, with an interrupt; then
  -- it returns 0. Until there it does nothing else to the outside.
  pub user_flush-Submitting :
      (calls : Calls) (func : IssueFunc) (trace : List Event)
      → (v.queue req).color ≢ color_ker
      → contents (v.queue issued) ++ contents (v.queue req) ≢ []
      → (desc : ℕ) × (v' : View) × (k' : Kernel) × Submitting desc v
          (record { region = r; trace = trace })
          v'
          k'
        × (user_flush fuel junk link calls func (record { region = r; trace = trace })
            ≡ (do calls.issue_one_desc func desc true; pure 0) k')
  user_flush-Submitting calls func trace user pending =
      let (c, r₁, run, (old, v₁, f)) = Yields-ok (emptied fuel (omega (arith, enough))) in
      let (o, r₂, run', (desc, one, v₂, d)) = Yields-ok (
        mig_dequeue-some fuel junk issued enough f.steady.well
          (omega (arith, some_spare, f.steady.spare)) (λ ends. pending (sym f.issued ∙ ends))) in
      (
        desc,
        v₂,
        record { region = r₂; trace = trace },
        take_issued desc f d trace,
        after_emptied calls func trace c r₁ run (ground (arith, old, user)) o r₂ run' ∙ rw one refl,
      )

  -- On a well-formed region with a spare descriptor and with such fuel. The queue is in the
  -- kernel's color: `user_flush` moves all requests on to the issued queue, issues nothing, and
  -- returns 0.
  pub user_flush-Flushed :
      (calls : Calls) (func : IssueFunc) (trace : List Event)
      → (v.queue req).color ≡ color_ker
      → Yields
          (λ c k'. (c ≡ 0) × (k'.trace ≡ trace) × (v' : View) × Flushed v r v' k'.region)
          (user_flush fuel junk link calls func (record { region = r; trace = trace }))
  unfolding user_flush
  user_flush-Flushed calls func trace ker =
      let (c, r₁, run, (old, v₁, f)) = Yields-ok (emptied fuel (omega (arith, enough))) in
      let same : (c == color_ker) ≡ true = ground (arith, old, ker) in
      rw (run, same) (yields (refl, refl, v₁, f))

  -- On a well-formed region with a spare descriptor and with such fuel. The queue is not in the
  -- kernel's color, and nothing is pending, requested or issued: the flush stops the kernel
  -- at `BUG_ON(!desc)`.
  pub user_flush-bug :
      (calls : Calls) (func : IssueFunc) (trace : List Event)
      → (v.queue req).color ≢ color_ker
      → contents (v.queue issued) ++ contents (v.queue req) ≡ []
      → user_flush fuel junk link calls func (record { region = r; trace = trace }) ≡ bug
  user_flush-bug calls func trace user idle =
      let (c, r₁, run, (old, v₁, f)) = Yields-ok (emptied fuel (omega (arith, enough))) in
      let (o, r₂, run', (nothing, same)) =
        Yields-ok (mig_dequeue-none fuel junk issued enough f.steady.well (f.issued ∙ idle)) in
      after_emptied calls func trace c r₁ run (ground (arith, old, user)) o r₂ run'
      ∙ rw nothing refl
