-- ===== src/Driver/Batch/Loop.antt =====
-- What the loop of the older flushing does with the requests of the queue, one after the other.
use memif_user_release.Base.{
  ℕ, zero, suc, ◌≡◌, refl, ◌<◌, ◌≤◌, Bool, true, false, ◌||◌, List, [], ◌∷◌, ◌++◌, sym, ◌∙◌, ap,
  subst, arith, length,
}
use memif_user_release.Desc.{DescPtr, Desc}
use memif_user_release.Region.{req, issued, Region}
use memif_user_release.Region.Run.{
  Code, again, finish, loop, Yields, yields, then-Yields, Yields-mono, loop-Yields, again-Yields,
}
use memif_user_release.Region.View.{View, Payload, payload, contents, IsWellFormed}
use memif_user_release.Queue.{mig_enqueue, mig_dequeue}
use memif_user_release.Queue.Copy.{Dequeued}
use memif_user_release.Queue.Take.{mig_dequeue-some, mig_dequeue-none}
use memif_user_release.Queue.Forward.{Forwarded}
use memif_user_release.Driver.Drain.{forward_enqueue}
use memif_user_release.Driver.Batch.{
  BatchEvent, State, Batch, in_region-Yields, old_color, add_request, flush_turn,
}
use memif_user_release.Driver.Batch.Closing.{
  Closed, notices, Forwarded-Closed, Ended, end_flush-Ended,
}
use memif_user_release.Driver.Batch.Gathered.{Adds, added, gathered, logged, AllFit}

or_true : (b : Bool) → (b || true) ≡ true
or_true true = refl
or_true false = refl

module _ {G : Type 0} (fuel junk : ℕ) (link : DescPtr) (user : Bool) {add : Desc → G → Code State G}
    {effect : Payload → G → G} {log : Payload → G → List BatchEvent} {Fits : Payload → G → Type 0}
    (a : Adds add effect log Fits) (enough : 2 ≤ fuel) where
  -- One request is issued.
  abbrev Advanced : View → State → Payload → Batch G → Batch G → State → Type 0
  Advanced v s x b b' s' =
      (b' ≡ added effect b x)
      × ((v' : View) × Forwarded req issued v s.region v' s'.region
          × (length (v'.queue issued).beyond < fuel))
      × (s'.events ≡ log x b.made ++ s.events)

  add_request-Advanced :
      (b : Batch G) (desc : ℕ) (x : Payload) {v v' : View} {r : Region} (s : State)
      → Dequeued req desc v r v' s.region
      → payload (s.region.desc desc) ≡ x
      → Fits x b.made
      → length (v.queue issued).beyond < fuel
      → Yields
          (λ t s'. (b' : Batch G) × (t ≡ again b') × Advanced v (record s { region = r }) x b b' s')
          (add_request true fuel link add b desc s)
  unfolding add_request
  add_request-Advanced b desc x s d is_x fits lag =
      let done =
        a.adds (s.region.desc desc) b.made s (subst (λ y. Fits y b.made) (sym is_x) fits) in
      rw (or_true b.table, done, is_x)
        (then-Yields
          (in_region-Yields (mig_enqueue fuel link issued desc) _
            (forward_enqueue fuel link {q = req} {p = issued} (λ e. cc) d lag))
          λ c s' (f, still). yields (_, refl, (refl, f, still)))

  turn-Advanced :
      (b : Batch G) (x : Payload) (xs : List Payload) {v : View} (s : State)
      → contents (v.queue req) ≡ x ∷ xs
      → IsWellFormed v s.region
      → 0 < length v.spare
      → Fits x b.made
      → length (v.queue issued).beyond < fuel
      → Yields
          (λ t s'. (b' : Batch G) × (t ≡ again b') × Advanced v s x b b' s')
          (flush_turn true fuel junk link user add b s)
  unfolding flush_turn
  turn-Advanced b x xs {v} s e w some_spare fits lag =
      then-Yields
        (in_region-Yields (mig_dequeue fuel junk req) s
          (mig_dequeue-some fuel junk req enough w some_spare (λ ends. cc (sym ends ∙ e))))
        λ o s' ((desc, one, v', d), still). rw one (
          subst
            (λ es.
              Yields
                (λ t s''.
                  (b' : Batch G) × (t ≡ again b')
                  × Advanced v (record { region = s.region; events = es }) x b b' s'')
                (add_request true fuel link add b desc s'))
            still (add_request-Advanced b desc x s' d (cc (sym d.contents ∙ e)) fits lag))

  turn-Ended :
      (b : Batch G) {v : View} (s : State)
      → contents (v.queue req) ≡ []
      → IsWellFormed v s.region
      → (v.queue req).color ≡ old_color user
      → Yields
          (λ t s'. (b' : Batch G) × (t ≡ finish b') × (b' ≡ b) × Ended user v s b s')
          (flush_turn true fuel junk link user add b s)
  unfolding flush_turn
  turn-Ended b {v} s ends w old =
      then-Yields
        (in_region-Yields (mig_dequeue fuel junk req) s
          (mig_dequeue-none fuel junk req enough w ends))
        λ o s' ((nothing, same), still).
          let whole : s' ≡ s = λ i. record { region = same i; events = still i } in
          rw (nothing, whole) (end_flush-Ended fuel user b s (omega (arith, enough)) w ends old)

  -- How the loop ends that begins with the requests `xs` in the queue.
  abbrev pub Gathered : Batch G → List Payload → View → State → Batch G → State → Type 0
  Gathered b xs v s b' s' =
      (b' ≡ gathered effect b xs)
      × ((v' : View) × Closed user b'.count v s.region v' s'.region
          × (s'.events ≡ notices user b'.count s'.region ++ logged effect log b.made xs s.events))

  pub loop-Gathered :
      (n : ℕ) (xs : List Payload) (b : Batch G) {v : View} (s : State)
      → contents (v.queue req) ≡ xs
      → length xs < n
      → IsWellFormed v s.region
      → 0 < length v.spare
      → length (v.queue issued).beyond < fuel
      → (v.queue req).color ≡ old_color user
      → AllFit effect Fits b.made xs
      → Yields (Gathered b xs v s) (loop n (flush_turn true fuel junk link user add) b s)
  loop-Gathered zero xs b s e few w some_spare lag old fits = absurd (omega (arith, few))
  loop-Gathered (suc n) [] b {v} s e few w some_spare lag old fits =
      loop-Yields (flush_turn true fuel junk link user add) n (
        Yields-mono (turn-Ended b s e w old) λ t s' (b', done, same, end).
          (b', done, (same, subst (λ c. Ended user v s c s') (sym same) end)))
  loop-Gathered (suc n) (x ∷ xs) b {v} s e few w some_spare lag old fits =
      again-Yields (flush_turn true fuel junk link user add) n
        (turn-Advanced b x xs s e w some_spare fits.0 lag)
        λ b₁ s₁ (one, (v₁, f, lag₁), log₁). rw one (
          Yields-mono
            (loop-Gathered n xs (added effect b x) {v = v₁} s₁ (cc (sym f.from ∙ e))
              (omega (arith, few)) f.steady.well (omega (arith, some_spare, f.steady.spare)) lag₁
              (f.color req ∙ old) fits.1)
            λ b' s' (all, (v', c, log')). (
              all,
              (
                v',
                Forwarded-Closed f c,
                log'
                    ∙ ap
                        (λ es.
                          notices user b'.count s'.region
                          ++ logged effect log (effect x b.made) xs es)
                        log₁,
              ),
            ))
