-- ===== src/Driver/Batch/Whole.antt =====
-- The older flushing as a whole: the loop, and what follows it.
use memif_user_release.Base.{
  ℕ, ◌≡◌, ◌≢◌, refl, ◌<◌, ◌≤◌, Bool, true, false, List, [], ◌∷◌, ◌++◌, if◌then◌else◌, ◌==◌, ◌∙◌, ap,
  subst, arith, length,
}
use memif_user_release.Desc.{DescPtr, Desc}
use memif_user_release.Region.{req, issued, Region}
use memif_user_release.Region.Run.{ok, Code, Yields, yields, Yields-ok}
use memif_user_release.Region.View.{View, Payload, contents, IsWellFormed}
use memif_user_release.Driver.Batch.{BatchEvent, mm_put, State, Batch, old_color, flush_single}
use memif_user_release.Driver.Batch.Closing.{Closed, notices}
use memif_user_release.Driver.Batch.Gathered.{Adds, gathered, logged, AllFit, gathered_count}
use memif_user_release.Driver.Batch.Loop.{loop-Gathered}

abbrev pub nothing_yet : {G : Type 0} → G → Batch G
nothing_yet empty = record { table = false; count = 0; made = empty }

notices_none : (user : Bool) (n : ℕ) (r : Region) → (n == 0) ≡ false → notices user n r ≡ []
notices_none true n r some = refl
notices_none false n r some = rw some refl

module _ {G : Type 0} (fuel junk : ℕ) (link : DescPtr) (user : Bool) {add : Desc → G → Code State G}
    {effect : Payload → G → G} {log : Payload → G → List BatchEvent} {Fits : Payload → G → Type 0}
    (a : Adds add effect log Fits) (enough : 2 ≤ fuel) (launch : Batch G → Code State (Unit {0}))
    (event : BatchEvent) (empty : G) where
  -- What a flush of the requests `xs` leaves: it returns their number, and has launched them, or
  -- has put the address space where there are none.
  abbrev pub FlushedAll : List Payload → View → State → ℕ → State → Type 0
  FlushedAll xs v s n s' =
      (n ≡ length xs)
      × ((v' : View) × Closed user n v s.region v' s'.region)
      × (s'.events ≡ (
          if n == 0
          then mm_put ∷ notices user 0 s'.region ++ s.events
          else event ∷ logged effect log empty xs s.events))

  pub flush_single-FlushedAll :
      (xs : List Payload) {v : View} (s : State)
      → contents (v.queue req) ≡ xs
      → length xs < fuel
      → IsWellFormed v s.region
      → 0 < length v.spare
      → length (v.queue issued).beyond < fuel
      → (v.queue req).color ≡ old_color user
      → AllFit effect Fits empty xs
      → ((s' : State)
          → xs ≢ []
          → launch (gathered effect (nothing_yet empty) xs) s'
            ≡ ok tt (record s' { events = event ∷ s'.events }))
      → Yields (FlushedAll xs v s) (flush_single true fuel junk link user add launch empty s)
  unfolding flush_single
  flush_single-FlushedAll [] {v} s e few w some_spare lag old fits launches =
      let (b, s₁, run, (all, (v₁, c, log₁))) = Yields-ok (
        loop-Gathered fuel junk link user a enough fuel [] (nothing_yet empty) s e few w some_spare
          lag old fits) in
      rw (run, all)
        (yields (
          refl,
          (v₁, subst (λ (x : Batch G). Closed user x.count v s.region v₁ s₁.region) all c),
          ap (λ es. mm_put ∷ es) log₁
              ∙ ap (λ (x : Batch G). mm_put ∷ notices user x.count s₁.region ++ s.events) all,
        ))
  flush_single-FlushedAll (x ∷ xs) {v} s e few w some_spare lag old fits launches =
      let (b, s₁, run, (all, (v₁, c, log₁))) = Yields-ok (
        loop-Gathered fuel junk link user a enough fuel (x ∷ xs) (nothing_yet empty) s e few w
          some_spare lag old fits) in
      let number : b.count ≡ length (x ∷ xs) = omega (
        arith,
        ap (λ (y : Batch G). y.count) all,
        gathered_count effect (nothing_yet empty) (x ∷ xs),
      ) in
      let some : (b.count == 0) ≡ false = ground (arith, number) in
      let launched = ap (λ y. launch y s₁) all ∙ launches s₁ (λ z. cc) in
      rw (run, some, launched)
        (yields (
          number,
          (v₁, c),
          rw some (
              ap (λ es. event ∷ es)
                (log₁
                  ∙ ap (λ ns. ns ++ logged effect log empty (x ∷ xs) s.events)
                      (notices_none user b.count s₁.region some))),
        ))
