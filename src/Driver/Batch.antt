-- ===== src/Driver/Batch.antt =====
-- The older flushing of migrate-x86/migrate-x86.c, which puts all requests of the queue into one
-- transfer: the loop of `flush_single_qreq_noremap2`, over what it does with a request.
pub mod Callback
pub mod Closing
pub mod Copying
pub mod Gathered
pub mod Loop
pub mod Whole
use memif_user_release.Base.{
  ℕ, ◌+◌, Bool, true, false, not, ◌||◌, Option, none, some, List, ◌∷◌, if◌then◌else◌, ◌==◌, ◌≡◌,
  refl,
}
use memif_user_release.Desc.{DescPtr, Desc, color_usr, color_ker, color_fail}
use memif_user_release.Region.{req, issued, comp, Region, Op}
use memif_user_release.Region.Run.{
  Outcome, ok, bug, spinning, pure, ◌>>=◌, ◌>>◌, Code, assert, Turn, again, finish, loop, Yields,
  yields, Yields-ok,
}
use memif_user_release.Queue.{
  mig_enqueue, mig_dequeue, migqueue_set_color_if_empty, migqueue_is_empty,
}
use memif_user_release.Driver.Copy.{Sg, desc_of}

-- `num_mig_descs` and `num_pages` of a table. The region and the address space are the ones at hand.
pub record BatchTable : Type 0 where
  pub num_mig_descs : ℕ
  pub num_pages : ℕ

-- What is done to the outside: a transfer is submitted, with an interrupt; pollers are woken, work is
-- scheduled, `mmput` and `free_pages` are called.
pub data BatchEvent : Type 0 where
  transferred : (dsts srcs : List Sg) → BatchTable → BatchEvent
  woken : BatchEvent
  scheduled : BatchTable → BatchEvent
  mm_put : BatchEvent
  table_freed : BatchEvent

-- The region, and what was done to the outside, newest first.
pub record State : Type 0 where
  pub region : Region
  pub events : List BatchEvent

abbrev with_events : {A : Type 0} → List BatchEvent → Outcome Region A → Outcome State A
with_events events (ok a r) = ok a (record { region = r; events = events })
with_events events bug = bug
with_events events spinning = spinning

abbrev pub in_region : {A : Type 0} → Op A → Code State A
in_region m s = with_events s.events (m s.region)

abbrev pub emit : BatchEvent → Code State (Unit {0})
emit e s = ok tt (record s { events = e ∷ s.events })

-- The variables of the loop: is there a table, the descriptors so far (`i`), and what has been
-- made of them.
pub record Batch (G : Type 0) : Type 0 where
  pub table : Bool
  pub count : ℕ
  pub made : G

abbrev pub old_color : (user : Bool) → ℕ
old_color user = if user then color_usr else color_ker

abbrev pub new_color : (user : Bool) → ℕ
new_color user = if user then color_ker else color_usr

-- The kernel wakes pollers when it gives the queue back to the user and something is completed.
abbrev pub notify : (user : Bool) → Code State (Unit {0})
notify true s = ok tt s
notify false s = if not (migqueue_is_empty comp s.region) then emit woken s else ok tt s

-- The queue is empty. A failed change of the color starts the next turn.
unfoldable pub end_flush :
    {G : Type 0} → (fuel : ℕ) → (user : Bool) → Batch G → Code State (Turn (Batch G) (Batch G))
end_flush fuel user b =
    if user || b.count == 0
    then (do
      c ← in_region (migqueue_set_color_if_empty fuel req (new_color user))
      if c == color_fail
          then pure (again b)
          else (do assert (c == old_color user); notify user; pure (finish b)))
    else pure (finish b)

-- `add` is what is done with a request. `has_memory` tells if the table can be allocated.
unfoldable pub add_request :
    {G : Type 0}
    → (has_memory : Bool) → (fuel : ℕ) → (link : DescPtr) → (add : Desc → G → Code State G)
    → Batch G
    → (desc : ℕ) → Code State (Turn (Batch G) (Batch G))
add_request has_memory fuel link add b desc = do
  assert (b.table || has_memory)
  d ← in_region (desc_of desc)
  made ← add d b.made
  in_region (mig_enqueue fuel link issued desc)
  pure (again (record { table = true; count = b.count + 1; made = made }))

abbrev pub after_dequeue :
    {G : Type 0}
    → (has_memory : Bool) → (fuel : ℕ) → (link : DescPtr) → (user : Bool)
    → (add : Desc → G → Code State G) → Batch G
    → Option ℕ
    → Code State (Turn (Batch G) (Batch G))
after_dequeue has_memory fuel link user add b none = end_flush fuel user b
after_dequeue has_memory fuel link user add b (some desc) =
    add_request has_memory fuel link add b desc

unfoldable pub flush_turn :
    {G : Type 0}
    → (has_memory : Bool) → (fuel junk : ℕ) → (link : DescPtr) → (user : Bool)
    → (add : Desc → G → Code State G) → Batch G
    → Code State (Turn (Batch G) (Batch G))
flush_turn has_memory fuel junk link user add b = do
  desc ← in_region (mig_dequeue fuel junk req)
  after_dequeue has_memory fuel link user add b desc

-- The whole flush: from no descriptors and `empty`; `launch` is what follows if there are some. It
-- returns the number of descriptors.
unfoldable pub flush_single :
    {G : Type 0}
    → (has_memory : Bool) → (fuel junk : ℕ) → (link : DescPtr) → (user : Bool)
    → (add : Desc → G → Code State G) → (launch : Batch G → Code State (Unit {0})) → (empty : G)
    → Code State ℕ
flush_single has_memory fuel junk link user add launch empty = do
  b ←
      loop fuel (flush_turn has_memory fuel junk link user add)
        (record { table = false; count = 0; made = empty })
  (if b.count == 0
      then (do assert (not b.table); emit mm_put; pure 0)
      else (do launch b; pure b.count))

pub in_region-Yields :
    {A : Type 0} {P : A → Region → Type 0} (m : Op A) (s : State)
    → Yields P (m s.region)
    → Yields (λ a s'. P a s'.region × (s'.events ≡ s.events)) (in_region m s)
in_region-Yields m s h = let (a, r, e, p) = Yields-ok h in rw e (yields (p, refl))
