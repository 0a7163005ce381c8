-- ===== src/Queue/Threads.antt =====
-- `mig_enqueue` of libsmm/migqueue.c by any number of threads on one queue, while none takes from it.
-- The code is cut where it touches shared memory, so that threads interleave between any two
-- accesses. Memory is sequentially consistent.
pub mod Chain
pub mod Invariant
pub mod Frame
pub mod Moves
pub mod Swaps
pub mod Linking
pub mod Begin
pub mod Write
pub mod Schedule
pub mod Lossless
pub mod Start
use memif_user_release.Base.{
  ℕ, ◌+◌, Bool, true, false, not, ◌&&◌, List, [], ◌∷◌, if◌then◌else◌, ◌==◌, update, ℕ_discrete,
}
use memif_user_release.Desc.{DescPtr, Desc, bad_index, raw, next_count, is_negative}
use memif_user_release.Region.{
  QueueId, Region, Op, desc_to_index, modify, write_desc, write_next, load_next, load_tail,
  cas_tail, cas_next,
}
use memif_user_release.Region.Run.{Outcome, ok, bug, spinning, Code, pure, ◌>>=◌, ◌>>◌, assert}
use memif_user_release.Region.View.{Payload, payload}

-- Where a thread stands in the loop; `tmp`, `tail` and `next` are its locals.
pub data Place : Type 0 where
  looking : (tmp : DescPtr) → Place
  reading : (tmp tail : DescPtr) → Place
  checking : (tmp tail next : DescPtr) → Place
  tainting : (tail next : DescPtr) → Place
  linking : (tail next tmp : DescPtr) → Place
  swinging : (tmp tail next : DescPtr) → Place

-- A thread is in the loop with its descriptor, or has linked it and is about to swing the tail.
pub data Pc : Type 0 where
  idle : Pc
  sending : (desc : ℕ) → Place → Pc
  finishing : (desc : ℕ) → (tail tmp : DescPtr) → Pc

-- The next access of the loop. The write of the color is to the thread's own descriptor.
unfoldable pub advance_loop : QueueId → (desc : ℕ) → Place → Op Pc
advance_loop q desc (looking tmp) = do tail ← load_tail q; pure (sending desc (reading tmp tail))
advance_loop q desc (reading tmp tail) = do
  next ← load_next tail.index
  pure (sending desc (checking tmp tail next))
advance_loop q desc (checking tmp tail next) = do
  tail' ← load_tail q
  pure (
      sending desc (
        if not (raw tail == raw tail')
        then looking tmp
        else if next.index == bad_index
        then tainting tail next
        else swinging tmp tail next))
advance_loop q desc (tainting tail next) = do
  let tmp : DescPtr = record {
    index = desc_to_index desc;
    count = next_count next.count;
    color = next.color;
  }
  modify (λ r. write_next desc (record ((r.desc desc).next) { color = next.color }) r)
  assert (not (is_negative tmp.color))
  pure (sending desc (linking tail next tmp))
advance_loop q desc (linking tail next tmp) = do
  swapped ← cas_next tail.index next tmp
  pure (if swapped then finishing desc tail tmp else sending desc (looking tmp))
advance_loop q desc (swinging tmp tail next) = do
  let tmp' : DescPtr = record tmp { index = next.index; count = next_count tail.count }
  cas_tail q tail tmp'
  pure (sending desc (looking tmp'))

unfoldable pub advance : QueueId → Pc → Op Pc
advance q idle = pure idle
advance q (sending desc place) = advance_loop q desc place
advance q (finishing desc tail tmp) = do
  cas_tail q tail (record tmp { index = desc_to_index desc; count = next_count tail.count })
  pure idle

-- The region, where each thread stands, which descriptors each has, and the descriptors for which
-- `mig_enqueue` was called so far, with their payloads, newest first.
pub record World : Type 0 where
  pub region : Region
  pub pc : ℕ → Pc
  pub has : ℕ → ℕ → Bool
  pub called : List (ℕ × Payload)

abbrev pub is_idle : Pc → Bool
is_idle idle = true
is_idle (sending desc place) = false
is_idle (finishing desc tail tmp) = false

abbrev pub access : ℕ → Outcome Region Pc → World → Outcome World (Unit {0})
access u (ok p r) w = ok tt (record w { region = r; pc = update ℕ_discrete w.pc u p })
access u bug w = bug
access u spinning w = spinning

-- `mig_enqueue` up to its loop, which only writes to the descriptor.
abbrev pub start_enqueue : (u : ℕ) → (junk : DescPtr) → (desc : ℕ) → World → World
start_enqueue u junk desc w = record {
  region = write_next desc (record ((w.region.desc desc).next) { index = bad_index }) w.region;
  pc = update ℕ_discrete w.pc u (sending desc (looking junk));
  has = update ℕ_discrete w.has u (update ℕ_discrete (w.has u) desc false);
  called = (desc, payload (w.region.desc desc)) ∷ w.called;
}

-- A thread calls `mig_enqueue` on a descriptor that it has; it makes its next access; or it writes
-- to a descriptor that it has.
pub data Action : Type 0 where
  enqueue : (u : ℕ) → (junk : DescPtr) → (desc : ℕ) → Action
  step : (u : ℕ) → Action
  write : (u desc : ℕ) → (body : Desc) → Action

-- What a thread does not do is skipped.
unfoldable pub act : QueueId → Action → Code World (Unit {0})
act q (enqueue u junk desc) w =
    if is_idle (w.pc u) && w.has u desc then ok tt (start_enqueue u junk desc w) else ok tt w
act q (step u) w = access u (advance q (w.pc u) w.region) w
act q (write u desc body) w =
    if w.has u desc then ok tt (record w { region = write_desc desc body w.region }) else ok tt w

unfoldable pub run : QueueId → List Action → Code World (Unit {0})
run q [] = pure tt
run q (a ∷ l) = act q a >> run q l
