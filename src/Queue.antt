-- ===== src/Queue.antt =====
-- The colored queue of libsmm/migqueue.c and the inline helpers of libsmm/mig.h. A queue is a list
-- of descriptors behind a dummy node; nodes are linked in and heads swung by compare-and-swap.
pub mod Color
pub mod Copy
pub mod Dequeue
pub mod Enqueue
pub mod Forward
pub mod Link
pub mod Recolor
pub mod Retire
pub mod Take
pub mod Threads
use memif_user_release.Base.{
  ℕ, ◌+◌, Bool, true, false, not, Option, none, some, if◌then◌else◌, ◌==◌,
}
use memif_user_release.Desc.{
  DescPtr, raw, Desc, bad_index, color_none, color_fail, is_negative, next_count,
}
use memif_user_release.Region.{
  QueueId, QueueId-discrete, Queue, Region, Op, index_to_desc, desc_to_index, modify, write_desc,
  write_next, write_queue, load_desc, load_next, load_head, load_tail, cas_head, cas_tail, cas_next,
}
use memif_user_release.Region.Run.{ok, bug, pure, ◌>>=◌, ◌>>◌, assert, Turn, again, finish, loop}
use memif_user_release.FreeList.{freelist_add, freelist_remove}

unfoldable pub migqueue_create_color : QueueId → (dummy color : ℕ) → Op (Unit {0})
migqueue_create_color q dummy color = do
  modify
      (λ r. write_next dummy (record ((r.desc dummy).next) { index = bad_index; color = color }) r)
  modify (λ r.
      write_queue q
        (record {
          tail = record ((r.queue q).tail) { index = desc_to_index dummy };
          head = record ((r.queue q).head) { index = desc_to_index dummy };
        })
        r)

unfoldable pub migqueue_create : QueueId → (dummy : ℕ) → Op (Unit {0})
migqueue_create q dummy = migqueue_create_color q dummy color_none

-- The words and the color of the link; the rest of the new descriptor stays.
unfoldable pub migdesc_replicate : Desc → Desc → Desc
migdesc_replicate new old = record new {
  word0 = old.word0;
  word1 = old.word1;
  next = record (new.next) { color = old.next.color };
}

-- The body of the loop in `migqueue_set_color_if_empty`.
unfoldable pub set_color_turn : QueueId → (color : ℕ) → Unit {0} → Op (Turn (Unit {0}) ℕ)
set_color_turn q color _ = do
  head ← load_head q
  tail ← load_tail q
  assert (not (head.index == bad_index))
  next ← load_next head.index
  head' ← load_head q
  if not (raw head == raw head')
      then pure (again tt)
      else if not (head.index == tail.index)
      then pure (finish color_fail)
      else if not (next.index == bad_index)
      then pure (finish color_fail)
      else do
        swapped ←
            cas_next head.index next (record next { color = color; count = next_count next.count })
        pure (if swapped then finish next.color else again tt)

unfoldable pub migqueue_set_color_if_empty : (fuel : ℕ) → QueueId → (color : ℕ) → Op ℕ
migqueue_set_color_if_empty fuel q color = loop fuel (set_color_turn q color) tt

-- In `mig_enqueue`, the new node on a tail that is the last node. The loop ends with the
-- checkpoint of the tail and with `tmp`.
unfoldable pub append_node :
    (desc : ℕ) → (tail next : DescPtr) → Op (Turn DescPtr (DescPtr × DescPtr))
append_node desc tail next = do
  let tmp : DescPtr = record {
    index = desc_to_index desc;
    count = next_count next.count;
    color = next.color;
  }
  modify (λ r. write_next desc (record ((r.desc desc).next) { color = next.color }) r)
  assert (not (is_negative tmp.color))
  swapped ← cas_next tail.index next tmp
  pure (if swapped then finish (tail, tmp) else again tmp)

-- A tail that lags behind is swung to the next node; `tmp.color` is what it was.
unfoldable pub swing_tail :
    QueueId → (tmp tail next : DescPtr) → Op (Turn DescPtr (DescPtr × DescPtr))
swing_tail q tmp tail next = do
  let tmp' : DescPtr = record tmp { index = next.index; count = next_count tail.count }
  cas_tail q tail tmp'
  pure (again tmp')

-- The body of the loop in `mig_enqueue`.
unfoldable pub enqueue_turn :
    QueueId → (desc : ℕ) → (tmp : DescPtr) → Op (Turn DescPtr (DescPtr × DescPtr))
enqueue_turn q desc tmp = do
  tail ← load_tail q
  next ← load_next tail.index
  tail' ← load_tail q
  if not (raw tail == raw tail')
      then pure (again tmp)
      else if next.index == bad_index
      then append_node desc tail next
      else swing_tail q tmp tail next

-- `mig_enqueue`; `junk` is what the uninitialised local `tmp` holds.
unfoldable pub mig_enqueue : (fuel : ℕ) → (junk : DescPtr) → QueueId → (desc : ℕ) → Op ℕ
mig_enqueue fuel junk q desc = do
  modify (λ r. write_next desc (record ((r.desc desc).next) { index = bad_index }) r)
  (tail, tmp) ← loop fuel (enqueue_turn q desc) junk
  cas_tail q tail (record tmp { index = desc_to_index desc; count = next_count tail.count })
  pure tmp.color

-- In `mig_dequeue`: an empty queue. A replica that was allocated goes back.
unfoldable pub give_up : (fuel junk : ℕ) → Option ℕ → Op (Turn (Option ℕ) (Option ℕ))
give_up fuel junk none = pure (finish none)
give_up fuel junk (some ret) = do freelist_add fuel junk ret; pure (finish none)

-- Without a descriptor for the replica the code stops at `xzl_bug`.
abbrev pub or_bug : Option ℕ → Op ℕ
or_bug none = λ r. bug
or_bug (some d) = pure d

-- The replica is allocated once.
unfoldable pub replica : (fuel : ℕ) → Option ℕ → Op ℕ
replica fuel (some ret) = pure ret
replica fuel none = do ret ← freelist_remove fuel; or_bug ret

-- In `mig_dequeue`: a tail that still names the dummy is swung to the next node.
unfoldable pub push_tail :
    QueueId → Option ℕ → (tail next : DescPtr) → Op (Turn (Option ℕ) (Option ℕ))
push_tail q ret tail next = do
  cas_tail q tail (record next { count = next_count tail.count })
  pure (again ret)

-- Copy the node behind the dummy, swing the head to it, and retire the old dummy.
unfoldable pub copy_node :
    (fuel junk : ℕ) → QueueId → (head next : DescPtr) → (ret : ℕ) → Op (Turn (Option ℕ) (Option ℕ))
copy_node fuel junk q head next ret = do
  old ← load_desc next.index
  modify (λ r. write_desc ret (migdesc_replicate (r.desc ret) old) r)
  swapped ← cas_head q head (record next { count = next_count head.count })
  if not swapped then pure (again (some ret)) else do
    dummy ← index_to_desc head.index
    freelist_add fuel junk dummy
    pure (finish (some ret))

unfoldable pub take_node :
    (fuel junk : ℕ)
    → QueueId
    → (ret : Option ℕ) → (head next : DescPtr) → Op (Turn (Option ℕ) (Option ℕ))
take_node fuel junk q ret head next = do ret ← replica fuel ret; copy_node fuel junk q head next ret

-- The body of the loop in `mig_dequeue`.
unfoldable pub dequeue_turn : (fuel junk : ℕ) → QueueId → Option ℕ → Op (Turn (Option ℕ) (Option ℕ))
dequeue_turn fuel junk q ret = do
  head ← load_head q
  tail ← load_tail q
  assert (not (head.index == bad_index))
  next ← load_next head.index
  head' ← load_head q
  if not (raw head == raw head')
      then pure (again ret)
      else if tail.index == head.index
      then (if next.index == bad_index then give_up fuel junk ret else push_tail q ret tail next)
      else assert (not (next.index == bad_index)) >> take_node fuel junk q ret head next

-- `mig_dequeue`; NULL is `none`, and `junk` the uninitialised color of `__freelist_add`.
unfoldable pub mig_dequeue : (fuel junk : ℕ) → QueueId → Op (Option ℕ)
mig_dequeue fuel junk q = loop fuel (dequeue_turn fuel junk q) none

unfoldable pub migqueue_color : QueueId → Op ℕ
migqueue_color q = do head ← load_head q; next ← load_next head.index; pure next.color

-- A snapshot of head and tail.
unfoldable pub migqueue_is_empty : QueueId → Region → Bool
migqueue_is_empty q r = (r.queue q).head.index == (r.queue q).tail.index
