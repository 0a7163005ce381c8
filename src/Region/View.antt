-- ===== src/Region/View.antt =====
-- The abstract view of a region: who owns each descriptor, the cells of the free list, and the
-- nodes of each queue; and what it means that a region stands for a view.
use memif_user_release.Base.{ℕ, ◌≡◌, ◌<◌, ◌≤◌, ◌^◌, List, [], ◌∷◌, ◌++◌, map}
use memif_user_release.Desc.{Desc, DescPtr, bad_index}
use memif_user_release.Region.{QueueId, Queue, Region}
use memif_user_release.Region.Cells.{Cell, Linked, Distinct, Colored, Holds, Holds-frame}

-- A descriptor is free, a node of a queue, or in the hands of the code that took it.
pub data Owner : Type 0 where
  free : Owner
  held : Owner
  in_queue : QueueId → Owner

-- The nodes of a queue: those in front of the one that `tail` names, that one, and those behind
-- it, which a lagging tail has yet to pass. The first node of all is the dummy.
pub record QueueView : Type 0 where
  pub passed : List Cell
  pub last : Cell
  pub beyond : List Cell
  pub color : ℕ

abbrev pub queue_view : List Cell → Cell → List Cell → ℕ → QueueView
queue_view passed last beyond color = record {
  passed = passed;
  last = last;
  beyond = beyond;
  color = color;
}

pub record View : Type 0 where
  pub owner : ℕ → Owner
  pub spare : List Cell
  pub queue : QueueId → QueueView

abbrev pub nodes : QueueView → List Cell
nodes v = v.passed ++ v.last ∷ v.beyond

-- What `migdesc_replicate` copies.
abbrev pub Payload : Type 0
Payload = ℕ × ℕ

abbrev pub payload : Desc → Payload
payload d = (d.word0, d.word1)

abbrev pub payload_of : Cell → Payload
payload_of c = payload c.body

abbrev pub rest {ℓ} : {A : Type ℓ} → List A → List A
rest [] = []
rest (x ∷ xs) = xs

-- What the queue holds, oldest first: the payloads of all nodes but the dummy.
abbrev pub contents : QueueView → List Payload
contents v = map payload_of (rest (nodes v))

-- The queue `u` over the memory `m` of `n` descriptors has the nodes of `v`.
pub record IsQueue (u : Queue) (m : ℕ → Desc) (n : ℕ) (owner : ℕ → Owner) (q : QueueId)
    (v : QueueView) : Type 0 where
  pub linked : Linked u.head.index (nodes v) bad_index
  pub tail : u.tail.index ≡ v.last.addr
  pub holds : Holds m owner n (in_queue q) (nodes v)
  pub distinct : Distinct (nodes v)
  pub colored : Colored v.color (nodes v)
  pub plain : v.color < 2 ^ 15

pub record IsFreeList (top : DescPtr) (m : ℕ → Desc) (n : ℕ) (owner : ℕ → Owner) (cs : List Cell)
    : Type 0 where
  pub linked : Linked top.index cs bad_index
  pub holds : Holds m owner n free cs
  pub distinct : Distinct cs

-- Reference counts are not used: `desc_get` and `desc_put` do nothing.
pub record IsWellFormed (v : View) (r : Region) : Type 0 where
  pub small : r.ndescs ≤ bad_index
  pub unshared : (i : ℕ) → i < r.ndescs → (r.desc i).refcnt ≡ 0
  pub spare : IsFreeList r.freelist.top r.desc r.ndescs v.owner v.spare
  pub queue : (q : QueueId) → IsQueue (r.queue q) r.desc r.ndescs v.owner q (v.queue q)

module _ {m m' : ℕ → Desc} {n : ℕ} {owner owner' : ℕ → Owner} where
  pub IsQueue-frame :
      (q : QueueId) {u : Queue} {v : QueueView}
      → IsQueue u m n owner q v
      → ((a : ℕ) → owner a ≡ in_queue q → (m' a ≡ m a) × (owner' a ≡ in_queue q))
      → IsQueue u m' n owner' q v
  IsQueue-frame q {v} h keep = record {
    linked = h.linked;
    tail = h.tail;
    holds = Holds-frame (in_queue q) n (nodes v) h.holds keep;
    distinct = h.distinct;
    colored = h.colored;
    plain = h.plain;
  }

  pub IsFreeList-frame :
      {top : DescPtr} {cs : List Cell}
      → IsFreeList top m n owner cs
      → ((a : ℕ) → owner a ≡ free → (m' a ≡ m a) × (owner' a ≡ free))
      → IsFreeList top m' n owner' cs
  IsFreeList-frame {cs} h keep = record {
    linked = h.linked;
    holds = Holds-frame free n cs h.holds keep;
    distinct = h.distinct;
  }
