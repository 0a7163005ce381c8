-- ===== src/Region/Nodes.antt =====
-- What the view of a queue says of memory: the dummy, the node that `tail` names, and what a tail
-- that moves one node further leaves as it was.
use memif_user_release.Base.{
  ℕ, ◌≡◌, ◌≢◌, ◌<◌, List, [], ◌∷◌, ◌++◌, arith, update, update_cases, All-append_iff, sym, ap, ◌∙◌,
}
use mathlib.Core.List.{append_assoc}
use memif_user_release.Desc.{Desc, DescPtr, bad_index}
use memif_user_release.Region.{QueueId, QueueId-discrete, Region, Queue, write_desc}
use memif_user_release.Region.Cells.{Cell, Linked, Linked-split, IsHeld, HasColor}
use memif_user_release.Region.View.{
  Owner, in_queue, held, QueueView, View, nodes, IsQueue, IsQueue-frame, IsFreeList-frame,
  IsWellFormed,
}

-- The node that `tail` names.
pub record AtLast (m : ℕ → Desc) (n : ℕ) (owner : ℕ → Owner) (q : QueueId) (v : QueueView)
    : Type 0 where
  pub body : m v.last.addr ≡ v.last.body
  pub own : owner v.last.addr ≡ in_queue q
  pub inside : v.last.addr < n
  pub behind : Linked v.last.body.next.index v.beyond bad_index
  pub color : v.last.body.next.color ≡ v.color

pub at_last :
    {u : Queue} {m : ℕ → Desc} {n : ℕ} {owner : ℕ → Owner} {q : QueueId} {v : QueueView}
    → IsQueue u m n owner q v
    → AtLast m n owner q v
at_last {m} {n} {owner} {q} {v} h =
    let (_, here) = All-append_iff (IsHeld m owner n (in_queue q)) v.passed _ h.holds in
    let (_, tints) = All-append_iff (HasColor v.color) v.passed _ h.colored in
    let (_, _, links) = Linked-split v.passed _ _ _ h.linked in
    record { body = here.0.0; own = here.0.1; inside = here.0.2; behind = links.1; color = tints.0 }

-- The tail one node further on.
abbrev pub advance : QueueView → Cell → List Cell → QueueView
advance v b bs = record v { passed = v.passed ++ v.last ∷ []; last = b; beyond = bs }

pub nodes-advance :
    (v : QueueView) (b : Cell) (bs : List Cell)
    → v.beyond ≡ b ∷ bs
    → nodes (advance v b bs) ≡ nodes v
nodes-advance v b bs e =
    append_assoc v.passed (v.last ∷ []) (b ∷ bs) ∙ ap (λ l. v.passed ++ v.last ∷ l) (sym e)

pub IsQueue-tail :
    {u : Queue} {m : ℕ → Desc} {n : ℕ} {owner : ℕ → Owner} {q : QueueId} {v w : QueueView}
    (tail : DescPtr)
    → IsQueue u m n owner q v
    → nodes w ≡ nodes v
    → w.color ≡ v.color
    → tail.index ≡ w.last.addr
    → IsQueue (record u { tail = tail }) m n owner q w
IsQueue-tail tail h same tint at = record {
  linked = rw same h.linked;
  tail = at;
  holds = rw same h.holds;
  distinct = rw same h.distinct;
  colored = rw (same, tint) h.colored;
  plain = rw tint h.plain;
}

-- A view with one queue given anew.
abbrev pub with_queue : QueueId → QueueView → View → View
with_queue q w v = record v { queue = update QueueId-discrete v.queue q w }

-- A step that touches memory only at nodes of one queue and at what its caller holds.
pub with_queue-IsWellFormed :
    {v : View} {r : Region} (w : IsWellFormed v r) (q : QueueId) (u : Queue) (x : QueueView)
    (m : ℕ → Desc) (owner : ℕ → Owner)
    → ((i : ℕ) → i < r.ndescs → (m i).refcnt ≡ 0)
    → ((a : ℕ)
        → v.owner a ≢ in_queue q
        → v.owner a ≢ held
        → (m a ≡ r.desc a) × (owner a ≡ v.owner a))
    → IsQueue u m r.ndescs owner q x
    → IsWellFormed
        (record v { owner = owner; queue = update QueueId-discrete v.queue q x })
        (record r { queue = update QueueId-discrete r.queue q u; desc = m })
with_queue-IsWellFormed {v} {r} w q u x m owner unshared same here = record {
  small = w.small;
  unshared = unshared;
  spare =
      IsFreeList-frame w.spare (λ a own. let (s, o) = same a (λ e. cc) (λ e. cc) in (s, o ∙ own));
  queue =
      update_cases QueueId-discrete (λ p u' x'. IsQueue u' m r.ndescs owner p x') r.queue v.queue q
        u x here
        λ p other.
          IsQueue-frame p (w.queue p)
            λ a own. let (s, o) = same a (λ e. other (ground arith)) (λ e. cc) in (s, o ∙ own);
}

-- A store to a descriptor that its caller holds.
pub write_held-IsWellFormed :
    {v : View} {r : Region} (desc : ℕ) (d : Desc)
    → IsWellFormed v r
    → v.owner desc ≡ held
    → d.refcnt ≡ 0
    → IsWellFormed v (write_desc desc d r)
write_held-IsWellFormed {v} {r} desc d w taken alone = record {
  small = w.small;
  unshared = λ i lt. ground (arith, w.unshared i lt);
  spare = IsFreeList-frame w.spare (λ a own. (ground arith, own));
  queue = λ q. IsQueue-frame q (w.queue q) (λ a own. (ground arith, own));
}
