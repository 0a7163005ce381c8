-- ===== src/Region.antt =====
-- The shared pages of libsmm/mig.h: `mig_region` with its free list and queues, the access of
-- descriptors by index with its assertions, and the primitives that the lock-free code is made of:
-- loads, plain stores and compare-and-swap of one link. A pointer to a descriptor is its index.
-- A failed assertion or BUG() ends a run with `bug`, a loop that uses up its fuel with `spinning`.
pub mod Cells
pub mod Nodes
pub mod Run
pub mod Swing
pub mod View
use Run.{Outcome, ok, bug, Code, pure, ◌>>=◌, ◌>>◌}
use memif_user_release.Base.{
  ℕ, ◌≡◌, refl, Bool, true, false, if◌then◌else◌, ltb, ◌==◌, update, ℕ_discrete, ◌%◌, ◌^◌,
}
use memif_user_release.Desc.{DescPtr, raw, Desc}

-- The queues of a region. `qerr` and `qacked` are declared in the struct, and no code touches them.
pub data QueueId : Type 0 where
  req : QueueId
  issued : QueueId
  comp : QueueId

unfoldable pub QueueId-discrete : Discrete QueueId
QueueId-discrete req req = yes refl
QueueId-discrete issued issued = yes refl
QueueId-discrete comp comp = yes refl
QueueId-discrete req issued = no (λ e. cc)
QueueId-discrete req comp = no (λ e. cc)
QueueId-discrete issued req = no (λ e. cc)
QueueId-discrete issued comp = no (λ e. cc)
QueueId-discrete comp req = no (λ e. cc)
QueueId-discrete comp issued = no (λ e. cc)

pub record Queue : Type 0 where
  pub tail : DescPtr
  pub head : DescPtr

-- `element_counter` is set once and never read.
pub record FreeList : Type 0 where
  pub top : DescPtr
  pub aba_counter : ℕ
  pub element_counter : ℕ

pub record Region : Type 0 where
  pub ndescs : ℕ
  pub freelist : FreeList
  pub queue : QueueId → Queue
  pub desc : ℕ → Desc

-- Initialisation and the driver run over this state.
abbrev pub Op : Type 0 → Type 0
Op A = Code Region A

-- `index_to_desc` asserts that the index is in the array.
abbrev pub index_to_desc : ℕ → Op ℕ
index_to_desc i r = if ltb i r.ndescs then ok i r else bug

-- `desc_to_index` is a pointer difference, kept in a uint16_t.
abbrev pub desc_to_index : ℕ → ℕ
desc_to_index d = d % 2 ^ 16

abbrev pub modify : (Region → Region) → Op (Unit {0})
modify f r = ok tt (f r)

abbrev pub write_desc : ℕ → Desc → Region → Region
write_desc i d r = record r { desc = update ℕ_discrete r.desc i d }

abbrev pub write_next : ℕ → DescPtr → Region → Region
write_next i p r = write_desc i (record (r.desc i) { next = p }) r

abbrev pub write_queue : QueueId → Queue → Region → Region
write_queue q v r = record r { queue = update QueueId-discrete r.queue q v }

abbrev pub write_top : DescPtr → Region → Region
write_top p r = record r { freelist = record (r.freelist) { top = p } }

abbrev pub load_desc : ℕ → Op Desc
load_desc i = do i ← index_to_desc i; λ r. ok (r.desc i) r

abbrev pub load_next : ℕ → Op DescPtr
load_next i = do d ← load_desc i; pure d.next

abbrev pub load_head : QueueId → Op DescPtr
load_head q r = ok (r.queue q).head r

abbrev pub load_tail : QueueId → Op DescPtr
load_tail q r = ok (r.queue q).tail r

abbrev pub load_top : Op DescPtr
load_top r = ok r.freelist.top r

-- `__sync_bool_compare_and_swap` on the raw value of the top, of a head, of a tail and of a link.
unfoldable pub cas_top : DescPtr → DescPtr → Op Bool
cas_top old new r = if raw r.freelist.top == raw old then ok true (write_top new r) else ok false r

unfoldable pub cas_head : QueueId → DescPtr → DescPtr → Op Bool
unfolding QueueId-discrete
cas_head q old new r =
    if raw (r.queue q).head == raw old
    then ok true (write_queue q (record (r.queue q) { head = new }) r)
    else ok false r

unfoldable pub cas_tail : QueueId → DescPtr → DescPtr → Op Bool
unfolding QueueId-discrete
cas_tail q old new r =
    if raw (r.queue q).tail == raw old
    then ok true (write_queue q (record (r.queue q) { tail = new }) r)
    else ok false r

unfoldable pub cas_next : ℕ → DescPtr → DescPtr → Op Bool
cas_next i old new r =
    if ltb i r.ndescs
    then (if raw (r.desc i).next == raw old then ok true (write_next i new r) else ok false r)
    else bug
