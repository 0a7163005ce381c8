-- ===== src/Tests.antt =====
-- Concrete runs: a region of eight descriptors.
pub mod Batching
pub mod Board
pub mod Copying
pub mod Driving
pub mod Gathering
pub mod Idle
pub mod Issuing
pub mod Migrating
pub mod Opening
pub mod Repeating
pub mod Sending
pub mod Sizes
pub mod Threading
pub mod Witnesses
use memif_user_release.Base.{ℕ, zero, suc, ◌+◌, ◌≡◌, refl, ◌≢◌, ◌<◌, ◌^◌, List, [], ◌∷◌, arith}
use memif_user_release.Desc.{DescPtr, Desc, bad_index, color_none}
use memif_user_release.Region.{QueueId, req, issued, comp, Region}
use memif_user_release.Region.Cells.{Cell}
use memif_user_release.Region.View.{
  Owner, free, held, in_queue, QueueView, queue_view, View, IsQueue, IsFreeList, IsWellFormed,
}

abbrev pub to : ℕ → ℕ → DescPtr
to i k = record { index = i; count = 0; color = k }

abbrev pub desc : ℕ → DescPtr → Desc
desc w p = record { word0 = w; word1 = w + 1; refcnt = 0; next = p }

-- Request queue, of color `c`: dummy 0, then 1, which the tail has not passed; the dummies 2 and 3
-- of the other queues; 4 and 5 free; 6 and all beyond in the hands of a caller.
abbrev pub memory : ℕ → ℕ → Desc
memory c zero = desc 10 (to 1 c)
memory c (suc zero) = desc 20 (to bad_index c)
memory c (suc (suc zero)) = desc 30 (to bad_index color_none)
memory c (suc (suc (suc zero))) = desc 40 (to bad_index color_none)
memory c (suc (suc (suc (suc zero)))) = desc 50 (to 5 color_none)
memory c (suc (suc (suc (suc (suc i))))) = desc 60 (to bad_index color_none)

abbrev pub owners : ℕ → Owner
owners zero = in_queue req
owners (suc zero) = in_queue req
owners (suc (suc zero)) = in_queue issued
owners (suc (suc (suc zero))) = in_queue comp
owners (suc (suc (suc (suc zero)))) = free
owners (suc (suc (suc (suc (suc zero))))) = free
owners (suc (suc (suc (suc (suc (suc i)))))) = held

abbrev pub region : ℕ → Region
region c = record {
  ndescs = 8;
  freelist = record { top = to 4 color_none; aba_counter = 0; element_counter = 0 };
  queue = λ q. elim q [
    | req ↦ record { tail = to 0 c; head = to 0 c }
    | issued ↦ record { tail = to 2 color_none; head = to 2 color_none }
    | comp ↦ record { tail = to 3 color_none; head = to 3 color_none }
  ];
  desc = memory c;
}

abbrev pub cell : ℕ → ℕ → Cell
cell c i = record { addr = i; body = memory c i }

abbrev pub view : ℕ → View
view c = record {
  owner = owners;
  spare = cell c 4 ∷ cell c 5 ∷ [];
  queue = λ q. elim q [
    | req ↦ queue_view [] (cell c 0) (cell c 1 ∷ []) c
    | issued ↦ queue_view [] (cell c 2) [] color_none
    | comp ↦ queue_view [] (cell c 3) [] color_none
  ];
}

pub unshared : (c i : ℕ) → i < 8 → (memory c i).refcnt ≡ 0
unshared c zero lt = refl
unshared c (suc zero) lt = refl
unshared c (suc (suc zero)) lt = refl
unshared c (suc (suc (suc zero))) lt = refl
unshared c (suc (suc (suc (suc zero)))) lt = refl
unshared c (suc (suc (suc (suc (suc i))))) lt = refl

queues :
    (c : ℕ)
    → c < 2 ^ 15
    → (q : QueueId) → IsQueue ((region c).queue q) (memory c) 8 owners q ((view c).queue q)
queues c plain req = record {
  linked = (refl, (refl, refl));
  tail = refl;
  holds = ((refl, refl, omega arith), ((refl, refl, omega arith), tt));
  distinct = ((λ e. omega (arith, e), tt), (tt, tt));
  colored = (refl, (refl, tt));
  plain = plain;
}
queues c plain issued = record {
  linked = (refl, refl);
  tail = refl;
  holds = ((refl, refl, omega arith), tt);
  distinct = (tt, tt);
  colored = (refl, tt);
  plain = omega arith;
}
queues c plain comp = record {
  linked = (refl, refl);
  tail = refl;
  holds = ((refl, refl, omega arith), tt);
  distinct = (tt, tt);
  colored = (refl, tt);
  plain = omega arith;
}

pub region-IsWellFormed : (c : ℕ) → c < 2 ^ 15 → IsWellFormed (view c) (region c)
region-IsWellFormed c plain = record {
  small = omega arith;
  unshared = unshared c;
  spare = record {
    linked = (refl, (refl, refl));
    holds = ((refl, refl, omega arith), ((refl, refl, omega arith), tt));
    distinct = ((λ e. omega (arith, e), tt), (tt, tt));
  };
  queue = queues c plain;
}
