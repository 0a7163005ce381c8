-- ===== src/Tests/Idle.antt =====
-- A region in which nothing is pending: the request queue has the dummy 1, and 0 is held.
use memif_user_release.Base.{ℕ, zero, suc, refl, [], ◌∷◌, arith}
use memif_user_release.Desc.{color_none, color_usr}
use memif_user_release.Region.{QueueId, req, issued, comp, Region}
use memif_user_release.Region.View.{Owner, held, queue_view, View, IsQueue, IsWellFormed}
use memif_user_release.Tests.{to, memory, owners, cell, region, unshared}

abbrev pub idle_owners : ℕ → Owner
idle_owners zero = held
idle_owners (suc i) = owners (suc i)

abbrev pub idle_region : Region
idle_region = record (region 1) {
  queue = λ q. elim q [
    | req ↦ record { tail = to 1 color_usr; head = to 1 color_usr }
    | issued ↦ record { tail = to 2 color_none; head = to 2 color_none }
    | comp ↦ record { tail = to 3 color_none; head = to 3 color_none }
  ];
}

abbrev pub idle_view : View
idle_view = record {
  owner = idle_owners;
  spare = cell 1 4 ∷ cell 1 5 ∷ [];
  queue = λ q. elim q [
    | req ↦ queue_view [] (cell 1 1) [] color_usr
    | issued ↦ queue_view [] (cell 1 2) [] color_none
    | comp ↦ queue_view [] (cell 1 3) [] color_none
  ];
}

queues :
    (q : QueueId) → IsQueue (idle_region.queue q) (memory 1) 8 idle_owners q (idle_view.queue q)
queues req = record {
  linked = (refl, refl);
  tail = refl;
  holds = ((refl, refl, omega arith), tt);
  distinct = (tt, tt);
  colored = (refl, tt);
  plain = omega arith;
}
queues issued = record {
  linked = (refl, refl);
  tail = refl;
  holds = ((refl, refl, omega arith), tt);
  distinct = (tt, tt);
  colored = (refl, tt);
  plain = omega arith;
}
queues comp = record {
  linked = (refl, refl);
  tail = refl;
  holds = ((refl, refl, omega arith), tt);
  distinct = (tt, tt);
  colored = (refl, tt);
  plain = omega arith;
}

pub idle-IsWellFormed : IsWellFormed idle_view idle_region
idle-IsWellFormed = record {
  small = omega arith;
  unshared = unshared 1;
  spare = record {
    linked = (refl, (refl, refl));
    holds = ((refl, refl, omega arith), ((refl, refl, omega arith), tt));
    distinct = ((λ e. omega (arith, e), tt), (tt, tt));
  };
  queue = queues;
}
