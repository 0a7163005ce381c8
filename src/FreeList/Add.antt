-- ===== src/FreeList/Add.antt =====
use memif_user_release.Base.{
  ℕ, suc, ◌+◌, ◌≡◌, refl, ◌<◌, ◌≤◌, ◌%◌, ◌^◌, ◌∷◌, update, ℕ_discrete, arith, ◌==◌, ==-refl, ◌≢◌,
  lt→ltb, true,
}
use memif_user_release.Desc.{bad_index, raw}
use memif_user_release.Region.{QueueId, Region, write_next, write_top, cas_top}
use memif_user_release.Region.Run.{ok, loop-finish, Yields, Yields-of_eq, finish}
use memif_user_release.Region.Cells.{Cell, Fresh-of_owner, Holds-frame}
use memif_user_release.Region.View.{free, held, View, IsWellFormed, IsQueue-frame}
use memif_user_release.FreeList.{add_turn, freelist_add}

-- `freelist_add` in one turn: the descriptor links to the old top and is the new one.
abbrev pub added : ℕ → ℕ → Region → Region
added junk desc r =
    let n : ℕ = (r.freelist.aba_counter + 1) % 2 ^ 64 in
    record r {
      freelist = record (r.freelist) {
        top = record { index = desc; count = n % 2 ^ 16; color = junk };
        aba_counter = n;
      };
      desc = update ℕ_discrete r.desc desc (record (r.desc desc) { next = r.freelist.top });
    }

add_turn-finish :
    (junk count desc : ℕ) (r : Region)
    → desc < r.ndescs
    → add_turn (record { index = desc; count = count; color = junk }) tt r
      ≡ ok (finish tt) (
          write_top
            (record { index = desc; count = count; color = junk })
            (write_next desc r.freelist.top r))
unfolding add_turn cas_top
add_turn-finish junk count desc r inside = ground (arith, ==-refl (raw r.freelist.top))

pub freelist_add-added :
    (fuel junk desc : ℕ) (r : Region)
    → r.ndescs ≤ bad_index
    → desc < r.ndescs
    → (r.desc desc).refcnt ≡ 0
    → freelist_add (suc fuel) junk desc r ≡ ok tt (added junk desc r)
unfolding freelist_add
freelist_add-added fuel junk desc r small inside unshared =
    let fits : desc % 2 ^ 16 ≡ desc = omega arith in
    let alone : ((r.desc desc).refcnt == 0) ≡ true = ground arith in
    rw (lt→ltb _ _ inside, alone, fits)
      (loop-finish (add_turn _) fuel (add_turn-finish junk _ desc _ inside))

-- The view after `freelist_add`: the descriptor is free, on top of the others.
abbrev pub add_spare : ℕ → Region → View → View
add_spare desc r v = record v {
  owner = update ℕ_discrete v.owner desc free;
  spare = record { addr = desc; body = record (r.desc desc) { next = r.freelist.top } } ∷ v.spare;
}

-- One more spare cell; the queues and all other descriptors as they were.
pub record Added (desc : ℕ) (v : View) (r : Region) (v' : View) (r' : Region) : Type 0 where
  pub well : IsWellFormed v' r'
  pub size : r'.ndescs ≡ r.ndescs
  pub owner : (a : ℕ) → v'.owner a ≡ update ℕ_discrete v.owner desc free a
  pub top : (c : Cell) × (c.addr ≡ desc) × (v'.spare ≡ c ∷ v.spare)
  pub queue : (q : QueueId) → v'.queue q ≡ v.queue q
  pub memory : (a : ℕ) → a ≢ desc → r'.desc a ≡ r.desc a

module _ {v : View} {r : Region} (w : IsWellFormed v r) (junk desc : ℕ) where
  added-IsWellFormed :
      v.owner desc ≡ held → desc < r.ndescs → IsWellFormed (add_spare desc r v) (added junk desc r)
  added-IsWellFormed taken inside = record {
    small = w.small;
    unshared = λ i lt. ground (arith, w.unshared i lt, w.unshared desc inside);
    spare = record {
      linked = (refl, w.spare.linked);
      holds = (
        (ground arith, ground arith, inside),
        Holds-frame free r.ndescs v.spare w.spare.holds (λ a own. (ground arith, ground arith)),
      );
      distinct = (
        Fresh-of_owner free r.desc v.owner r.ndescs desc v.spare w.spare.holds (ground arith),
        w.spare.distinct,
      );
    };
    queue = λ q. IsQueue-frame q (w.queue q) (λ a own. (ground arith, ground arith));
  }

  -- On a well-formed region and a descriptor that its caller holds, `freelist_add` ends in its
  -- first turn, and puts the descriptor on top of the free list; the queues and every other
  -- descriptor stay as they were.
  pub freelist_add-Added :
      (fuel : ℕ)
      → v.owner desc ≡ held
      → desc < r.ndescs
      → Yields (λ _ r'. (v' : View) × Added desc v r v' r') (freelist_add (suc fuel) junk desc r)
  freelist_add-Added fuel taken inside =
      Yields-of_eq (freelist_add-added fuel junk desc r w.small inside (w.unshared desc inside)) (
        add_spare desc r v,
        record {
          well = added-IsWellFormed taken inside;
          size = refl;
          owner = λ a. refl;
          top = (_, refl, refl);
          queue = λ q. refl;
          memory = λ a ne. ground arith;
        },
      )
