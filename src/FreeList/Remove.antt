-- ===== src/FreeList/Remove.antt =====
use memif_user_release.Base.{
  ℕ, suc, ◌≡◌, refl, ◌<◌, ◌≤◌, [], ◌∷◌, List, update, ℕ_discrete, arith, ==-refl, Option, some,
  none, inl, inr, subst, List-cases,
}
use memif_user_release.Desc.{Desc, bad_index, raw}
use memif_user_release.Region.{QueueId, Region, write_top, cas_top}
use memif_user_release.Region.Run.{ok, loop-finish, Yields, Yields-of_eq, finish}
use memif_user_release.Region.Cells.{Cell, Holds-frame-Fresh}
use memif_user_release.Region.View.{
  Owner, free, held, View, IsWellFormed, IsFreeList, IsQueue-frame,
}
use memif_user_release.FreeList.{remove_turn, freelist_remove}

-- The first spare cell is taken off; the queues and all descriptors stay as they were.
pub record Removed (desc : ℕ) (v : View) (r : Region) (v' : View) (r' : Region) : Type 0 where
  pub well : IsWellFormed v' r'
  pub size : r'.ndescs ≡ r.ndescs
  pub inside : desc < r.ndescs
  pub was_free : v.owner desc ≡ free
  pub owner : (a : ℕ) → v'.owner a ≡ update ℕ_discrete v.owner desc held a
  pub top : (c : Cell) × (c.addr ≡ desc) × (v.spare ≡ c ∷ v'.spare)
  pub queue : (q : QueueId) → v'.queue q ≡ v.queue q
  pub queues : r'.queue ≡ r.queue
  pub memory : (a : ℕ) → r'.desc a ≡ r.desc a

-- What the free list hands out: its first cell, or NULL exactly if it has none.
abbrev pub Handed : View → Region → Option ℕ → Region → Type 0
Handed v r none r' = (v.spare ≡ []) × (r' ≡ r)
Handed v r (some desc) r' = (v' : View) × Removed desc v r v' r'

remove_turn-none :
    (r : Region) → r.freelist.top.index ≡ bad_index → remove_turn tt r ≡ ok (finish none) r
unfolding remove_turn
remove_turn-none r e = ground arith

remove_turn-some :
    (r : Region) (i : ℕ) (d : Desc)
    → r.ndescs ≤ bad_index
    → r.freelist.top.index ≡ i
    → i < r.ndescs
    → r.desc i ≡ d
    → d.refcnt ≡ 0
    → remove_turn tt r ≡ ok (finish (some i)) (write_top d.next r)
unfolding remove_turn cas_top
remove_turn-some r i d small at inside body unshared = ground (arith, ==-refl (raw r.freelist.top))

abbrev take_spare : ℕ → List Cell → View → View
take_spare desc cs v = record v { owner = update ℕ_discrete v.owner desc held; spare = cs }

take_spare-IsWellFormed :
    {v : View} {r : Region} (c : Cell) (cs : List Cell)
    → IsWellFormed v r
    → IsFreeList r.freelist.top r.desc r.ndescs v.owner (c ∷ cs)
    → IsWellFormed (take_spare c.addr cs v) (write_top c.body.next r)
take_spare-IsWellFormed {v} {r} c cs w f = record {
  small = w.small;
  unshared = w.unshared;
  spare = record {
    linked = f.linked.1;
    holds =
        Holds-frame-Fresh free r.ndescs c.addr cs f.holds.1 f.distinct.0
          (λ b ne. (refl, ground arith));
    distinct = f.distinct.1;
  };
  queue = λ q. IsQueue-frame q (w.queue q) (λ a own. (refl, ground (arith, f.holds.0)));
}

-- On a list with a first cell the loop ends in its first turn.
pub freelist_remove-top :
    (fuel : ℕ) {owner : ℕ → Owner} {r : Region} (c : Cell) (cs : List Cell)
    → r.ndescs ≤ bad_index
    → (r.desc c.addr).refcnt ≡ 0
    → IsFreeList r.freelist.top r.desc r.ndescs owner (c ∷ cs)
    → freelist_remove (suc fuel) r ≡ ok (some c.addr) (write_top c.body.next r)
unfolding freelist_remove
freelist_remove-top fuel {r} c cs small unshared f =
    let (body, own, inside) = f.holds.0 in
    let alone : c.body.refcnt ≡ 0 = ground arith in
    loop-finish remove_turn fuel
      (remove_turn-some r c.addr c.body small f.linked.0 inside body alone)

remove-cons :
    (fuel : ℕ) {v : View} {r : Region} (c : Cell) (cs : List Cell)
    → IsWellFormed v r
    → v.spare ≡ c ∷ cs
    → IsFreeList r.freelist.top r.desc r.ndescs v.owner (c ∷ cs)
    → Yields (Handed v r) (freelist_remove (suc fuel) r)
remove-cons fuel {v} {r} c cs w e f =
    let (body, own, inside) = f.holds.0 in
    Yields-of_eq (freelist_remove-top fuel c cs w.small (w.unshared c.addr inside) f) (
      take_spare c.addr cs v,
      record {
        well = take_spare-IsWellFormed c cs w f;
        size = refl;
        inside = inside;
        was_free = own;
        owner = λ a. refl;
        top = (c, refl, e);
        queue = λ q. refl;
        queues = refl;
        memory = λ a. refl;
      },
    )

remove-nil :
    (fuel : ℕ) {v : View} {r : Region}
    → v.spare ≡ []
    → IsFreeList r.freelist.top r.desc r.ndescs v.owner []
    → Yields (Handed v r) (freelist_remove (suc fuel) r)
unfolding freelist_remove
remove-nil fuel {r} e f =
    Yields-of_eq (loop-finish remove_turn fuel (remove_turn-none r f.linked)) (e, refl)

-- On a well-formed region `freelist_remove` ends in its first turn. On an empty free list it
-- returns NULL and changes nothing; otherwise it returns the descriptor on top, which its caller
-- then holds.
pub freelist_remove-Handed :
    (fuel : ℕ) {v : View} {r : Region}
    → IsWellFormed v r
    → Yields (Handed v r) (freelist_remove (suc fuel) r)
freelist_remove-Handed fuel {v} {r} w = elim (List-cases v.spare) [
  | inl e ↦ remove-nil fuel e (subst (IsFreeList r.freelist.top r.desc r.ndescs v.owner) e w.spare)
  | inr (c, cs, e) ↦
      remove-cons fuel c cs w e
        (subst (IsFreeList r.freelist.top r.desc r.ndescs v.owner) e w.spare)
]
