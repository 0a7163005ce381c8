-- ===== src/FreeList.antt =====
-- The free list of libsmm/migqueue.c: a stack of descriptors whose top is swung by
-- compare-and-swap.
pub mod Add
pub mod Remove
pub mod Threads
use memif_user_release.Base.{
  ℕ, ◌+◌, ◌%◌, ◌^◌, Bool, true, false, Option, none, some, if◌then◌else◌, ◌==◌,
}
use memif_user_release.Desc.{DescPtr, Desc, bad_index}
use memif_user_release.Region.{
  FreeList, Region, Op, index_to_desc, desc_to_index, modify, write_next, load_desc, load_next,
  load_top, cas_top,
}
use memif_user_release.Region.Run.{ok, pure, ◌>>=◌, ◌>>◌, assert, Turn, again, finish, loop}

-- `__sync_add_and_fetch(&list->aba_counter, 1)` on an unsigned long.
abbrev pub bump_aba_counter : Op ℕ
bump_aba_counter r =
    let n : ℕ = (r.freelist.aba_counter + 1) % 2 ^ 64 in
    ok n (record r { freelist = record (r.freelist) { aba_counter = n } })

-- The body of the loop in `__freelist_add`.
unfoldable pub add_turn : DescPtr → Unit {0} → Op (Turn (Unit {0}) (Unit {0}))
add_turn tmp _ = do
  top ← load_top
  i ← index_to_desc tmp.index
  modify (write_next i top)
  swapped ← cas_top top tmp
  pure (if swapped then finish tt else again tt)

-- `freelist_add` with `__freelist_add`. `junk` is the color in the uninitialised local `tmp`.
unfoldable pub freelist_add : (fuel : ℕ) → (junk : ℕ) → (desc : ℕ) → Op (Unit {0})
freelist_add fuel junk desc = do
  d ← load_desc desc
  assert (d.refcnt == 0)
  n ← bump_aba_counter
  loop fuel (add_turn (record { index = desc_to_index desc; count = n % 2 ^ 16; color = junk })) tt

-- After the swap of `__freelist_remove`.
abbrev pub claim : ℕ → Op (Turn (Unit {0}) (Option ℕ))
claim i = do d ← load_desc i; assert (d.refcnt == 0); pure (finish (some i))

-- The body of the loop in `__freelist_remove`.
unfoldable pub remove_turn : Unit {0} → Op (Turn (Unit {0}) (Option ℕ))
remove_turn _ = do
  top ← load_top
  if top.index == bad_index then pure (finish none) else do
    tmp ← load_next top.index
    swapped ← cas_top top tmp
    if swapped then claim top.index else pure (again tt)

-- `freelist_remove` with `__freelist_remove`; NULL is `none`.
unfoldable pub freelist_remove : (fuel : ℕ) → Op (Option ℕ)
freelist_remove fuel = loop fuel remove_turn tt
