-- ===== src/Init.antt =====
-- `freelist_init` and `init_migregion` of libsmm/migqueue.c: a shared region made from raw pages.
pub mod Carve
pub mod Chain
pub mod Fresh
pub mod Whole
use memif_user_release.Base.{
  ℕ, zero, suc, ◌+◌, ◌-◌, ◌/◌, ◌%◌, ◌^◌, ltb, ◌==◌, ◌&&◌, update, ℕ_discrete,
}
use memif_user_release.Desc.{DescPtr, Desc, bad_index, color_none, color_usr}
use memif_user_release.Region.{Region, Op, req, issued, comp, modify, write_desc, write_queue}
use memif_user_release.Region.Run.{ok, pure, ◌>>=◌, ◌>>◌, assert}
use memif_user_release.FreeList.{freelist_add, freelist_remove}
use memif_user_release.Queue.{or_bug, migqueue_create_color, migqueue_create}

-- The layout on x86-64: `offsetof(mig_region, desc_array)` and `sizeof(mig_desc)`.
abbrev pub desc_array_offset : ℕ
desc_array_offset = 152

abbrev pub sizeof_desc : ℕ
sizeof_desc = 32

-- `(size - offsetof(...)) / sizeof(mig_desc)` on size_t, kept in 32 bits.
abbrev pub descs_in : ℕ → ℕ
descs_in size = (size + 2 ^ 64 - desc_array_offset) % 2 ^ 64 / sizeof_desc % 2 ^ 32

-- The loop of `freelist_init`, with the rounds left and the next index.
unfoldable pub add_all : (fuel junk : ℕ) → (rounds i : ℕ) → Op (Unit {0})
add_all fuel junk zero i = pure tt
add_all fuel junk (suc rounds) i = do
  modify (λ r. write_desc i (record (r.desc i) { refcnt = 0 }) r)
  freelist_add fuel junk i
  add_all fuel junk rounds (i + 1)

abbrev pub clear_freelist : Region → Region
clear_freelist r = record r {
  freelist = record {
    top = record { index = bad_index; count = 0; color = color_none };
    aba_counter = 0;
    element_counter = 0;
  };
}

-- `size` is an int there, so a count past the positive ones fails the assertion.
unfoldable pub freelist_init : (fuel junk : ℕ) → Op (Unit {0})
freelist_init fuel junk r =
    (do
      assert (ltb 0 r.ndescs && ltb r.ndescs (2 ^ 31))
      modify clear_freelist
      add_all fuel junk r.ndescs 0)
      r

-- `head = freelist_remove(region); assert(head);` and the creation of a queue with that dummy.
unfoldable pub with_dummy : (fuel : ℕ) → (ℕ → Op (Unit {0})) → Op (Unit {0})
with_dummy fuel create = do dummy ← freelist_remove fuel; head ← or_bug dummy; create head

unfoldable pub init_migregion : (fuel junk : ℕ) → (size : ℕ) → Op (Unit {0})
init_migregion fuel junk size = do
  assert (size % 4096 == 0)
  modify (λ r. record r { ndescs = descs_in size })
  freelist_init fuel junk
  with_dummy fuel (λ head. migqueue_create_color req head color_usr)
  with_dummy fuel (migqueue_create issued)
  with_dummy fuel (migqueue_create comp)
