-- ===== src/Driver/Open.antt =====
-- Opening, mapping and closing the debugfs files of migrate-x86/migrate-x86.c.
pub mod Devices
use memif_user_release.Base.{
  ℕ, zero, suc, ◌+◌, ◌-◌, ◌*◌, ◌^◌, ◌%◌, Bool, true, false, Option, none, some, List, [], ◌∷◌,
  if◌then◌else◌, ◌==◌, update, ℕ_discrete,
}
use memif_user_release.Region.{Region}
use memif_user_release.Region.Run.{Outcome, ok, bug, spinning, pure, ◌>>=◌, ◌>>◌, Code, assert}
use memif_user_release.Init.{init_migregion}

-- `struct mmap_info`: the channel, the pages of the region, and the count of mappings, an int.
pub record MmapInfo : Type 0 where
  pub chan : ℕ
  pub region : ℕ
  pub reference : ℕ

-- One open file with its `private_data`, the region in its pages, and the channels of the devices.
pub record Opening : Type 0 where
  pub private_data : Option MmapInfo
  pub region : Region
  pub chans : ℕ → Option ℕ

-- `strncmp(a, b, n) == 0`, where a name ends with its list.
abbrev pub same_prefix : ℕ → List ℕ → List ℕ → Bool
same_prefix zero xs ys = true
same_prefix (suc n) [] [] = true
same_prefix (suc n) [] (y ∷ ys) = false
same_prefix (suc n) (x ∷ xs) [] = false
same_prefix (suc n) (x ∷ xs) (y ∷ ys) =
    let rest = same_prefix n xs ys in if x == y then rest else false

-- "migif", "migif1", "migif2" and "migif3"
abbrev pub debug_fnames : List (List ℕ)
debug_fnames =
    (109 ∷ 105 ∷ 103 ∷ 105 ∷ 102 ∷ [])
    ∷ (109 ∷ 105 ∷ 103 ∷ 105 ∷ 102 ∷ 49 ∷ [])
    ∷ (109 ∷ 105 ∷ 103 ∷ 105 ∷ 102 ∷ 50 ∷ [])
    ∷ (109 ∷ 105 ∷ 103 ∷ 105 ∷ 102 ∷ 51 ∷ [])
    ∷ []

-- The loop of `if_open` over the names, from device `i`.
unfoldable pub find_device : (name : List ℕ) → List (List ℕ) → (i : ℕ) → Option ℕ
find_device name [] i = none
find_device name (x ∷ xs) i =
    let rest = find_device name xs (i + 1) in if same_prefix 7 name x then some i else rest

-- NULL is a bug.
abbrev pub needed : {S A : Type 0} → Option A → Code S A
needed none = λ s. bug
needed (some a) = pure a

abbrev set_region : Opening → Outcome Region (Unit {0}) → Outcome Opening (Unit {0})
set_region s (ok _ r) = ok tt (record s { region = r })
set_region s bug = bug
set_region s spinning = spinning

-- The channel of the device; one that is missing is allocated.
unfoldable pub device_chan : (init_dma_chan : Option ℕ) → (device : ℕ) → Option ℕ → Code Opening ℕ
device_chan init_dma_chan device (some chan) = pure chan
device_chan init_dma_chan device none = do
  chan ← needed init_dma_chan
  λ s. ok chan (record s { chans = update ℕ_discrete s.chans device (some chan) })

-- The part of `if_open` behind the test for a double open. `pages` is what `__get_free_pages`
-- gives, and `garbage` what is in the count of mappings, which is not set.
unfoldable pub fresh_open :
    (fuel junk garbage : ℕ) → (pages init_dma_chan : Option ℕ) → (device : ℕ) → Code Opening Bool
fresh_open fuel junk garbage pages init_dma_chan device = do
  p ← needed pages
  chan ← λ s. device_chan init_dma_chan device (s.chans device) s
  λ s. set_region s (init_migregion fuel junk (3 * 4096) s.region)
  λ s.
      ok tt
        (record s { private_data = some (record { chan = chan; region = p; reference = garbage }) })
  pure true

-- `if_open` returns 0 (true) or -1.
unfoldable pub if_open :
    (fuel junk garbage : ℕ) → (pages init_dma_chan : Option ℕ) → (name : List ℕ) → Code Opening Bool
if_open fuel junk garbage pages init_dma_chan name = do
  device ← needed (find_device name debug_fnames 0)
  λ s. elim s.private_data [
    | none ↦ fresh_open fuel junk garbage pages init_dma_chan device s
    | some info ↦ ok false s
  ]

-- `if_close`: the pages of the region are left as they are.
unfoldable pub if_close : Opening → Opening
if_close s = record s { private_data = none }

-- `mmap_open`, which `if_mmap` calls, and `mmap_close`, on the info of the mapping.
unfoldable pub mmap_open : MmapInfo → MmapInfo
mmap_open info = record info { reference = (info.reference + 1) % 2 ^ 32 }

unfoldable pub mmap_close : MmapInfo → MmapInfo
mmap_close info = record info { reference = (info.reference + (2 ^ 32 - 1)) % 2 ^ 32 }

-- The loop of `migks2_module_init`, with the rounds left: `created` tells if a file was made, and
-- `init_dma_chan` what its call gives.
unfoldable pub module_init :
    (created : ℕ → Bool) → (init_dma_chan : ℕ → Option ℕ) → (rounds i : ℕ) → Code Opening (Unit {0})
module_init created init_dma_chan zero i = pure tt
module_init created init_dma_chan (suc rounds) i = do
  assert (created i)
  λ s. ok tt (record s { chans = update ℕ_discrete s.chans i (init_dma_chan i) })
  module_init created init_dma_chan rounds (i + 1)

abbrev pub release : Option ℕ → List ℕ → List ℕ
release none rest = rest
release (some chan) rest = chan ∷ rest

-- The loop of `migks2_module_exit`: the channels that it releases.
unfoldable pub module_exit : (chans : ℕ → Option ℕ) → (rounds i : ℕ) → List ℕ
module_exit chans zero i = []
module_exit chans (suc rounds) i = release (chans i) (module_exit chans rounds (i + 1))
