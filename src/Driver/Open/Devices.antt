-- ===== src/Driver/Open/Devices.antt =====
-- Which device a file is, and what an open file has.
use memif_user_release.Base.{
  ℕ, zero, suc, update, ap₂, Bool, Option, ◌≤◌, ◌+◌, ◌<◌, ◌≡◌, ◌≢◌, refl, ◌^◌, true, none, some,
  List, ◌%◌, ◌-◌, ◌*◌, update_self, update_other, ℕ_discrete, Option-cases, inl, inr, sym, subst,
  ◌∙◌, arith,
}
use memif_user_release.Region.Run.{Yields, yields, Yields-ok, Yields-mono}
use memif_user_release.Region.View.{View}
use memif_user_release.Init.Fresh.{IsNewRegion}
use memif_user_release.Init.Whole.{init_migregion-IsNewRegion}
use memif_user_release.Driver.Open.{
  MmapInfo, Opening, debug_fnames, find_device, device_chan, fresh_open, if_open, mmap_open,
  mmap_close, module_init, module_exit, release,
}

-- A file that is open: its channel is its device's, and its region is new.
pub record Opened (device garbage p : ℕ) (s s' : Opening) : Type 0 where
  pub chan : ℕ
  pub info : s'.private_data ≡ some (record { chan = chan; region = p; reference = garbage })
  pub assigned : s'.chans device ≡ some chan
  pub others : (i : ℕ) → i ≢ device → s'.chans i ≡ s.chans i
  pub kept : (c : ℕ) → s.chans device ≡ some c → chan ≡ c
  pub fresh : (v : View) × IsNewRegion 379 v s'.region

fresh_open-Opened :
    (fuel junk garbage p c device : ℕ) (s : Opening)
    → Yields
        (λ ret s'. (ret ≡ true) × Opened device garbage p s s')
        (fresh_open (suc fuel) junk garbage (some p) (some c) device s)
unfolding fresh_open device_chan
fresh_open-Opened fuel junk garbage p c device s =
    let (_, r', run, (v, new)) = Yields-ok (
      init_migregion-IsNewRegion fuel junk (3 * 4096) s.region (omega arith) (omega arith)
        (omega arith)) in
    elim (Option-cases (s.chans device)) [
      | inl missing ↦
          rw (missing, run)
            (yields (
              refl,
              record {
                chan = c;
                info = refl;
                assigned = update_self ℕ_discrete s.chans device (some c);
                others = λ i other.
                    update_other ℕ_discrete s.chans device i (some c) (λ e. other (sym e));
                kept = λ x e. cc (sym missing ∙ e);
                fresh = (v, new);
              },
            ))
      | inr (x, there) ↦
          rw (there, run)
            (yields (
              refl,
              record {
                chan = x;
                info = refl;
                assigned = there;
                others = λ i other. refl;
                kept = λ y e. cc (sym there ∙ e);
                fresh = (v, new);
              },
            ))
    ]

-- Opening a device whose file is not open, with pages and a channel to be had: `if_open` returns 0,
-- and the file has a new region of 379 descriptors on these pages, and the channel of its device,
-- which stays the same from the first time on; the other devices' channels are as they were. The
-- count of mappings is whatever the pages held.
pub if_open-Opened :
    (fuel junk garbage p c device : ℕ) (name : List ℕ) (s : Opening)
    → find_device name debug_fnames 0 ≡ some device
    → s.private_data ≡ none
    → Yields
        (λ ret s'. (ret ≡ true) × Opened device garbage p s s')
        (if_open (suc fuel) junk garbage (some p) (some c) name s)
unfolding if_open
if_open-Opened fuel junk garbage p c device name s known closed =
    let e : s ≡ record s { private_data = none } = λ i. record s { private_data = closed i } in
    subst
      (λ x.
        Yields (λ ret s'. (ret ≡ true) × Opened device garbage p x s')
          (if_open (suc fuel) junk garbage (some p) (some c) name x))
      (sym e)
      (rw known (fresh_open-Opened fuel junk garbage p c device (record s { private_data = none })))

-- A mapping that is opened and closed leaves the count of mappings as it was.
pub mmap_close-mmap_open :
    (info : MmapInfo) → info.reference < 2 ^ 32 → mmap_close (mmap_open info) ≡ info
unfolding mmap_close mmap_open
mmap_close-mmap_open info fits =
    let same : ((info.reference + 1) % 2 ^ 32 + (2 ^ 32 - 1)) % 2 ^ 32 ≡ info.reference =
      omega arith in
    λ i. record info { reference = same i }

module_init-chans :
    (created : ℕ → Bool) (init_dma_chan : ℕ → Option ℕ) (rounds i : ℕ) (s : Opening)
    → ((j : ℕ) → created j ≡ true)
    → Yields
        (λ _ s'.
          ((j : ℕ) → j < i → s'.chans j ≡ s.chans j)
          × ((j : ℕ) → i ≤ j → j < i + rounds → s'.chans j ≡ init_dma_chan j))
        (module_init created init_dma_chan rounds i s)
unfolding module_init
module_init-chans created init_dma_chan zero i s made =
    yields ((λ j lt. refl), (λ j le lt. absurd (omega (arith, le, lt))))
module_init-chans created init_dma_chan (suc rounds) i s made =
    let s₁ : Opening = record s { chans = update ℕ_discrete s.chans i (init_dma_chan i) } in
    rw (made i) (
      Yields-mono (module_init-chans created init_dma_chan rounds (i + 1) s₁ made)
        λ _ s' (below, above). (
          (λ j lt.
              below j (omega (arith, lt))
              ∙ update_other ℕ_discrete s.chans i j (init_dma_chan i) (λ e. omega (arith, e, lt))),
          λ j le lt. elim (ℕ_discrete i j) [
            | yes e ↦
                below j (omega (arith, e))
                ∙ subst (λ x. s₁.chans x ≡ init_dma_chan x) e
                    (update_self ℕ_discrete s.chans i (init_dma_chan i))
            | no ne ↦ above j (omega (arith, le, ne)) (omega (arith, lt))
          ],
        ))

module_exit-cong :
    (chans chans' : ℕ → Option ℕ) (rounds i : ℕ)
    → ((j : ℕ) → i ≤ j → j < i + rounds → chans j ≡ chans' j)
    → module_exit chans rounds i ≡ module_exit chans' rounds i
unfolding module_exit
module_exit-cong chans chans' zero i same = refl
module_exit-cong chans chans' (suc rounds) i same =
    ap₂ release (same i (omega arith) (omega arith)) (
      module_exit-cong chans chans' rounds (i + 1)
        (λ j le lt. same j (omega (arith, le)) (omega (arith, lt))))

-- Where all files are made, loading the module gives each of the four devices what the allocation
-- of its channel gave, and unloading it releases exactly the channels that were allocated, in
-- order.
pub module_exit-module_init :
    (created : ℕ → Bool) (init_dma_chan : ℕ → Option ℕ) (s : Opening)
    → ((j : ℕ) → created j ≡ true)
    → Yields
        (λ _ s'.
          ((j : ℕ) → j < 4 → s'.chans j ≡ init_dma_chan j)
          × (module_exit s'.chans 4 0 ≡ module_exit init_dma_chan 4 0))
        (module_init created init_dma_chan 4 0 s)
module_exit-module_init created init_dma_chan s made =
    Yields-mono (module_init-chans created init_dma_chan 4 0 s made) λ _ s' (_, all). (
      (λ j lt. all j (omega arith) lt),
      module_exit-cong s'.chans init_dma_chan 4 0 (λ j le lt. all j le lt),
    )
