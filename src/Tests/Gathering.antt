-- ===== src/Tests/Gathering.antt =====
-- The theorems on DMA from user space, on a small board.
use memif_user_release.Base.{
  ℕ, zero, suc, ◌+◌, ◌*◌, ◌^◌, ◌≡◌, ◌≤◌, ◌<◌, ◌⊎◌, refl, none, some, inl, arith, if◌then◌else◌,
  ◌==◌,
}
use memif_user_release.Region.Run.{ok, bug, Code, Yields, loop, ◌>>=◌}
use memif_user_release.Edma.{Pset, ChInfo}
use memif_user_release.Edma.Geometry.{
  sync_a, sync_ab, Geometry, geometry, get_xfer_geometry, narrays_turn, indices,
}
use memif_user_release.Edma.Geometry.Fits.{Fits, Least, get_xfer_geometry-Fits}
use memif_user_release.Edma.Geometry.Bytes.{Moves}
use memif_user_release.Edma.Channel.{allocate_channel_linked}
use memif_user_release.Edma.Channel.Links.{id, allocate-IsLinked}
use memif_user_release.Edma.Gather.{
  chain_opt, chid, Host, Scatter, with_link, preload_psets, start_gather_preloaded,
  wait_gather_preloaded,
}
use memif_user_release.Edma.Gather.Documented.{IsChannel, Like, link_of, IsPreloaded}
use memif_user_release.Edma.Gather.Chain.{IsStarted, start_gather-IsStarted}
use memif_user_release.Edma.Gather.Restore.{preload_psets-IsPreloaded, gather-wait-IsPreloaded}
use memif_user_release.Tests.Board.{
  Board, blank, drv, view, drv-Documented, drv-Grants, registers, registers-IsMapped, board,
  channel, channel-IsChannel, bits,
}

geometry_example :
    ((g : Geometry) × (get_xfer_geometry 17 0x180000 board ≡ ok g board) × Fits 0x180000 g)
    ⊎ ((get_xfer_geometry 17 0x180000 board ≡ bug) × (2 ^ 16 ≤ 0x180000) × Least 0x180000 1 16 none)
geometry_example = get_xfer_geometry-Fits 0x180000 board

-- 64 arrays of 24K; half of a gigabyte and one more byte has no even number of arrays.
split : get_xfer_geometry 17 0x180000 board ≡ ok (geometry sync_ab 0x6000 64) board
unfolding get_xfer_geometry narrays_turn indices loop
split = refl

no_split : get_xfer_geometry 17 0x20000001 board ≡ bug
unfolding get_xfer_geometry narrays_turn indices loop
no_split = refl

-- A gigabyte is given 65536 arrays.
too_many : get_xfer_geometry 17 0x40000000 board ≡ ok (geometry sync_ab 0x4000 0x10000) board
unfolding get_xfer_geometry narrays_turn indices loop
too_many = refl

abbrev pub pages : Geometry
pages = geometry sync_a 4096 1

pub pages-geometry : (t : Board) → get_xfer_geometry 17 4096 t ≡ ok pages t
unfolding get_xfer_geometry indices
pages-geometry t = refl

pub pages-Fits : Fits 4096 pages
pages-Fits = record {
  all = omega arith;
  narrow = omega arith;
  reach = λ lt. absurd (omega arith);
  index = refl;
  reload = refl;
  frames = refl;
  chosen = inl (omega arith, refl, refl);
}

preload_example :
    Yields
      (λ c s'.
        (p : Pset) × IsPreloaded c p (view.psets s')
        × Moves p 4096
        × (p.opt ≡ chain_opt bits 3 pages.sync)
        × (c.size ≡ 4096))
      (preload_psets drv bits 17 channel 4096 board)
preload_example =
    preload_psets-IsPreloaded drv-Documented channel bits 17 4096 pages board channel-IsChannel refl
      pages-geometry pages-Fits (omega arith)

-- The channel with its PSETs.
abbrev ready_pset : Pset
ready_pset = record blank { a_cnt = 4096; b_cnt = 1; c_cnt = 1 }

abbrev ready : ChInfo
ready = record channel {
  pset = some ready_pset;
  size = 4096;
  last_brcnt_link = 0x1ffff;
  last_opt = 0x100000;
}

ready-IsChannel : IsChannel ready
ready-IsChannel = record {
  code = refl;
  physical = λ i lt e. omega (arith, e);
  logical = λ i j lt1 lt2 ne e. ne (omega (arith, e));
}

abbrev loaded : ℕ → Pset
loaded zero = blank
loaded (suc zero) = blank
loaded (suc (suc zero)) = blank
loaded (suc (suc (suc zero))) = with_link 0x4080 ready_pset
loaded (suc (suc (suc (suc zero)))) = with_link 0x40a0 ready_pset
loaded (suc (suc (suc (suc (suc i))))) = with_link 0xffff ready_pset

abbrev ready_board : Board
ready_board = record board { psets = loaded }

ready-IsPreloaded : IsPreloaded ready ready_pset loaded
ready-IsPreloaded = (refl, omega arith, like)
  where
    like : (i : ℕ) → i ≤ 2 → Like (loaded (chid ready i)) (with_link (link_of ready i) ready_pset)
    like zero lt = refl
    like (suc zero) lt = refl
    like (suc (suc zero)) lt = refl
    like (suc (suc (suc i))) lt = absurd (omega arith)

-- Memory: pointers at 800, 804 and 808, and one offset at 900.
abbrev pub host : Host
host = record {
  load = λ a. if a == 900 then 0x1000 else 0x20000000 + a * 4096;
  pointer = 4;
  modulus = 2 ^ 32;
}

-- Three buffers, and the same offset for each.
abbrev started : Code Board Scatter
started = start_gather_preloaded drv host ready 800 4 900 0 3 0x80000000

gather_example :
    Yields
      (IsStarted host ready 800 4 900 0 0x80000000 3 view ready_pset ready_board)
      (started ready_board)
gather_example =
    start_gather-IsStarted host ready 800 4 900 0 0x80000000 3 drv-Documented ready_pset ready_board
      (omega arith) ready-IsChannel ready-IsPreloaded (omega arith) refl refl (λ j lt. ground arith)

restore_example :
    Yields
      (λ _ s'. IsPreloaded ready ready_pset (view.psets s'))
      ((do
        x ← start_gather_preloaded drv host ready 800 4 900 0 3 0x80000000
        wait_gather_preloaded drv ready x)
        ready_board)
restore_example =
    gather-wait-IsPreloaded drv-Documented ready host 800 4 900 0 0x80000000 3 ready_pset
      ready_board (omega arith) ready-IsChannel ready-IsPreloaded (omega arith) refl refl
      (λ j lt. ground arith)

allocate_example :
    Yields
      (λ c _.
        (c.logic_cnt ≡ 2)
        × (c.pset ≡ none)
        × (c.link ≡ id drv-Grants registers registers-IsMapped (c.logic_chs 0))
        × ((j : ℕ)
            → suc j < 2
            → c.links j ≡ id drv-Grants registers registers-IsMapped (c.logic_chs (suc j)))
        × (c.links 1 ≡ 0xffff))
      (allocate_channel_linked drv registers channel 2 board)
allocate_example =
    allocate-IsLinked drv-Grants registers registers-IsMapped channel 2 board (omega arith)
