-- ===== src/Edma.antt =====
-- libsmm/edma3.c: DMA from user space by chains of parameter sets (PSETs). One physical channel is
-- allocated with a number of logic channels, each a PSET; a transfer of several buffers gives each
-- a PSET, which links to the next. The driver below, EDMA3_DRV, is a record of its calls.
pub mod Geometry
pub mod Channel
pub mod Gather
pub mod Repeat
pub mod Selfchain
pub mod Single
pub mod Sized
use memif_user_release.Base.{ℕ, Bool, true, Option, if◌then◌else◌}
use memif_user_release.Region.Run.{ok, bug, Code, pure, ◌>>=◌, ◌>>◌, assert}

-- The fields of EDMA3_DRV_PaRAMRegs that the code uses.
pub record Pset : Type 0 where
  pub opt : ℕ
  pub src_addr : ℕ
  pub a_cnt : ℕ
  pub b_cnt : ℕ
  pub dest_addr : ℕ
  pub src_b_idx : ℕ
  pub dest_b_idx : ℕ
  pub link_addr : ℕ
  pub b_cnt_reload : ℕ
  pub src_c_idx : ℕ
  pub dest_c_idx : ℕ
  pub c_cnt : ℕ

-- EDMA3_DRV_PARAM_ENTRY_SRC, _DST, _LINK_BCNTRLD and _OPT
pub data Entry : Type 0 where
  entry_src : Entry
  entry_dst : Entry
  entry_link_bcntrld : Entry
  entry_opt : Entry

-- The driver's calls on a state of its own. A call tells if it returned EDMA3_DRV_SOK. The channel
-- and the completion code of a request are passed in and out; the other numbers are its constants.
pub record Drv (S : Type 0) : Type 0 where
  pub malloc : S → Bool × S
  pub request_channel : (chan tcc : ℕ) → S → Bool × ℕ × ℕ × S
  pub free_channel : ℕ → S → Bool × S
  pub get_param_phys_addr : ℕ → S → Bool × ℕ × S
  pub set_param : ℕ → Pset → S → Bool × S
  pub set_param_entry : ℕ → Entry → ℕ → S → Bool × S
  pub enable_transfer : ℕ → S → Bool × S
  pub wait_and_clear_tcc : ℕ → S → Bool × S
  pub tcc_any : ℕ
  pub dma_channel_any : ℕ
  pub link_channel : ℕ

-- A call, and the assertion on what it returned.
abbrev pub checked : {S : Type 0} → (S → Bool × S) → Code S (Unit {0})
checked call s = let (done, s') = call s in if done then ok tt s' else bug

-- `dma_ch_info`. An array is a function of the index; `pset` is NULL until the PSETs are preloaded.
pub record ChInfo : Type 0 where
  pub ch : ℕ
  pub tcc : ℕ
  pub link : ℕ
  pub logic_chs : ℕ → ℕ
  pub links : ℕ → ℕ
  pub logic_cnt : ℕ
  pub pset : Option Pset
  pub size : ℕ
  pub last_brcnt_link : ℕ
  pub last_opt : ℕ
