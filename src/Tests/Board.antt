-- ===== src/Tests/Board.antt =====
-- A driver of the DMA engine that keeps its promises, on a board of channels.
use memif_user_release.Base.{
  ℕ, zero, suc, ◌+◌, ◌*◌, ◌%◌, ◌^◌, refl, true, List, [], ◌∷◌, none, update, ℕ_discrete, arith,
}
use memif_user_release.Edma.{Pset, Drv, ChInfo}
use memif_user_release.Edma.Channel.{Registers}
use memif_user_release.Edma.Channel.Links.{IsMapped, Grants}
use memif_user_release.Edma.Gather.{OptBits}
use memif_user_release.Edma.Gather.Documented.{with_entry, View, Documented, IsChannel}

pub record Board : Type 0 where
  pub psets : ℕ → Pset
  pub launched : List (ℕ × (ℕ → Pset))
  pub unused : ℕ

abbrev pub blank : Pset
blank = record {
  opt = 0;
  src_addr = 0;
  a_cnt = 0;
  b_cnt = 0;
  dest_addr = 0;
  src_b_idx = 0;
  dest_b_idx = 0;
  link_addr = 0;
  b_cnt_reload = 0;
  src_c_idx = 0;
  dest_c_idx = 0;
  c_cnt = 0;
}

abbrev pub address : ℕ → ℕ
address c = 0x40004000 + 32 * c

-- A finished transfer leaves a blank PSET in its channel.
abbrev pub drv : Drv Board
drv = record {
  malloc = λ s. (true, s);
  request_channel =
      λ c t s. (true, s.unused % 512, s.unused % 512, record s { unused = s.unused + 1 });
  free_channel = λ c s. (true, s);
  get_param_phys_addr = λ c s. (true, address c, s);
  set_param = λ c p s. (true, record s { psets = update ℕ_discrete s.psets c p });
  set_param_entry = λ c e x s.
      (true, record s { psets = update ℕ_discrete s.psets c (with_entry e x (s.psets c)) });
  enable_transfer = λ c s. (true, record s { launched = (c, s.psets) ∷ s.launched });
  wait_and_clear_tcc = λ c s. (true, record s { psets = update ℕ_discrete s.psets c blank });
  tcc_any = 1001;
  dma_channel_any = 1002;
  link_channel = 1005;
}

abbrev pub view : View Board
view = record { psets = λ s. s.psets; launched = λ s. s.launched }

pub drv-Documented : Documented drv view
drv-Documented = record {
  malloc_done = λ s. refl;
  malloc_psets = λ s. refl;
  malloc_launched = λ s. refl;
  param_done = λ c p s. refl;
  param_psets = λ c p s. refl;
  param_launched = λ c p s. refl;
  entry_done = λ c e x s. refl;
  entry_psets = λ c e x s. refl;
  entry_launched = λ c e x s. refl;
  enable_done = λ c s. refl;
  enable_psets = λ c a s ne. refl;
  enable_launched = λ c s. refl;
  wait_done = λ c s. refl;
  wait_psets = λ c a s ne. ground arith;
}

pub drv-Grants : Grants drv address
drv-Grants = record {
  malloc_done = λ s. refl;
  request_done = λ c t s. refl;
  channel = λ c t s e. omega (arith, e);
  code = λ c t s e. omega (arith, e);
  addr_done = λ c s. refl;
  addr_eq = λ c s. refl;
}

abbrev pub registers : Registers
registers = record { virt = 0x40000000; phys = 0x02700000; modulus = 2 ^ 32 }

pub registers-IsMapped : IsMapped registers
registers-IsMapped = record { user = omega arith; phys = omega arith; above = omega arith }

abbrev pub board : Board
board = record { psets = λ c. blank; launched = []; unused = 3 }

-- A channel with two logic channels.
abbrev pub channel : ChInfo
channel = record {
  ch = 3;
  tcc = 3;
  link = 0x4080;
  logic_chs = λ i. 4 + i;
  links = λ i. elim i [ zero ↦ 0x40a0 | suc _ ↦ 0xffff ];
  logic_cnt = 2;
  pset = none;
  size = 0;
  last_brcnt_link = 0;
  last_opt = 0;
}

pub channel-IsChannel : IsChannel channel
channel-IsChannel = record {
  code = refl;
  physical = λ i lt e. omega (arith, e);
  logical = λ i j lt1 lt2 ne e. ne (omega (arith, e));
}

abbrev pub bits : OptBits
bits = record {
  syncdim_shift = 2;
  tcc_mask = 0x3f000;
  tcc_shift = 12;
  itcinten_shift = 21;
  tcinten_shift = 20;
  tcchen_shift = 22;
  itcchen_shift = 23;
}
