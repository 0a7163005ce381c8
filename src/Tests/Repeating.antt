-- ===== src/Tests/Repeating.antt =====
-- A driver that keeps account of its channels; a transfer that is made three times, and one that is
-- cut into two parts.
use memif_user_release.Base.{
  ℕ, ◌+◌, ◌*◌, ◌^◌, ◌≡◌, refl, Bool, true, false, not, ◌&&◌, ◌||◌, ◌==◌, ltb, List, [], ◌∷◌, update,
  ℕ_discrete, ◌-◌, leb, if◌then◌else◌,
}
use memif_user_release.Region.Run.{◌>>=◌, Outcome, ok, bug, spinning, loop}
use memif_user_release.Edma.{Pset, Drv}
use memif_user_release.Edma.Geometry.{get_xfer_geometry, indices}
use memif_user_release.Edma.Channel.{get_param_phys}
use memif_user_release.Edma.Gather.{sync_opt, middle_opt, end_opt}
use memif_user_release.Edma.Gather.Documented.{View, with_entry}
use memif_user_release.Edma.Repeat.{
  link_rounds, kick_rounds, free_rounds, run_chain, start_xfer_multiple,
}
use memif_user_release.Edma.Repeat.Documented.{Account}
use memif_user_release.Edma.Selfchain.{run_parts, next_opt, start_xfer_multiple_selfchaining}
use memif_user_release.Tests.Board.{blank, address, registers, bits}

-- 64 channels, of which the first `chans` were granted at some time, and 448 PSETs to link, of which
-- the first `sets` were.
record Shelf : Type 0 where
  psets : ℕ → Pset
  launched : List (ℕ × (ℕ → Pset))
  granted : ℕ → Bool
  chans : ℕ
  sets : ℕ

abbrev account : Account Shelf
account = record {
  room = λ s c. if c == 1005 then 448 - s.sets else 64 - s.chans;
  held = λ s x. ((ltb x 64 && ltb x s.chans) || (leb 64 x && ltb x (64 + s.sets))) && s.granted x;
}

abbrev granting : ℕ → Shelf → Shelf
granting c s = record s {
  psets = update ℕ_discrete s.psets c blank;
  granted = update ℕ_discrete s.granted c true;
}

abbrev next_channel : Shelf → Bool × ℕ × ℕ × Shelf
next_channel s =
    if ltb s.chans 64
    then (true, s.chans, s.chans, record (granting s.chans s) { chans = s.chans + 1 })
    else (false, 0, 0, s)

abbrev next_set : Shelf → Bool × ℕ × ℕ × Shelf
next_set s =
    if ltb s.sets 448
    then (true, 64 + s.sets, 0, record (granting (64 + s.sets) s) { sets = s.sets + 1 })
    else (false, 0, 0, s)

abbrev get_param : ℕ → Shelf → Bool × Pset × Shelf
get_param c s = (true, s.psets c, s)

abbrev grantor : Drv Shelf
grantor = record {
  malloc = λ s. (true, s);
  request_channel = λ c t s. if c == 1005 then next_set s else next_channel s;
  free_channel = λ c s. (true, record s { granted = λ x. not (c == x) && s.granted x });
  get_param_phys_addr = λ c s. (true, address c, s);
  set_param = λ c p s. (true, record s { psets = update ℕ_discrete s.psets c p });
  set_param_entry = λ c e x s.
      (true, record s { psets = update ℕ_discrete s.psets c (with_entry e x (s.psets c)) });
  enable_transfer = λ c s. (
    true,
    record s { psets = update ℕ_discrete s.psets c blank; launched = (c, s.psets) ∷ s.launched },
  );
  wait_and_clear_tcc = λ c s. (true, s);
  tcc_any = 1001;
  dma_channel_any = 1002;
  link_channel = 1005;
}

abbrev view : View Shelf
view = record { psets = λ s. s.psets; launched = λ s. s.launched }

abbrev shelf : Shelf
shelf = record { psets = λ c. blank; launched = []; granted = λ x. false; chans = 2; sets = 0 }

-- Channel 2 is started three times; 64 and 65 are the logic channels. Newest first: the channel, and
-- the links of the three PSETs.
abbrev starts : List (ℕ × (ℕ → Pset)) → List (ℕ × ℕ × ℕ × ℕ)
starts [] = []
starts (x ∷ xs) = (x.0, (x.1 2).link_addr, (x.1 64).link_addr, (x.1 65).link_addr) ∷ starts xs

abbrev ends : Outcome Shelf (Unit {0}) → List (ℕ × ℕ × ℕ × ℕ) × ℕ
ends (ok _ s) = (starts s.launched, s.sets)
ends bug = ([], 0)
ends spinning = ([], 0)

repeat_ends :
    ends
      (start_xfer_multiple grantor get_param registers bits 17 0x80000000 0x90000000 4096 3 shelf)
    ≡ ((2, 0, 18464, 65535) ∷ (2, 0, 18464, 65535) ∷ (2, 18432, 18464, 65535) ∷ [], 2)
unfolding start_xfer_multiple run_chain link_rounds kick_rounds free_rounds get_xfer_geometry
    indices get_param_phys sync_opt loop ℕ_discrete
repeat_ends = refl

-- The parts and the bits of their option words: the first chains (bit 22), the second raises the
-- interrupt (bit 20).
abbrev parts : Outcome Shelf (Unit {0}) → List (ℕ × (ℕ × ℕ) × (ℕ × ℕ))
parts (ok _ s) = two s.launched
  where
    two : List (ℕ × (ℕ → Pset)) → List (ℕ × (ℕ × ℕ) × (ℕ × ℕ))
    two [] = []
    two (x ∷ xs) =
        (x.0, ((x.1 2).src_addr, (x.1 2).opt), ((x.1 64).src_addr, (x.1 64).opt)) ∷ two xs
parts bug = []
parts spinning = []

parts_end :
    parts (
      start_xfer_multiple_selfchaining grantor get_param registers bits 17 0x80000000 0x90000000
        8192 2 shelf)
    ≡ (2, (0x80000000, 2 ^ 22 + 2 * 2 ^ 12), (0x80001000, 2 ^ 20 + 2 * 2 ^ 12)) ∷ []
unfolding start_xfer_multiple_selfchaining run_parts next_opt link_rounds free_rounds
    get_xfer_geometry indices get_param_phys sync_opt middle_opt end_opt loop ℕ_discrete
parts_end = refl
