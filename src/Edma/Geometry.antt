-- ===== src/Edma/Geometry.antt =====
-- `get_xfer_geometry` of libsmm/edma3.c: how many bytes are split into arrays of equal size.
pub mod Fits
pub mod Bytes
use memif_user_release.Base.{
  ℕ, zero, suc, ◌+◌, ◌-◌, ◌*◌, ◌/◌, ◌%◌, ◌^◌, ◌≤◌, ◌<◌, ◌≡◌, ◌≢◌, Bool, true, false, not, Option,
  none, some, if◌then◌else◌, ltb, leb, lt→ltb, ◌==◌, ◌||◌, arith, ◌∙◌, refl, ◌↔◌, Bool-cases, inl,
  inr, ◌⊎◌,
}
use memif_user_release.Region.Run.{
  Outcome, ok, bug, spinning, Code, pure, ◌>>=◌, ◌>>◌, assert, Turn, again, finish, loop,
  loop-finish, loop-again,
}

-- EDMA3_DRV_SYNC_A, EDMA3_DRV_SYNC_AB
pub data Sync : Type 0 where
  sync_a : Sync
  sync_ab : Sync

pub record Geometry : Type 0 where
  pub sync : Sync
  pub acnt : ℕ
  pub bcnt : ℕ
  pub ccnt : ℕ
  pub brcnt : ℕ
  pub bidx : ℕ
  pub cidx : ℕ

-- The search for the number of arrays; `none` is the -1 in `*bcnt`.
unfoldable pub narrays_turn : {S : Type 0} → ℕ → ℕ → Code S (Turn ℕ (Option ℕ))
narrays_turn size narrays =
    if leb narrays 0x8000
    then (let n : ℕ = narrays * 2 in
        if not (size % n == 0) || leb 0x8000 (size / n)
        then pure (again n)
        else pure (finish (some n)))
    else pure (finish none)

-- What is derived from the counts.
abbrev pub geometry : Sync → ℕ → ℕ → Geometry
geometry mode acnt bcnt = record {
  sync = mode;
  acnt = acnt;
  bcnt = bcnt;
  ccnt = 1;
  brcnt = bcnt;
  bidx = acnt;
  cidx = elim mode [ sync_a ↦ acnt | sync_ab ↦ acnt * bcnt ];
}

-- The checks of the indices.
unfoldable pub indices : {S : Type 0} → Geometry → Code S Geometry
indices g = do
  assert (if ltb 1 g.bcnt then leb g.bidx 32767 else true)
  assert (if ltb 1 g.ccnt then leb g.cidx 32767 else true)
  pure g

-- `assert(0)` where no number of arrays will do.
abbrev pub evenly : {S : Type 0} → ℕ → Option ℕ → Code S Geometry
evenly size none = λ _. bug
evenly size (some n) = indices (geometry sync_ab (size / n) n)

unfoldable pub get_xfer_geometry : {S : Type 0} → (fuel : ℕ) → (size : ℕ) → Code S Geometry
get_xfer_geometry fuel size =
    if ltb size 0x10000
    then indices (geometry sync_a size 1)
    else loop fuel (narrays_turn size) 1 >>= evenly size
