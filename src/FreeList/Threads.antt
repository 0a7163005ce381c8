-- ===== src/FreeList/Threads.antt =====
-- The free list of libsmm/migqueue.c under any number of threads. The code of `__freelist_add` and
-- `__freelist_remove` is cut where it touches shared memory, so that threads interleave between any
-- two accesses. A thread writes to a descriptor only while it has it from `freelist_remove`, and
-- gives back only such a one. Memory is sequentially consistent.
pub mod Invariant
pub mod Frame
pub mod Moves
pub mod Adding
pub mod Removing
pub mod Schedule
pub mod Exclusion
use memif_user_release.Base.{
  ℕ, ◌+◌, ◌%◌, ◌^◌, Bool, true, false, ◌&&◌, List, [], ◌∷◌, if◌then◌else◌, ◌==◌, update, ℕ_discrete,
  zero, suc,
}
use memif_user_release.Desc.{DescPtr, Desc, bad_index}
use memif_user_release.Region.{
  Region, Op, index_to_desc, desc_to_index, modify, write_desc, write_next, load_desc, load_next,
  load_top, cas_top,
}
use memif_user_release.Region.Run.{Outcome, ok, bug, spinning, Code, pure, ◌>>=◌, ◌>>◌, assert}
use memif_user_release.FreeList.{bump_aba_counter}

-- Where a thread stands. `adding` and `removing` are the heads of the two loops.
pub data Pc : Type 0 where
  idle : Pc
  adding : DescPtr → Pc
  linking : DescPtr → DescPtr → Pc
  swapping : DescPtr → DescPtr → Pc
  removing : Pc
  reading : DescPtr → Pc
  taking : DescPtr → DescPtr → Pc
  claiming : ℕ → Pc

-- `freelist_add` up to its loop. The descriptor is its caller's, so the load of `refcnt` is one
-- step with the atomic addition.
unfoldable pub start_add : (junk : ℕ) → (desc : ℕ) → Op Pc
start_add junk desc = do
  d ← load_desc desc
  assert (d.refcnt == 0)
  n ← bump_aba_counter
  pure (adding (record { index = desc_to_index desc; count = n % 2 ^ 16; color = junk }))

-- The next access of a thread to shared memory.
unfoldable pub advance : Pc → Op Pc
advance idle = pure idle
advance (adding tmp) = do top ← load_top; pure (linking tmp top)
advance (linking tmp top) = do
  i ← index_to_desc tmp.index
  modify (write_next i top)
  pure (swapping tmp top)
advance (swapping tmp top) = do
  swapped ← cas_top top tmp
  pure (if swapped then idle else adding tmp)
advance removing = do top ← load_top; pure (if top.index == bad_index then idle else reading top)
advance (reading top) = do tmp ← load_next top.index; pure (taking top tmp)
advance (taking top tmp) = do
  swapped ← cas_top top tmp
  pure (if swapped then claiming top.index else removing)
advance (claiming i) = do d ← load_desc i; assert (d.refcnt == 0); pure idle

-- The region, where each thread stands, and which descriptors each has been handed.
pub record World : Type 0 where
  pub region : Region
  pub pc : ℕ → Pc
  pub has : ℕ → ℕ → Bool

abbrev pub set_pc : ℕ → Pc → World → World
set_pc u p w = record w { pc = update ℕ_discrete w.pc u p }

abbrev pub set_has : ℕ → ℕ → Bool → World → World
set_has u d b w = record w { has = update ℕ_discrete w.has u (update ℕ_discrete (w.has u) d b) }

abbrev pub is_idle : Pc → Bool
is_idle idle = true
is_idle (adding tmp) = false
is_idle (linking tmp top) = false
is_idle (swapping tmp top) = false
is_idle removing = false
is_idle (reading top) = false
is_idle (taking top tmp) = false
is_idle (claiming i) = false

-- Thread `u` makes an access, and goes on as it says.
abbrev pub access : ℕ → Outcome Region Pc → World → Outcome World (Unit {0})
access u (ok p r) w = ok tt (set_pc u p (record w { region = r }))
access u bug w = bug
access u spinning w = spinning

-- `freelist_remove` returns its descriptor after the last access.
abbrev pub hand : ℕ → Pc → World → World
hand u (claiming i) w = set_has u i true w
hand u idle w = w
hand u (adding tmp) w = w
hand u (linking tmp top) w = w
hand u (swapping tmp top) w = w
hand u removing w = w
hand u (reading top) w = w
hand u (taking top tmp) w = w

-- A thread calls `freelist_add` on a descriptor that it has, or `freelist_remove`; it makes its
-- next access; or it writes to a descriptor that it has, whatever it likes but the unused `refcnt`.
pub data Action : Type 0 where
  add : (u junk desc : ℕ) → Action
  remove : (u : ℕ) → Action
  step : (u : ℕ) → Action
  write : (u desc : ℕ) → (body : Desc) → Action

abbrev pub skip : World → Outcome World (Unit {0})
skip w = ok tt w

-- What a thread does not do is skipped: to call a function inside another, or on what it has not.
unfoldable pub act : Action → Code World (Unit {0})
act (add u junk desc) w =
    if is_idle (w.pc u) && w.has u desc
    then access u (start_add junk desc w.region) (set_has u desc false w)
    else skip w
act (remove u) w = if is_idle (w.pc u) then ok tt (set_pc u removing w) else skip w
act (step u) w = access u (advance (w.pc u) w.region) (hand u (w.pc u) w)
act (write u desc body) w =
    if w.has u desc
    then ok tt (record w {
      region = write_desc desc (record body { refcnt = (w.region.desc desc).refcnt }) w.region;
    })
    else skip w

unfoldable pub run : List Action → Code World (Unit {0})
run [] = pure tt
run (a ∷ l) = act a >> run l

-- How often a schedule bumps the ABA counter, at most.
abbrev pub adds : Action → ℕ
adds (add u junk desc) = 1
adds (remove u) = 0
adds (step u) = 0
adds (write u desc body) = 0

abbrev pub total_adds : List Action → ℕ
total_adds [] = 0
total_adds (a ∷ l) = adds a + total_adds l
