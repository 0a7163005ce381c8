-- ===== src/Edma/Gather/Documented.antt =====
-- What libsmm/edma3.c relies on: the calls of the driver, as they are documented, on the PSETs.
use memif_user_release.Base.{
  ℕ, zero, suc, ◌%◌, ◌/◌, ◌^◌, ◌≡◌, ◌≢◌, ◌<◌, ◌≤◌, true, List, ◌∷◌, update, ℕ_discrete, some,
}
use memif_user_release.Edma.{
  Pset, Entry, entry_src, entry_dst, entry_link_bcntrld, entry_opt, Drv, ChInfo,
}
use memif_user_release.Edma.Gather.{with_link, chid}

-- A 32-bit word written into a PSET.
abbrev pub with_entry : Entry → ℕ → Pset → Pset
with_entry entry_src v p = record p { src_addr = v }
with_entry entry_dst v p = record p { dest_addr = v }
with_entry entry_link_bcntrld v p = record p { link_addr = v % 2 ^ 16; b_cnt_reload = v / 2 ^ 16 }
with_entry entry_opt v p = record p { opt = v }

-- A state of the driver holds the PSETs, and the transfers that were started, with the PSETs at
-- that time. A transfer overwrites the PSET of its own channel; a linked PSET is only read.
pub record View (S : Type 0) : Type 0 where
  pub psets : S → ℕ → Pset
  pub launched : S → List (ℕ × (ℕ → Pset))

pub record Documented {S : Type 0} (d : Drv S) (v : View S) : Type 0 where
  pub malloc_done : (s : S) → (d.malloc s).0 ≡ true
  pub malloc_psets : (s : S) → v.psets (d.malloc s).1 ≡ v.psets s
  pub malloc_launched : (s : S) → v.launched (d.malloc s).1 ≡ v.launched s
  pub param_done : (c : ℕ) (p : Pset) (s : S) → (d.set_param c p s).0 ≡ true
  pub param_psets :
      (c : ℕ) (p : Pset) (s : S) → v.psets (d.set_param c p s).1 ≡ update ℕ_discrete (v.psets s) c p
  pub param_launched : (c : ℕ) (p : Pset) (s : S) → v.launched (d.set_param c p s).1 ≡ v.launched s
  pub entry_done : (c : ℕ) (e : Entry) (x : ℕ) (s : S) → (d.set_param_entry c e x s).0 ≡ true
  pub entry_psets :
      (c : ℕ) (e : Entry) (x : ℕ) (s : S)
      → v.psets (d.set_param_entry c e x s).1
        ≡ update ℕ_discrete (v.psets s) c (with_entry e x (v.psets s c))
  pub entry_launched :
      (c : ℕ) (e : Entry) (x : ℕ) (s : S) → v.launched (d.set_param_entry c e x s).1 ≡ v.launched s
  pub enable_done : (c : ℕ) (s : S) → (d.enable_transfer c s).0 ≡ true
  pub enable_psets : (c a : ℕ) (s : S) → c ≢ a → v.psets (d.enable_transfer c s).1 a ≡ v.psets s a
  pub enable_launched :
      (c : ℕ) (s : S) → v.launched (d.enable_transfer c s).1 ≡ (c, v.psets s) ∷ v.launched s
  pub wait_done : (c : ℕ) (s : S) → (d.wait_and_clear_tcc c s).0 ≡ true
  pub wait_psets : (c a : ℕ) (s : S) → c ≢ a → v.psets (d.wait_and_clear_tcc c s).1 a ≡ v.psets s a

-- Different channels, and the completion code that is the channel's number.
pub record IsChannel (c : ChInfo) : Type 0 where
  pub code : c.tcc ≡ c.ch
  pub physical : (i : ℕ) → i < c.logic_cnt → c.logic_chs i ≢ c.ch
  pub logical :
      (i j : ℕ) → i < c.logic_cnt → j < c.logic_cnt → i ≢ j → c.logic_chs i ≢ c.logic_chs j

-- All but the two addresses.
abbrev pub bare : Pset → Pset
bare p = record p { src_addr = 0; dest_addr = 0 }

abbrev pub Like : Pset → Pset → Type 0
Like p q = bare p ≡ bare q

-- The link of round `i` when nothing is under way.
abbrev pub link_of : ChInfo → ℕ → ℕ
link_of c zero = c.link
link_of c (suc i) = c.links i

-- Every PSET of the channel is as it was preloaded, up to its addresses, and the word for the end
-- of a chain has the null link.
abbrev pub IsPreloaded : ChInfo → Pset → (ℕ → Pset) → Type 0
IsPreloaded c p m =
    (c.pset ≡ some p)
    × (c.last_brcnt_link % 2 ^ 16 ≡ 0xffff)
    × ((i : ℕ) → i ≤ c.logic_cnt → Like (m (chid c i)) (with_link (link_of c i) p))
