-- ===== src/Edma/Repeat/Documented.antt =====
-- The calls of the driver, as they are documented, on the channels that are granted, the PSETs, and
-- the transfers that were started.
use memif_user_release.Base.{
  ℕ, suc, ◌<◌, ◌≡◌, ◌≢◌, Bool, true, false, not, ◌&&◌, ◌||◌, ◌==◌, List, ◌∷◌, update, ℕ_discrete,
}
use memif_user_release.Edma.{Pset, Drv}
use memif_user_release.Edma.Gather.Documented.{View}

-- How many more requests for a constant (any channel, a PSET to link, or a channel by its number) are
-- granted, and which channels are held.
pub record Account (S : Type 0) : Type 0 where
  pub room : S → ℕ → ℕ
  pub held : S → ℕ → Bool

module _ {S : Type 0} (v : View S) (acc : Account S) where
  abbrev pub Same : S → S → Type 0
  Same s t =
      (v.psets t ≡ v.psets s)
      × (v.launched t ≡ v.launched s)
      × (acc.held t ≡ acc.held s)
      × (acc.room t ≡ acc.room s)

  -- Where there is room for a request it is granted, with a channel that is not held, whose PSET it
  -- may reset. PSETs to link are a pool of their own. Memory is there, and a wait returns when the
  -- transfer is done. While the transfer that was started last is under way, only the PSET of its
  -- channel changes.
  pub record Grantor (d : Drv S) (get_param : ℕ → S → Bool × Pset × S) (addr : ℕ → ℕ) : Type 0 where
    pub any_apart : d.dma_channel_any ≢ d.link_channel
    pub channel_apart : (c : ℕ) → c < 64 → c ≢ d.link_channel
    pub malloc_done : (s : S) → (d.malloc s).0 ≡ true
    pub malloc_same : (s : S) → Same s (d.malloc s).1
    pub request_done : (c t : ℕ) (s : S) → 0 < acc.room s c → (d.request_channel c t s).0 ≡ true
    pub request_new :
        (c t : ℕ) (s : S) → 0 < acc.room s c → acc.held s (d.request_channel c t s).1 ≡ false
    pub request_link :
        (t : ℕ) (s : S)
        → 0 < acc.room s d.link_channel
        → acc.room s d.link_channel
          ≡ suc (acc.room (d.request_channel d.link_channel t s).3 d.link_channel)
    pub request_other :
        (c t : ℕ) (s : S)
        → c ≢ d.link_channel
        → 0 < acc.room s c
        → acc.room (d.request_channel c t s).3 d.link_channel ≡ acc.room s d.link_channel
    pub request_held :
        (c t : ℕ) (s : S)
        → 0 < acc.room s c
        → acc.held (d.request_channel c t s).3
          ≡ (λ x. (d.request_channel c t s).1 == x || acc.held s x)
    pub request_psets :
        (c t a : ℕ) (s : S)
        → 0 < acc.room s c
        → (d.request_channel c t s).1 ≢ a
        → v.psets (d.request_channel c t s).3 a ≡ v.psets s a
    pub request_launched : (c t : ℕ) (s : S) → v.launched (d.request_channel c t s).3 ≡ v.launched s
    pub addr_done : (c : ℕ) (s : S) → (d.get_param_phys_addr c s).0 ≡ true
    pub addr_eq : (c : ℕ) (s : S) → (d.get_param_phys_addr c s).1 ≡ addr c
    pub addr_same : (c : ℕ) (s : S) → Same s (d.get_param_phys_addr c s).2
    pub load_done : (c : ℕ) (s : S) → (get_param c s).0 ≡ true
    pub load_eq : (c : ℕ) (s : S) → (get_param c s).1 ≡ v.psets s c
    pub load_same : (c : ℕ) (s : S) → Same s (get_param c s).2
    pub set_done : (c : ℕ) (p : Pset) (s : S) → (d.set_param c p s).0 ≡ true
    pub set_psets :
        (c : ℕ) (p : Pset) (s : S)
        → v.psets (d.set_param c p s).1 ≡ update ℕ_discrete (v.psets s) c p
    pub set_launched : (c : ℕ) (p : Pset) (s : S) → v.launched (d.set_param c p s).1 ≡ v.launched s
    pub set_held : (c : ℕ) (p : Pset) (s : S) → acc.held (d.set_param c p s).1 ≡ acc.held s
    pub set_room : (c : ℕ) (p : Pset) (s : S) → acc.room (d.set_param c p s).1 ≡ acc.room s
    pub enable_done : (c : ℕ) (s : S) → (d.enable_transfer c s).0 ≡ true
    pub enable_psets : (c a : ℕ) (s : S) → a ≢ c → v.psets (d.enable_transfer c s).1 a ≡ v.psets s a
    pub enable_launched :
        (c : ℕ) (s : S) → v.launched (d.enable_transfer c s).1 ≡ (c, v.psets s) ∷ v.launched s
    pub enable_held : (c : ℕ) (s : S) → acc.held (d.enable_transfer c s).1 ≡ acc.held s
    pub wait_done : (t : ℕ) (s : S) → (d.wait_and_clear_tcc t s).0 ≡ true
    pub wait_psets :
        (t c a : ℕ) (m : ℕ → Pset) (l : List (ℕ × (ℕ → Pset))) (s : S)
        → v.launched s ≡ (c, m) ∷ l
        → a ≢ c
        → v.psets (d.wait_and_clear_tcc t s).1 a ≡ v.psets s a
    pub wait_launched : (t : ℕ) (s : S) → v.launched (d.wait_and_clear_tcc t s).1 ≡ v.launched s
    pub wait_held : (t : ℕ) (s : S) → acc.held (d.wait_and_clear_tcc t s).1 ≡ acc.held s
    pub free_done : (c : ℕ) (s : S) → (d.free_channel c s).0 ≡ true
    pub free_launched : (c : ℕ) (s : S) → v.launched (d.free_channel c s).1 ≡ v.launched s
    pub free_held :
        (c : ℕ) (s : S) → acc.held (d.free_channel c s).1 ≡ (λ x. not (c == x) && acc.held s x)
