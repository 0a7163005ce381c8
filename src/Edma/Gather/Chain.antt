-- ===== src/Edma/Gather/Chain.antt =====
-- The PSETs with which a transfer starts are a chain.
use memif_user_release.Base.{
  ℕ, zero, suc, ◌+◌, ◌-◌, ◌*◌, ◌%◌, ◌^◌, ◌≤◌, ◌<◌, ◌≡◌, ◌≢◌, ◌∙◌, refl, sym, ap, subst, Bool, true,
  false, ◌==◌, arith, ◌∷◌,
}
use native.Mathlib.Nat.{mod-mod, mod-add-mod, add-mod-mod, mod-eq_of_lt}
use memif_user_release.Region.Run.{Yields, Yields-mono}
use memif_user_release.Edma.{Pset, Drv, ChInfo}
use memif_user_release.Edma.Gather.{
  chid, Host, with_link, good_stride, start_gather_preloaded, Scatter,
}
use memif_user_release.Edma.Gather.Documented.{
  View, Documented, IsChannel, Like, link_of, IsPreloaded,
}
use memif_user_release.Edma.Gather.Rounds.{times, next_src, next_offset, sent}
use memif_user_release.Edma.Gather.Launch.{start-Launched}

-- One PSET of a chain of `cnt` that starts: it moves buffer `j` to the place behind those before
-- it, with the preloaded counts; each but the last links to the next, and the last ends the chain.
pub record IsChained (h : Host) (chinfo : ChInfo) (p : Pset) (src dest cnt j : ℕ) (q : Pset)
    : Type 0 where
  pub from : q.src_addr ≡ src
  pub to : q.dest_addr ≡ (dest + j * chinfo.size) % h.modulus
  pub counts : (q.a_cnt ≡ p.a_cnt) × (q.b_cnt ≡ p.b_cnt) × (q.c_cnt ≡ p.c_cnt)
  pub steps :
      (q.src_b_idx ≡ p.src_b_idx)
      × (q.dest_b_idx ≡ p.dest_b_idx)
      × (q.src_c_idx ≡ p.src_c_idx)
      × (q.dest_c_idx ≡ p.dest_c_idx)
  pub linked : suc j < cnt → (q.link_addr ≡ link_of chinfo j) × (q.opt ≡ p.opt)
  pub ended : suc j ≡ cnt → (q.link_addr ≡ 0xffff) × (q.opt ≡ chinfo.last_opt)

times-dest :
    (m size : ℕ) (j x : ℕ) → x % m ≡ x → times j (λ y. (y + size) % m) x ≡ (x + j * size) % m
times-dest m size zero x e = sym e ∙ ap (λ y. y % m) (omega arith)
times-dest m size (suc j) x e =
    times-dest m size j ((x + size) % m) (mod-mod (x + size) m)
    ∙ mod-add-mod (x + size) m (j * size)
    ∙ ap (λ y. y % m) (grind arith)

module _ (h : Host) (chinfo : ChInfo) (src_stride voffset_stride dest cnt j : ℕ) (p q : Pset) where
  -- The same for the place and the source that the loop has come to.
  sent-IsChained :
      (last : Bool) (psrc pvoffset dest_off : ℕ)
      → (cnt == suc j) ≡ last
      → chinfo.last_brcnt_link % 2 ^ 16 ≡ 0xffff
      → Like q (with_link (link_of chinfo j) p)
      → (dest + dest_off) % h.modulus ≡ (dest + j * chinfo.size) % h.modulus
      → IsChained h chinfo p
          ((h.load psrc + h.modulus - h.load pvoffset) % h.modulus)
          dest
          cnt
          j
          (sent h chinfo src_stride voffset_stride dest last psrc pvoffset dest_off q)
  sent-IsChained false psrc pvoffset dest_off e null like place = record {
    from = refl;
    to = place;
    counts = (ap (λ r. r.a_cnt) like, ap (λ r. r.b_cnt) like, ap (λ r. r.c_cnt) like);
    steps = (
      ap (λ r. r.src_b_idx) like,
      ap (λ r. r.dest_b_idx) like,
      ap (λ r. r.src_c_idx) like,
      ap (λ r. r.dest_c_idx) like,
    );
    linked = λ lt. (ap (λ r. r.link_addr) like, ap (λ r. r.opt) like);
    ended = λ at. absurd (ground arith);
  }
  sent-IsChained true psrc pvoffset dest_off e null like place = record {
    from = refl;
    to = place;
    counts = (ap (λ r. r.a_cnt) like, ap (λ r. r.b_cnt) like, ap (λ r. r.c_cnt) like);
    steps = (
      ap (λ r. r.src_b_idx) like,
      ap (λ r. r.dest_b_idx) like,
      ap (λ r. r.src_c_idx) like,
      ap (λ r. r.dest_c_idx) like,
    );
    linked = λ lt. absurd (ground arith);
    ended = λ at. (null, refl);
  }

module _ (h : Host) (chinfo : ChInfo) (srcs src_stride voffsets voffset_stride dest cnt : ℕ) where
  abbrev pub offset_at : ℕ → ℕ
  offset_at j = times j (next_offset h chinfo src_stride voffset_stride dest) voffsets

  -- The bus address of buffer `j`.
  abbrev pub source_at : ℕ → ℕ
  source_at j =
      (h.load (times j (next_src h chinfo src_stride voffset_stride dest) srcs)
        + h.modulus
        - h.load (offset_at j))
      % h.modulus

  -- The transfer that has been started.
  pub record IsStarted {S : Type 0} (v : View S) (p : Pset) (s : S) (x : Scatter) (s' : S)
      : Type 0 where
    pub total : x.totalsize ≡ cnt * chinfo.size % h.modulus % 2 ^ 32
    pub m : ℕ → Pset
    pub launched : v.launched s' ≡ (chinfo.ch, m) ∷ v.launched s
    pub chain :
        (j : ℕ) → j < cnt → IsChained h chinfo p (source_at j) dest cnt j (m (chid chinfo j))
    pub others : (a : ℕ) → ((j : ℕ) → j < cnt → chid chinfo j ≢ a) → m a ≡ v.psets s a

  module _ {S : Type 0} {d : Drv S} {v : View S} (laws : Documented d v) where
    -- `edma3_start_gather_preloaded` on a channel whose PSETs are preloaded, with as many of them
    -- as there are buffers, strides that are zero or hold a pointer, and offsets that are not zero:
    -- it starts the channel once, with one PSET for each buffer, in order, each with the bus
    -- address of its buffer, the place behind the buffers before it and the preloaded counts; each
    -- links to the next, and the last to none, with its own option word. Other PSETs are as they
    -- were, and the size is that of all buffers.
    pub start_gather-IsStarted :
        (p : Pset) (s : S)
        → 0 < h.modulus
        → IsChannel chinfo
        → IsPreloaded chinfo p (v.psets s)
        → cnt ≤ chinfo.logic_cnt + 1
        → good_stride h.pointer src_stride ≡ true
        → good_stride h.pointer voffset_stride ≡ true
        → ((j : ℕ) → j < cnt → 0 < h.load (offset_at j))
        → Yields
            (IsStarted v p s)
            (start_gather_preloaded d h chinfo srcs src_stride voffsets voffset_stride cnt dest s)
    start_gather-IsStarted p s pos ch ready enough stride1 stride2 mapped =
        Yields-mono
          (start-Launched h chinfo srcs src_stride voffsets voffset_stride dest cnt laws p s ch
            ready.0 enough stride1 stride2 mapped)
          λ x s' l. record {
            total =
                l.total
                ∙ ap (λ y. y % 2 ^ 32)
                    (times-dest h.modulus chinfo.size cnt 0 (mod-eq_of_lt pos)
                      ∙ ap (λ y. y % h.modulus) (omega arith));
            m = l.m;
            launched = l.launched;
            chain = λ j lt.
                subst (IsChained h chinfo p (source_at j) dest cnt j) (sym (l.chain j lt)) (
                  sent-IsChained h chinfo src_stride voffset_stride dest cnt j p
                    (v.psets s (chid chinfo j)) (cnt == suc j) _ _ _ refl ready.1
                    (ready.2 j (omega arith))
                    (ap (λ y. (dest + y) % h.modulus)
                        (times-dest h.modulus chinfo.size j 0 (mod-eq_of_lt pos))
                      ∙ add-mod-mod dest (0 + j * chinfo.size) h.modulus
                      ∙ ap (λ y. y % h.modulus) (omega arith)));
            others = l.others;
          }
