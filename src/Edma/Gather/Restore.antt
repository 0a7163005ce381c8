-- ===== src/Edma/Gather/Restore.antt =====
-- `preload_psets` loads the PSETs of a channel, and `edma3_wait_gather_preloaded` makes up for what
-- a transfer has changed.
use memif_user_release.Base.{
  ℕ, zero, suc, ◌+◌, ◌*◌, ◌%◌, ◌^◌, ◌≤◌, ◌<◌, ◌≡◌, ◌≢◌, ◌∙◌, refl, sym, ap, subst, true, false,
  none, some, ◌==◌, update, update_self, ℕ_discrete, dec_lt, arith,
}
use memif_user_release.Region.Run.{ok, ◌>>=◌, Yields, yields, then-Yields, Yields-mono}
use memif_user_release.Edma.{Pset, Drv, ChInfo}
use memif_user_release.Edma.Geometry.{Geometry, get_xfer_geometry}
use memif_user_release.Edma.Geometry.Bytes.{Moves, holding-Moves}
use memif_user_release.Edma.Geometry.Fits.{Fits}
use memif_user_release.Edma.Gather.{
  chain_opt, chid, Host, with_link, good_stride, is_loaded, start_gather_preloaded, Scatter,
  OptBits, default_pset, end_opt, preload_psets, restore, wait_gather_preloaded,
}
use memif_user_release.Edma.Gather.Documented.{
  View, Documented, IsChannel, bare, Like, link_of, IsPreloaded,
}
use memif_user_release.Edma.Gather.Launch.{Launched, start-Launched, chid-apart}
use memif_user_release.Edma.Gather.Chain.{offset_at}
use memif_user_release.Edma.Gather.Rounds.{sent_at, sent, next_src, next_offset, next_dest, times}
use memif_user_release.Edma.Gather.Reload.{
  set_param-Yields, preload_logic-Loaded, Kept, AllLike, restore-AllLike,
}

-- Only the last round touches more than addresses.
sent_at-bare :
    (h : Host) (chinfo : ChInfo) (src_stride voffset_stride dest left psrc pvoffset dest_off j : ℕ)
    (q : Pset)
    → suc j ≢ left
    → bare (sent_at h chinfo src_stride voffset_stride dest left psrc pvoffset dest_off j q)
      ≡ bare q
sent_at-bare h chinfo src_stride voffset_stride dest left psrc pvoffset dest_off j q other =
    let e : (left == suc j) ≡ false = ground arith in
    ap
      (λ last. bare (
        sent h chinfo src_stride voffset_stride dest last
          (times j (next_src h chinfo src_stride voffset_stride dest) psrc)
          (times j (next_offset h chinfo src_stride voffset_stride dest) pvoffset)
          (times j (next_dest h chinfo src_stride voffset_stride dest) dest_off) q))
      e

module _ {S : Type 0} {d : Drv S} {v : View S} (laws : Documented d v) (chinfo : ChInfo) where
  -- `preload_psets` on a channel without preloaded PSETs: where the size has a geometry, of less than
  -- 65536 arrays, it loads the PSET of every channel and keeps a copy. But for their addresses and
  -- links they are the same: the counts and indices are those of the size, and the option word is
  -- that of the code.
  pub preload_psets-IsPreloaded :
      (b : OptBits) (fuel size : ℕ) (g : Geometry) (s : S)
      → IsChannel chinfo
      → chinfo.pset ≡ none
      → ((t : S) → get_xfer_geometry fuel size t ≡ ok g t)
      → Fits size g
      → g.bcnt < 2 ^ 16
      → Yields
          (λ c s'.
            (p : Pset) × IsPreloaded c p (v.psets s')
            × Moves p size
            × (p.opt ≡ chain_opt b chinfo.tcc g.sync)
            × (c.size ≡ size))
          (preload_psets d b fuel chinfo size s)
  unfolding preload_psets
  preload_psets-IsPreloaded b fuel size g s ch empty fits split few =
      let p : Pset = default_pset b chinfo.tcc g in
      let unknown : is_loaded chinfo.pset ≡ false = ap is_loaded empty in
      let same : (chinfo.tcc == chinfo.ch) ≡ true = ground (arith, ch.code) in
      rw (unknown, laws.malloc_done s, fits (d.malloc s).1, same)
        (then-Yields (set_param-Yields laws chinfo p chinfo.ch (with_link chinfo.link p) _)
          λ _ s1 p1.
            then-Yields
              (preload_logic-Loaded laws chinfo p chinfo.logic_cnt 0 s1 ch (omega arith)
                (first p s1 _ p1))
              λ _ s2 loaded. yields (
                p,
                (refl, omega arith, all p s2 loaded),
                holding-Moves g size split few,
                refl,
                refl,
              ))
    where
      first :
          (p : Pset) (s1 : S) (m : ℕ → Pset)
          → v.psets s1 ≡ update ℕ_discrete m chinfo.ch (with_link chinfo.link p)
          → (j : ℕ) → j ≤ 0
          → v.psets s1 (chid chinfo j) ≡ with_link (link_of chinfo j) p
      first p s1 m e zero lt = rw e (update_self ℕ_discrete m chinfo.ch (with_link chinfo.link p))
      first p s1 m e (suc j) lt = absurd (omega arith)

      all :
          (p : Pset) (s2 : S)
          → ((j : ℕ)
              → j ≤ chinfo.logic_cnt
              → v.psets s2 (chid chinfo j) ≡ with_link (link_of chinfo j) p)
          → (i : ℕ) → i ≤ chinfo.logic_cnt
          → Like
              (v.psets s2 (
                chid
                  (record chinfo {
                    pset = some p;
                    size = size;
                    last_brcnt_link = g.brcnt * 2 ^ 16 % 2 ^ 32 + 0xffff;
                    last_opt = end_opt b p.opt;
                  })
                  i))
              (with_link
                (link_of
                  (record chinfo {
                    pset = some p;
                    size = size;
                    last_brcnt_link = g.brcnt * 2 ^ 16 % 2 ^ 32 + 0xffff;
                    last_opt = end_opt b p.opt;
                  })
                  i)
                p)
      all p s2 loaded zero lt = ap bare (loaded 0 lt)
      all p s2 loaded (suc j) lt = ap bare (loaded (suc j) lt)

  -- From preloaded PSETs, `edma3_start_gather_preloaded` and then `edma3_wait_gather_preloaded`
  -- leave preloaded PSETs: what the transfer has changed, and the end of the chain, are restored,
  -- so that the next transfer of any number of buffers can start.
  pub gather-wait-IsPreloaded :
      (h : Host) (srcs src_stride voffsets voffset_stride dest cnt : ℕ) (p : Pset) (s : S)
      → 0 < h.modulus
      → IsChannel chinfo
      → IsPreloaded chinfo p (v.psets s)
      → cnt ≤ chinfo.logic_cnt + 1
      → good_stride h.pointer src_stride ≡ true
      → good_stride h.pointer voffset_stride ≡ true
      → ((j : ℕ)
          → j < cnt
          → 0 < h.load (offset_at h chinfo srcs src_stride voffsets voffset_stride dest cnt j))
      → Yields
          (λ _ s'. IsPreloaded chinfo p (v.psets s'))
          ((do
            x ← start_gather_preloaded d h chinfo srcs src_stride voffsets voffset_stride cnt dest
            wait_gather_preloaded d chinfo x)
            s)
  unfolding wait_gather_preloaded
  gather-wait-IsPreloaded h srcs src_stride voffsets voffset_stride dest cnt p s pos ch ready enough
        stride1 stride2 mapped =
      then-Yields
        (start-Launched h chinfo srcs src_stride voffsets voffset_stride dest cnt laws p s ch
          ready.0 enough stride1 stride2 mapped)
        λ x s1 l.
          rw (laws.wait_done chinfo.tcc s1, l.cnt_eq)
            (Yields-mono
              (subst
                (λ o.
                  Yields (λ _ s'. AllLike laws chinfo p (v.psets s'))
                    (restore d chinfo o cnt (d.wait_and_clear_tcc chinfo.tcc s1).1))
                (sym ready.0)
                (restore-AllLike laws chinfo p cnt (d.wait_and_clear_tcc chinfo.tcc s1).1 ch enough
                  (kept x s1 l)))
              λ _ s2 like. (ready.0, ready.1, like))
    where
      kept :
          (x : Scatter) (s1 : S)
          → Launched h chinfo srcs src_stride voffsets voffset_stride dest cnt v s x s1
          → Kept laws chinfo p cnt (v.psets (d.wait_and_clear_tcc chinfo.tcc s1).1)
      kept x s1 l j lt other =
          let elsewhere : chinfo.ch ≢ chinfo.logic_chs j = λ e. ch.physical j lt (sym e) in
          ap bare (
            laws.wait_psets chinfo.tcc (chinfo.logic_chs j) s1 (λ e. elsewhere (sym ch.code ∙ e))
            ∙ l.after_start (chinfo.logic_chs j) elsewhere)
          ∙ elim (dec_lt (suc j) cnt) [
            | yes used ↦
                ap bare (l.chain (suc j) used)
                ∙ sent_at-bare h chinfo src_stride voffset_stride dest cnt srcs voffsets 0 (suc j)
                    (v.psets s (chinfo.logic_chs j)) other
            | no unused ↦ ap bare (
                l.others (chinfo.logic_chs j) (λ i below e.
                  chid-apart chinfo ch i (suc j) (omega (arith, unused)) (omega arith) e))
          ]
          ∙ ready.2 (suc j) (omega arith)
