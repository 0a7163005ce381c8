-- ===== src/Edma/Gather/Launch.antt =====
-- `edma3_start_gather_preloaded`: the PSETs with which the transfer starts.
use memif_user_release.Base.{
  ℕ, zero, suc, ◌+◌, ◌%◌, ◌^◌, ◌≤◌, ◌<◌, ◌≡◌, ◌≢◌, ◌∙◌, refl, sym, ap, subst, true, some, leb,
  arith, ◌∷◌,
}
use memif_user_release.Region.Run.{Yields, yields, then-Yields}
use memif_user_release.Edma.{Pset, Drv, ChInfo}
use memif_user_release.Edma.Gather.{
  chid, Host, good_stride, is_loaded, start_gather_preloaded, Scatter,
}
use memif_user_release.Edma.Gather.Documented.{View, Documented, IsChannel}
use memif_user_release.Edma.Gather.Rounds.{
  times, next_offset, next_dest, sent_at, gather_rounds-Sent,
}

pub chid-apart :
    (c : ChInfo) → IsChannel c → (j k : ℕ) → j < k → k < c.logic_cnt + 1 → chid c j ≢ chid c k
chid-apart c ch zero (suc k) lt inside e = ch.physical k (omega arith) (sym e)
chid-apart c ch (suc j) (suc k) lt inside e =
    ch.logical j k (omega arith) (omega arith) (omega arith) e
chid-apart c ch j zero lt inside e = absurd (omega arith)

from_zero : (c : ChInfo) (j : ℕ) → chid c (0 + j) ≡ chid c j
from_zero c j = ap (chid c) (omega arith)

module _ (h : Host) (chinfo : ChInfo) (srcs src_stride voffsets voffset_stride dest cnt : ℕ) where
  -- The channel starts with the PSETs `m`: those of the rounds as sent, the others as they were.
  -- The transfer overwrites no other channel's.
  pub record Launched {S : Type 0} (v : View S) (s : S) (x : Scatter) (s' : S) : Type 0 where
    pub cnt_eq : x.cnt ≡ cnt
    pub total :
        x.totalsize ≡ times cnt (next_dest h chinfo src_stride voffset_stride dest) 0 % 2 ^ 32
    pub m : ℕ → Pset
    pub launched : v.launched s' ≡ (chinfo.ch, m) ∷ v.launched s
    pub chain :
        (j : ℕ)
        → j < cnt
        → m (chid chinfo j)
          ≡ sent_at h chinfo src_stride voffset_stride dest cnt srcs voffsets 0 j
              (v.psets s (chid chinfo j))
    pub others : (a : ℕ) → ((j : ℕ) → j < cnt → chid chinfo j ≢ a) → m a ≡ v.psets s a
    pub after_start : (a : ℕ) → chinfo.ch ≢ a → v.psets s' a ≡ m a

  module _ {S : Type 0} {d : Drv S} {v : View S} (laws : Documented d v) where
    pub start-Launched :
        (p : Pset) (s : S)
        → IsChannel chinfo
        → chinfo.pset ≡ some p
        → cnt ≤ chinfo.logic_cnt + 1
        → good_stride h.pointer src_stride ≡ true
        → good_stride h.pointer voffset_stride ≡ true
        → ((j : ℕ)
            → j < cnt
            → 0 < h.load (times j (next_offset h chinfo src_stride voffset_stride dest) voffsets))
        → Yields
            (Launched v s)
            (start_gather_preloaded d h chinfo srcs src_stride voffsets voffset_stride cnt dest s)
    unfolding start_gather_preloaded
    start-Launched p s ch loaded enough stride1 stride2 mapped =
        let fits : leb cnt (chinfo.logic_cnt + 1) ≡ true = ground arith in
        let known : is_loaded chinfo.pset ≡ true = ap is_loaded loaded in
        rw (known, stride1, stride2, laws.malloc_done s, fits)
          (then-Yields
            (gather_rounds-Sent h chinfo src_stride voffset_stride dest laws cnt 0 srcs voffsets 0 _
              (λ j k lt inside. chid-apart chinfo ch (0 + j) (0 + k) (omega arith) (omega arith))
              mapped)
            λ out s1 sent. rw (laws.enable_done chinfo.ch s1) (
              yields (record {
                cnt_eq = refl;
                total = ap (λ y. y % 2 ^ 32) sent.total;
                m = v.psets s1;
                launched =
                    laws.enable_launched chinfo.ch s1
                    ∙ ap (λ l. (chinfo.ch, v.psets s1) ∷ l)
                        (sent.launched ∙ laws.malloc_launched s);
                chain = λ j lt.
                    subst
                      (λ c.
                        v.psets s1 c
                        ≡ sent_at h chinfo src_stride voffset_stride dest cnt srcs voffsets 0 j
                            (v.psets s c))
                      (from_zero chinfo j)
                      (sent.chain j lt
                        ∙ ap
                            (λ f.
                              sent_at h chinfo src_stride voffset_stride dest cnt srcs voffsets 0 j
                                (f (chid chinfo (0 + j))))
                            (laws.malloc_psets s));
                others = λ a other.
                    sent.others a (λ j lt e. other j lt (sym (from_zero chinfo j) ∙ e))
                    ∙ ap (λ f. f a) (laws.malloc_psets s);
                after_start = λ a ne. laws.enable_psets chinfo.ch a s1 ne;
              })))
