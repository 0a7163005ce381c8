-- ===== src/Edma/Sized/Chain.antt =====
-- `edma3_start_gather`: the chain of PSETs with which the transfer starts.
use memif_user_release.Base.{ℕ, suc, ◌%◌, ◌^◌, ◌<◌, ◌≡◌, ◌∷◌}
use memif_user_release.Edma.{Pset, ChInfo}
use memif_user_release.Edma.Gather.{chid, Host, Scatter}
use memif_user_release.Edma.Gather.Documented.{View, Documented, link_of}
use memif_user_release.Edma.Gather.Rounds.{times}
use memif_user_release.Edma.Sized.Rounds.{Buffer, next_offset, next_size, offset}

module _ (h : Host) (chinfo : ChInfo)
    (srcs src_stride voffsets voffset_stride sizes size_stride dest cnt : ℕ) where
  -- The pointers to the offset and to the size of buffer `j`.
  abbrev pub offset_at : ℕ → ℕ
  offset_at j =
      times j (next_offset h chinfo src_stride voffset_stride size_stride dest cnt) voffsets

  abbrev pub size_at : ℕ → ℕ
  size_at j = times j (next_size h chinfo src_stride voffset_stride size_stride dest cnt) sizes

  abbrev pub bytes_before : ℕ → ℕ
  bytes_before j = offset h chinfo src_stride voffset_stride size_stride dest cnt j sizes 0

  -- The transfer that has been started, with the PSETs `m`.
  pub record IsGathering {S : Type 0} (v : View S) (s : S) (x : Scatter) (s' : S) : Type 0 where
    pub total : x.totalsize ≡ bytes_before cnt % 2 ^ 32
    pub m : ℕ → Pset
    pub launched : v.launched s' ≡ (chinfo.ch, m) ∷ v.launched s
    pub buffers :
        (j : ℕ)
        → j < cnt
        → Buffer h chinfo src_stride voffset_stride size_stride dest cnt j srcs voffsets sizes 0 j
            (m (chid chinfo j))
    pub inner : (j : ℕ) → suc j < cnt → (m (chid chinfo j)).link_addr ≡ link_of chinfo j
    pub last : (j : ℕ) → suc (suc j) ≡ cnt → (m (chid chinfo (suc j))).link_addr ≡ 0xffff
    pub alone : cnt ≡ 1 → (m chinfo.ch).link_addr ≡ chinfo.link
