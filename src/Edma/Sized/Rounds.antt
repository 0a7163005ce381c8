-- ===== src/Edma/Sized/Rounds.antt =====
-- The loop of `edma3_start_gather`: the PSET of each round.
use memif_user_release.Base.{
  ℕ, zero, suc, ◌+◌, ◌-◌, ◌%◌, ◌^◌, ◌<◌, ◌≡◌, ◌≢◌, ◌⊎◌, inl, inr, ◌∙◌, refl, sym, ap, subst, true,
  not, if◌then◌else◌, ltb, leb, lt→ltb, ◌==◌, eq_of_==, Bool-cases, update, update_self,
  update_other, ℕ_discrete, arith,
}
use memif_user_release.Region.Run.{
  ok, pure, ◌>>=◌, ◌>>◌, assert, Yields, yields, then-Yields, Yields-mono,
}
use memif_user_release.Edma.{Pset, Drv, ChInfo}
use memif_user_release.Edma.Geometry.{Geometry, get_xfer_geometry}
use memif_user_release.Edma.Geometry.Fits.{Fits}
use memif_user_release.Edma.Geometry.Bytes.{Moves, holding-Moves}
use memif_user_release.Edma.Gather.{OptBits, chid, Host}
use memif_user_release.Edma.Gather.Documented.{View, Documented}
use memif_user_release.Edma.Gather.Rounds.{times}
use memif_user_release.Edma.Sized.{load_geometry, sized, gather_link, gather_opt, sized_rounds}

-- The size has a geometry, of less than 65536 arrays.
abbrev pub HasGeometry : Type 0 → (fuel size : ℕ) → Type 0
HasGeometry S fuel size =
    (g : Geometry) × ((t : S) → get_xfer_geometry fuel size t ≡ ok g t)
    × Fits size g
    × (g.bcnt < 2 ^ 16)

module _ {S : Type 0} (b : OptBits) (fuel : ℕ) where
  load_geometry-Moves :
      (g : Geometry) (size : ℕ) (p : Pset) (s : S)
      → Fits size g
      → g.bcnt < 2 ^ 16
      → Yields (λ q t. (t ≡ s) × Moves q size) (load_geometry b g p s)
  unfolding load_geometry
  load_geometry-Moves g size p s f few =
      let reach : (if ltb 1 g.bcnt then leb g.bidx 32767 else true) ≡ true =
        ground (arith, f.reach, f.index) in
      let frames : (if ltb 1 g.ccnt then leb g.cidx 32767 else true) ≡ true =
        ground (arith, f.frames) in
      rw (reach, frames) (yields (refl, holding-Moves g size f few))

  sized-Moves :
      (i size prev_size : ℕ) (p : Pset) (s : S)
      → (size ≢ prev_size) ⊎ ((i ≢ 0) × Moves p prev_size)
      → HasGeometry S fuel size
      → Yields (λ q t. (t ≡ s) × Moves q size) (sized b fuel i size prev_size p s)
  unfolding sized
  sized-Moves i size prev_size p s old (g, run, f, few) = elim (Bool-cases (size == prev_size)) [
    | inr new ↦ rw (new, run s) (load_geometry-Moves g size p s f few)
    | inl same ↦ let e : size ≡ prev_size = eq_of_== size prev_size same in again same e old
  ]
    where
      again :
          (size == prev_size) ≡ true
          → size ≡ prev_size
          → (size ≢ prev_size) ⊎ ((i ≢ 0) × Moves p prev_size)
          → Yields
              (λ q t. (t ≡ s) × Moves q size)
              ((if not (size == prev_size)
                  then get_xfer_geometry fuel size >>= (λ g. load_geometry b g p)
                  else (assert (not (i == 0)) >> pure p))
                s)
      again same e (inl other) = absurd (other e)
      again same e (inr (later, moves)) =
          let go : not (i == 0) ≡ true = ground (arith, later) in
          rw (same, go) (yields (refl, subst (Moves p) (sym e) moves))

-- What the PSET of round `i` says: which bytes go where, and what it links to.
pub record IsBuffer (h : Host) (chinfo : ChInfo) (dest cnt i psrc pvoffset psz dest_off : ℕ)
    (q : Pset) : Type 0 where
  pub from : q.src_addr ≡ (h.load psrc + h.modulus - h.load pvoffset) % h.modulus
  pub to : q.dest_addr ≡ (dest + dest_off) % h.modulus
  pub bytes : Moves q (h.load psz)
  pub link : q.link_addr ≡ gather_link chinfo cnt i

module _ (h : Host) (chinfo : ChInfo) (src_stride voffset_stride size_stride dest cnt : ℕ) where
  -- The pointers from one round to the next.
  abbrev pub next_src : ℕ → ℕ
  next_src p = (p + src_stride) % h.modulus

  abbrev pub next_offset : ℕ → ℕ
  next_offset p = (p + voffset_stride) % h.modulus

  abbrev pub next_size : ℕ → ℕ
  next_size p = (p + size_stride) % h.modulus

  -- The bytes of the buffers before round `j`.
  abbrev pub offset : (j psz dest_off : ℕ) → ℕ
  offset zero psz dest_off = dest_off
  offset (suc j) psz dest_off = offset j (next_size psz) ((dest_off + h.load psz) % h.modulus)

  abbrev pub Buffer : (i psrc pvoffset psz dest_off j : ℕ) → Pset → Type 0
  Buffer i psrc pvoffset psz dest_off j =
      IsBuffer h chinfo dest cnt i (times j next_src psrc) (times j next_offset pvoffset)
        (times j next_size psz) (offset j psz dest_off)

  module _ {S : Type 0} {d : Drv S} {v : View S} (laws : Documented d v) (b : OptBits) (fuel : ℕ)
      (code : chinfo.tcc ≡ chinfo.ch) where
    -- Channels of other rounds keep their PSETs; those of these rounds get their buffers.
    pub record Sent (left i psrc pvoffset psz dest_off : ℕ) (s : S) (out : ℕ) (s' : S)
        : Type 0 where
      pub total : out ≡ offset left psz dest_off
      pub launched : v.launched s' ≡ v.launched s
      pub others :
          (a : ℕ) → ((j : ℕ) → j < left → chid chinfo (i + j) ≢ a) → v.psets s' a ≡ v.psets s a
      pub chain :
          (j : ℕ)
          → j < left
          → Buffer (i + j) psrc pvoffset psz dest_off j (v.psets s' (chid chinfo (i + j)))

    along : (i j : ℕ) → suc i + j ≡ i + suc j
    along i j = omega arith

    Sent-cons :
        (left i psrc pvoffset psz dest_off : ℕ) (r : Pset) (s s1 : S) (out : ℕ) (s' : S)
        → ((j k : ℕ) → j < k → k < suc left → chid chinfo (i + j) ≢ chid chinfo (i + k))
        → v.psets s1 ≡ update ℕ_discrete (v.psets s) (chid chinfo i) r
        → v.launched s1 ≡ v.launched s
        → IsBuffer h chinfo dest cnt i psrc pvoffset psz dest_off r
        → Sent left
            (suc i)
            (next_src psrc)
            (next_offset pvoffset)
            (next_size psz)
            ((dest_off + h.load psz) % h.modulus)
            s1
            out
            s'
        → Sent (suc left) i psrc pvoffset psz dest_off s out s'
    Sent-cons left i psrc pvoffset psz dest_off r s s1 out s' apart p1 l1 buffer rest = record {
      total = rest.total;
      launched = rest.launched ∙ l1;
      others = λ a other.
          rest.others a
            (λ j lt e. other (suc j) (omega arith) (ap (chid chinfo) (sym (along i j)) ∙ e))
          ∙ ap (λ f. f a) p1
          ∙ update_other ℕ_discrete (v.psets s) (chid chinfo i) a r
              (λ e. other 0 (omega arith) (ap (chid chinfo) (omega arith) ∙ e));
      chain = chain;
    }
      where
        chain :
            (j : ℕ)
            → j < suc left
            → Buffer (i + j) psrc pvoffset psz dest_off j (v.psets s' (chid chinfo (i + j)))
        chain zero lt =
            let here : i ≡ i + 0 = omega arith in
            let at : v.psets s' (chid chinfo i) ≡ r =
              rest.others (chid chinfo i) (λ j lt e.
                apart 0 (suc j) (omega arith) (omega arith)
                  (ap (chid chinfo) (sym here) ∙ sym e ∙ ap (chid chinfo) (along i j)))
              ∙ ap (λ f. f (chid chinfo i)) p1
              ∙ update_self ℕ_discrete (v.psets s) (chid chinfo i) r in
            subst (λ k. Buffer k psrc pvoffset psz dest_off 0 (v.psets s' (chid chinfo k))) here
              (subst (IsBuffer h chinfo dest cnt i psrc pvoffset psz dest_off) (sym at) buffer)
        chain (suc j) lt =
            subst (λ k. Buffer k psrc pvoffset psz dest_off (suc j) (v.psets s' (chid chinfo k)))
              (along i j) (rest.chain j (omega arith))

    pub sized_rounds-Sent :
        (left i psrc pvoffset psz dest_off prev_size : ℕ) (p : Pset) (s : S)
        → ((j k : ℕ) → j < k → k < left → chid chinfo (i + j) ≢ chid chinfo (i + k))
        → ((j : ℕ) → j < left → 0 < h.load (times j next_offset pvoffset))
        → ((j : ℕ) → j < left → HasGeometry S fuel (h.load (times j next_size psz)))
        → (h.load psz ≢ prev_size) ⊎ ((i ≢ 0) × Moves p prev_size)
        → Yields (Sent left i psrc pvoffset psz dest_off s) (
            sized_rounds d h b fuel chinfo src_stride voffset_stride size_stride dest cnt left i
              psrc pvoffset psz dest_off prev_size p s)
    unfolding sized_rounds
    sized_rounds-Sent zero i psrc pvoffset psz dest_off prev_size p s apart mapped fits old =
        yields (record {
          total = refl;
          launched = refl;
          others = λ a h. refl;
          chain = λ j lt. absurd (omega arith);
        })
    sized_rounds-Sent (suc left) i psrc pvoffset psz dest_off prev_size p s apart mapped fits old =
        let same_code : (chinfo.tcc == chinfo.ch) ≡ true = ground (arith, code) in
        rw (lt→ltb 0 _ (mapped 0 (omega arith))) (
          then-Yields (sized-Moves b fuel i (h.load psz) prev_size p s old (fits 0 (omega arith)))
            λ q t (e, moves).
              let r : Pset = record q {
                src_addr = (h.load psrc + h.modulus - h.load pvoffset) % h.modulus;
                dest_addr = (dest + dest_off) % h.modulus;
                link_addr = gather_link chinfo cnt i;
                opt = gather_opt b chinfo.ch i (suc i == cnt) q.opt;
              } in
              rw (e, same_code, laws.param_done (chid chinfo i) r s)
                (Yields-mono
                  (sized_rounds-Sent left (suc i) (next_src psrc) (next_offset pvoffset)
                    (next_size psz) ((dest_off + h.load psz) % h.modulus) (h.load psz) r
                    (d.set_param (chid chinfo i) r s).1
                    (λ j k lt inside c.
                      apart (suc j) (suc k) (omega arith) (omega arith)
                        (ap (chid chinfo) (sym (along i j)) ∙ c ∙ ap (chid chinfo) (along i k)))
                    (λ j lt. mapped (suc j) (omega arith)) (λ j lt. fits (suc j) (omega arith))
                    (inr (λ z. omega (arith, z), moves)))
                  λ out s' sent.
                    Sent-cons left i psrc pvoffset psz dest_off r s
                      (d.set_param (chid chinfo i) r s).1 out s' apart
                      (laws.param_psets (chid chinfo i) r s)
                      (laws.param_launched (chid chinfo i) r s)
                      (record { from = refl; to = refl; bytes = moves; link = refl }) sent))
