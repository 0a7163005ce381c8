-- ===== src/Edma/Gather/Rounds.antt =====
-- The loop of `edma3_start_gather_preloaded`: what each PSET holds when the transfer starts.
use memif_user_release.Base.{
  ℕ, zero, suc, ◌+◌, ◌-◌, ◌%◌, ◌<◌, ◌≡◌, ◌≢◌, ◌∙◌, refl, sym, ap, Bool, true, false, if◌then◌else◌,
  lt→ltb, ◌==◌, update, update_self, update_other, ℕ_discrete, arith,
}
use memif_user_release.Region.Run.{Code, ◌>>◌, Yields, yields, then-Yields, Yields-mono}
use memif_user_release.Edma.{
  Pset, Entry, entry_src, entry_dst, entry_link_bcntrld, entry_opt, Drv, checked, ChInfo,
}
use memif_user_release.Edma.Gather.{chid, Host, finish_chain, gather_rounds}
use memif_user_release.Edma.Gather.Documented.{with_entry, View, Documented}

abbrev pub times : {A : Type 0} → ℕ → (A → A) → A → A
times zero f x = x
times (suc k) f x = times k f (f x)

-- The end of a chain: the null link, and the interrupt.
abbrev pub ended : ChInfo → Bool → Pset → Pset
ended chinfo false p = p
ended chinfo true p =
    with_entry entry_opt chinfo.last_opt (with_entry entry_link_bcntrld chinfo.last_brcnt_link p)

module _ {S : Type 0} {d : Drv S} {v : View S} (laws : Documented d v) where
  -- An entry is written, and no transfer starts.
  pub entry-Yields :
      (c : ℕ) (e : Entry) (x : ℕ) (s : S)
      → Yields
          (λ _ s'.
            (v.psets s' ≡ update ℕ_discrete (v.psets s) c (with_entry e x (v.psets s c)))
            × (v.launched s' ≡ v.launched s))
          (checked (d.set_param_entry c e x) s)
  entry-Yields c e x s =
      rw (laws.entry_done c e x s) (yields (laws.entry_psets c e x s, laws.entry_launched c e x s))

  finish-Yields :
      (h : Host) (chinfo : ChInfo) (c : ℕ) (last : Bool) (s : S)
      → Yields
          (λ _ s'.
            ((a : ℕ)
              → v.psets s' a ≡ update ℕ_discrete (v.psets s) c (ended chinfo last (v.psets s c)) a)
            × (v.launched s' ≡ v.launched s))
          (finish_chain d h chinfo c last s)
  finish-Yields h chinfo c false s = yields (λ a. ground arith, refl)
  finish-Yields h chinfo c true s =
      then-Yields (entry-Yields c entry_link_bcntrld chinfo.last_brcnt_link s) λ _ s1 (p1, l1).
        Yields-mono (entry-Yields c entry_opt chinfo.last_opt s1)
          λ _ s2 (p2, l2). (λ a. rw (p2, p1) (ground arith), l2 ∙ l1)

same_rounds : (a b : ℕ) → (suc a == suc b) ≡ (a == b)
same_rounds a b = ground arith

module _ (h : Host) (chinfo : ChInfo) (src_stride voffset_stride dest : ℕ) where
  -- The variables of the loop from one round to the next.
  abbrev pub next_src : ℕ → ℕ
  next_src p = (p + src_stride) % h.modulus

  abbrev pub next_offset : ℕ → ℕ
  next_offset p = if voffset_stride == 0 then p else (p + voffset_stride) % h.modulus

  abbrev pub next_dest : ℕ → ℕ
  next_dest x = (x + chinfo.size) % h.modulus

  -- What one round makes of the PSET of its channel.
  abbrev pub sent : Bool → (psrc pvoffset dest_off : ℕ) → Pset → Pset
  sent last psrc pvoffset dest_off p = ended chinfo last (record p {
    src_addr = (h.load psrc + h.modulus - h.load pvoffset) % h.modulus;
    dest_addr = (dest + dest_off) % h.modulus;
  })

  -- The PSET of the `j`-th round of those that are left.
  abbrev pub sent_at : (left psrc pvoffset dest_off j : ℕ) → Pset → Pset
  sent_at left psrc pvoffset dest_off j =
      sent (left == suc j) (times j next_src psrc) (times j next_offset pvoffset)
        (times j next_dest dest_off)

  module _ {S : Type 0} {d : Drv S} {v : View S} (laws : Documented d v) where
    -- One round without its assertion, and what comes next.
    abbrev round : ℕ → Bool → (psrc pvoffset dest_off : ℕ) → Code S ℕ → Code S ℕ
    round c last psrc pvoffset dest_off rest = do
      checked
          (d.set_param_entry c entry_src ((h.load psrc + h.modulus - h.load pvoffset) % h.modulus))
      checked (d.set_param_entry c entry_dst ((dest + dest_off) % h.modulus))
      finish_chain d h chinfo c last
      rest

    round-Yields :
        {Q : ℕ → S → Type 0} (c : ℕ) (last : Bool) (psrc pvoffset dest_off : ℕ) (rest : Code S ℕ)
        (s : S)
        → ((s' : S)
            → ((a : ℕ)
                → v.psets s' a
                  ≡ update ℕ_discrete
                      (v.psets s)
                      c
                      (sent last psrc pvoffset dest_off (v.psets s c))
                      a)
            → v.launched s' ≡ v.launched s
            → Yields Q (rest s'))
        → Yields Q (round c last psrc pvoffset dest_off rest s)
    round-Yields c last psrc pvoffset dest_off rest s next =
        then-Yields (entry-Yields laws c entry_src _ s) λ _ s1 (p1, l1).
          then-Yields (entry-Yields laws c entry_dst _ s1) λ _ s2 (p2, l2).
            then-Yields (finish-Yields laws h chinfo c last s2)
              λ _ s3 (p3, l3). next s3 (λ a. rw (p3 a, p2, p1) (ground arith)) (l3 ∙ l2 ∙ l1)

    -- Channels of other rounds keep their PSETs; those of these rounds get what is sent.
    pub record Sent (left i psrc pvoffset dest_off : ℕ) (s : S) (out : ℕ) (s' : S) : Type 0 where
      pub total : out ≡ times left next_dest dest_off
      pub launched : v.launched s' ≡ v.launched s
      pub others :
          (a : ℕ) → ((j : ℕ) → j < left → chid chinfo (i + j) ≢ a) → v.psets s' a ≡ v.psets s a
      pub chain :
          (j : ℕ)
          → j < left
          → v.psets s' (chid chinfo (i + j))
            ≡ sent_at left psrc pvoffset dest_off j (v.psets s (chid chinfo (i + j)))

    along : (i j : ℕ) → chid chinfo (suc i + j) ≡ chid chinfo (i + suc j)
    along i j = ap (chid chinfo) (omega arith)

    here : (i : ℕ) → chid chinfo (i + 0) ≡ chid chinfo i
    here i = ap (chid chinfo) (omega arith)

    Sent-cons :
        (left i psrc pvoffset dest_off : ℕ) (s s1 : S) (out : ℕ) (s' : S)
        → ((j k : ℕ) → j < k → k < suc left → chid chinfo (i + j) ≢ chid chinfo (i + k))
        → ((a : ℕ)
            → v.psets s1 a
              ≡ update ℕ_discrete
                  (v.psets s)
                  (chid chinfo i)
                  (sent (left == 0) psrc pvoffset dest_off (v.psets s (chid chinfo i)))
                  a)
        → v.launched s1 ≡ v.launched s
        → Sent left (suc i) (next_src psrc) (next_offset pvoffset) (next_dest dest_off) s1 out s'
        → Sent (suc left) i psrc pvoffset dest_off s out s'
    Sent-cons left i psrc pvoffset dest_off s s1 out s' apart p1 l1 rest = record {
      total = rest.total;
      launched = rest.launched ∙ l1;
      others = λ a other.
          rest.others a (λ j lt e. other (suc j) (omega arith) (sym (along i j) ∙ e))
          ∙ p1 a
          ∙ update_other ℕ_discrete (v.psets s) (chid chinfo i) a _
              (λ e. other 0 (omega arith) (here i ∙ e));
      chain = chain;
    }
      where
        chain :
            (j : ℕ)
            → j < suc left
            → v.psets s' (chid chinfo (i + j))
              ≡ sent_at (suc left) psrc pvoffset dest_off j (v.psets s (chid chinfo (i + j)))
        chain zero lt =
            rw (here i, same_rounds left 0)
              (rest.others (chid chinfo i) (λ j lt e.
                  apart 0 (suc j) (omega arith) (omega arith) (here i ∙ sym e ∙ along i j))
                ∙ p1 (chid chinfo i)
                ∙ update_self ℕ_discrete (v.psets s) (chid chinfo i) _)
        chain (suc j) lt =
            rw (← along i j, same_rounds left (suc j))
              (rest.chain j (omega arith)
                ∙ ap (sent_at left (next_src psrc) (next_offset pvoffset) (next_dest dest_off) j) (
                    p1 (chid chinfo (suc i + j))
                    ∙ update_other ℕ_discrete (v.psets s) (chid chinfo i) (chid chinfo (suc i + j))
                        _
                        (λ e.
                          apart 0 (suc j) (omega arith) (omega arith) (here i ∙ e ∙ along i j))))

    pub gather_rounds-Sent :
        (left i psrc pvoffset dest_off : ℕ) (s : S)
        → ((j k : ℕ) → j < k → k < left → chid chinfo (i + j) ≢ chid chinfo (i + k))
        → ((j : ℕ) → j < left → 0 < h.load (times j next_offset pvoffset))
        → Yields (Sent left i psrc pvoffset dest_off s) (
            gather_rounds d h chinfo src_stride voffset_stride dest left i psrc pvoffset dest_off s)
    unfolding gather_rounds
    gather_rounds-Sent zero i psrc pvoffset dest_off s apart mapped = yields (record {
      total = refl;
      launched = refl;
      others = λ a h. refl;
      chain = λ j lt. absurd (omega arith);
    })
    gather_rounds-Sent (suc left) i psrc pvoffset dest_off s apart mapped =
        rw (lt→ltb 0 _ (mapped 0 (omega arith))) (
          round-Yields (chid chinfo i) (left == 0) psrc pvoffset dest_off _ s λ s1 p1 l1.
            Yields-mono
              (gather_rounds-Sent left (suc i) (next_src psrc) (next_offset pvoffset)
                (next_dest dest_off) s1
                (λ j k lt inside e.
                  apart (suc j) (suc k) (omega arith) (omega arith)
                    (sym (along i j) ∙ e ∙ along i k))
                (λ j lt. mapped (suc j) (omega arith)))
              λ out s' sent'. Sent-cons left i psrc pvoffset dest_off s s1 out s' apart p1 l1 sent')
