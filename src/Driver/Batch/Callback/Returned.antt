-- ===== src/Driver/Batch/Callback/Returned.antt =====
-- The completed requests of the older flushing, in the order of submission.
use mathlib.Core.List.{append-nil, append_assoc}
use memif_user_release.Base.{
  ℕ, zero, suc, ◌≡◌, refl, ◌<◌, ◌≤◌, List, [], ◌∷◌, ◌++◌, map, sym, ◌∙◌, ap, subst, arith, length,
}
use memif_user_release.Desc.{DescPtr, Desc, set_flag}
use memif_user_release.Region.{req, issued, comp, Region, write_desc}
use memif_user_release.Region.Run.{
  again, loop, Yields, yields, then-Yields, Yields-mono, loop-Yields, again-Yields,
}
use memif_user_release.Region.View.{QueueView, View, Payload, payload, contents, IsWellFormed}
use memif_user_release.Region.Nodes.{write_held-IsWellFormed}
use memif_user_release.Queue.Copy.{Dequeued}
use memif_user_release.Queue.Enqueue.{mig_enqueue-Delivered}
use memif_user_release.Queue.Take.{mig_dequeue-some, mig_dequeue-none}
use memif_user_release.Driver.Batch.Copying.Lists.{request}
use memif_user_release.Driver.Batch.Callback.{desc_completed, complete_desc, complete_turn}

-- The payload with its flag set to MIG_DESC_COMPLETED.
abbrev pub completed : Payload → Payload
completed p = payload (set_flag desc_completed (request p))

payload-set_flag : (d : Desc) → payload (set_flag desc_completed d) ≡ completed (payload d)
unfolding set_flag
payload-set_flag d = refl

set_flag_refcnt : (d : Desc) → (set_flag desc_completed d).refcnt ≡ d.refcnt
unfolding set_flag
set_flag_refcnt d = refl

-- The elements `ps` went from the issued queue to the completion queue, marked.
pub record Returned (ps : List Payload) (v : View) (r : Region) (v' : View) (r' : Region)
    : Type 0 where
  pub well : IsWellFormed v' r'
  pub size : r'.ndescs ≡ r.ndescs
  pub spare : length v'.spare ≡ length v.spare
  pub from : contents (v.queue issued) ≡ ps ++ contents (v'.queue issued)
  pub to : contents (v'.queue comp) ≡ contents (v.queue comp) ++ map completed ps
  pub req : v'.queue req ≡ v.queue req

pub Returned-refl : {v : View} {r : Region} → IsWellFormed v r → Returned [] v r v r
Returned-refl {v} w = record {
  well = w;
  size = refl;
  spare = refl;
  from = refl;
  to = sym (append-nil (contents (v.queue comp)));
  req = refl;
}

pub Returned-trans :
    {p : Payload} {ps : List Payload} {v v' v'' : View} {r r' r'' : Region}
    → Returned (p ∷ []) v r v' r'
    → Returned ps v' r' v'' r''
    → Returned (p ∷ ps) v r v'' r''
Returned-trans {p} {ps} {v} f g = record {
  well = g.well;
  size = g.size ∙ f.size;
  spare = g.spare ∙ f.spare;
  from = f.from ∙ ap (λ l. p ∷ l) g.from;
  to =
      g.to
      ∙ ap (λ l. l ++ map completed ps) f.to
      ∙ append_assoc (contents (v.queue comp)) (completed p ∷ []) (map completed ps);
  req = g.req ∙ f.req;
}

-- One more, with the tail of the completion queue up to date.
abbrev pub OneReturned : View → Region → Payload → Region → Type 0
OneReturned v r p r' = (v' : View) × Returned (p ∷ []) v r v' r' × ((v'.queue comp).beyond ≡ [])

pub complete_desc-OneReturned :
    (fuel : ℕ) (link : DescPtr) {desc : ℕ} {v v' : View} {r r' : Region}
    → Dequeued issued desc v r v' r'
    → length (v.queue comp).beyond < fuel
    → Yields
        (λ _ r''. OneReturned v r (payload (r'.desc desc)) r'')
        (complete_desc fuel link desc r')
unfolding complete_desc
complete_desc-OneReturned fuel link {desc} {v} {v'} {r} {r'} d lag =
    let marked : Desc = set_flag desc_completed (r'.desc desc) in
    let unshared = d.well.unshared desc (omega (arith, d.inside, d.size)) in
    let w =
      write_held-IsWellFormed desc marked d.well d.taken
        (set_flag_refcnt (r'.desc desc) ∙ unshared) in
    let same : (write_desc desc marked r').desc desc ≡ marked = ground arith in
    Yields-mono
      (mig_enqueue-Delivered fuel link comp desc {v = v'} {r = write_desc desc marked r'} w d.taken
        (omega (arith, d.inside, d.size))
        (omega (arith, lag, ap (λ (x : QueueView). length x.beyond) (d.others comp (λ e. cc)))))
      λ c r'' (tint, v'', e, at, end). (
        v'',
        record {
          well = e.well;
          size = e.size ∙ d.size;
          spare = ap length e.spare ∙ d.spare;
          from =
              d.contents
              ∙ ap (λ y. payload (r'.desc desc) ∷ contents y) (sym (e.others issued (λ x. cc)));
          to =
              e.contents
              ∙ ap (λ y. contents y ++ payload ((write_desc desc marked r').desc desc) ∷ [])
                  (d.others comp (λ e. cc))
              ∙ ap (λ y. contents (v.queue comp) ++ y ∷ [])
                  (ap payload same ∙ payload-set_flag (r'.desc desc));
          req = e.others req (λ x. cc) ∙ d.others req (λ x. cc);
        },
        end,
      )

module _ (fuel junk : ℕ) (link : DescPtr) (enough : 2 ≤ fuel) where
  next_completed :
      (p : Payload) (ps : List Payload) {v : View} {r : Region}
      → contents (v.queue issued) ≡ p ∷ ps
      → IsWellFormed v r
      → 0 < length v.spare
      → length (v.queue comp).beyond < fuel
      → Yields
          (λ t r'. (u : Unit {0}) × (t ≡ again u) × OneReturned v r p r')
          (complete_turn fuel junk link tt r)
  unfolding complete_turn
  next_completed p ps {v} {r} e w some_spare lag =
      then-Yields
        (mig_dequeue-some fuel junk issued enough w some_spare (λ ends. cc (sym ends ∙ e)))
        λ o r' (desc, one, v', d). rw one (
          then-Yields (complete_desc-OneReturned fuel link d lag) λ c r'' done.
            yields (tt, refl, subst (λ x. OneReturned v r x r'') (cc (sym d.contents ∙ e)) done))

  pub complete_all-Returned :
      (n : ℕ) (ps : List Payload) {v : View} {r : Region}
      → contents (v.queue issued) ≡ ps
      → length ps < n
      → IsWellFormed v r
      → 0 < length v.spare
      → length (v.queue comp).beyond < fuel
      → Yields
          (λ _ r'. (v' : View) × Returned ps v r v' r' × (contents (v'.queue issued) ≡ []))
          (loop n (complete_turn fuel junk link) tt r)
  unfolding complete_turn
  complete_all-Returned zero ps e few w some_spare lag = absurd (omega (arith, few))
  complete_all-Returned (suc n) [] {v} e few w some_spare lag =
      loop-Yields (complete_turn fuel junk link) n (
        then-Yields (mig_dequeue-none fuel junk issued enough w e)
          λ o r' (nothing, same). rw (nothing, same) (yields (tt, refl, (v, Returned-refl w, e))))
  complete_all-Returned (suc n) (p ∷ ps) e few w some_spare lag =
      again-Yields (complete_turn fuel junk link) n (next_completed p ps e w some_spare lag)
        λ _ r' (v', one, end).
          Yields-mono
            (complete_all-Returned n ps (cc (sym one.from ∙ e)) (omega (arith, few)) one.well
              (omega (arith, some_spare, one.spare)) (omega (arith, lag, ap length end)))
            λ _ r'' (v'', rest, none_left). (v'', Returned-trans one rest, none_left)
