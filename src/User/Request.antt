-- ===== src/User/Request.antt =====
-- What a request of the user is: a descriptor with its addresses, at the end of the request queue.
use memif_user_release.Base.{
  ℕ, suc, zero, ◌%◌, ◌^◌, ◌≡◌, refl, ◌<◌, ◌≤◌, ◌≢◌, [], ◌∷◌, ◌++◌, length, Bool, Option, none, some,
  lt→ltb, ◌==◌, if◌then◌else◌, arith, ◌∙◌, sym, ap, update_self, ℕ_discrete,
}
use memif_user_release.Desc.{
  DescPtr, Desc, color_usr, virt_base, virt_base_dest, order, virt_to_base, set_virt_base,
  set_virt_base_dest, set_order,
}
use memif_user_release.Region.{QueueId, req, Region, write_desc}
use memif_user_release.Region.Run.{pure, ◌>>◌, Code, Yields, yields, then-Yields, Yields-ok}
use memif_user_release.Region.Cells.{Cell}
use memif_user_release.Region.View.{
  free, held, in_queue, QueueView, View, payload, contents, IsWellFormed,
}
use memif_user_release.Region.Nodes.{write_held-IsWellFormed}
use memif_user_release.FreeList.{freelist_remove}
use memif_user_release.FreeList.Remove.{Removed, Handed, freelist_remove-Handed}
use memif_user_release.Queue.{or_bug}
use memif_user_release.Queue.Enqueue.{Delivered, mig_enqueue-Delivered}
use memif_user_release.Driver.{Kernel}
use memif_user_release.User.{move_single_noremap, fill_desc, request, memif_start_replication}

-- The fields read back what the user passed.
pub fill_desc_lem :
    (src dst o : ℕ) (d : Desc)
    → (virt_base (fill_desc src dst o d) ≡ virt_to_base src % 2 ^ 52)
      × (virt_base_dest (fill_desc src dst o d) ≡ virt_to_base dst % 2 ^ 52)
      × (order (fill_desc src dst o d) ≡ o % 8)
unfolding virt_base virt_base_dest order set_virt_base set_virt_base_dest set_order
fill_desc_lem src dst o d = (omega arith, omega arith, omega arith)

-- Descriptor `desc`, the first on the free list, is the last node of the request queue. A new element
-- with the addresses and the order of the request is behind the others there; nothing else is taken
-- from the free list, and the other queues are as before.
pub record Requested (src dst o desc : ℕ) (v : View) (r : Region) (v' : View) (r' : Region)
    : Type 0 where
  pub well : IsWellFormed v' r'
  pub was_free : v.owner desc ≡ free
  pub first : (c : Cell) × (c.addr ≡ desc) × (v.spare ≡ c ∷ v'.spare)
  pub queued : v'.owner desc ≡ in_queue req
  pub newest : (v'.queue req).last.addr ≡ desc
  pub body : Desc
  pub contents : contents (v'.queue req) ≡ contents (v.queue req) ++ payload body ∷ []
  pub from : virt_base body ≡ virt_to_base src % 2 ^ 52
  pub to : virt_base_dest body ≡ virt_to_base dst % 2 ^ 52
  pub order : order body ≡ o % 8
  pub color : (v'.queue req).color ≡ (v.queue req).color
  pub others : (q : QueueId) → req ≢ q → v'.queue q ≡ v.queue q
  pub settled : (v'.queue req).beyond ≡ []

Handed-some :
    {v : View} {r : Region}
    → 0 < length v.spare
    → (o : Option ℕ) (r' : Region) → Handed v r o r'
    → Yields (λ d r''. (v' : View) × Removed d v r v' r'') (or_bug o r')
Handed-some some_spare none r' (e, same) = absurd (omega (arith, some_spare, ap length e))
Handed-some some_spare (some d) r' h = yields h

fill_desc-refcnt : (src dst o : ℕ) (d : Desc) → (fill_desc src dst o d).refcnt ≡ d.refcnt
unfolding set_virt_base set_virt_base_dest set_order
fill_desc-refcnt src dst o d = refl

freelist_remove-enough :
    (fuel : ℕ) {v : View} {r : Region}
    → 1 ≤ fuel
    → IsWellFormed v r
    → Yields (Handed v r) (freelist_remove fuel r)
freelist_remove-enough zero enough w = absurd (omega (arith, enough))
freelist_remove-enough (suc fuel) enough w = freelist_remove-Handed fuel w

module _ (fuel : ℕ) (link : DescPtr) (src dst o : ℕ) where
  abbrev filled : ℕ → Region → Region
  filled desc r = write_desc desc (fill_desc src dst o (r.desc desc)) r

  Delivered-Requested :
      {desc c : ℕ} {v v' : View} {r r' r'' : Region}
      → Removed desc v r v' r'
      → Delivered req desc v' (filled desc r') c r''
      → (c ≡ (v.queue req).color) × (v'' : View) × Requested src dst o desc v r v'' r''
  Delivered-Requested {desc} {v} {v'} {r} {r'} rm (tint, v'', e, at, settled) =
      let body = fill_desc src dst o (r'.desc desc) in
      let (from, to, ord) = fill_desc_lem src dst o (r'.desc desc) in
      let same = rm.queue req in
      let stored : (filled desc r').desc desc ≡ body = update_self ℕ_discrete r'.desc desc body in
      let (c, here, less) = rm.top in
      (
        tint ∙ ap (λ (x : QueueView). x.color) same,
        v'',
        record {
          well = e.well;
          body = body;
          contents =
              e.contents
              ∙ ap (λ b. contents (v'.queue req) ++ payload b ∷ []) stored
              ∙ ap (λ x. contents x ++ payload body ∷ []) same;
          from = from;
          to = to;
          order = ord;
          was_free = rm.was_free;
          first = (c, here, less ∙ ap (λ l. c ∷ l) (sym e.spare));
          queued = e.owner desc ∙ update_self ℕ_discrete v'.owner desc (in_queue req);
          newest = at;
          color = e.color ∙ ap (λ (x : QueueView). x.color) same;
          others = λ q other. e.others q other ∙ rm.queue q;
          settled = settled;
        },
      )

  request-Requested :
      {v : View} {r : Region}
      → IsWellFormed v r
      → 0 < length v.spare
      → 1 ≤ fuel
      → length (v.queue req).beyond < fuel
      → Yields
          (λ out r'.
            (out.1 ≡ (v.queue req).color) × (v' : View) × Requested src dst o out.0 v r v' r')
          (request fuel link src dst o r)
  unfolding request
  request-Requested {v} {r} w some_spare enough lag =
      then-Yields (freelist_remove-enough fuel enough w) λ free r₀ h.
        then-Yields (Handed-some some_spare free r₀ h) λ desc r₁ (v₁, rm).
          let inside : desc < r₁.ndescs = omega (arith, rm.inside, rm.size) in
          let taken = rm.owner desc ∙ update_self ℕ_discrete v.owner desc held in
          then-Yields
            (mig_enqueue-Delivered fuel link req desc
              (write_held-IsWellFormed desc (fill_desc src dst o (r₁.desc desc)) rm.well taken
                (fill_desc-refcnt src dst o (r₁.desc desc) ∙ rm.well.unshared desc inside))
              taken inside
              (omega (arith, lag, ap (λ (x : QueueView). length x.beyond) (rm.queue req))))
            λ c r₂ d. yields (Delivered-Requested rm d)

  -- `memif_start_replication` on a positive file descriptor, on a well-formed region where a
  -- descriptor is spare, with fuel above the nodes by which the tail of the request queue lags: the
  -- first spare descriptor is the last node of the request queue, and the request is the newest
  -- element there; exactly if the queue is in the user's color the file is written, as the last
  -- step. The result is that descriptor.
  pub memif_start_replication-Requested :
      (write : (fd cmd : ℕ) → Code Kernel Bool) (fd : ℕ) {v : View} (k : Kernel)
      → 0 < fd
      → IsWellFormed v k.region
      → 0 < length v.spare
      → 1 ≤ fuel
      → length (v.queue req).beyond < fuel
      → (desc : ℕ) × (v' : View) × (r' : Region) × Requested src dst o desc v k.region v' r'
        × (memif_start_replication fuel link write fd src dst o k
            ≡ (if (v.queue req).color == color_usr
                  then (do write fd move_single_noremap; pure desc)
                  else pure desc)
                (record k { region = r' }))
  unfolding memif_start_replication
  memif_start_replication-Requested write fd {v} k opened w some_spare enough lag =
      let ((desc, c), r', run, (col, v', q)) =
        Yields-ok (request-Requested w some_spare enough lag) in
      (desc, v', r', q, rw (lt→ltb 0 fd opened, run, col) refl)
