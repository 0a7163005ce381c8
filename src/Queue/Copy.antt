-- ===== src/Queue/Copy.antt =====
-- The step of `mig_dequeue` that copies the oldest node into the replica, swings the head and
-- retires the old dummy.
use memif_user_release.Base.{
  ℕ, suc, ◌+◌, ◌≡◌, refl, ◌≢◌, ◌<◌, ◌∷◌, ◌++◌, List, map, some, ==-refl, length, update_self,
  update_other, arith, ap, ap₂, sym, ◌∙◌,
}
use memif_user_release.Desc.{DescPtr, Desc, raw, next_count}
use memif_user_release.Region.{QueueId, QueueId-discrete, Region, write_desc, write_queue, cas_head}
use memif_user_release.Region.Run.{pure, ◌>>◌, finish, Yields, yields, then-Yields}
use memif_user_release.Region.Cells.{Cell}
use memif_user_release.Region.View.{
  free, held, QueueView, queue_view, View, contents, payload, payload_of, rest, IsWellFormed,
}
use memif_user_release.Region.Nodes.{write_held-IsWellFormed}
use memif_user_release.FreeList.{freelist_add}
use memif_user_release.FreeList.Add.{Added, freelist_add-Added}
use memif_user_release.Queue.Retire.{Front, front, retired, retired-IsWellFormed}
use memif_user_release.Queue.{migdesc_replicate, copy_node}

-- The replica carries the oldest payload and the color, and is its caller's; the queue has the
-- other payloads; the free list has the old dummy in place of the replica.
pub record Dequeued (q : QueueId) (ret : ℕ) (v : View) (r : Region) (v' : View) (r' : Region)
    : Type 0 where
  pub well : IsWellFormed v' r'
  pub size : r'.ndescs ≡ r.ndescs
  pub contents : contents (v.queue q) ≡ payload (r'.desc ret) ∷ contents (v'.queue q)
  pub tint : (r'.desc ret).next.color ≡ (v.queue q).color
  pub color : (v'.queue q).color ≡ (v.queue q).color
  pub others : (p : QueueId) → q ≢ p → v'.queue p ≡ v.queue p
  pub inside : ret < r.ndescs
  pub was_free : v.owner ret ≡ free
  pub taken : v'.owner ret ≡ held
  pub kept : (a : ℕ) → v.owner a ≡ held → (v'.owner a ≡ held) × (r'.desc a ≡ r.desc a)
  pub spare : length v'.spare ≡ length v.spare

-- The same, from where the replica is at hand.
pub record Copied (q : QueueId) (ret : ℕ) (v : View) (r : Region) (v' : View) (r' : Region)
    : Type 0 where
  pub well : IsWellFormed v' r'
  pub size : r'.ndescs ≡ r.ndescs
  pub contents : contents (v.queue q) ≡ payload (r'.desc ret) ∷ contents (v'.queue q)
  pub tint : (r'.desc ret).next.color ≡ (v.queue q).color
  pub color : (v'.queue q).color ≡ (v.queue q).color
  pub others : (p : QueueId) → q ≢ p → v'.queue p ≡ v.queue p
  pub taken : v'.owner ret ≡ held
  pub kept : (a : ℕ) → a ≢ ret → v.owner a ≡ held → (v'.owner a ≡ held) × (r'.desc a ≡ r.desc a)
  pub spare : length v'.spare ≡ length v.spare + 1

module _ (junk : ℕ) (q : QueueId) (ret : ℕ) {v : View} {r : Region} (dummy : Cell) (ps : List Cell)
    (last : Cell) (bs : List Cell) (k : ℕ) (e : v.queue q ≡ queue_view (dummy ∷ ps) last bs k)
    (w : IsWellFormed v r) (taken : v.owner ret ≡ held) (inside : ret < r.ndescs) (f : Cell)
    (fs : List Cell) (split : ps ++ last ∷ bs ≡ f ∷ fs) where
  abbrev filled : Region
  filled = write_desc ret (migdesc_replicate (r.desc ret) f.body) r

  filled-IsWellFormed : IsWellFormed v filled
  unfolding migdesc_replicate
  filled-IsWellFormed =
      write_held-IsWellFormed ret (migdesc_replicate (r.desc ret) f.body) w taken
        (w.unshared ret inside)

  abbrev swung_head : DescPtr
  swung_head = record (dummy.body.next) { count = next_count (r.queue q).head.count }

  abbrev swung : Region
  swung = write_queue q (record (r.queue q) { head = swung_head }) filled

  swung-IsWellFormed : IsWellFormed (retired q dummy ps last bs k e filled-IsWellFormed) swung
  swung-IsWellFormed =
      retired-IsWellFormed q dummy ps last bs k e filled-IsWellFormed swung_head refl

  here : Front q dummy ps last bs k e w f fs
  here = front q dummy ps last bs k e w f fs split

  copy_then_add :
      (fuel : ℕ)
      → copy_node fuel junk q (r.queue q).head dummy.body.next ret r
        ≡ (do freelist_add fuel junk dummy.addr; pure (finish (some ret))) swung
  unfolding copy_node cas_head
  copy_then_add fuel = ground (
    arith,
    here.head,
    here.next,
    here.next_inside,
    here.next_body,
    here.inside,
    ==-refl (raw (r.queue q).head),
  )

  Added-Copied :
      {v' : View} {r' : Region}
      → Added dummy.addr (retired q dummy ps last bs k e filled-IsWellFormed) swung v' r'
      → Copied q ret v r v' r'
  unfolding migdesc_replicate
  Added-Copied {v'} {r'} a =
      let behind = a.queue q ∙ update_self QueueId-discrete v.queue q (queue_view ps last bs k) in
      let ne : ret ≢ dummy.addr = λ x. ground (arith, here.own, ap v.owner x) in
      let copy : r'.desc ret ≡ migdesc_replicate (r.desc ret) f.body =
        a.memory ret ne ∙ ground arith in
      record {
        well = a.well;
        size = a.size;
        contents =
            here.contents
            ∙ ap₂ ◌∷◌ (sym (ap payload copy))
                (sym (ap contents behind ∙ ap (λ l. map payload_of (rest l)) split));
        tint =
            ap (λ (d : Desc). d.next.color) copy
            ∙ here.next_color
            ∙ ap (λ (x : QueueView). x.color) (sym e);
        color = ap (λ (x : QueueView). x.color) behind ∙ ap (λ (x : QueueView). x.color) (sym e);
        others = λ p other. a.queue p ∙ update_other QueueId-discrete v.queue q p _ other;
        taken = a.owner ret ∙ ground arith;
        kept = λ b other own.
            let apart : b ≢ dummy.addr = λ x. ground (arith, here.own, ap v.owner x) in
            (a.owner b ∙ ground arith, a.memory b apart ∙ ground arith);
        spare = let (c, at, more) = a.top in ap length more ∙ omega arith;
      }

  pub copy_node-Copied :
      (fuel : ℕ) (head : DescPtr)
      → (r.queue q).head ≡ head
      → Yields
          (λ out r'. (out ≡ finish (some ret)) × (v' : View) × Copied q ret v r v' r')
          (copy_node (suc fuel) junk q head dummy.body.next ret r)
  copy_node-Copied fuel head same =
      rw (← same, copy_then_add (suc fuel))
        (then-Yields
          (freelist_add-Added swung-IsWellFormed junk dummy.addr fuel (ground arith) here.inside)
          λ _ r' (v', a). yields (refl, v', Added-Copied a))
