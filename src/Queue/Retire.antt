-- ===== src/Queue/Retire.antt =====
-- The head of a queue swung to the next node, which becomes the dummy: what that means for the
-- view, and what the retired dummy was to the queue.
use memif_user_release.Base.{
  ℕ, ◌≡◌, refl, ◌≢◌, ◌<◌, List, [], ◌∷◌, ◌++◌, map, update, ℕ_discrete, arith, subst, sym, ap, ◌∙◌,
  All-append_iff,
}
use memif_user_release.Desc.{DescPtr, bad_index}
use memif_user_release.Region.{QueueId, QueueId-discrete, Region, write_queue}
use memif_user_release.Region.Cells.{Cell, Linked, IsNew, Holds, Colored, Holds-frame-Fresh}
use memif_user_release.Region.View.{
  held, in_queue, queue_view, View, contents, payload_of, IsQueue, IsWellFormed,
}
use memif_user_release.Region.Nodes.{with_queue-IsWellFormed}

-- The nodes behind the dummy are at least the one that `tail` names.
pub first_node :
    (ps : List Cell) (last : Cell) (bs : List Cell)
    → (f : Cell) × (fs : List Cell) × (ps ++ last ∷ bs ≡ f ∷ fs)
first_node [] last bs = (last, bs, refl)
first_node (p ∷ ps) last bs = (p, ps ++ last ∷ bs, refl)

module _ (q : QueueId) {v : View} {r : Region} (dummy : Cell) (ps : List Cell) (last : Cell)
    (bs : List Cell) (k : ℕ) (e : v.queue q ≡ queue_view (dummy ∷ ps) last bs k)
    (w : IsWellFormed v r) where
  pub full : IsQueue (r.queue q) r.desc r.ndescs v.owner q (queue_view (dummy ∷ ps) last bs k)
  full = subst (IsQueue (r.queue q) r.desc r.ndescs v.owner q) e (w.queue q)

  -- What a dequeue reads of the dummy and of the node behind it.
  pub record Front (f : Cell) (fs : List Cell) : Type 0 where
    pub head : (r.queue q).head.index ≡ dummy.addr
    pub body : r.desc dummy.addr ≡ dummy.body
    pub own : v.owner dummy.addr ≡ in_queue q
    pub inside : dummy.addr < r.ndescs
    pub not_tail : last.addr ≢ dummy.addr
    pub next : dummy.body.next.index ≡ f.addr
    pub next_body : r.desc f.addr ≡ f.body
    pub next_own : v.owner f.addr ≡ in_queue q
    pub next_inside : f.addr < r.ndescs
    pub next_color : f.body.next.color ≡ k
    pub contents : contents (v.queue q) ≡ payload_of f ∷ map payload_of fs

  pub front : (f : Cell) (fs : List Cell) → ps ++ last ∷ bs ≡ f ∷ fs → Front f fs
  front f fs split =
      let links = subst (λ l. Linked dummy.body.next.index l bad_index) split full.linked.1 in
      let keeps = subst (Holds r.desc v.owner r.ndescs (in_queue q)) split full.holds.1 in
      let tints = subst (Colored k) split full.colored.1 in
      let (_, new) = All-append_iff (IsNew dummy.addr) ps (last ∷ bs) full.distinct.0 in
      record {
        head = full.linked.0;
        body = full.holds.0.0;
        own = full.holds.0.1;
        inside = full.holds.0.2;
        not_tail = new.0;
        next = links.0;
        next_body = keeps.0.0;
        next_own = keeps.0.1;
        next_inside = keeps.0.2;
        next_color = tints.0;
        contents = ap contents e ∙ ap (map payload_of) split;
      }

  pub contents-ne-nil : contents (v.queue q) ≢ []
  contents-ne-nil z =
      let (f, fs, split) = first_node ps last bs in cc (sym (front f fs split).contents ∙ z)

  abbrev pub retired : View
  retired = record v {
    owner = update ℕ_discrete v.owner dummy.addr held;
    queue = update QueueId-discrete v.queue q (queue_view ps last bs k);
  }

  pub retired-IsWellFormed :
      (head : DescPtr)
      → head.index ≡ dummy.body.next.index
      → IsWellFormed retired (write_queue q (record (r.queue q) { head = head }) r)
  retired-IsWellFormed head at =
      with_queue-IsWellFormed w q (record (r.queue q) { head = head }) (queue_view ps last bs k)
        r.desc (update ℕ_discrete v.owner dummy.addr held) w.unshared
        (λ a out free. (refl, ground (arith, full.holds.0)))
        (record {
          linked = rw at full.linked.1;
          tail = full.tail;
          holds =
              Holds-frame-Fresh (in_queue q) r.ndescs dummy.addr (ps ++ last ∷ bs) full.holds.1
                full.distinct.0 (λ b other. (refl, ground arith));
          distinct = full.distinct.1;
          colored = full.colored.1;
          plain = full.plain;
        })
