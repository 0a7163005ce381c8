-- ===== src/Queue/Link.antt =====
-- The link that `mig_enqueue` commits: a descriptor behind the last node of a queue whose tail
-- names that node, in the view and in memory.
use memif_user_release.Base.{
  ℕ, ◌≡◌, refl, ◌≢◌, ◌<◌, [], ◌∷◌, ◌++◌, List, map, update, ℕ_discrete, arith, update_other,
  update_self, update_same, ap, subst, ◌∙◌, sym, ap₂, All-append, All-append_iff,
}
use mathlib.Core.List.{append_assoc}
use memif_user_release.Desc.{DescPtr, Desc, bad_index, next_count}
use memif_user_release.Region.{QueueId, QueueId-discrete, Queue, Region}
use memif_user_release.Region.Cells.{
  Cell, Linked-split, Linked-append, IsHeld, IsNew, HasColor, Distinct-snoc, Distinct-unsnoc,
  Fresh-of_owner, Holds-frame-Fresh,
}
use memif_user_release.Region.View.{
  Owner, held, in_queue, QueueView, queue_view, View, contents, payload, payload_of, rest, IsQueue,
  IsWellFormed,
}
use memif_user_release.Region.Nodes.{AtLast, at_last, with_queue-IsWellFormed}
use memif_user_release.Region.Swing.{Swung}

abbrev pub link_to : ℕ → Cell → DescPtr
link_to desc c = record {
  index = desc;
  count = next_count c.body.next.count;
  color = c.body.next.color;
}

-- The last node with its link, and the new node.
abbrev pub relinked : ℕ → Cell → Cell
relinked desc c = record { addr = c.addr; body = record (c.body) { next = link_to desc c } }

abbrev pub colored_as : Cell → Desc → Desc
colored_as c d = record d { next = record (d.next) { color = c.body.next.color } }

abbrev pub appended : ℕ → Desc → QueueView → QueueView
appended desc d x = record x {
  last = relinked desc x.last;
  beyond = record { addr = desc; body = colored_as x.last d } ∷ [];
}

-- Memory after the link: the new node has its color, and the last one names it.
abbrev pub linked_memory : ℕ → Cell → (ℕ → Desc) → ℕ → Desc
linked_memory desc last m =
    update ℕ_discrete (update ℕ_discrete m desc (colored_as last (m desc))) last.addr
      (relinked desc last).body

-- The descriptor is a node behind all others of the queue; all else stays as it was.
pub record Enqueued (q : QueueId) (desc : ℕ) (v : View) (r : Region) (v' : View) (r' : Region)
    : Type 0 where
  pub well : IsWellFormed v' r'
  pub size : r'.ndescs ≡ r.ndescs
  pub owner : (a : ℕ) → v'.owner a ≡ update ℕ_discrete v.owner desc (in_queue q) a
  pub spare : v'.spare ≡ v.spare
  pub others : (p : QueueId) → q ≢ p → v'.queue p ≡ v.queue p
  pub color : (v'.queue q).color ≡ (v.queue q).color
  pub contents : contents (v'.queue q) ≡ contents (v.queue q) ++ payload (r.desc desc) ∷ []
  pub memory : (a : ℕ) → a ≢ desc → v.owner a ≢ in_queue q → r'.desc a ≡ r.desc a

module _ {u : Queue} {m : ℕ → Desc} {n : ℕ} {owner : ℕ → Owner} {q : QueueId} (passed : List Cell)
    (last : Cell) (k desc : ℕ) where
  IsQueue-appended :
      IsQueue u m n owner q (queue_view passed last [] k)
      → owner desc ≡ held
      → desc < n
      → (m desc).next.index ≡ bad_index
      → IsQueue u
          (linked_memory desc last m)
          n
          (update ℕ_discrete owner desc (in_queue q))
          q
          (appended desc (m desc) (queue_view passed last [] k))
  IsQueue-appended h taken inside ends =
      let tag = in_queue q in
      let (kept, kept_last) = All-append_iff (IsHeld m owner n tag) passed (last ∷ []) h.holds in
      let (tint, tint_last) = All-append_iff (HasColor k) passed (last ∷ []) h.colored in
      let (j, front, links) = Linked-split passed (last ∷ []) _ _ h.linked in
      let (apart, new_last) = Distinct-unsnoc passed last h.distinct in
      let fresh = Fresh-of_owner tag m owner n desc (passed ++ last ∷ []) h.holds (λ e. cc) in
      let (new, new_to_last) = All-append_iff (IsNew desc) passed (last ∷ []) fresh in
      let ne : last.addr ≢ desc = new_to_last.0 in
      record {
        linked = Linked-append passed _ _ j _ front (links.0, (refl, ends));
        tail = h.tail;
        holds =
            All-append (IsHeld _ _ n tag) passed _
              (Holds-frame-Fresh tag n last.addr passed
                (Holds-frame-Fresh tag {m' = update ℕ_discrete m desc (colored_as last (m desc))} n
                  desc passed kept new (λ b other. (ground arith, ground arith)))
                new_last (λ b other. (ground arith, refl)))
              (
                (ground arith, ground (arith, kept_last.0), kept_last.0.2),
                ((ground arith, ground arith, inside), tt),
              );
        distinct = rw (← append_assoc passed (relinked desc last ∷ []) _) (
            Distinct-snoc (passed ++ relinked desc last ∷ []) _
              (Distinct-snoc passed (relinked desc last) apart new_last)
              (All-append (IsNew desc) passed _ new (ne, tt)));
        colored = All-append (HasColor k) passed _ tint (tint_last.0, (tint_last.0, tt));
        plain = h.plain;
      }

-- The queue holds one more payload, that of the descriptor.
contents-appended :
    (passed : List Cell) (last : Cell) (k desc : ℕ) (d : Desc)
    → contents (appended desc d (queue_view passed last [] k))
      ≡ contents (queue_view passed last [] k) ++ payload d ∷ []
contents-appended [] last k desc d = refl
contents-appended (c ∷ cs) last k desc d = go cs
  where
    go :
        (xs : List Cell)
        → map payload_of
            (xs ++ relinked desc last ∷ record { addr = desc; body = colored_as last d } ∷ [])
          ≡ map payload_of (xs ++ last ∷ []) ++ payload d ∷ []
    go [] = refl
    go (x ∷ xs) = ap (λ l. payload_of x ∷ l) (go xs)

module _ (q : QueueId) (desc : ℕ) {v : View} {r : Region} (passed : List Cell) (last : Cell) (k : ℕ)
    (e : v.queue q ≡ queue_view passed last [] k) (w : IsWellFormed v r)
    (taken : v.owner desc ≡ held) (inside : desc < r.ndescs)
    (ends : (r.desc desc).next.index ≡ bad_index) where
  pub here : IsQueue (r.queue q) r.desc r.ndescs v.owner q (queue_view passed last [] k)
  here = subst (IsQueue (r.queue q) r.desc r.ndescs v.owner q) e (w.queue q)

  pub at : AtLast r.desc r.ndescs v.owner q (queue_view passed last [] k)
  at = at_last here

  abbrev pub appended_view : View
  appended_view = record v {
    owner = update ℕ_discrete v.owner desc (in_queue q);
    queue =
        update QueueId-discrete v.queue q
          (appended desc (r.desc desc) (queue_view passed last [] k));
  }

  pub not_last : last.addr ≢ desc
  not_last x = ground (arith, at.own, ap v.owner x)

  appended-IsWellFormed :
      IsWellFormed appended_view (record r { desc = linked_memory desc last r.desc })
  appended-IsWellFormed =
      subst
        (λ g.
          IsWellFormed appended_view
            (record r { queue = g; desc = linked_memory desc last r.desc }))
        (update_same QueueId-discrete r.queue q)
        (with_queue-IsWellFormed w q (r.queue q)
          (appended desc (r.desc desc) (queue_view passed last [] k))
          (linked_memory desc last r.desc) (update ℕ_discrete v.owner desc (in_queue q))
          (λ i lt. ground (arith, w.unshared i lt, w.unshared desc inside, at.body))
          (λ a out free. (ground (arith, at.own), ground arith))
          (IsQueue-appended passed last k desc here taken inside ends))

  pub now : appended_view.queue q ≡ appended desc (r.desc desc) (queue_view passed last [] k)
  now = update_self QueueId-discrete v.queue q _

  pub appended-Enqueued :
      Enqueued q desc v r appended_view (record r { desc = linked_memory desc last r.desc })
  appended-Enqueued = record {
    well = appended-IsWellFormed;
    size = refl;
    owner = λ a. refl;
    spare = refl;
    others = λ p other. update_other QueueId-discrete v.queue q p _ other;
    color = ap (λ (x : QueueView). x.color) now ∙ ap (λ (x : QueueView). x.color) (sym e);
    contents =
        ap contents now
        ∙ contents-appended passed last k desc (r.desc desc)
        ∙ ap (λ x. contents x ++ payload (r.desc desc) ∷ []) (sym e);
    memory = λ a other out. ground (arith, at.own);
  }

module _ {q : QueueId} {desc : ℕ} {v v' v'' : View} {r r' r'' : Region} where
  pub Enqueued-after :
      Swung q v r v' r' → Enqueued q desc v' r' v'' r'' → Enqueued q desc v r v'' r''
  Enqueued-after s h = record {
    well = h.well;
    size = h.size ∙ s.size;
    owner = λ a. h.owner a ∙ ap (λ f. update ℕ_discrete f desc (in_queue q) a) s.owner;
    spare = h.spare ∙ s.spare;
    others = λ p other. h.others p other ∙ s.others p other;
    color = h.color ∙ s.color;
    contents =
        h.contents
        ∙ ap₂ (λ l (m : ℕ → Desc). map payload_of (rest l) ++ payload (m desc) ∷ []) s.nodes
            s.memory;
    memory = λ a other out.
        h.memory a other (λ e. out (ap (λ (f : ℕ → Owner). f a) (sym s.owner) ∙ e))
        ∙ ap (λ (m : ℕ → Desc). m a) s.memory;
  }

  pub Enqueued-then :
      Enqueued q desc v r v' r' → Swung q v' r' v'' r'' → Enqueued q desc v r v'' r''
  Enqueued-then h s = record {
    well = s.well;
    size = s.size ∙ h.size;
    owner = λ a. ap (λ (f : ℕ → Owner). f a) s.owner ∙ h.owner a;
    spare = s.spare ∙ h.spare;
    others = λ p other. s.others p other ∙ h.others p other;
    color = s.color ∙ h.color;
    contents = ap (λ l. map payload_of (rest l)) s.nodes ∙ h.contents;
    memory = λ a other out. ap (λ (m : ℕ → Desc). m a) s.memory ∙ h.memory a other out;
  }
