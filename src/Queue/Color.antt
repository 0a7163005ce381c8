-- ===== src/Queue/Color.antt =====
-- The color of a queue: `migqueue_color`, `migqueue_set_color_if_empty` and `migqueue_is_empty`.
use memif_user_release.Base.{
  ℕ, suc, ◌≡◌, refl, ◌≢◌, ◌↔◌, ◌<◌, ◌≤◌, ◌^◌, ◌⊎◌, inl, inr, [], ◌∷◌, List, true, ==-refl, update,
  update_self, update_same, update_other, ℕ_discrete, arith, ap, sym, ◌∙◌, subst,
}
use memif_user_release.Desc.{Desc, bad_index, color_fail, raw, next_count}
use memif_user_release.Region.{QueueId, QueueId-discrete, Region, write_desc, cas_next}
use memif_user_release.Region.Run.{ok, loop, loop-finish, Yields, Yields-of_eq, finish}
use memif_user_release.Region.Cells.{Cell}
use memif_user_release.Region.View.{
  Owner, in_queue, QueueView, queue_view, View, contents, IsQueue, IsWellFormed,
}
use memif_user_release.Region.Nodes.{with_queue, with_queue-IsWellFormed}
use memif_user_release.Region.Swing.{lag_here, next_inside}
use memif_user_release.Queue.Retire.{first_node, full, front, contents-ne-nil}
use memif_user_release.Queue.{
  set_color_turn, migqueue_set_color_if_empty, migqueue_color, migqueue_is_empty,
}

module _ (q : QueueId) (color : ℕ) (r : Region) (i : ℕ) (d : Desc) (small : r.ndescs ≤ bad_index)
    (head : (r.queue q).head.index ≡ i) (inside : i < r.ndescs) (body : r.desc i ≡ d) where
  tail_moved_turn :
      (r.queue q).tail.index ≢ i → set_color_turn q color tt r ≡ ok (finish color_fail) r
  unfolding set_color_turn
  tail_moved_turn tail = ground (arith, ==-refl (raw (r.queue q).head))

  linked_turn :
      (r.queue q).tail.index ≡ i
      → d.next.index ≢ bad_index
      → set_color_turn q color tt r ≡ ok (finish color_fail) r
  unfolding set_color_turn
  linked_turn tail more = ground (arith, ==-refl (raw (r.queue q).head))

  paint_turn :
      (r.queue q).tail.index ≡ i
      → d.next.index ≡ bad_index
      → set_color_turn q color tt r
        ≡ ok (finish d.next.color) (
            write_desc i
              (record d {
                next = record (d.next) { color = color; count = next_count d.next.count };
              })
              r)
  unfolding set_color_turn cas_next
  paint_turn tail ends = ground (arith, ==-refl (raw (r.queue q).head), ==-refl (raw d.next))

-- An empty queue has the color; all else, and every descriptor outside the queue, is as it was.
pub record Recolored (q : QueueId) (paint : ℕ) (v : View) (r : Region) (v' : View) (r' : Region)
    : Type 0 where
  pub well : IsWellFormed v' r'
  pub size : r'.ndescs ≡ r.ndescs
  pub owner : v'.owner ≡ v.owner
  pub spare : v'.spare ≡ v.spare
  pub others : (p : QueueId) → q ≢ p → v'.queue p ≡ v.queue p
  pub color : (v'.queue q).color ≡ paint
  pub contents : contents (v'.queue q) ≡ []
  pub memory : (a : ℕ) → v.owner a ≢ in_queue q → r'.desc a ≡ r.desc a

-- What `migqueue_set_color_if_empty` promises.
abbrev pub Painted : QueueId → ℕ → View → Region → ℕ → Region → Type 0
Painted q color v r out r' =
    ((contents (v.queue q) ≢ []) × (out ≡ color_fail) × (r' ≡ r))
    ⊎ ((contents (v.queue q) ≡ [])
        × (out ≡ (v.queue q).color)
        × (v' : View) × Recolored q color v r v' r')

abbrev painted : ℕ → Cell → Cell
painted color c = record {
  addr = c.addr;
  body = record (c.body) {
    next = record (c.body.next) { color = color; count = next_count c.body.next.count };
  };
}

module _ (q : QueueId) (color : ℕ) {v : View} {r : Region} (dummy : Cell) (k : ℕ)
    (e : v.queue q ≡ queue_view [] dummy [] k) (w : IsWellFormed v r) (plain : color < 2 ^ 15) where
  here : IsQueue (r.queue q) r.desc r.ndescs v.owner q (queue_view [] dummy [] k)
  here = subst (IsQueue (r.queue q) r.desc r.ndescs v.owner q) e (w.queue q)

  abbrev repainted : View
  repainted = with_queue q (queue_view [] (painted color dummy) [] color) v

  abbrev memory' : ℕ → Desc
  memory' = update ℕ_discrete r.desc dummy.addr (painted color dummy).body

  painted-Recolored : Recolored q color v r repainted (record r { desc = memory' })
  painted-Recolored =
      let now =
        update_self QueueId-discrete v.queue q (queue_view [] (painted color dummy) [] color) in
      record {
        well =
            subst (λ g. IsWellFormed repainted (record r { queue = g; desc = memory' }))
              (update_same QueueId-discrete r.queue q)
              (with_queue-IsWellFormed w q (r.queue q)
                (queue_view [] (painted color dummy) [] color) memory' v.owner
                (λ i lt.
                  ground
                    (arith, w.unshared i lt, w.unshared dummy.addr here.holds.0.2, here.holds.0.0))
                (λ a out free. (ground (arith, here.holds.0.1), refl))
                (record {
                  linked = (here.linked.0, here.linked.1);
                  tail = here.tail;
                  holds = ((ground arith, here.holds.0.1, here.holds.0.2), tt);
                  distinct = (tt, tt);
                  colored = (refl, tt);
                  plain = plain;
                }));
        size = refl;
        owner = refl;
        spare = refl;
        others = λ p other. update_other QueueId-discrete v.queue q p _ other;
        color = ap (λ (x : QueueView). x.color) now;
        contents = ap contents now;
        memory = λ a out. ground (arith, here.holds.0.1);
      }

set_color_loop :
    (fuel : ℕ) (q : QueueId) (color : ℕ) {v : View} {r : Region} (passed : List Cell) (last : Cell)
    (beyond : List Cell) (k : ℕ)
    → v.queue q ≡ queue_view passed last beyond k
    → IsWellFormed v r
    → color < 2 ^ 15
    → Yields (Painted q color v r) (loop (suc fuel) (set_color_turn q color) tt r)
set_color_loop fuel q color {v} {r} [] last [] k e w plain =
    let h = here q color last k e w plain in
    Yields-of_eq
      (loop-finish (set_color_turn q color) fuel (
        paint_turn q color r last.addr last.body w.small h.linked.0 h.holds.0.2 h.holds.0.0 h.tail
          h.linked.1))
      (inr (
        ap contents e,
        h.colored.0 ∙ ap (λ (x : QueueView). x.color) (sym e),
        _,
        painted-Recolored q color last k e w plain,
      ))
set_color_loop fuel q color {v} {r} [] last (b ∷ bs) k e w plain =
    let h = lag_here q [] last b bs k e w in
    let more : last.body.next.index ≢ bad_index =
      omega (arith, h.linked.1.0, next_inside q [] last b bs k e w, w.small) in
    Yields-of_eq
      (loop-finish (set_color_turn q color) fuel (
        linked_turn q color r last.addr last.body w.small h.linked.0 h.holds.0.2 h.holds.0.0 h.tail
          more))
      (inl (λ z. cc (sym (ap contents e) ∙ z), refl, refl))
set_color_loop fuel q color {v} {r} (dummy ∷ ps) last bs k e w plain =
    let (f, fs, split) = first_node ps last bs in
    let h = front q dummy ps last bs k e w f fs split in
    let at_tail = (full q dummy ps last bs k e w).tail in
    Yields-of_eq
      (loop-finish (set_color_turn q color) fuel (
        tail_moved_turn q color r dummy.addr dummy.body w.small h.head h.inside h.body
          (λ x. h.not_tail (sym at_tail ∙ x))))
      (inl (contents-ne-nil q dummy ps last bs k e w, refl, refl))

-- On a well-formed region and with a color that is not negative,
-- `migqueue_set_color_if_empty` ends in its first turn. Exactly if the queue holds something it
-- returns -1, and then changes nothing; otherwise it returns the old color, and the queue, still
-- empty, has the new one, while the other queues, the free list and the descriptors outside the
-- queue are as they were.
pub set_color-Painted :
    (fuel : ℕ) (q : QueueId) (color : ℕ) {v : View} {r : Region}
    → IsWellFormed v r
    → color < 2 ^ 15
    → Yields (Painted q color v r) (migqueue_set_color_if_empty (suc fuel) q color r)
unfolding migqueue_set_color_if_empty
set_color-Painted fuel q color {v} w plain =
    let x = v.queue q in set_color_loop fuel q color x.passed x.last x.beyond x.color refl w plain

color_of_view :
    (q : QueueId) (owner : ℕ → Owner) {r : Region} (passed : List Cell) (last : Cell)
    (beyond : List Cell) (k : ℕ)
    → IsQueue (r.queue q) r.desc r.ndescs owner q (queue_view passed last beyond k)
    → migqueue_color q r ≡ ok k r
unfolding migqueue_color
color_of_view q owner [] last beyond k h = ground (arith, h.linked.0, h.holds.0, h.colored.0)
color_of_view q owner (dummy ∷ ps) last beyond k h =
    ground (arith, h.linked.0, h.holds.0, h.colored.0)

-- On a well-formed region `migqueue_color` reads the color of the queue off the dummy's link, and
-- changes nothing.
pub migqueue_color-eq :
    (q : QueueId) {v : View} {r : Region}
    → IsWellFormed v r
    → migqueue_color q r ≡ ok (v.queue q).color r
migqueue_color-eq q {v} w =
    let x = v.queue q in color_of_view q v.owner x.passed x.last x.beyond x.color (w.queue q)

is_empty_of_view :
    (q : QueueId) {v : View} {r : Region} (passed : List Cell) (last : Cell) (k : ℕ)
    → v.queue q ≡ queue_view passed last [] k
    → IsWellFormed v r
    → (migqueue_is_empty q r ≡ true) ↔ (contents (v.queue q) ≡ [])
unfolding migqueue_is_empty
is_empty_of_view q {v} {r} [] last k e w =
    let h = subst (IsQueue (r.queue q) r.desc r.ndescs v.owner q) e (w.queue q) in
    (λ _. ap contents e, λ _. ground (arith, h.linked.0, h.tail))
is_empty_of_view q {v} {r} (dummy ∷ ps) last k e w =
    let (f, fs, split) = first_node ps last [] in
    let h = front q dummy ps last [] k e w f fs split in
    let at_tail = (full q dummy ps last [] k e w).tail in
    (
      λ same. absurd (h.not_tail (ground (arith, at_tail, h.head))),
      λ z. absurd (contents-ne-nil q dummy ps last [] k e w z),
    )

-- On a well-formed region, where the tail names the last node, `migqueue_is_empty` tells exactly if
-- the queue is empty.
pub is_empty_iff :
    (q : QueueId) {v : View} {r : Region}
    → IsWellFormed v r
    → (v.queue q).beyond ≡ []
    → (migqueue_is_empty q r ≡ true) ↔ (contents (v.queue q) ≡ [])
is_empty_iff q {v} w settled =
    let x = v.queue q in
    is_empty_of_view q x.passed x.last x.color (λ i. record x { beyond = settled i }) w
