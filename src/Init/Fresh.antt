-- ===== src/Init/Fresh.antt =====
-- What `init_migregion` leaves: three empty queues and a free list of all other descriptors.
use memif_user_release.Base.{
  ℕ, ◌+◌, ◌≡◌, refl, ◌≢◌, ◌<◌, ◌≤◌, ◌^◌, [], ◌∷◌, List, length, update, ℕ_discrete, arith, ◌∙◌, sym,
  ap,
}
use memif_user_release.Desc.{Desc, bad_index, color_none, color_usr}
use memif_user_release.Region.{QueueId, req, issued, comp, Queue, Region}
use memif_user_release.Region.Cells.{Cell, Holds-frame-Fresh, Holds}
use memif_user_release.Region.View.{
  Owner, free, in_queue, QueueView, queue_view, View, contents, IsFreeList, IsQueue, IsWellFormed,
}
use memif_user_release.Init.Chain.{Chained}
use memif_user_release.Init.Carve.{Carved}

-- A value for each queue.
abbrev pub by_queue {ℓ} : {A : Type ℓ} → A → A → A → QueueId → A
by_queue a b c req = a
by_queue a b c issued = b
by_queue a b c comp = c

-- A queue of a dummy alone.
abbrev pub only : ℕ → ℕ → Region → QueueView
only a k r = queue_view [] (record { addr = a; body = r.desc a }) [] k

only-IsQueue :
    (q : QueueId) (a k : ℕ) (r : Region) {u : Queue} {owner : ℕ → Owner}
    → u.head.index ≡ a
    → u.tail.index ≡ a
    → (r.desc a).next.index ≡ bad_index
    → (r.desc a).next.color ≡ k
    → owner a ≡ in_queue q
    → a < r.ndescs
    → k < 2 ^ 15
    → IsQueue u r.desc r.ndescs owner q (only a k r)
only-IsQueue q a k r head tail ends color own inside plain = record {
  linked = (head, ends);
  tail = tail;
  holds = ((refl, own, inside), tt);
  distinct = (tt, tt);
  colored = (color, tt);
  plain = plain;
}

-- What a new region is: three empty queues, the request queue colored for the user, and all but
-- their three dummies on the free list.
pub record IsNewRegion (n : ℕ) (v : View) (r : Region) : Type 0 where
  pub well : IsWellFormed v r
  pub size : r.ndescs ≡ n
  pub empty : (q : QueueId) → contents (v.queue q) ≡ []
  pub settled : (q : QueueId) → (v.queue q).beyond ≡ []
  pub req_color : (v.queue req).color ≡ color_usr
  pub issued_color : (v.queue issued).color ≡ color_none
  pub comp_color : (v.queue comp).color ≡ color_none
  pub spare : length v.spare + 3 ≡ n

module _ (a b c : Cell) (cs : List Cell) (r : Region) where
  abbrev pub owner_a : ℕ → Owner
  owner_a = update ℕ_discrete (λ _. free) a.addr (in_queue req)

  abbrev pub owner_b : ℕ → Owner
  owner_b = update ℕ_discrete owner_a b.addr (in_queue issued)

  abbrev pub first_owner : ℕ → Owner
  first_owner = update ℕ_discrete owner_b c.addr (in_queue comp)

  abbrev pub first_view : View
  first_view = record {
    owner = first_owner;
    spare = cs;
    queue =
        by_queue (only a.addr color_usr r) (only b.addr color_none r) (only c.addr color_none r);
  }

module _ {a b c : Cell} {cs : List Cell} {r₀ r₁ r₂ r : Region} (small : r₀.ndescs ≤ bad_index)
    (h : Chained r₀.ndescs (a ∷ b ∷ c ∷ cs) r₀) (h₁ : Carved req color_usr a (b ∷ c ∷ cs) r₀ r₁)
    (h₂ : Carved issued color_none b (c ∷ cs) r₁ r₂) (h₃ : Carved comp color_none c cs r₂ r) where
  same_size : r.ndescs ≡ r₀.ndescs
  same_size = h₃.size ∙ h₂.size ∙ h₁.size

  -- No dummy is another's.
  apart : (a.addr ≢ b.addr) × (a.addr ≢ c.addr) × (b.addr ≢ c.addr)
  apart =
      let d = h.chain.distinct in (λ e. d.0.0 (sym e), λ e. d.0.1.0 (sym e), λ e. d.1.0.0 (sym e))

  first_spare : IsFreeList r.freelist.top r.desc r.ndescs (first_owner a b c cs r) cs
  first_spare =
      let d = h.chain.distinct in
      let step_a : Holds r.desc (owner_a a b c cs r) r.ndescs free cs =
        Holds-frame-Fresh free r.ndescs a.addr cs h₃.chain.holds d.0.1.1
          (λ x other. (refl, ground arith)) in
      let step_b : Holds r.desc (owner_b a b c cs r) r.ndescs free cs =
        Holds-frame-Fresh free r.ndescs b.addr cs step_a d.1.0.1
          (λ x other. (refl, ground arith)) in
      record {
        linked = h₃.chain.linked;
        holds =
            Holds-frame-Fresh free r.ndescs c.addr cs step_b d.1.1.0
              (λ x other. (refl, ground arith));
        distinct = h₃.chain.distinct;
      }

  first_queue :
      (q : QueueId)
      → IsQueue
          (r.queue q)
          r.desc
          r.ndescs
          (first_owner a b c cs r)
          q
          ((first_view a b c cs r).queue q)
  first_queue req =
      let (ab, ac, bc) = apart in
      let u = h₃.queues req (λ e. cc) ∙ h₂.queues req (λ e. cc) in
      let d = h₃.other a.addr ac ∙ h₂.other a.addr ab in
      only-IsQueue req a.addr color_usr r (ap (λ (x : Queue). x.head.index) u ∙ h₁.head)
        (ap (λ (x : Queue). x.tail.index) u ∙ h₁.tail) (ap (λ (x : Desc). x.next.index) d ∙ h₁.ends)
        (ap (λ (x : Desc). x.next.color) d ∙ h₁.color) (ground arith)
        (omega (arith, same_size, h.below)) (omega arith)
  first_queue issued =
      let (ab, ac, bc) = apart in
      let u = h₃.queues issued (λ e. cc) in
      let d = h₃.other b.addr bc in
      only-IsQueue issued b.addr color_none r (ap (λ (x : Queue). x.head.index) u ∙ h₂.head)
        (ap (λ (x : Queue). x.tail.index) u ∙ h₂.tail) (ap (λ (x : Desc). x.next.index) d ∙ h₂.ends)
        (ap (λ (x : Desc). x.next.color) d ∙ h₂.color) (ground arith)
        (omega (arith, same_size, h.below)) (omega arith)
  first_queue comp =
      only-IsQueue comp c.addr color_none r h₃.head h₃.tail h₃.ends h₃.color (ground arith)
        (omega (arith, same_size, h.below)) (omega arith)

  first_empty : (q : QueueId) → contents ((first_view a b c cs r).queue q) ≡ []
  first_empty req = refl
  first_empty issued = refl
  first_empty comp = refl

  first_settled : (q : QueueId) → ((first_view a b c cs r).queue q).beyond ≡ []
  first_settled req = refl
  first_settled issued = refl
  first_settled comp = refl

  pub first-IsNewRegion : IsNewRegion r₀.ndescs (first_view a b c cs r) r
  first-IsNewRegion = record {
    well = record {
      small = omega (arith, same_size);
      unshared = λ i lt.
          h₃.unshared i ∙ h₂.unshared i ∙ h₁.unshared i ∙ h.unshared i (omega (arith, same_size));
      spare = first_spare;
      queue = first_queue;
    };
    size = same_size;
    empty = first_empty;
    settled = first_settled;
    req_color = refl;
    issued_color = refl;
    comp_color = refl;
    spare = omega (arith, h.count);
  }
