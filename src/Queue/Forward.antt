-- ===== src/Queue/Forward.antt =====
-- An element that is taken from one queue and put into another: the common step of the driver.
use memif_user_release.Base.{ℕ, ◌≡◌, ◌≢◌, [], ◌∷◌, ◌++◌, sym, ◌∙◌, ap, arith, length, subst}
use memif_user_release.Region.{QueueId, Region, QueueId-discrete}
use memif_user_release.Region.View.{held, QueueView, View, Payload, payload, contents, IsWellFormed}
use memif_user_release.Queue.Copy.{Dequeued}
use memif_user_release.Queue.Link.{Enqueued}

-- What no operation on queues takes away: the colors, the number of spare descriptors, and what
-- callers hold.
pub record Steady (v : View) (r : Region) (v' : View) (r' : Region) : Type 0 where
  pub well : IsWellFormed v' r'
  pub size : r'.ndescs ≡ r.ndescs
  pub spare : length v'.spare ≡ length v.spare
  pub kept : (a : ℕ) → v.owner a ≡ held → (v'.owner a ≡ held) × (r'.desc a ≡ r.desc a)

pub Steady-trans :
    {v v' v'' : View} {r r' r'' : Region}
    → Steady v r v' r'
    → Steady v' r' v'' r''
    → Steady v r v'' r''
Steady-trans s t = record {
  well = t.well;
  size = t.size ∙ s.size;
  spare = t.spare ∙ s.spare;
  kept = λ a own.
      let (own', same) = s.kept a own in
      let (own'', same') = t.kept a own' in (own'', same' ∙ same);
}

pub Dequeued-Steady :
    {q : QueueId} {ret : ℕ} {v v' : View} {r r' : Region}
    → Dequeued q ret v r v' r'
    → Steady v r v' r'
Dequeued-Steady d = record { well = d.well; size = d.size; spare = d.spare; kept = d.kept }

-- The oldest element of `q` is now the newest of `p`.
pub record Forwarded (q p : QueueId) (v : View) (r : Region) (v' : View) (r' : Region)
    : Type 0 where
  pub steady : Steady v r v' r'
  pub element : Payload
  pub from : contents (v.queue q) ≡ element ∷ contents (v'.queue q)
  pub to : contents (v'.queue p) ≡ contents (v.queue p) ++ element ∷ []
  pub color : (x : QueueId) → (v'.queue x).color ≡ (v.queue x).color
  pub others : (x : QueueId) → q ≢ x → p ≢ x → v'.queue x ≡ v.queue x

module _ {q p : QueueId} {ret : ℕ} {v v₁ v₂ : View} {r r₁ r₂ : Region} (apart : q ≢ p)
    (d : Dequeued q ret v r v₁ r₁) (e : Enqueued p ret v₁ r₁ v₂ r₂) where
  color_kept : (x : QueueId) → (v₂.queue x).color ≡ (v.queue x).color
  color_kept x = elim (QueueId-discrete p x) [
    | yes same ↦
        subst (λ y. (v₂.queue y).color ≡ (v.queue y).color) same
          (e.color ∙ ap (λ (y : QueueView). y.color) (d.others p apart))
    | no other ↦ ap (λ (y : QueueView). y.color) (e.others x other) ∙ elim (QueueId-discrete q x) [
      | yes same ↦ subst (λ y. (v₁.queue y).color ≡ (v.queue y).color) same d.color
      | no away ↦ ap (λ (y : QueueView). y.color) (d.others x away)
    ]
  ]

  held_kept : (a : ℕ) → v.owner a ≡ held → (v₂.owner a ≡ held) × (r₂.desc a ≡ r.desc a)
  held_kept a own =
      let (own', same) = d.kept a own in
      let away : a ≢ ret = λ x. cc (own, ap v.owner x, d.was_free) in
      (e.owner a ∙ ground arith, e.memory a away (λ x. cc (own', x)) ∙ same)

  pub forward-Forwarded : Forwarded q p v r v₂ r₂
  forward-Forwarded = record {
    steady = record {
      well = e.well;
      size = e.size ∙ d.size;
      spare = ap length e.spare ∙ d.spare;
      kept = held_kept;
    };
    element = payload (r₁.desc ret);
    from =
        d.contents
        ∙ ap (λ y. payload (r₁.desc ret) ∷ contents y) (sym (e.others q (λ x. apart (sym x))));
    to = e.contents ∙ ap (λ y. contents y ++ payload (r₁.desc ret) ∷ []) (d.others p apart);
    color = color_kept;
    others = λ x away other. e.others x other ∙ d.others x away;
  }
