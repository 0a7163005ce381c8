-- ===== src/Queue/Recolor.antt =====
-- `migqueue_set_color_if_empty` where the queue is known to be empty.
use memif_user_release.Base.{
  ℕ, zero, suc, ◌≡◌, ◌<◌, ◌≤◌, ◌^◌, [], inl, inr, false, ◌==◌, arith, ◌∙◌, ap, length,
}
use memif_user_release.Desc.{color_fail}
use memif_user_release.Region.{QueueId, Region}
use memif_user_release.Region.Run.{Yields, Yields-mono}
use memif_user_release.Region.View.{View, contents, IsWellFormed}
use memif_user_release.Queue.Forward.{Steady}
use memif_user_release.Queue.{migqueue_set_color_if_empty}
use memif_user_release.Queue.Color.{Painted, Recolored, set_color-Painted}

-- The old color, which is no failure, and a queue with the new one.
abbrev pub Repainted : QueueId → ℕ → View → Region → ℕ → Region → Type 0
Repainted q color v r out r' =
    ((out == color_fail) ≡ false)
    × (out ≡ (v.queue q).color)
    × (v' : View) × Recolored q color v r v' r'

Painted-Repainted :
    (q : QueueId) (color : ℕ) {v : View} {r : Region}
    → IsWellFormed v r
    → contents (v.queue q) ≡ []
    → (out : ℕ) (r' : Region) → Painted q color v r out r'
    → Repainted q color v r out r'
Painted-Repainted q color w empty out r' (inl (full, _, _)) = absurd (full empty)
Painted-Repainted q color w empty out r' (inr (_, old, v', done)) =
    let plain = (w.queue q).plain in (ground (arith, plain, old), old, v', done)

pub set_color-Repainted :
    (fuel : ℕ) (q : QueueId) (color : ℕ) {v : View} {r : Region}
    → 1 ≤ fuel
    → IsWellFormed v r
    → color < 2 ^ 15
    → contents (v.queue q) ≡ []
    → Yields (Repainted q color v r) (migqueue_set_color_if_empty fuel q color r)
set_color-Repainted zero q color enough w plain empty = absurd (omega (arith, enough))
set_color-Repainted (suc fuel) q color enough w plain empty =
    Yields-mono (set_color-Painted fuel q color w plain) (Painted-Repainted q color w empty)

pub Recolored-Steady :
    {q : QueueId} {color : ℕ} {v v' : View} {r r' : Region}
    → Recolored q color v r v' r'
    → Steady v r v' r'
Recolored-Steady c = record {
  well = c.well;
  size = c.size;
  spare = ap length c.spare;
  kept = λ a own. (ap (λ f. f a) c.owner ∙ own, c.memory a (λ x. cc (own, x)));
}
