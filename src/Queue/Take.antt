-- ===== src/Queue/Take.antt =====
-- `mig_dequeue` where it is known if the queue is empty.
use memif_user_release.Base.{
  ℕ, ◌≡◌, refl, ◌≢◌, ◌<◌, ◌≤◌, List, [], ◌∷◌, Option, some, none, arith, length,
}
use memif_user_release.Region.{QueueId, Region}
use memif_user_release.Region.Run.{Yields, Yields-mono}
use memif_user_release.Region.View.{View, contents, IsWellFormed}
use memif_user_release.Queue.{mig_dequeue}
use memif_user_release.Queue.Copy.{Dequeued}
use memif_user_release.Queue.Dequeue.{Taken, mig_dequeue-Taken}

pub not_nil : {A : Type 0} (xs : List A) → 0 < length xs → xs ≢ []
not_nil [] h = absurd (omega (arith, h))
not_nil (x ∷ xs) h = λ e. cc

Taken-some :
    (q : QueueId) (v : View) {r : Region}
    → contents (v.queue q) ≢ []
    → (o : Option ℕ) (r' : Region) → Taken q v r o r'
    → (ret : ℕ) × (o ≡ some ret) × (v' : View) × Dequeued q ret v r v' r'
Taken-some q v full none r' (ends, _) = absurd (full ends)
Taken-some q v full (some ret) r' (v', d) = (ret, refl, v', d)

Taken-none :
    (q : QueueId) (v : View) {r : Region}
    → contents (v.queue q) ≡ []
    → (o : Option ℕ) (r' : Region) → Taken q v r o r'
    → (o ≡ none) × (r' ≡ r)
Taken-none q v ends none r' (_, same) = (refl, same)
Taken-none q v ends (some ret) r' (v', d) = absurd (cc (d.contents, ends))

module _ (fuel junk : ℕ) (q : QueueId) {v : View} {r : Region} (enough : 2 ≤ fuel)
    (w : IsWellFormed v r) where
  pub mig_dequeue-some :
      0 < length v.spare
      → contents (v.queue q) ≢ []
      → Yields
          (λ o r'. (ret : ℕ) × (o ≡ some ret) × (v' : View) × Dequeued q ret v r v' r')
          (mig_dequeue fuel junk q r)
  mig_dequeue-some some_spare full =
      Yields-mono (mig_dequeue-Taken fuel junk q w (λ _. not_nil v.spare some_spare) enough)
        (Taken-some q v full)

  pub mig_dequeue-none :
      contents (v.queue q) ≡ [] → Yields (λ o r'. (o ≡ none) × (r' ≡ r)) (mig_dequeue fuel junk q r)
  mig_dequeue-none ends =
      Yields-mono (mig_dequeue-Taken fuel junk q w (λ full. absurd (full ends)) enough)
        (Taken-none q v ends)
