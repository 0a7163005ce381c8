-- ===== src/Driver/Next.antt =====
-- What a round of the kernel thread finds: the first half of the loop of `kernel_flush_work`.
use mathlib.Core.List.{append_assoc}
use memif_user_release.Base.{
  ℕ, ◌+◌, ◌≡◌, refl, ◌<◌, ◌≤◌, List, [], ◌∷◌, ◌++◌, length, none, false, arith, sym, ◌∙◌, ap,
  Bool-cases, List-cases, inl, inr, ◌==◌, if◌then◌else◌,
}
use memif_user_release.Desc.{color_usr}
use memif_user_release.Region.{req, issued, comp, Region}
use memif_user_release.Region.Run.{◌>>=◌, Yields, yields, then-Yields}
use memif_user_release.Region.View.{QueueView, View, Payload, contents, IsWellFormed}
use memif_user_release.Queue.{mig_dequeue}
use memif_user_release.Queue.Copy.{Dequeued}
use memif_user_release.Queue.Color.{migqueue_color-eq}
use memif_user_release.Queue.Recolor.{set_color-Repainted, Recolored-Steady}
use memif_user_release.Queue.Take.{mig_dequeue-some, mig_dequeue-none}
use memif_user_release.Queue.Forward.{Steady, Steady-trans}
use memif_user_release.Driver.{Kernel, submissions}
use memif_user_release.Driver.Work.{Next, stop, serve, next_desc, next_request, give_back}

-- The requests of the queue that belong to the kernel, and those that it leaves to the user: a
-- queue in the user's color is not touched.
abbrev pub of_kernel : QueueView → List Payload
of_kernel x = if x.color == color_usr then [] else contents x

abbrev pub of_user : QueueView → List Payload
of_user x = if x.color == color_usr then contents x else []

-- What the kernel thread has to do.
abbrev pub pending : View → List Payload
pending v = contents (v.queue issued) ++ of_kernel (v.queue req)

-- The thread has served all of it, in order, with one transfer each; the user has the queue.
pub record Finished (v : View) (k : Kernel) (v' : View) (k' : Kernel) : Type 0 where
  pub steady : Steady v k.region v' k'.region
  pub served : contents (v'.queue comp) ≡ contents (v.queue comp) ++ pending v
  pub none_issued : contents (v'.queue issued) ≡ []
  pub left : contents (v'.queue req) ≡ of_user (v.queue req)
  pub color : (v'.queue req).color ≡ color_usr
  pub submissions : submissions k'.trace ≡ submissions k.trace + length (pending v)

-- One request served.
pub record Progress (v : View) (k : Kernel) (v' : View) (k' : Kernel) : Type 0 where
  pub steady : Steady v k.region v' k'.region
  pub element : Payload
  pub pending : pending v ≡ element ∷ pending v'
  pub comp : contents (v'.queue comp) ≡ contents (v.queue comp) ++ element ∷ []
  pub user : of_user (v'.queue req) ≡ of_user (v.queue req)
  pub submissions : submissions k'.trace ≡ submissions k.trace + 1

pub Progress-Finished :
    {v v' v'' : View} {k k' k'' : Kernel}
    → Progress v k v' k'
    → Finished v' k' v'' k''
    → Finished v k v'' k''
Progress-Finished {v} {v'} p f = record {
  steady = Steady-trans p.steady f.steady;
  served =
      f.served
      ∙ ap (λ l. l ++ pending v') p.comp
      ∙ append_assoc (contents (v.queue comp)) (p.element ∷ []) (pending v')
      ∙ ap (λ l. contents (v.queue comp) ++ l) (sym p.pending);
  none_issued = f.none_issued;
  left = f.left ∙ p.user;
  color = f.color;
  submissions = omega (arith, f.submissions, p.submissions, ap length p.pending);
}

-- What a round finds: all done, or the next descriptor, taken from one of the two queues.
pub data Found (v : View) (r : Region) : Next → Region → Type 0 where
  over :
      {v' : View} {r' : Region}
      → pending v ≡ []
      → Steady v r v' r'
      → v'.queue comp ≡ v.queue comp
      → contents (v'.queue issued) ≡ []
      → contents (v'.queue req) ≡ of_user (v.queue req)
      → (v'.queue req).color ≡ color_usr
      → Found v r stop r'
  from_issued :
      {desc : ℕ} {v' : View} {r' : Region}
      → Dequeued issued desc v r v' r'
      → Found v r (serve desc) r'
  from_req :
      {desc : ℕ} {v' : View} {r' : Region}
      → (color : ((v.queue req).color == color_usr) ≡ false) → contents (v.queue issued) ≡ []
      → Dequeued req desc v r v' r'
      → Found v r (serve desc) r'

module _ (fuel junk : ℕ) (enough : 2 ≤ fuel) {v : View} {r : Region} (w : IsWellFormed v r)
    (some_spare : 0 < length v.spare) where
  give_back-Found :
      ((v.queue req).color == color_usr) ≡ false
      → contents (v.queue issued) ≡ []
      → contents (v.queue req) ≡ []
      → Yields (Found v r) (give_back fuel none r)
  give_back-Found ker idle ends =
      then-Yields
        (set_color-Repainted fuel req color_usr (omega (arith, enough)) w (omega arith) ends)
        λ c r' (fine, old, v', p). rw fine (
          yields (
            over (ground (arith, idle, ker, ends)) (Recolored-Steady p) (p.others comp (λ e. cc))
              (ap contents (p.others issued (λ e. cc)) ∙ idle) (p.contents ∙ ground (arith, ker))
              p.color))

  request_ker-Found :
      ((v.queue req).color == color_usr) ≡ false
      → contents (v.queue issued) ≡ []
      → Yields (Found v r) (◌>>=◌ (mig_dequeue fuel junk req) (give_back fuel) r)
  request_ker-Found ker idle = elim (List-cases (contents (v.queue req))) [
    | inl ends ↦
        then-Yields (mig_dequeue-none fuel junk req enough w ends)
          λ o r' (nothing, same). rw (nothing, same) (give_back-Found ker idle ends)
    | inr (x, xs, e) ↦
        then-Yields (mig_dequeue-some fuel junk req enough w some_spare (λ ends. cc (sym ends ∙ e)))
          λ o r' (desc, one, v', d). rw one (yields (from_req ker idle d))
  ]

  request-Found :
      contents (v.queue issued) ≡ [] → Yields (Found v r) (next_request fuel junk none r)
  request-Found idle = elim (Bool-cases ((v.queue req).color == color_usr)) [
    | inl usr ↦
        rw (migqueue_color-eq req w, usr)
          (yields (
            over (ground (arith, idle, usr))
              (record { well = w; size = refl; spare = refl; kept = λ a own. (own, refl) }) refl
              idle (ground (arith, usr)) (ground (arith, usr))))
    | inr ker ↦ rw (migqueue_color-eq req w, ker) (request_ker-Found ker idle)
  ]

  pub next_desc-Found : Yields (Found v r) (next_desc fuel junk r)
  unfolding next_desc
  next_desc-Found = elim (List-cases (contents (v.queue issued))) [
    | inl idle ↦
        then-Yields (mig_dequeue-none fuel junk issued enough w idle)
          λ o r' (nothing, same). rw (nothing, same) (request-Found idle)
    | inr (x, xs, e) ↦
        then-Yields
          (mig_dequeue-some fuel junk issued enough w some_spare (λ ends. cc (sym ends ∙ e)))
          λ o r' (desc, one, v', d). rw one (yields (from_issued d))
  ]
