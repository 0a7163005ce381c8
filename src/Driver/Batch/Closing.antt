-- ===== src/Driver/Batch/Closing.antt =====
-- The end of the loop of the older flushing: an empty queue may change its color.
use mathlib.Core.List.{append-nil, append_assoc}
use memif_user_release.Base.{
  ℕ, ◌≡◌, refl, ◌≤◌, Bool, true, false, not, ◌&&◌, ◌||◌, List, [], ◌∷◌, ◌++◌, if◌then◌else◌, ◌==◌,
  sym, ◌∙◌, ap, arith, Bool-cases, inl, inr,
}
use memif_user_release.Desc.{color_usr, color_ker}
use memif_user_release.Region.{req, issued, comp, Region}
use memif_user_release.Region.Run.{ok, finish, Yields, yields, then-Yields}
use memif_user_release.Region.View.{View, contents, IsWellFormed}
use memif_user_release.Queue.{migqueue_is_empty, migqueue_set_color_if_empty}
use memif_user_release.Queue.Color.{Recolored}
use memif_user_release.Queue.Recolor.{set_color-Repainted, Recolored-Steady}
use memif_user_release.Queue.Forward.{Steady, Steady-trans, Forwarded}
use memif_user_release.Driver.Batch.{
  BatchEvent, woken, State, Batch, in_region-Yields, old_color, new_color, notify, end_flush,
}

-- All requests are issued, in order. The queue has a new color if the user flushed it, or if the
-- kernel found nothing in it.
pub record Closed (user : Bool) (n : ℕ) (v : View) (r : Region) (v' : View) (r' : Region)
    : Type 0 where
  pub steady : Steady v r v' r'
  pub issued : contents (v'.queue issued) ≡ contents (v.queue issued) ++ contents (v.queue req)
  pub none_left : contents (v'.queue req) ≡ []
  pub color : (v'.queue req).color ≡ (if user || n == 0 then new_color user else old_color user)
  pub comp : v'.queue comp ≡ v.queue comp

-- The wake-up at the end of a flush that leaves the region `r`.
abbrev pub notices : (user : Bool) → (n : ℕ) → Region → List BatchEvent
notices true n r = []
notices false n r = if n == 0 && not (migqueue_is_empty comp r) then woken ∷ [] else []

Recolored-Closed :
    (user : Bool) (n : ℕ) {v v' : View} {r r' : Region}
    → (user || n == 0) ≡ true
    → contents (v.queue req) ≡ []
    → Recolored req (new_color user) v r v' r'
    → Closed user n v r v' r'
Recolored-Closed user n {v} new ends c = record {
  steady = Recolored-Steady c;
  issued =
      ap contents (c.others issued (λ e. cc))
      ∙ sym (append-nil (contents (v.queue issued)))
      ∙ ap (λ l. contents (v.queue issued) ++ l) (sym ends);
  none_left = c.contents;
  color = c.color ∙ ap (λ b. if b then new_color user else old_color user) (sym new);
  comp = c.others comp (λ e. cc);
}

kept-Closed :
    (n : ℕ) {v : View} {r : Region}
    → IsWellFormed v r
    → (n == 0) ≡ false
    → contents (v.queue req) ≡ []
    → (v.queue req).color ≡ color_ker
    → Closed false n v r v r
kept-Closed n {v} w some ends ker = record {
  steady = record { well = w; size = refl; spare = refl; kept = λ a own. (own, refl) };
  issued =
      sym (append-nil (contents (v.queue issued)))
      ∙ ap (λ l. contents (v.queue issued) ++ l) (sym ends);
  none_left = ends;
  color = ker ∙ ap (λ b. if b then color_usr else color_ker) (sym some);
  comp = refl;
}

pub Forwarded-Closed :
    {user : Bool} {n : ℕ} {v v' v'' : View} {r r' r'' : Region}
    → Forwarded req issued v r v' r'
    → Closed user n v' r' v'' r''
    → Closed user n v r v'' r''
Forwarded-Closed {v} {v'} f m = record {
  steady = Steady-trans f.steady m.steady;
  issued =
      m.issued
      ∙ ap (λ l. l ++ contents (v'.queue req)) f.to
      ∙ append_assoc (contents (v.queue issued)) (f.element ∷ []) (contents (v'.queue req))
      ∙ ap (λ l. contents (v.queue issued) ++ l) (sym f.from);
  none_left = m.none_left;
  color = m.color;
  comp = m.comp ∙ f.others comp (λ e. cc) (λ e. cc);
}

notify_lem :
    (s : State)
    → notify false s
      ≡ ok tt (record s {
        events = (if not (migqueue_is_empty comp s.region) then woken ∷ [] else []) ++ s.events;
      })
notify_lem s = elim (Bool-cases (not (migqueue_is_empty comp s.region))) [
  | inl some ↦ rw some refl
  | inr nothing ↦ rw nothing refl
]

-- How the loop ends.
abbrev pub Ended : {G : Type 0} → Bool → View → State → Batch G → State → Type 0
Ended user v s b s' =
    (v' : View) × Closed user b.count v s.region v' s'.region
    × (s'.events ≡ notices user b.count s'.region ++ s.events)

pub end_flush-Ended :
    {G : Type 0} (fuel : ℕ) (user : Bool) (b : Batch G) {v : View} (s : State)
    → 1 ≤ fuel
    → IsWellFormed v s.region
    → contents (v.queue req) ≡ []
    → (v.queue req).color ≡ old_color user
    → Yields
        (λ t s'. (b' : Batch G) × (t ≡ finish b') × (b' ≡ b) × Ended user v s b s')
        (end_flush fuel user b s)
unfolding end_flush
end_flush-Ended fuel true b {v} s enough w ends old =
    then-Yields
      (in_region-Yields (migqueue_set_color_if_empty fuel req color_ker) s
        (set_color-Repainted fuel req color_ker enough w (omega arith) ends))
      λ c s' ((fine, was, v', p), still).
        let same : (c == color_usr) ≡ true = ground (arith, was, old) in
        rw (fine, same)
          (yields (b, refl, refl, (v', Recolored-Closed true b.count refl ends p, still)))
end_flush-Ended fuel false b {v} s enough w ends old = elim (Bool-cases (b.count == 0)) [
  | inl nothing ↦ rw nothing (
      then-Yields
        (in_region-Yields (migqueue_set_color_if_empty fuel req color_usr) s
          (set_color-Repainted fuel req color_usr enough w (omega arith) ends))
        λ c s' ((fine, was, v', p), still).
          let same : (c == color_ker) ≡ true = ground (arith, was, old) in
          rw (fine, same, notify_lem s')
            (yields (
              b,
              refl,
              refl,
              (
                v',
                Recolored-Closed false b.count nothing ends p,
                ap (λ es. (if not (migqueue_is_empty comp s'.region) then woken ∷ [] else []) ++ es)
                    still,
              ),
            )))
  | inr some ↦ rw some (yields (b, refl, refl, (v, kept-Closed b.count w some ends old, refl)))
]
