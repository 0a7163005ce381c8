-- ===== src/Driver/Drain.antt =====
-- The loop of `user_flush` that moves the requests on to the issued queue.
use mathlib.Core.List.{append_assoc, append-nil}
use memif_user_release.Base.{
  ℕ, zero, suc, ◌≡◌, ◌≢◌, refl, ◌<◌, ◌≤◌, List, [], ◌∷◌, ◌++◌, Option, some, none, sym, ◌∙◌, ap,
  arith, length,
}
use memif_user_release.Desc.{DescPtr}
use memif_user_release.Region.{QueueId, req, issued, comp, Region}
use memif_user_release.Region.Run.{
  loop, Turn, again, finish, Yields, yields, then-Yields, Yields-mono, turn-Yields,
}
use memif_user_release.Region.View.{QueueView, View, Payload, contents, IsWellFormed}
use memif_user_release.Queue.{mig_enqueue}
use memif_user_release.Queue.Copy.{Dequeued}
use memif_user_release.Queue.Dequeue.{Taken, mig_dequeue-Taken}
use memif_user_release.Queue.Take.{not_nil}
use memif_user_release.Queue.Enqueue.{mig_enqueue-Delivered}
use memif_user_release.Queue.Forward.{Steady, Steady-trans, Forwarded, forward-Forwarded}
use memif_user_release.Driver.Flush.{move_turn, move_issued}

-- The second half of a forwarding: the element that was taken goes into `p`.
pub forward_enqueue :
    (fuel : ℕ) (link : DescPtr) {q p : QueueId} {ret : ℕ} {v v' : View} {r r' : Region}
    → q ≢ p
    → Dequeued q ret v r v' r'
    → length (v.queue p).beyond < fuel
    → Yields
        (λ c r''. (v'' : View) × Forwarded q p v r v'' r'' × (length (v''.queue p).beyond < fuel))
        (mig_enqueue fuel link p ret r')
forward_enqueue fuel link {p} {ret} apart d lag =
    Yields-mono
      (mig_enqueue-Delivered fuel link p ret d.well d.taken (omega (arith, d.size, d.inside))
        (omega (arith, lag, ap (λ (x : QueueView). length x.beyond) (d.others p apart))))
      λ c r'' (tint, v'', e, at, end).
        (v'', forward-Forwarded apart d e, omega (arith, lag, ap length end))

-- All requests are issued, in order; the queues keep their colors.
pub record Moved (v : View) (r : Region) (v' : View) (r' : Region) : Type 0 where
  pub steady : Steady v r v' r'
  pub issued : contents (v'.queue issued) ≡ contents (v.queue issued) ++ contents (v.queue req)
  pub none_left : contents (v'.queue req) ≡ []
  pub color : (x : QueueId) → (v'.queue x).color ≡ (v.queue x).color
  pub comp : v'.queue comp ≡ v.queue comp

unmoved : {v : View} {r : Region} → IsWellFormed v r → contents (v.queue req) ≡ [] → Moved v r v r
unmoved {v} w ends = record {
  steady = record { well = w; size = refl; spare = refl; kept = λ a own. (own, refl) };
  issued =
      sym (append-nil (contents (v.queue issued)))
      ∙ ap (λ l. contents (v.queue issued) ++ l) (sym ends);
  none_left = ends;
  color = λ x. refl;
  comp = refl;
}

Forwarded-Moved :
    {v v' v'' : View} {r r' r'' : Region}
    → Forwarded req issued v r v' r'
    → Moved v' r' v'' r''
    → Moved v r v'' r''
Forwarded-Moved {v} {v'} f m = record {
  steady = Steady-trans f.steady m.steady;
  issued =
      m.issued
      ∙ ap (λ l. l ++ contents (v'.queue req)) f.to
      ∙ append_assoc (contents (v.queue issued)) (f.element ∷ []) (contents (v'.queue req))
      ∙ ap (λ l. contents (v.queue issued) ++ l) (sym f.from);
  none_left = m.none_left;
  color = λ x. m.color x ∙ f.color x;
  comp = m.comp ∙ f.others comp (λ e. cc) (λ e. cc);
}

-- What one turn of the loop does.
abbrev Turned : ℕ → View → Region → Turn (Unit {0}) (Unit {0}) → Region → Type 0
Turned fuel v r (finish _) r' = (contents (v.queue req) ≡ []) × (r' ≡ r)
Turned fuel v r (again _) r' =
    (v' : View) × Forwarded req issued v r v' r' × (length (v'.queue issued).beyond < fuel)

move_issued-Turned :
    (fuel : ℕ) (link : DescPtr) {v : View} {r : Region}
    → length (v.queue issued).beyond < fuel
    → (o : Option ℕ) (r' : Region) → Taken req v r o r'
    → Yields (Turned fuel v r) (move_issued fuel link o r')
move_issued-Turned fuel link lag none r' t = yields t
move_issued-Turned fuel link lag (some desc) r' (v', d) =
    then-Yields (forward_enqueue fuel link {q = req} {p = issued} (λ e. cc) d lag)
      λ c r'' f. yields f

module _ (fuel junk : ℕ) (link : DescPtr) (enough : 2 ≤ fuel) where
  move_turn-Turned :
      {v : View} {r : Region}
      → IsWellFormed v r
      → 0 < length v.spare
      → length (v.queue issued).beyond < fuel
      → Yields (Turned fuel v r) (move_turn fuel junk link tt r)
  unfolding move_turn
  move_turn-Turned {v} w some_spare lag =
      then-Yields (mig_dequeue-Taken fuel junk req w (λ _. not_nil v.spare some_spare) enough)
        (move_issued-Turned fuel link lag)

  pub move_all-Moved :
      (n : ℕ) (xs : List Payload) {v : View} {r : Region}
      → contents (v.queue req) ≡ xs
      → length xs < n
      → IsWellFormed v r
      → 0 < length v.spare
      → length (v.queue issued).beyond < fuel
      → Yields (λ _ r'. (v' : View) × Moved v r v' r') (loop n (move_turn fuel junk link) tt r)
  move_all-Moved zero xs e few w some_spare lag = absurd (omega (arith, few))
  move_all-Moved (suc n) [] {v} {r} e few w some_spare lag =
      turn-Yields (move_turn fuel junk link) n (move_turn-Turned w some_spare lag)
        (λ _ r' (v', f, lag'). absurd (cc (sym e ∙ f.from)))
        (λ _ r' (ends, same). rw same (v, unmoved w ends))
  move_all-Moved (suc n) (x ∷ xs) {v} {r} e few w some_spare lag =
      turn-Yields (move_turn fuel junk link) n (move_turn-Turned w some_spare lag)
        (λ _ r' (v', f, lag').
          Yields-mono
            (move_all-Moved n xs (cc (sym f.from ∙ e)) (omega (arith, few)) f.steady.well
              (omega (arith, some_spare, f.steady.spare)) lag')
            λ _ r'' (v'', m). (v'', Forwarded-Moved f m))
        (λ _ r' (ends, same). absurd (cc (sym ends ∙ e)))
