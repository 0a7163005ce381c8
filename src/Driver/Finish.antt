-- ===== src/Driver/Finish.antt =====
-- The kernel thread serves everything that it may serve, in order, and ends.
use mathlib.Core.List.{append-nil}
use memif_user_release.Base.{
  ℕ, zero, suc, ◌+◌, ◌≡◌, refl, ◌<◌, ◌≤◌, List, [], ◌∷◌, ◌++◌, length, false, arith, sym, ◌∙◌, ap,
  ap₂, ◌==◌, if◌then◌else◌,
}
use memif_user_release.Desc.{DescPtr, color_usr}
use memif_user_release.Region.{req, issued, comp}
use memif_user_release.Region.Run.{
  loop, Turn, again, finish, Yields, yields, then-Yields, Yields-mono, turn-Yields,
}
use memif_user_release.Region.View.{View, Payload, contents, IsWellFormed}
use memif_user_release.Queue.Forward.{Forwarded}
use memif_user_release.Driver.{IssueFunc, Kernel, Calls, Behaves, submissions, on_region-Yields}
use memif_user_release.Driver.Work.{
  Next, stop, retry, serve, next_desc, work_on, work_turn, kernel_flush_work,
}
use memif_user_release.Driver.Serve.{serve_desc-Forwarded}
use memif_user_release.Driver.Next.{
  of_kernel, of_user, pending, Finished, Progress, Progress-Finished, Found, over, from_issued,
  from_req, next_desc-Found,
}

-- One round of the work.
abbrev Round : ℕ → View → Kernel → Turn (Unit {0}) (Unit {0}) → Kernel → Type 0
Round fuel v k (finish _) k' = (v' : View) × Finished v k v' k'
Round fuel v k (again _) k' =
    (v' : View) × Progress v k v' k' × (length (v'.queue comp).beyond < fuel)

from_issued-Progress :
    {v v' : View} {k k' : Kernel}
    → Forwarded issued comp v k.region v' k'.region
    → submissions k'.trace ≡ submissions k.trace + 1
    → Progress v k v' k'
from_issued-Progress {v} {v'} f one =
    let same = f.others req (λ e. cc) (λ e. cc) in
    record {
      steady = f.steady;
      element = f.element;
      pending = ap₂ ◌++◌ f.from (ap of_kernel (sym same));
      comp = f.to;
      user = ap of_user same;
      submissions = one;
    }

from_req-Progress :
    {v v' : View} {k k' : Kernel}
    → ((v.queue req).color == color_usr) ≡ false
    → contents (v.queue issued) ≡ []
    → Forwarded req comp v k.region v' k'.region
    → submissions k'.trace ≡ submissions k.trace + 1
    → Progress v k v' k'
from_req-Progress {v} {v'} ker idle f one =
    let idle' : contents (v'.queue issued) ≡ [] =
      ap contents (f.others issued (λ e. cc) (λ e. cc)) ∙ idle in
    let ker' : ((v'.queue req).color == color_usr) ≡ false =
      ap (λ c. c == color_usr) (f.color req) ∙ ker in
    record {
      steady = f.steady;
      element = f.element;
      pending =
          ap₂ (λ l c. l ++ (if c then [] else contents (v.queue req))) idle ker
          ∙ f.from
          ∙ sym (
              ap₂ (λ l c. f.element ∷ (l ++ (if c then [] else contents (v'.queue req)))) idle'
                ker');
      comp = f.to;
      user =
          ap (λ c. if c then contents (v'.queue req) else []) ker'
          ∙ sym (ap (λ c. if c then contents (v.queue req) else []) ker);
      submissions = one;
    }

module _ (fuel junk : ℕ) (link : DescPtr) (calls : Calls) (func : IssueFunc) (b : Behaves calls)
    (enough : 2 ≤ fuel) where
  work_on-Round :
      {v : View} (k k' : Kernel) (next : Next)
      → length (v.queue comp).beyond < fuel
      → k'.trace ≡ k.trace
      → Found v k.region next k'.region
      → Yields (Round fuel v k) (work_on fuel link calls func next k')
  work_on-Round {v} k k' stop lag still (over {v'} idle s served rest left color) = yields (
    v',
    record {
      steady = s;
      served =
          ap contents served
          ∙ sym (append-nil (contents (v.queue comp)))
          ∙ ap (λ l. contents (v.queue comp) ++ l) (sym idle);
      none_issued = rest;
      left = left;
      color = color;
      submissions = ap submissions still ∙ omega (arith, ap length idle);
    },
  )
  work_on-Round k k' retry lag still found = elim found [ ]
  work_on-Round k k' (serve desc) lag still (from_issued d) =
      then-Yields (serve_desc-Forwarded calls b fuel link func k' (λ e. cc) d lag)
        λ _ k'' (v'', f, lag', one).
          yields (v'', from_issued-Progress f (one ∙ ap (λ t. submissions t + 1) still), lag')
  work_on-Round k k' (serve desc) lag still (from_req ker idle d) =
      then-Yields (serve_desc-Forwarded calls b fuel link func k' (λ e. cc) d lag)
        λ _ k'' (v'', f, lag', one).
          yields (v'', from_req-Progress ker idle f (one ∙ ap (λ t. submissions t + 1) still), lag')

  work_turn-Round :
      {v : View} {k : Kernel}
      → IsWellFormed v k.region
      → 0 < length v.spare
      → length (v.queue comp).beyond < fuel
      → Yields (Round fuel v k) (work_turn fuel junk link calls func tt k)
  unfolding work_turn
  work_turn-Round {k} w some_spare lag =
      then-Yields
        (on_region-Yields (next_desc fuel junk) k (next_desc-Found fuel junk enough w some_spare))
        λ next k' (found, still). work_on-Round k k' next lag still found

  work-Finished :
      (n : ℕ) (xs : List Payload) {v : View} {k : Kernel}
      → pending v ≡ xs
      → length xs < n
      → IsWellFormed v k.region
      → 0 < length v.spare
      → length (v.queue comp).beyond < fuel
      → Yields
          (λ _ k'. (v' : View) × Finished v k v' k')
          (loop n (work_turn fuel junk link calls func) tt k)
  work-Finished zero xs e few w some_spare lag = absurd (omega (arith, few))
  work-Finished (suc n) [] e few w some_spare lag =
      turn-Yields (work_turn fuel junk link calls func) n (work_turn-Round w some_spare lag)
        (λ _ k' (v', p, lag'). absurd (cc (sym e ∙ p.pending))) (λ _ k' done. done)
  work-Finished (suc n) (x ∷ xs) e few w some_spare lag =
      turn-Yields (work_turn fuel junk link calls func) n (work_turn-Round w some_spare lag)
        (λ _ k' (v', p, lag').
          Yields-mono
            (work-Finished n xs (cc (sym p.pending ∙ e)) (omega (arith, few)) p.steady.well
              (omega (arith, some_spare, p.steady.spare)) lag')
            λ _ k'' (v'', f). (v'', Progress-Finished p f))
        (λ _ k' done. done)

  -- On a well-formed region, where the free list has a descriptor and the calls behave, and the
  -- fuel is more than the requests pending and than the nodes by which the tail of the completion
  -- queue lags, the kernel thread ends without stopping at an assertion. It has completed, in
  -- order, all issued requests and, where the request queue is not in the user's color, all of that
  -- queue, with one transfer for each; no request is left that it may touch; and the queue has the
  -- user's color.
  pub kernel_flush_work-Finished :
      {v : View} {k : Kernel}
      → IsWellFormed v k.region
      → 0 < length v.spare
      → length (pending v) < fuel
      → length (v.queue comp).beyond < fuel
      → Yields
          (λ _ k'. (v' : View) × Finished v k v' k')
          (kernel_flush_work fuel junk link calls func k)
  unfolding kernel_flush_work
  kernel_flush_work-Finished {v} {k} w some_spare few lag =
      Yields-mono (work-Finished fuel (pending v) refl few w some_spare lag) λ _ k' (v', f). (
        v',
        record {
          steady = f.steady;
          served = f.served;
          none_issued = f.none_issued;
          left = f.left;
          color = f.color;
          submissions = f.submissions;
        },
      )
