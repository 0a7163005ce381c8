-- ===== src/Edma/Geometry/Fits.antt =====
-- The search of `get_xfer_geometry` finds the least number of arrays.
use memif_user_release.Base.{
  ℕ, zero, suc, ◌*◌, ◌/◌, ◌%◌, ◌^◌, ◌≤◌, ◌<◌, ◌≡◌, Bool, true, false, not, Option, none, some, ltb,
  leb, lt→ltb, ◌==◌, ◌||◌, arith, ◌∙◌, refl, ◌↔◌, Bool-cases, inl, inr, ◌⊎◌,
}
use memif_user_release.Region.Run.{ok, bug, again, finish, loop, loop-finish, loop-again}
use memif_user_release.Edma.Geometry.{
  Sync, sync_a, sync_ab, Geometry, geometry, narrays_turn, indices, get_xfer_geometry,
}

abbrev pub doubled : ℕ → ℕ
doubled zero = 1
doubled (suc k) = doubled k * 2

-- So many arrays of equal size hold the bytes, each within the reach of a 16-bit signed index.
abbrev pub Splits : ℕ → ℕ → Type 0
Splits size n = (size % n ≡ 0) × (size / n < 2 ^ 15)

-- The least number of arrays among the next `r` doublings of `n`, if there is one.
abbrev pub Least : ℕ → ℕ → ℕ → Option ℕ → Type 0
Least size n r none = (k : ℕ) → k < r → ¬ (Splits size (n * doubled (suc k)))
Least size n r (some m) =
    (k : ℕ) × (k < r)
    × (m ≡ n * doubled (suc k))
    × Splits size m
    × ((j : ℕ) → j < k → ¬ (Splits size (n * doubled (suc j))))

doubled_pos : (k : ℕ) → 1 ≤ doubled k
doubled_pos zero = omega arith
doubled_pos (suc k) = omega (arith, doubled_pos k)

shift : (n k : ℕ) → n * 2 * doubled k ≡ n * (doubled k * 2)
shift n k = grind arith

module _ (size n r : ℕ) (first : ¬ (Splits size (n * 2))) where
  -- None of the first `k`, if neither the first nor those behind it.
  behind :
      (k : ℕ)
      → ((j : ℕ) → j < k → ¬ (Splits size (n * 2 * doubled (suc j))))
      → (j : ℕ) → j < suc k
      → ¬ (Splits size (n * doubled (suc j)))
  behind k rest zero lt = first
  behind k rest (suc j) lt = rw (← shift n (suc j)) (rest j (omega arith))

  Least-cons : (out : Option ℕ) → Least size (n * 2) r out → Least size n (suc r) out
  Least-cons none rest = behind r rest
  Least-cons (some m) (k, lt, e, fits, least) =
      (suc k, omega arith, e ∙ shift n (suc k), fits, behind k least)

-- `Splits` as the code tests it.
splits : ℕ → ℕ → Bool
splits size n = not (not (size % n == 0) || leb 0x8000 (size / n))

Splits-iff : (size n : ℕ) → (splits size n ≡ true) ↔ Splits size n
unfolding splits
Splits-iff size n = ground arith

half : (n d : ℕ) → n * (d * 2) ≡ 0x10000 → 1 ≤ d → n ≤ 0x8000
half n zero e pos = absurd (omega arith)
half n (suc d) e pos = grind arith

module _ {S : Type 0} (size : ℕ) (s : S) where
  turn-again :
      (n : ℕ)
      → n ≤ 0x8000
      → splits size (n * 2) ≡ false
      → narrays_turn size n s ≡ ok (again (n * 2)) s
  unfolding narrays_turn splits
  turn-again n small no_fit = ground arith

  turn-finish :
      (n : ℕ)
      → n ≤ 0x8000
      → splits size (n * 2) ≡ true
      → narrays_turn size n s ≡ ok (finish (some (n * 2))) s
  unfolding narrays_turn splits
  turn-finish n small fit = ground arith

  turn-none : narrays_turn size 0x10000 s ≡ ok (finish none) s
  unfolding narrays_turn
  turn-none = refl

  -- The search stops within the doublings that are left, with the least number.
  search-Least :
      (r n : ℕ)
      → n * doubled r ≡ 0x10000
      → (out : Option ℕ) × (loop (suc r) (narrays_turn size) n s ≡ ok out s) × Least size n r out
  search-Least zero n e =
      let at : n ≡ 0x10000 = omega arith in
      (none, rw at (loop-finish (narrays_turn size) 0 turn-none), λ k lt. absurd (omega arith))
  search-Least (suc r) n e = elim (Bool-cases (splits size (n * 2))) [
    | inl fit ↦ (
      some (n * 2),
      loop-finish (narrays_turn size) (suc r) (turn-finish n small fit),
      (0, omega arith, omega arith, (Splits-iff size (n * 2)).0 fit, λ j lt. absurd (omega arith)),
    )
    | inr no_fit ↦
        let (out, run, least) = search-Least r (n * 2) (shift n r ∙ e) in
        (
          out,
          loop-again (narrays_turn size) (suc r) (turn-again n small no_fit) ∙ run,
          Least-cons size n r (λ f. cc ((Splits-iff size (n * 2)).1 f)) out least,
        )
  ]
    where
      small : n ≤ 0x8000
      small = half n (doubled r) e (doubled_pos r)

-- The number of arrays: one for less than 64K, else the least power of two.
abbrev pub Chosen : ℕ → Geometry → Type 0
Chosen size g =
    ((size < 2 ^ 16) × (g.sync ≡ sync_a) × (g.bcnt ≡ 1))
    ⊎ ((2 ^ 16 ≤ size) × (g.sync ≡ sync_ab) × Least size 1 16 (some g.bcnt))

-- The arrays hold all bytes, in a single frame; several arrays are within the reach of a signed
-- 16-bit index, and one is of less than 64K. The index is from one array to the next.
pub record Fits (size : ℕ) (g : Geometry) : Type 0 where
  pub all : g.acnt * g.bcnt ≡ size
  pub narrow : g.acnt < 2 ^ 16
  pub reach : 1 < g.bcnt → g.acnt < 2 ^ 15
  pub index : g.bidx ≡ g.acnt
  pub reload : g.brcnt ≡ g.bcnt
  pub frames : g.ccnt ≡ 1
  pub chosen : Chosen size g

indices-ok :
    {S : Type 0} (s : S) (mode : Sync) (acnt bcnt : ℕ)
    → (1 < bcnt → acnt < 2 ^ 15)
    → indices (geometry mode acnt bcnt) s ≡ ok (geometry mode acnt bcnt) s
unfolding indices
indices-ok s mode acnt bcnt reach = ground arith

-- An even number of arrays holds all bytes.
exact : (size n : ℕ) → 0 < n → size % n ≡ 0 → size / n * n ≡ size
exact size n pos e = grind arith

module _ {S : Type 0} (size : ℕ) (s : S) where
  one_array : size < 2 ^ 16 → (g : Geometry) × (get_xfer_geometry 17 size s ≡ ok g s) × Fits size g
  unfolding get_xfer_geometry
  one_array small = (
    geometry sync_a size 1,
    rw (lt→ltb size (2 ^ 16) small) (indices-ok s sync_a size 1 (λ lt. absurd (omega arith))),
    record {
      all = omega arith;
      narrow = small;
      reach = λ lt. absurd (omega arith);
      index = refl;
      reload = refl;
      frames = refl;
      chosen = inl (small, refl, refl);
    },
  )

  several :
      (m : ℕ)
      → 2 ^ 16 ≤ size
      → loop 17 (narrays_turn size) 1 s ≡ ok (some m) s
      → Least size 1 16 (some m)
      → (g : Geometry) × (get_xfer_geometry 17 size s ≡ ok g s) × Fits size g
  unfolding get_xfer_geometry
  several m large run least =
      let (k, lt, e, fits, _) = least in
      let pos : 0 < m = omega (arith, doubled_pos (suc k), e) in
      (
        geometry sync_ab (size / m) m,
        rw (ltb_no, run) (indices-ok s sync_ab (size / m) m (λ lt. fits.1)),
        record {
          all = exact size m pos fits.0;
          narrow = omega (arith, fits.1);
          reach = λ lt. fits.1;
          index = refl;
          reload = refl;
          frames = refl;
          chosen = inr (large, refl, least);
        },
      )
    where
      ltb_no : ltb size 0x10000 ≡ false
      ltb_no = ground arith

  -- `get_xfer_geometry` ends, within 17 turns of its loop. It gives a geometry that holds exactly
  -- the bytes asked for, in one array below 64K, and from there on in the least number of equal
  -- arrays among the powers of two up to 65536 that makes them smaller than 32K; where there is
  -- no such number it stops at its assertion.
  pub get_xfer_geometry-Fits :
      ((g : Geometry) × (get_xfer_geometry 17 size s ≡ ok g s) × Fits size g)
      ⊎ ((get_xfer_geometry 17 size s ≡ bug) × (2 ^ 16 ≤ size) × Least size 1 16 none)
  unfolding get_xfer_geometry
  get_xfer_geometry-Fits = elim (Bool-cases (ltb size 0x10000)) [
    | inl small ↦ inl (one_array (ground arith))
    | inr large ↦ several_or_none large (search-Least size s 16 1 refl)
  ]
    where
      several_or_none :
          ltb size 0x10000 ≡ false
          → (out : Option ℕ) × (loop 17 (narrays_turn size) 1 s ≡ ok out s) × Least size 1 16 out
          → ((g : Geometry) × (get_xfer_geometry 17 size s ≡ ok g s) × Fits size g)
            ⊎ ((get_xfer_geometry 17 size s ≡ bug) × (2 ^ 16 ≤ size) × Least size 1 16 none)
      several_or_none large (none, run, least) = inr (rw (large, run) refl, ground arith, least)
      several_or_none large (some m, run, least) = inl (several m (ground arith) run least)
