-- ===== src/Aufs/Tight.antt =====
-- The range of branches from the first with a hidden object to the last, which aufs/fs/aufs/dinfo.c
-- and iinfo.c look for with the same two loops.
use kernel_patches.Base.{
  ℕ, ◌+◌, ◌≤◌, ◌<◌, ◌≡◌, ◌⊎◌, inl, inr, refl, Bool, true, false, Option, none, some, first_down,
  first_down_lem, IsLowest, IsHighest, arith,
}

module _ (p : ℕ → Bool) (e : ℕ) where
  -- Of the branches up to `e`, none passes and there is no range, or the range runs from the first
  -- that passes to the last.
  abbrev pub IsTightRange : (bstart bend : Option ℕ) → Type 0
  IsTightRange bstart bend =
      ((bstart ≡ none) × (bend ≡ none) × ((i : ℕ) → i ≤ e → p i ≡ false))
      ⊎ ((first : ℕ) × (last : ℕ) × (bstart ≡ some first)
          × (bend ≡ some last)
          × (last ≤ e)
          × (p first ≡ true)
          × (p last ≡ true)
          × ((i : ℕ) → i < first → p i ≡ false)
          × ((i : ℕ) → last < i → i ≤ e → p i ≡ false))

  last_passing :
      (k : ℕ)
      → p k ≡ true
      → k ≤ e
      → (r : Option ℕ) → IsHighest p 0 (e + 1) r
      → (l : ℕ) × (r ≡ some l) × (l ≤ e) × (p l ≡ true) × ((i : ℕ) → l < i → i ≤ e → p i ≡ false)
  last_passing k t h none none_up = cc (none_up k (omega arith) (omega arith))
  last_passing k t h (some l) (_, b, c, f) = (l, refl, omega arith, c, λ i u w. f i u (omega arith))

  pub range_none : IsLowest p 0 (e + 1) none → IsTightRange none none
  range_none low = inl (refl, refl, λ i h. low i (omega arith) (omega arith))

  pub range_some :
      (k : ℕ) → IsLowest p 0 (e + 1) (some k) → IsTightRange (some k) (first_down p (e + 1) 0)
  range_some k (_, b, c, f) =
      let (l, is, le, t, after) =
        last_passing k c (omega arith) (first_down p (e + 1) 0)
          (first_down_lem p (e + 1) 0 (e + 1) (omega arith)) in
      inr (k, l, refl, is, le, c, t, (λ i h. f i (omega arith) h), after)
