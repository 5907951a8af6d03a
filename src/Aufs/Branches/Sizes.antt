-- ===== src/Aufs/Branches/Sizes.antt =====
-- Moves within the arrays of aufs/fs/aufs/branch.c and the largest s_maxbytes.
use kernel_patches.Base.{
  ℕ, zero, suc, ◌+◌, ◌-◌, ◌≤◌, ◌<◌, ◌≡◌, refl, ap, sym, ◌∙◌, max, Option, none, some, ◌==◌, ltb,
  if◌then◌else◌, update, arith,
}
use native.Mathlib.Decide.{dec_lt}
use kernel_patches.Aufs.Branches.{BrInfo, largest}
use kernel_patches.Aufs.Branches.Add.{memmove_up}
use kernel_patches.Aufs.Branches.Delete.{memmove_down}

module _ {A : Type 0} (f : ℕ → A) (b n : ℕ) where
  -- An array with `v` put in at `b`.
  pub inserted_lem :
      (v : A) (j : ℕ)
      → b ≤ n
      → j ≤ n
      → update (memmove_up f b n) b v j ≡ (if b == j then v else if ltb j b then f j else f (j - 1))
  unfolding update memmove_up
  inserted_lem v j l h = ground arith

  pub inserted_beyond : (v : A) (j : ℕ) → b ≤ n → n < j → update (memmove_up f b n) b v j ≡ f j
  unfolding update memmove_up
  inserted_beyond v j l h = ground arith

  -- An array without its entry at `b`, the last entry being `n`.
  pub removed_lem :
      (v : A) (j : ℕ)
      → j < n
      → update (memmove_down f b n) n v j ≡ (if ltb j b then f j else f (j + 1))
  unfolding update memmove_down
  removed_lem v j h = ground arith

  pub removed_last : (v : A) → update (memmove_down f b n) n v n ≡ v
  unfolding update memmove_down
  removed_last v = ground arith

  pub removed_beyond : (v : A) (j : ℕ) → n < j → update (memmove_down f b n) n v j ≡ f j
  unfolding update memmove_down
  removed_beyond v j h = ground arith

-- The s_maxbytes of a branch.
abbrev pub bytes : Option BrInfo → ℕ
bytes none = 0
bytes (some br) = br.s_maxbytes

pub largest-suc :
    (f : ℕ → Option BrInfo) (n : ℕ) → largest f (suc n) ≡ max (largest f n) (bytes (f n))
unfolding largest
largest-suc f n = ground arith

module _ (f g : ℕ → Option BrInfo) (b : ℕ) where
  -- Below the place where two arrays differ.
  largest_below : (k : ℕ) → k ≤ b → ((j : ℕ) → j < b → g j ≡ f j) → largest g k ≡ largest f k
  unfolding largest
  largest_below zero l same = refl
  largest_below (suc k) l same = ground (
    arith,
    largest_below k (omega arith) same,
    same k (omega arith),
    largest-suc f k,
    largest-suc g k,
  )

  -- Up to `k + 1` an array with an entry more at `b` has the larger of what it had and the entry's.
  pub largest_inserted :
      (k n : ℕ)
      → b ≤ k
      → k ≤ n
      → ((j : ℕ) → j ≤ n → j < b → g j ≡ f j)
      → ((j : ℕ) → j ≤ n → b < j → g j ≡ f (j - 1))
      → largest g (suc k) ≡ max (largest f k) (bytes (g b))
  largest_inserted zero n l h below above =
      let e : b ≡ 0 = omega arith in
      largest-suc g 0
      ∙ ap (λ x. max x (bytes (g 0)))
          (largest_below 0 (omega arith) (λ j a. below j (omega arith) a))
      ∙ ap (λ x. max (largest f 0) (bytes (g x))) (sym e)
  largest_inserted (suc k) n l h below above = elim (dec_lt b (suc k)) [
    | yes a ↦
        let rest = largest_inserted k n (omega arith) (omega arith) below above in
        let e : g (suc k) ≡ f k = above (suc k) h a ∙ ap f (omega arith) in
        let e' = ap bytes e in omega (arith, largest-suc g (suc k), largest-suc f k, rest, e')
    | no a ↦
        let e : suc k ≡ b = omega arith in
        largest-suc g (suc k)
        ∙ ap (λ x. max x (bytes (g (suc k))))
            (largest_below (suc k) (omega arith) (λ j c. below j (omega arith) c))
        ∙ ap (λ x. max (largest f (suc k)) (bytes (g x))) e
  ]
