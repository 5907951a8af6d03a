-- ===== src/Aufs/Branches/Add/Arrays.antt =====
-- An array in which au_br_add (aufs/fs/aufs/branch.c) has put an entry in.
use kernel_patches.Base.{
  ℕ, ◌+◌, ◌-◌, ◌≤◌, ◌<◌, ◌≡◌, ◌≢◌, inl, inr, ap, sym, ◌∙◌, ltb, if◌then◌else◌, eq-cases, update,
  arith,
}
use kernel_patches.Aufs.Branches.Sizes.{inserted_lem}
use kernel_patches.Aufs.Branches.Add.{memmove_up}

-- The place of an old branch after one was put in at `b`.
abbrev pub moved_up : (b i : ℕ) → ℕ
moved_up b i = if ltb i b then i else i + 1

-- The place that an entry comes from.
abbrev pub from : (b j : ℕ) → ℕ
from b j = if ltb j b then j else j - 1

pub inserted_other :
    {A : Type 0} (f : ℕ → A) (b n : ℕ) (v : A) (j : ℕ)
    → b ≤ n
    → j ≤ n
    → b ≢ j
    → update (memmove_up f b n) b v j ≡ f (from b j)
inserted_other f b n v j l h ne = inserted_lem f b n v j l h ∙ ground arith

pub inserted_self :
    {A : Type 0} (f : ℕ → A) (b n : ℕ) (v : A) → b ≤ n → update (memmove_up f b n) b v b ≡ v
inserted_self f b n v l = inserted_lem f b n v b l l ∙ ground arith

pub inserted_moved :
    {A : Type 0} (f : ℕ → A) (b n : ℕ) (v : A) (i : ℕ)
    → b ≤ n
    → i < n
    → update (memmove_up f b n) b v (moved_up b i) ≡ f i
inserted_moved f b n v i l h =
    inserted_other f b n v (moved_up b i) l (ground arith) (ground arith) ∙ ap f (ground arith)

-- Entries that are not related to each other, nor to the new one, in either order.
pub inserted_unique :
    {A : Type 0} (R : A → A → Type 0) (f : ℕ → A) (b n : ℕ) (v : A)
    → b ≤ n
    → ((i j : ℕ) → i < n → j < n → R (f i) (f j) → i ≡ j)
    → ((i : ℕ) → i < n → R (f i) v → ⊥)
    → ((i : ℕ) → i < n → R v (f i) → ⊥)
    → (i j : ℕ) → i ≤ n
    → j ≤ n
    → R (update (memmove_up f b n) b v i) (update (memmove_up f b n) b v j)
    → i ≡ j
inserted_unique R f b n v l unique left right i j li lj r =
    let g = update (memmove_up f b n) b v in
    let old : (k : ℕ) → k ≤ n → b ≢ k → g k ≡ f (from b k) = λ k. inserted_other f b n v k l in
    let self = inserted_self f b n v l in
    elim (eq-cases b i) [
      | inl ei ↦ elim (eq-cases b j) [
        | inl ej ↦ sym ei ∙ ej
        | inr nj ↦
            let e : g i ≡ v = ap g (sym ei) ∙ self in
            absurd (right (from b j) (ground arith) (rw (e, old j lj nj) at r))
      ]
      | inr ni ↦ elim (eq-cases b j) [
        | inl ej ↦
            let e : g j ≡ v = ap g (sym ej) ∙ self in
            absurd (left (from b i) (ground arith) (rw (old i li ni, e) at r))
        | inr nj ↦
            let same =
              unique (from b i) (from b j) (ground arith) (ground arith)
                (rw (old i li ni, old j lj nj) at r) in
            ground arith
      ]
    ]
