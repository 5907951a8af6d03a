-- ===== src/Aufs/WbrPolicy/FreeSpace.antt =====
-- The most-free-space policy: what au_mfs measures and chooses.
use kernel_patches.Base.{
  ℕ, zero, suc, ◌+◌, ◌*◌, ◌%◌, ◌^◌, ◌≤◌, ◌<◌, ◌≡◌, inl, inr, refl, sym, ap, subst, ◌∙◌, true,
  Option, none, some, Option-cases, if◌then◌else◌, Bool-cases, arith,
}
use native.Mathlib.Decide.{dec_lt}
use kernel_patches.Aufs.{au_br_rdonly, SuperBlock}
use kernel_patches.Aufs.WbrPolicy.{
  Kernel, Statfs, no_arg, failed, avail, writable, measure, mfs_round, mfs_loop, au_mfs,
}

-- The free bytes of a branch that statfs answers for.
abbrev pub free_bytes : Statfs → Option ℕ
free_bytes no_arg = none
free_bytes failed = none
free_bytes (avail f_bavail f_bsize) = some (f_bavail * f_bsize % 2 ^ 64)

module _ (k : Kernel) (sb : SuperBlock) where
  -- The free bytes of a writable branch.
  abbrev pub candidate : ℕ → Option ℕ
  candidate j = if writable sb j then free_bytes (k.statfs j) else none

  -- Of the branches below `i`, none is a candidate, or the chosen one has the most free bytes, and
  -- more than any below it in the union.
  abbrev pub IsBest : (i : ℕ) → (chosen : Option ℕ) → (bytes : ℕ) → Type 0
  IsBest i none bytes = (bytes ≡ 0) × ((j : ℕ) → j < i → candidate j ≡ none)
  IsBest i (some c) bytes =
      (c < i)
      × (candidate c ≡ some bytes)
      × ((j v : ℕ) → j < i → candidate j ≡ some v → v ≤ bytes)
      × ((j v : ℕ) → c < j → j < i → candidate j ≡ some v → v < bytes)

  record Measured (i : ℕ) (r : SuperBlock × ℕ) : Type 0 where
    same : (j : ℕ) → writable r.0 j ≡ writable sb j
    bend : r.0.bend ≡ sb.bend
    best : IsBest i r.0.mfs.bindex r.1

  -- A branch that is no candidate changes nothing.
  IsBest-skip :
      (i bytes : ℕ) (c : Option ℕ) → candidate i ≡ none → IsBest i c bytes → IsBest (i + 1) c bytes
  IsBest-skip i bytes none e (z, all) = (
    z,
    λ j h. elim (dec_lt j i) [ yes l ↦ all j l | no g ↦ let s : j ≡ i = omega arith in rw s e ],
  )
  IsBest-skip i bytes (some c) e (lt, at_c, most, behind) = (
    omega arith,
    at_c,
    (λ j v h eq. elim (dec_lt j i) [
      | yes l ↦ most j v l eq
      | no g ↦ let s : candidate i ≡ some v = ap candidate (omega arith) ∙ eq in cc
    ]),
    λ j v u h eq. elim (dec_lt j i) [
      | yes l ↦ behind j v u l eq
      | no g ↦ let s : candidate i ≡ some v = ap candidate (omega arith) ∙ eq in cc
    ],
  )

  -- A candidate with fewer free bytes than the best so far.
  IsBest-keep :
      (i bytes v : ℕ) (c : Option ℕ)
      → candidate i ≡ some v
      → v < bytes
      → IsBest i c bytes
      → IsBest (i + 1) c bytes
  IsBest-keep i bytes v none e l (z, all) = absurd (omega arith)
  IsBest-keep i bytes v (some c) e l (lt, at_c, most, behind) = (
    omega arith,
    at_c,
    (λ j w h eq. elim (dec_lt j i) [
      | yes u ↦ most j w u eq
      | no g ↦ let s : candidate i ≡ some w = ap candidate (omega arith) ∙ eq in ground arith
    ]),
    λ j w u h eq. elim (dec_lt j i) [
      | yes d ↦ behind j w u d eq
      | no g ↦ let s : candidate i ≡ some w = ap candidate (omega arith) ∙ eq in ground arith
    ],
  )

  -- One with as many or more becomes the best.
  IsBest-new :
      (i bytes v : ℕ) (c : Option ℕ)
      → candidate i ≡ some v
      → bytes ≤ v
      → IsBest i c bytes
      → IsBest (i + 1) (some i) v
  IsBest-new i bytes v c e l b = (
    omega arith,
    e,
    (λ j w h eq. elim (dec_lt j i) [
      | yes u ↦ earlier c b j w u eq
      | no g ↦ let s : candidate i ≡ some w = ap candidate (omega arith) ∙ eq in ground arith
    ]),
    λ j w u h eq. absurd (omega arith),
  )
    where
      earlier : (c : Option ℕ) → IsBest i c bytes → (j w : ℕ) → j < i → candidate j ≡ some w → w ≤ v
      earlier none (z, all) j w u eq = cc (all j u)
      earlier (some c) (lt, at_c, most, behind) j w u eq = omega (arith, most j w u eq)

  measure-writable :
      (s : SuperBlock) (i bavail j : ℕ) → writable (measure k s i bavail).0 j ≡ writable s j
  unfolding measure writable au_br_rdonly
  measure-writable s i bavail j = ground arith

  measure-bend : (s : SuperBlock) (i bavail : ℕ) → (measure k s i bavail).0.bend ≡ s.bend
  unfolding measure
  measure-bend s i bavail = ground arith

  measure-none :
      (s : SuperBlock) (i bavail : ℕ)
      → free_bytes (k.statfs i) ≡ none
      → ((measure k s i bavail).0.mfs.bindex ≡ s.mfs.bindex) × ((measure k s i bavail).1 ≡ bavail)
  unfolding measure
  measure-none s i bavail e = ground arith

  measure_less :
      (s : SuperBlock) (i bavail v : ℕ)
      → free_bytes (k.statfs i) ≡ some v
      → v < bavail
      → ((measure k s i bavail).0.mfs.bindex ≡ s.mfs.bindex) × ((measure k s i bavail).1 ≡ bavail)
  unfolding measure
  measure_less s i bavail v e l = ground arith

  measure_more :
      (s : SuperBlock) (i bavail v : ℕ)
      → free_bytes (k.statfs i) ≡ some v
      → bavail ≤ v
      → ((measure k s i bavail).0.mfs.bindex ≡ some i) × ((measure k s i bavail).1 ≡ v)
  unfolding measure
  measure_more s i bavail v e l = ground arith

  measure_lem :
      (i : ℕ) (s : SuperBlock) (bavail : ℕ)
      → Measured i (s, bavail)
      → writable sb i ≡ true
      → Measured (i + 1) (measure k s i bavail)
  measure_lem i s bavail m w = record {
    same = λ j. measure-writable s i bavail j ∙ m.same j;
    bend = measure-bend s i bavail ∙ m.bend;
    best = best;
  }
    where
      is_candidate : candidate i ≡ free_bytes (k.statfs i)
      is_candidate = rw w

      r : SuperBlock × ℕ
      r = measure k s i bavail

      to_best :
          (c : Option ℕ) (v : ℕ)
          → (r.0.mfs.bindex ≡ c) × (r.1 ≡ v)
          → IsBest (i + 1) c v
          → IsBest (i + 1) r.0.mfs.bindex r.1
      to_best c v (e, f) b =
          subst (λ c'. IsBest (i + 1) c' r.1) (sym e) (subst (λ v'. IsBest (i + 1) c v') (sym f) b)

      best : IsBest (i + 1) r.0.mfs.bindex r.1
      best = elim (Option-cases (free_bytes (k.statfs i))) [
        | inl e ↦
            to_best s.mfs.bindex bavail (measure-none s i bavail e)
              (IsBest-skip i bavail s.mfs.bindex (is_candidate ∙ e) m.best)
        | inr (v, e) ↦ elim (dec_lt v bavail) [
          | yes l ↦
              to_best s.mfs.bindex bavail (measure_less s i bavail v e l)
                (IsBest-keep i bavail v s.mfs.bindex (is_candidate ∙ e) l m.best)
          | no g ↦
              to_best (some i) v (measure_more s i bavail v e (omega arith))
                (IsBest-new i bavail v s.mfs.bindex (is_candidate ∙ e) (omega arith) m.best)
        ]
      ]

  mfs_round_lem :
      (i : ℕ) (s : SuperBlock) (bavail : ℕ)
      → Measured i (s, bavail)
      → Measured (i + 1) (mfs_round k s i bavail)
  unfolding mfs_round
  mfs_round_lem i s bavail m = elim (Bool-cases (writable s i)) [
    | inl w ↦ rw w (measure_lem i s bavail m (sym (m.same i) ∙ w))
    | inr f ↦
        let no_candidate : candidate i ≡ none = rw (sym (m.same i) ∙ f) in
        rw f (record {
          same = m.same;
          bend = m.bend;
          best = IsBest-skip i bavail s.mfs.bindex no_candidate m.best;
        })
  ]

  mfs_loop_lem :
      (n i hi : ℕ) (s : SuperBlock) (bavail : ℕ)
      → i + n ≡ hi
      → Measured i (s, bavail)
      → Measured hi (mfs_loop k n i s bavail)
  unfolding mfs_loop
  mfs_loop_lem zero i hi s bavail e m = let e' : hi ≡ i = omega arith in rw e' m
  mfs_loop_lem (suc n) i hi s bavail e m =
      let r = mfs_round k s i bavail in
      mfs_loop_lem n (i + 1) hi r.0 r.1 (omega arith) (mfs_round_lem i s bavail m)

  -- au_mfs chooses, among the writable branches that statfs answers for, the one with the most free
  -- bytes and, of those with as many, the last; it keeps these bytes. If statfs answers for none, it
  -- chooses none and keeps 0. No branch becomes writable or read-only.
  pub au_mfs_lem :
      ((j : ℕ) → writable (au_mfs k sb) j ≡ writable sb j)
      × IsBest (sb.bend + 1) (au_mfs k sb).mfs.bindex (au_mfs k sb).mfs.rr_bytes
  unfolding au_mfs writable
  au_mfs_lem = (measured.same, measured.best)
    where
      start : SuperBlock
      start = record sb { mfs = record (sb.mfs) { bindex = none; rr_bytes = 0 } }

      measured : Measured (sb.bend + 1) (mfs_loop k (sb.bend + 1) 0 start 0)
      measured =
          mfs_loop_lem (sb.bend + 1) 0 (sb.bend + 1) start 0 (omega arith)
            (record { same = λ j. refl; bend = refl; best = (refl, λ j h. absurd (omega arith)) })
