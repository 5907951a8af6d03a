-- ===== src/Aufs/Refresh/Loop.antt =====
-- au_refresh_hinode_self's loop (aufs/fs/aufs/inode.c) ends.
use kernel_patches.Base.{
  ℕ, zero, suc, ◌+◌, ◌-◌, ◌*◌, ◌≤◌, ◌<◌, ◌≡◌, ◌≢◌, inl, inr, refl, ap, sym, subst, ◌∙◌, Bool, true,
  false, not, Option, none, some, ◌==◌, ltb, Bool-cases, Option-cases, eq-cases, update, count,
  count_le, count_mono, count_lt, arith,
}
use kernel_patches.Aufs.Iinfo.{HInode}
use kernel_patches.Aufs.Refresh.{Walk, swap, step, refresh_loop}
use kernel_patches.Aufs.Refresh.Rounds.{
  IsWalk, passed, cleared, cleared-IsWalk, moved, moved-IsWalk, at_k,
}

module _ (new_index : HInode → Option ℕ) where
  -- Whether an entry stands at a place that is not its own.
  abbrev misplaced : Option HInode → ℕ → Bool
  misplaced none j = false
  misplaced (some h) j = elim (new_index h) [ none ↦ true | some k ↦ not (k == j) ]

  abbrev astray : (ℕ → Option HInode) → ℕ → Bool
  astray f j = misplaced (f j) j

  abbrev pub measure : (size : ℕ) → Walk → ℕ
  measure size s = size - s.bindex + count (astray s.hinode) size

  module _ (o : ℕ → Option HInode) (size : ℕ)
      (low : (h : HInode) (k : ℕ) → new_index h ≡ some k → k < size)
      (same_id : (g h : HInode) (k : ℕ)
        → new_index g ≡ some k
        → new_index h ≡ some k
        → g.hi_id ≡ h.hi_id) where
    abbrev Progress : Walk → Walk → Type 0
    Progress s t = IsWalk new_index o size t × (measure size t < measure size s)

    module _ (s : Walk) (v : IsWalk new_index o size s) (go : s.bindex ≤ s.last) where
      abbrev b : ℕ
      b = s.bindex

      passed_lem :
          ((h : HInode) → s.hinode b ≡ some h → new_index h ≡ some b)
          → step new_index s ≡ record s { bindex = b + 1 }
          → Progress s (step new_index s)
      passed_lem right path =
          subst (Progress s) (sym path)
            (passed new_index o size s v go right, omega (arith, v.inside))

      module _ (h : HInode) (here : s.hinode b ≡ some h) where
        cleared_fewer :
            (j : ℕ) → astray (update s.hinode b none) j ≡ true → astray s.hinode j ≡ true
        unfolding update
        cleared_fewer j e = ground arith

        cleared_lem :
            new_index h ≡ none
            → step new_index s ≡ cleared new_index o size s v go h here
            → Progress s (step new_index s)
        cleared_lem gone path = subst (Progress s) (sym path) (
          cleared-IsWalk new_index o size s v go h here gone,
          omega (
            arith,
            v.inside,
            count_mono (astray (update s.hinode b none)) (astray s.hinode) cleared_fewer size,
          ),
        )

        module _ (k : ℕ) (to : new_index h ≡ some k) (ne : k ≢ b) where
          moved_fewer : (j : ℕ) → astray (swap s.hinode b k) j ≡ true → astray s.hinode j ≡ true
          unfolding swap update
          moved_fewer j e = elim (eq-cases k j) [
            | inl same ↦ absurd (ground arith)
            | inr other ↦ elim (eq-cases b j) [
              | inl same ↦
                  let here_j : s.hinode j ≡ some h = ap s.hinode (sym same) ∙ here in ground arith
              | inr apart ↦ ground arith
            ]
          ]

          abbrev t : (bindex : ℕ) → Walk
          t bindex = moved new_index o size s v go h here k to ne (low h k to) bindex

          -- The entry that comes from the place of another.
          other_astray : (g : HInode) → s.hinode k ≡ some g → astray s.hinode k ≡ true
          other_astray g there = elim (Bool-cases (astray s.hinode k)) [
            | inl e ↦ e
            | inr e ↦
                let at : new_index g ≡ some k = ground arith in
                absurd (ne (v.unique k b g h there here (same_id g h k at to)))
          ]

          moved_astray : astray (swap s.hinode b k) k ≡ false
          moved_astray =
              let here_k = at_k new_index o size s v go h here k to ne (low h k to) in ground arith

          stay_lem :
              (g : HInode)
              → s.hinode k ≡ some g
              → step new_index s ≡ t b
              → Progress s (step new_index s)
          stay_lem g there path =
              let fewer =
                count_lt (astray (swap s.hinode b k)) (astray s.hinode) moved_fewer size k
                  (low h k to) moved_astray (other_astray g there) in
              subst (Progress s) (sym path) (
                moved-IsWalk new_index o size s v go h here k to ne (low h k to) b (omega arith)
                    (inl (omega arith)),
                omega (arith, fewer),
              )

          leave_lem :
              s.hinode k ≡ none → step new_index s ≡ t (b + 1) → Progress s (step new_index s)
          leave_lem empty path = subst (Progress s) (sym path) (
            moved-IsWalk new_index o size s v go h here k to ne (low h k to) (b + 1) (omega arith)
                (inr empty),
            omega (
              arith,
              v.inside,
              count_mono (astray (swap s.hinode b k)) (astray s.hinode) moved_fewer size,
            ),
          )

      -- Each round keeps the invariant and comes nearer to the end.
      step_lem : Progress s (step new_index s)
      unfolding step
      step_lem = elim (Option-cases (s.hinode b)) [
        | inl e ↦ passed_lem (λ h f. absurd (ground arith)) (rw (step, e) refl)
        | inr (h, e) ↦ elim (Option-cases (new_index h)) [
          | inl gone ↦ cleared_lem h e gone (rw (step, e, gone) refl)
          | inr (k, to) ↦ elim (Bool-cases (k == b)) [
            | inl same ↦ passed_lem (λ g f. ground arith) (rw (step, e, to, same) refl)
            | inr apart ↦ elim (Option-cases (s.hinode k)) [
              | inl empty ↦ leave_lem h e k to (ground arith) empty (ground arith)
              | inr (g, there) ↦ stay_lem h e k to (ground arith) g there (ground arith)
            ]
          ]
        ]
      ]

    pub refresh_loop_lem :
        (fuel : ℕ) (s : Walk)
        → IsWalk new_index o size s
        → measure size s < fuel
        → (t : Walk) × (refresh_loop new_index fuel s ≡ some t)
          × IsWalk new_index o size t
          × (t.last < t.bindex)
    unfolding refresh_loop
    refresh_loop_lem zero s v l = absurd (omega arith)
    refresh_loop_lem (suc fuel) s v l = elim (Bool-cases (ltb s.last s.bindex)) [
      | inl e ↦ (s, rw (refresh_loop, e) refl, v, ground arith)
      | inr e ↦
          let (w, less) = step_lem s v (ground arith) in
          let (t, r, done_walk, past) = refresh_loop_lem fuel (step new_index s) w (omega arith) in
          (t, rw (refresh_loop, e) r, done_walk, past)
    ]

    pub measure_le : (s : Walk) → measure size s ≤ 2 * size
    measure_le s = omega (arith, count_le (astray s.hinode) size)
