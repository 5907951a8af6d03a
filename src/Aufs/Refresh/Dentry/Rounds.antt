-- ===== src/Aufs/Refresh/Dentry/Rounds.antt =====
-- The rounds of au_refresh_hinode's loop (aufs/fs/aufs/inode.c).
use kernel_patches.Base.{
  ℕ, zero, suc, ◌+◌, ◌≤◌, ◌<◌, ◌≡◌, ◌≢◌, ◌⊎◌, inl, inr, refl, ap, sym, subst, ◌∙◌, Bool, true,
  false, Option, none, some, ◌==◌, Bool-cases, Option-cases, eq-cases, update, arith,
}
use kernel_patches.Aufs.{DInfo}
use kernel_patches.Aufs.Iinfo.{HInode, IInfo}
use kernel_patches.Aufs.Branches.{SbInfo, Error, estale}
use kernel_patches.Aufs.Refresh.Dentry.{h_inode_at, take_inode, present, hdentry_loop}

-- Whether an entry is a hidden inode with a number.
abbrev pub holds : ℕ → Option HInode → Bool
holds i none = false
holds i (some h) = h.ident == i

pub some-none {ℓ} : {A : Type ℓ} {a : A} → some a ≡ none → ⊥
some-none e = cc e

some_injective : {a b : ℕ} → some a ≡ some b → a ≡ b
some_injective e = ground arith

module _ (i_nlink : ℕ → ℕ) (sb : SbInfo) (dentry : DInfo) where
  take_other :
      (d : IInfo) (lo i j : ℕ)
      → lo ≢ j
      → (take_inode i_nlink sb dentry d lo i).hinode j ≡ d.hinode j
  unfolding take_inode update
  take_other d lo i j ne = ground arith

  take_self :
      (d : IInfo) (lo i : ℕ) → holds i ((take_inode i_nlink sb dentry d lo i).hinode lo) ≡ true
  unfolding take_inode update
  take_self d lo i = ground arith

  present-some :
      (d : IInfo) (lo : ℕ) (h : HInode)
      → present i_nlink sb dentry d lo ≡ some h
      → d.hinode lo ≡ some h
  unfolding present
  present-some d lo h e = ground arith

  abbrev Result : Type 0
  Result = Option Error × IInfo × ℕ

  abbrev rounds : (n lo : ℕ) → IInfo → (count : ℕ) → Result
  rounds n lo d count = hdentry_loop i_nlink sb dentry n lo d count

  -- A round goes on with the inode taken, goes on without a change, or ends with an error.
  round_cases :
      (n lo : ℕ) (d : IInfo) (count i : ℕ)
      → h_inode_at dentry lo ≡ some i
      → (rounds (suc n) lo d count
          ≡ rounds n (lo + 1) (take_inode i_nlink sb dentry d lo i) (count + 1))
        ⊎ ((rounds (suc n) lo d count ≡ rounds n (lo + 1) d count) × (holds i (d.hinode lo) ≡ true))
        ⊎ (rounds (suc n) lo d count ≡ (some estale, d, count))
  unfolding hdentry_loop
  round_cases n lo d count i e = elim (Option-cases (present i_nlink sb dentry d lo)) [
    | inl p ↦ inl (rw (hdentry_loop, e, p) refl)
    | inr (h, p) ↦ elim (Bool-cases (h.ident == i)) [
      | inl same ↦ inr (inl (rw (hdentry_loop, e, p, same) refl, rw (present-some d lo h p) same))
      | inr other ↦ inr (inr (rw (hdentry_loop, e, p, other) refl))
    ]
  ]

  negative_round :
      (n lo : ℕ) (d : IInfo) (count : ℕ)
      → h_inode_at dentry lo ≡ none
      → rounds (suc n) lo d count ≡ rounds n (lo + 1) d count
  unfolding hdentry_loop
  negative_round n lo d count e = rw (hdentry_loop, e) refl

  abbrev Outside : (n lo j : ℕ) → Type 0
  Outside n lo j = (j < lo) ⊎ (lo + n ≤ j) ⊎ (h_inode_at dentry j ≡ none)

  Outside-next : (n lo j : ℕ) → Outside (suc n) lo j → Outside n (lo + 1) j
  Outside-next n lo j (inl l) = inl (omega arith)
  Outside-next n lo j (inr (inl l)) = inr (inl (omega arith))
  Outside-next n lo j (inr (inr e)) = inr (inr e)

  Outside-ne : (n lo j i : ℕ) → Outside (suc n) lo j → h_inode_at dentry lo ≡ some i → lo ≢ j
  Outside-ne n lo j i (inl l) e same = omega arith
  Outside-ne n lo j i (inr (inl l)) e same = omega arith
  Outside-ne n lo j i (inr (inr f)) e same =
      let both : none ≡ some i = sym f ∙ ap (h_inode_at dentry) (sym same) ∙ e in
      ground (arith, both)

  pub rounds_error :
      (n lo : ℕ) (d : IInfo) (count : ℕ)
      → ((rounds n lo d count).0 ≡ none) ⊎ ((rounds n lo d count).0 ≡ some estale)
  unfolding hdentry_loop
  rounds_error zero lo d count = inl refl
  rounds_error (suc n) lo d count =
      let Fine : Result → Type 0 = λ r. (r.0 ≡ none) ⊎ (r.0 ≡ some estale) in
      elim (Option-cases (h_inode_at dentry lo)) [
        | inl e ↦ subst Fine (sym (negative_round n lo d count e)) (rounds_error n (lo + 1) d count)
        | inr (i, e) ↦ elim (round_cases n lo d count i e) [
          | inl path ↦
              subst Fine (sym path)
                (rounds_error n (lo + 1) (take_inode i_nlink sb dentry d lo i) (count + 1))
          | inr (inl (path, _)) ↦ subst Fine (sym path) (rounds_error n (lo + 1) d count)
          | inr (inr path) ↦ subst Fine (sym path) (inr refl)
        ]
      ]

  -- The rounds leave the entries of other branches.
  pub rounds_other :
      (n lo : ℕ) (d : IInfo) (count j : ℕ)
      → Outside n lo j
      → (rounds n lo d count).1.hinode j ≡ d.hinode j
  unfolding hdentry_loop
  rounds_other zero lo d count j out = refl
  rounds_other (suc n) lo d count j out =
      let entry : Result → Option HInode = λ r. r.1.hinode j in
      let next = Outside-next n lo j out in
      elim (Option-cases (h_inode_at dentry lo)) [
        | inl e ↦ ap entry (negative_round n lo d count e) ∙ rounds_other n (lo + 1) d count j next
        | inr (i, e) ↦ elim (round_cases n lo d count i e) [
          | inl path ↦
              ap entry path
              ∙ rounds_other n (lo + 1) (take_inode i_nlink sb dentry d lo i) (count + 1) j next
              ∙ take_other d lo i j (Outside-ne n lo j i out e)
          | inr (inl (path, _)) ↦ ap entry path ∙ rounds_other n (lo + 1) d count j next
          | inr (inr path) ↦ ap entry path
        ]
      ]

  -- Without an error every inode of a hidden dentry is a hidden inode.
  pub rounds_held :
      (n lo : ℕ) (d : IInfo) (count j i : ℕ)
      → lo ≤ j
      → j < lo + n
      → h_inode_at dentry j ≡ some i
      → (rounds n lo d count).0 ≡ none
      → holds i ((rounds n lo d count).1.hinode j) ≡ true
  rounds_held zero lo d count j i a b e ok = absurd (omega arith)
  rounds_held (suc n) lo d count j i a b e ok =
      let Good : Result → Type 0 = λ r. holds i (r.1.hinode j) ≡ true in
      let here : (dd : IInfo) (c : ℕ)
          → lo ≡ j
          → holds i (dd.hinode lo) ≡ true
          → Good (rounds n (lo + 1) dd c) =
        λ dd c same h.
          ap (holds i)
            (rounds_other n (lo + 1) dd c j (inl (omega arith)) ∙ ap dd.hinode (sym same))
          ∙ h in
      let go : (dd : IInfo) (c : ℕ)
          → lo ≢ j
          → (rounds n (lo + 1) dd c).0 ≡ none
          → Good (rounds n (lo + 1) dd c) =
        λ dd c ne fine. rounds_held n (lo + 1) dd c j i (omega arith) (omega arith) e fine in
      let err : Result → Option Error = λ r. r.0 in
      elim (Option-cases (h_inode_at dentry lo)) [
        | inl none_here ↦
            let path = negative_round n lo d count none_here in
            let ne : lo ≢ j =
              λ same. some-none (sym e ∙ ap (h_inode_at dentry) (sym same) ∙ none_here) in
            subst Good (sym path) (go d count ne (sym (ap err path) ∙ ok))
        | inr (k, f) ↦
            let same_inode : lo ≡ j → k ≡ i =
              λ same. some_injective (sym f ∙ ap (h_inode_at dentry) same ∙ e) in
            elim (round_cases n lo d count k f) [
              | inl path ↦
                  let dd = take_inode i_nlink sb dentry d lo k in
                  subst Good (sym path) (elim (eq-cases lo j) [
                    | inl same ↦ here dd (count + 1) same (
                        subst (λ x. holds x (dd.hinode lo) ≡ true) (same_inode same)
                          (take_self d lo k))
                    | inr ne ↦ go dd (count + 1) ne (sym (ap err path) ∙ ok)
                  ])
              | inr (inl (path, held)) ↦ subst Good (sym path) (elim (eq-cases lo j) [
                | inl same ↦
                    here d count same
                      (subst (λ x. holds x (d.hinode lo) ≡ true) (same_inode same) held)
                | inr ne ↦ go d count ne (sym (ap err path) ∙ ok)
              ])
              | inr (inr path) ↦ absurd (some-none (sym (ap err path) ∙ ok))
            ]
      ]
