-- ===== src/Aufs/Empty/Visible.antt =====
-- A directory that au_test_empty of aufs/fs/aufs/dir.c takes for empty lists nothing but "." and "..":
-- the test against the merge that vdir.c reads.
use kernel_patches.Base.{
  ℕ, zero, suc, ◌+◌, ◌-◌, ◌≡◌, refl, sym, ap, subst, ◌∙◌, Bool, true, false, not, ◌&&◌, ◌||◌,
  Option, none, some, List, [], ◌∷◌, ◌++◌, if◌then◌else◌, inl, inr, Bool-cases, Option-cases, arith,
}
use kernel_patches.Aufs.{DInfo}
use kernel_patches.Aufs.Dinfo.{has_inode, au_h_dptr, au_dbtaildir}
use kernel_patches.Aufs.Vdir.{
  Name, name_eq, Wh, Nhash, au_nhash_test_known_wh, wh_target, HEntry, HDir,
}
use kernel_patches.Aufs.Vdir.Merge.{visible, target_hides, hides, branch_contents, merged}
use kernel_patches.Aufs.Empty.{
  EmptyEnv, is_dot, Found, do_test_empty, sio_test_empty, test_branches, au_test_empty, test_hdir,
}
use kernel_patches.Aufs.Empty.Covered.{
  target_is, wh_listed, no_name, covered, Tested, Tested-nothing, test_hdir-Tested,
}

-- Whether all names are "." or "..".
abbrev pub all_dots : List Name → Bool
all_dots [] = true
all_dots (x ∷ xs) = is_dot x && all_dots xs

-- No directory has both a name and a whiteout for it.
abbrev pub apart : (es fs : List HEntry) → Bool
apart es [] = true
apart es (e ∷ fs) =
    (is_dot e.h_name || no_name (wh_target e.h_name) (not (wh_listed es e.h_name))) && apart es fs

all_dots-append : (xs ys : List Name) → all_dots (xs ++ ys) ≡ (all_dots xs && all_dots ys)
all_dots-append [] ys = refl
all_dots-append (x ∷ xs) ys = ground (arith, all_dots-append xs ys)

visible-dots :
    (hidden p : Name → Bool) (es fs : List HEntry)
    → ((m : Name) → p m ≡ true → hidden m ≡ true)
    → covered (λ m. p m || wh_listed es m) fs ≡ true
    → apart es fs ≡ true
    → all_dots (visible hidden fs) ≡ true
visible-dots hidden p es [] h c d = refl
visible-dots hidden p es (e ∷ fs) h c d =
    let rest = visible-dots hidden p es fs h (ground arith) (ground arith) in
    elim (Option-cases (wh_target e.h_name)) [
      | inl nothing ↦
          let cov = ap (λ o. no_name o (p e.h_name || wh_listed es e.h_name)) nothing in
          let sep = ap (λ o. no_name o (not (wh_listed es e.h_name))) nothing in
          let hid = h e.h_name in
          elim (Bool-cases (hidden e.h_name)) [
            | inl hides_it ↦ rw (visible, nothing, hides_it) rest
            | inr shows ↦
                let dot : is_dot e.h_name ≡ true = ground arith in
                rw (visible, nothing, shows) (ground arith)
          ]
      | inr (t, target) ↦ rw (visible, target) rest
    ]

wh_listed-hides : (es : List HEntry) (m : Name) → wh_listed es m ≡ true → hides es m ≡ true
wh_listed-hides (e ∷ es) m w =
    let rest = wh_listed-hides es m in
    elim (Option-cases (wh_target e.h_name)) [
      | inl nothing ↦ let one = ap (λ o. target_is o m) nothing in ground arith
      | inr (t, target) ↦
          let one = ap (λ o. target_is o m) target in
          let two = ap (λ o. target_hides o e.h_name m) target in ground arith
    ]
wh_listed-hides [] m w = absurd (ground arith)

module _ (k : EmptyEnv) (d : DInfo) (present : (b : ℕ) → k.gone b ≡ false) where
  -- The branches' directories as au_test_empty opens them.
  abbrev pub opened : ℕ → Option HDir
  opened b = if has_inode (au_h_dptr d b) then k.h_open b else none

  sio_test_empty-Tested :
      (w : Nhash Wh) (a b : ℕ)
      → (sio_test_empty k w a true b).0 ≡ true
      → Tested k w (branch_contents (k.h_open b)) ((sio_test_empty k w a true b).1)
  unfolding sio_test_empty do_test_empty
  sio_test_empty-Tested w a b ok =
      let here = present b in
      elim (Bool-cases (k.permits b || k.au_wkq_wait b)) [
        | inl may ↦ elim (Option-cases (k.h_open b)) [
          | inl closed ↦ absurd (ground arith)
          | inr (h, opens) ↦
              let path : sio_test_empty k w a true b ≡ test_hdir k w a true b h =
                rw (sio_test_empty, may, do_test_empty, opens) (rw here refl) in
              let entries = ap branch_contents opens in
              let fine = ap (λ x. x.0) (sym path) ∙ ok in
              subst (λ x. Tested k w (branch_contents (k.h_open b)) (x.1)) (sym path)
                (subst (λ es. Tested k w es ((test_hdir k w a true b h).1)) (sym entries)
                  (test_hdir-Tested k w a b h fine))
        ]
        | inr bad ↦ absurd (ground arith)
      ]

  abbrev test : Nhash Wh → ℕ → ℕ → Found
  test w a b = sio_test_empty k w a true b

  branch-Tested :
      (w : Nhash Wh) (a b : ℕ)
      → (if has_inode (au_h_dptr d b) then test w a b else (true, w, a)).0 ≡ true
      → Tested k w
          (branch_contents (opened b))
          ((if has_inode (au_h_dptr d b) then test w a b else (true, w, a)).1)
  branch-Tested w a b ok = elim (Bool-cases (has_inode (au_h_dptr d b))) [
    | inl has ↦ rw has (sio_test_empty-Tested w a b (ground arith))
    | inr not_there ↦ rw not_there (Tested-nothing k w)
  ]

  test_branches-dots :
      (w : Nhash Wh) (a n b : ℕ) (hidden : Name → Bool)
      → ((c : ℕ) → apart (branch_contents (opened c)) (branch_contents (opened c)) ≡ true)
      → ((m : Name) → au_nhash_test_known_wh k.full_name_hash w m ≡ true → hidden m ≡ true)
      → (test_branches k test d w a n b).0 ≡ true
      → all_dots (merged n b opened hidden) ≡ true
  unfolding test_branches
  test_branches-dots w a zero b hidden sep h ok = refl
  test_branches-dots w a (suc n) b hidden sep h ok =
      let one = if has_inode (au_h_dptr d b) then test w a b else (true, w, a) in
      let es = branch_contents (opened b) in
      elim (Bool-cases (one.0)) [
        | inl fine ↦
            let path : test_branches k test d w a (suc n) b
                ≡ test_branches k test d (one.1) (one.2) n (b + 1) =
              rw (test_branches, fine) refl in
            let here = branch-Tested w a b fine in
            let rest =
              test_branches-dots (one.1) (one.2) n (b + 1) (λ m. hidden m || hides es m) sep
                (λ m e. ground (arith, h m, here.knows m, wh_listed-hides es m))
                (ap (λ x. x.0) (sym path) ∙ ok) in
            let first =
              visible-dots hidden (au_nhash_test_known_wh k.full_name_hash w) es es h here.covers
                (sep b) in
            ground (
              arith,
              all_dots-append (visible hidden es)
                  (merged n (b + 1) opened (λ m. hidden m || hides es m)),
            )
        | inr bad ↦ absurd (ground arith)
      ]

  nothing_known : (m : Name) → au_nhash_test_known_wh k.full_name_hash (λ _. []) m ≡ false
  unfolding au_nhash_test_known_wh kernel_patches.Aufs.Vdir.wh_chain_has
  nothing_known m = refl

  -- For a dentry with a range of branches, none of whose directories is gone, and of which no
  -- directory has both a name and a whiteout for it: when au_test_empty succeeds with an empty list
  -- of whiteouts, the merge of the branches' directories has no name but "." and "..".
  pub au_test_empty-merged :
      (bstart btail allocs : ℕ)
      → d.bstart ≡ some bstart
      → au_dbtaildir d ≡ some btail
      → ((c : ℕ) → apart (branch_contents (opened c)) (branch_contents (opened c)) ≡ true)
      → (au_test_empty k d (λ _. []) allocs).0 ≡ true
      → all_dots (merged (btail + 1 - bstart) bstart opened (λ _. false)) ≡ true
  unfolding au_test_empty
  au_test_empty-merged bstart btail allocs start tail sep ok =
      let path : au_test_empty k d (λ _. []) allocs
          ≡ test_branches k test d (λ _. []) allocs (btail + 1 - bstart) bstart =
        simp (au_test_empty, start, tail) refl in
      test_branches-dots (λ _. []) allocs (btail + 1 - bstart) bstart (λ _. false) sep
        (λ m e. absurd (ground (arith, nothing_known m))) (ap (λ x. x.0) (sym path) ∙ ok)
