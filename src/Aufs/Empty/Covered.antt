-- ===== src/Aufs/Empty/Covered.antt =====
-- What a successful test of one directory of aufs/fs/aufs/dir.c says of its entries.
use kernel_patches.Base.{
  ℕ, ◌≡◌, refl, sym, ap, subst, ◌∙◌, Bool, true, false, not, ◌&&◌, ◌||◌, Option, none, some, List,
  [], ◌∷◌, ◌++◌, inl, inr, Bool-cases, Option-cases, arith,
}
use kernel_patches.Aufs.Vdir.{
  Name, name_eq, Wh, Nhash, au_nhash_test_known_wh, wh_target, HEntry, HDir, done, failed, no_seek,
  batch,
}
use kernel_patches.Aufs.Vdir.Names.{name_eq-eq, known_wh-add_wh}
use kernel_patches.Aufs.Vdir.Merge.{contents}
use kernel_patches.Aufs.Empty.{EmptyEnv, is_dot, test_empty_cb, test_all, test_hdir}

abbrev pub target_is : Option Name → Name → Bool
target_is none m = false
target_is (some t) m = name_eq t m

-- Whether entries have a whiteout for a name.
abbrev pub wh_listed : List HEntry → Name → Bool
wh_listed [] m = false
wh_listed (e ∷ es) m = (not (is_dot e.h_name) && target_is (wh_target e.h_name) m) || wh_listed es m

abbrev pub no_name : Option Name → Bool → Bool
no_name none b = b
no_name (some t) b = true

-- Every name but "." and ".." has a property.
abbrev pub covered : (Name → Bool) → List HEntry → Bool
covered p [] = true
covered p (e ∷ es) = (is_dot e.h_name || no_name (wh_target e.h_name) (p e.h_name)) && covered p es

pub covered_mono :
    (p q : Name → Bool) (es : List HEntry)
    → ((m : Name) → p m ≡ true → q m ≡ true)
    → covered p es ≡ true
    → covered q es ≡ true
covered_mono p q [] h c = refl
covered_mono p q (e ∷ es) h c =
    let rest = covered_mono p q es h (ground arith) in
    let here = h e.h_name in
    elim (Option-cases (wh_target e.h_name)) [
      | inl nothing ↦
          let one = ap (λ o. no_name o (p e.h_name)) nothing in
          let two = ap (λ o. no_name o (q e.h_name)) nothing in ground arith
      | inr (t, target) ↦ let two = ap (λ o. no_name o (q e.h_name)) target in ground arith
    ]

wh_listed-append :
    (es fs : List HEntry) (m : Name) → wh_listed (es ++ fs) m ≡ (wh_listed es m || wh_listed fs m)
wh_listed-append [] fs m = refl
wh_listed-append (e ∷ es) fs m = ground (arith, wh_listed-append es fs m)

covered-append :
    (p : Name → Bool) (es fs : List HEntry) → covered p (es ++ fs) ≡ (covered p es && covered p fs)
covered-append p [] fs = refl
covered-append p (e ∷ es) fs = ground (arith, covered-append p es fs)

module _ (k : EmptyEnv) where
  abbrev known : Nhash Wh → Name → Bool
  known w m = au_nhash_test_known_wh k.full_name_hash w m

  -- From the list `w`, entries gave the list `v`.
  pub record Tested (w : Nhash Wh) (es : List HEntry) (v : Nhash Wh) : Type 0 where
    pub knows :
        (m : Name)
        → au_nhash_test_known_wh k.full_name_hash v m
          ≡ (au_nhash_test_known_wh k.full_name_hash w m || wh_listed es m)
    pub covers :
        covered (λ m. au_nhash_test_known_wh k.full_name_hash w m || wh_listed es m) es ≡ true

  pub Tested-nothing : (w : Nhash Wh) → Tested w [] w
  Tested-nothing w = record { knows = λ m. ground arith; covers = refl }

  pub Tested-append :
      (w v u : Nhash Wh) (es fs : List HEntry)
      → Tested w es v
      → Tested v fs u
      → Tested w (es ++ fs) u
  Tested-append w v u es fs a b =
      let p : Name → Bool = λ m. known w m || wh_listed (es ++ fs) m in
      let one =
        covered_mono (λ m. known w m || wh_listed es m) p es
          (λ m h. ground (arith, wh_listed-append es fs m)) a.covers in
      let two =
        covered_mono (λ m. known v m || wh_listed fs m) p fs
          (λ m h. ground (arith, wh_listed-append es fs m, a.knows m)) b.covers in
      record {
        knows = λ m. ground (arith, a.knows m, b.knows m, wh_listed-append es fs m);
        covers = ground (arith, covered-append p es fs);
      }

  test_empty_cb-Tested :
      (w : Nhash Wh) (a b : ℕ) (e : HEntry)
      → (test_empty_cb k w a true b e).0 ≡ true
      → Tested w (e ∷ []) ((test_empty_cb k w a true b e).1)
  unfolding test_empty_cb
  test_empty_cb-Tested w a b e ok = elim (Bool-cases (is_dot e.h_name)) [
    | inl dot ↦ rw dot (record { knows = λ m. ground arith; covers = ground arith })
    | inr other ↦ elim (Option-cases (wh_target e.h_name)) [
      | inl nothing ↦
          let has : known w e.h_name ≡ true = ground arith in
          let none_listed : (m : Name) → target_is (wh_target e.h_name) m ≡ false =
            λ m. ap (λ o. target_is o m) nothing in
          let named =
            ap (λ o. no_name o (known w e.h_name || wh_listed (e ∷ []) e.h_name)) nothing in
          rw (other, nothing)
            (record { knows = λ m. ground (arith, none_listed m); covers = ground arith })
      | inr (t, target) ↦
          let listed : (m : Name) → target_is (wh_target e.h_name) m ≡ name_eq t m =
            λ m. ap (λ o. target_is o m) target in
          let named =
            ap (λ o. no_name o (known w e.h_name || wh_listed (e ∷ []) e.h_name)) target in
          elim (Bool-cases (known w t)) [
            | inl has ↦
                let same : (m : Name) → name_eq t m ≡ true → known w m ≡ true =
                  λ m h. ap (known w) (sym (name_eq-eq t m h)) ∙ has in
                rw (other, target, has)
                  (record { knows = λ m. ground (arith, listed m, same m); covers = ground arith })
            | inr new ↦
                let space : k.kmalloc a ≡ true = ground arith in
                let wh : Wh = record {
                  wh_name = t;
                  wh_bindex = b;
                  wh_ino = e.h_ino;
                  wh_type = e.d_type;
                } in
                rw (other, target, new, space)
                  (record {
                    knows = λ m. ground (arith, listed m, known_wh-add_wh k.full_name_hash w wh m);
                    covers = ground arith;
                  })
          ]
    ]
  ]

  test_all-Tested :
      (w : Nhash Wh) (a b : ℕ) (es : List HEntry)
      → (test_all k w a true b es).0 ≡ true
      → Tested w es ((test_all k w a true b es).1)
  unfolding test_all
  test_all-Tested w a b [] ok = Tested-nothing w
  test_all-Tested w a b (e ∷ es) ok =
      let one = test_empty_cb k w a true b e in
      elim (Bool-cases (one.0)) [
        | inl fine ↦
            let rest = test_all k (one.1) (one.2) true b es in
            let path : test_all k w a true b (e ∷ es) ≡ rest = rw (test_all, fine) refl in
            let first = test_empty_cb-Tested w a b e fine in
            let more = test_all-Tested (one.1) (one.2) b es (ap (λ x. x.0) (sym path) ∙ ok) in
            subst (λ x. Tested w (e ∷ es) (x.1)) (sym path)
              (Tested-append w (one.1) (rest.1) (e ∷ []) es first more)
        | inr bad ↦ absurd (ground arith)
      ]

  pub test_hdir-Tested :
      (w : Nhash Wh) (a b : ℕ) (d : HDir)
      → (test_hdir k w a true b d).0 ≡ true
      → Tested w (contents d) ((test_hdir k w a true b d).1)
  unfolding test_hdir
  test_hdir-Tested w a b done ok = Tested-nothing w
  test_hdir-Tested w a b failed ok = Tested-nothing w
  test_hdir-Tested w a b no_seek ok = Tested-nothing w
  test_hdir-Tested w a b (batch [] rest) ok = Tested-nothing w
  test_hdir-Tested w a b (batch (e ∷ es) rest) ok =
      let one = test_all k w a true b (e ∷ es) in
      elim (Bool-cases (one.0)) [
        | inl fine ↦
            let more = test_hdir k (one.1) (one.2) true b rest in
            let path : test_hdir k w a true b (batch (e ∷ es) rest) ≡ more =
              rw (test_hdir, fine) refl in
            let first = test_all-Tested w a b (e ∷ es) fine in
            let last = test_hdir-Tested (one.1) (one.2) b rest (ap (λ x. x.0) (sym path) ∙ ok) in
            subst (λ x. Tested w (contents (batch (e ∷ es) rest)) (x.1)) (sym path)
              (Tested-append w (one.1) (more.1) (e ∷ es) (contents rest) first last)
        | inr bad ↦ absurd (ground arith)
      ]
