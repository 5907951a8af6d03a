-- ===== src/Aufs/Vdir/Listing.antt =====
-- What the merged directory lists: au_do_read_vdir of aufs/fs/aufs/vdir.c against the description of
-- the merge.
use mathlib.Core.List.{append-nil, append_assoc}
use kernel_patches.Base.{
  ℕ, zero, suc, ◌+◌, ◌-◌, ◌≤◌, ◌<◌, ◌≡◌, refl, sym, ap, subst, ◌∙◌, Bool, true, false, ◌||◌, Option,
  none, some, List, [], ◌∷◌, ◌++◌, inl, inr, Bool-cases, arith,
}
use kernel_patches.Aufs.Xino.{XinoInfo}
use kernel_patches.Aufs.Vdir.{
  De, Wh, Vdir, Name, name_eq, wh_target, test_known, au_nhash_test_known_wh, add_name, add_wh,
  HEntry, HDir, done, failed, no_seek, batch,
}
use kernel_patches.Aufs.Vdir.Read.{
  Reading, ReadEnv, any_below, shadowed, fillvdir, fill_all, read_hdir, read_branch, read_branches,
  au_do_read_vdir,
}
use kernel_patches.Aufs.Vdir.Merge.{
  visible, hides, contents, branch_contents, merged, merged-ext, listed_names,
}
use kernel_patches.Aufs.Vdir.Filled.{Filled, Filled-nothing, Filled-append, shadowed-suc}
use kernel_patches.Aufs.Vdir.Step.{fillvdir-Filled}

module _ (k : ReadEnv) where
  fill_all-Filled :
      (s : Reading) (shwh : Bool) (b : ℕ) (es : List HEntry)
      → 0 < s.vdir.vd_nblk
      → (fill_all k s shwh b es).0 ≡ true
      → Filled k s b es ((fill_all k s shwh b es).1)
  unfolding fill_all
  fill_all-Filled s shwh b [] h ok = Filled-nothing k s b h
  fill_all-Filled s shwh b (e ∷ es) h ok =
      let one = fillvdir k s shwh b e in
      elim (Bool-cases (one.0)) [
        | inl fine ↦
            let path : fill_all k s shwh b (e ∷ es) ≡ fill_all k (one.1) shwh b es =
              rw (fill_all, fine) refl in
            let first = fillvdir-Filled k s shwh b e h fine in
            let rest =
              fill_all-Filled (one.1) shwh b es first.has_block (ap (λ p. p.0) (sym path) ∙ ok) in
            subst (λ p. Filled k s b (e ∷ es) (p.1)) (sym path)
              (Filled-append k s (one.1) ((fill_all k (one.1) shwh b es).1) b (e ∷ []) es first
                rest)
        | inr bad ↦ absurd (ground arith)
      ]

  read_hdir-Filled :
      (s : Reading) (shwh : Bool) (b : ℕ) (d : HDir)
      → 0 < s.vdir.vd_nblk
      → (read_hdir k s shwh b d).0 ≡ true
      → Filled k s b (contents d) ((read_hdir k s shwh b d).1)
  unfolding read_hdir
  read_hdir-Filled s shwh b done h ok = Filled-nothing k s b h
  read_hdir-Filled s shwh b failed h ok = Filled-nothing k s b h
  read_hdir-Filled s shwh b no_seek h ok = Filled-nothing k s b h
  read_hdir-Filled s shwh b (batch [] rest) h ok = Filled-nothing k s b h
  read_hdir-Filled s shwh b (batch (e ∷ es) rest) h ok =
      let one = fill_all k s shwh b (e ∷ es) in
      elim (Bool-cases (one.0)) [
        | inl fine ↦
            let path : read_hdir k s shwh b (batch (e ∷ es) rest)
                ≡ read_hdir k (one.1) shwh b rest =
              rw (read_hdir, fine) refl in
            let first = fill_all-Filled s shwh b (e ∷ es) h fine in
            let more =
              read_hdir-Filled (one.1) shwh b rest first.has_block
                (ap (λ p. p.0) (sym path) ∙ ok) in
            subst (λ p. Filled k s b (contents (batch (e ∷ es) rest)) (p.1)) (sym path)
              (Filled-append k s (one.1) ((read_hdir k (one.1) shwh b rest).1) b (e ∷ es)
                (contents rest) first more)
        | inr bad ↦ absurd (ground arith)
      ]

  read_branch-Filled :
      (s : Reading) (shwh : Bool) (b : ℕ) (d : Option HDir)
      → 0 < s.vdir.vd_nblk
      → (read_branch k s shwh b d).0 ≡ true
      → Filled k s b (branch_contents d) ((read_branch k s shwh b d).1)
  unfolding read_branch
  read_branch-Filled s shwh b none h ok = Filled-nothing k s b h
  read_branch-Filled s shwh b (some d) h ok = read_hdir-Filled s shwh b d h ok

  -- Nothing is known of the branches from `b` on.
  abbrev IsFresh : Reading → ℕ → Type 0
  IsFresh s b = (c : ℕ) → b ≤ c → (s.delist c ≡ (λ _. [])) × (s.whlist c ≡ (λ _. []))

  shadowed-IsFresh :
      (s : Reading) (b : ℕ) → IsFresh s b → (m : Name) → shadowed k s (suc b) m ≡ shadowed k s b m
  unfolding test_known au_nhash_test_known_wh kernel_patches.Aufs.Vdir.chain_has
      kernel_patches.Aufs.Vdir.wh_chain_has
  shadowed-IsFresh s b fresh m =
      let names = ap (λ d. test_known k.full_name_hash d m) ((fresh b (omega arith)).0) in
      let whs = ap (λ d. au_nhash_test_known_wh k.full_name_hash d m) ((fresh b (omega arith)).1) in
      ground (arith, shadowed-suc k s b m, names, whs)

  read_branches-listed :
      (s : Reading) (shwh : Bool) (n b : ℕ) (files : ℕ → Option HDir)
      → 0 < s.vdir.vd_nblk
      → IsFresh s b
      → (read_branches k s shwh n b files).0 ≡ true
      → listed_names ((read_branches k s shwh n b files).1.vdir)
        ≡ listed_names s.vdir ++ merged n b files (shadowed k s b)
  unfolding read_branches
  read_branches-listed s shwh zero b files h fresh ok = sym (append-nil (listed_names s.vdir))
  read_branches-listed s shwh (suc n) b files h fresh ok =
      let one = read_branch k s shwh b (files b) in
      let t = one.1 in
      let es = branch_contents (files b) in
      elim (Bool-cases (one.0)) [
        | inl fine ↦
            let path : read_branches k s shwh (suc n) b files
                ≡ read_branches k t shwh n (b + 1) files =
              rw (read_branches, fine) refl in
            let first = read_branch-Filled s shwh b (files b) h fine in
            let rest =
              read_branches-listed t shwh n (b + 1) files first.has_block
                (λ c le.
                  let same = first.others c (omega arith) in
                  let old = fresh c (omega arith) in (same.0 ∙ old.0, same.1 ∙ old.1))
                (ap (λ p. p.0) (sym path) ∙ ok) in
            let index : b + 1 ≡ suc b = omega arith in
            let hidden : (m : Name) → shadowed k t (b + 1) m ≡ (shadowed k s b m || hides es m) =
              λ m.
                ap (λ c. shadowed k t c m) index
                ∙ first.now_hidden m
                ∙ ap (λ x. x || hides es m) (shadowed-IsFresh s b fresh m) in
            let under =
              merged-ext n (b + 1) files (shadowed k t (b + 1))
                (λ m. shadowed k s b m || hides es m) hidden in
            ap (λ p. listed_names (p.1.vdir)) path
            ∙ rest
            ∙ ap (λ l. l ++ merged n (b + 1) files (shadowed k t (b + 1))) first.listed
            ∙ ap (λ l. (listed_names s.vdir ++ visible (shadowed k s b) es) ++ l) under
            ∙ append_assoc (listed_names s.vdir) (visible (shadowed k s b) es)
                (merged n (b + 1) files (λ m. shadowed k s b m || hides es m))
        | inr bad ↦ absurd (ground arith)
      ]

  nothing_shadowed : (s : Reading) (b : ℕ) → IsFresh s 0 → (m : Name) → shadowed k s b m ≡ false
  unfolding shadowed any_below
  nothing_shadowed s zero fresh m = refl
  nothing_shadowed s (suc b) fresh m =
      shadowed-IsFresh s b (λ c le. fresh c (omega arith)) m ∙ nothing_shadowed s b fresh m

  -- When au_do_read_vdir succeeds without the option shwh, on a directory that has a block, the
  -- names of the entries are the old ones followed by the merge of the branches: of each branch, in
  -- their order and each in the order of its directory, the names that are not whiteouts and that
  -- no branch before it has or has a whiteout for. This holds whatever the hash function.
  pub au_do_read_vdir-merged :
      (v : Vdir) (x : XinoInfo) (allocs bstart bend : ℕ) (files : ℕ → Option HDir)
      → 0 < v.vd_nblk
      → (au_do_read_vdir k v x allocs false bstart bend files).0 ≡ true
      → listed_names ((au_do_read_vdir k v x allocs false bstart bend files).1.vdir)
        ≡ listed_names v ++ merged (bend + 1 - bstart) bstart files (λ _. false)
  unfolding au_do_read_vdir
  au_do_read_vdir-merged v x allocs bstart bend files h ok =
      let start : Reading = record {
        vdir = v;
        delist = λ _ _. [];
        whlist = λ _ _. [];
        xino = x;
        allocs = allocs + 2;
      } in
      let n = bend + 1 - bstart in
      let r = read_branches k start false n bstart files in
      elim (Bool-cases (k.kmalloc allocs)) [
        | inr bad ↦ absurd (ground arith)
        | inl one ↦ elim (Bool-cases (k.kmalloc (allocs + 1))) [
          | inr bad ↦ absurd (ground arith)
          | inl two ↦ elim (Bool-cases (r.0)) [
            | inr bad ↦ absurd (ground arith)
            | inl fine ↦
                let fresh : IsFresh start bstart = λ c le. (refl, refl) in
                let path : (au_do_read_vdir k v x allocs false bstart bend files).1 ≡ r.1 =
                  rw (au_do_read_vdir, one, two, fine) refl in
                ap (λ p. listed_names (p.vdir)) path
                ∙ read_branches-listed start false n bstart files h fresh fine
                ∙ ap (λ l. listed_names v ++ l)
                    (merged-ext n bstart files (shadowed k start bstart) (λ _. false)
                      (nothing_shadowed start bstart (λ c le. (refl, refl))))
          ]
        ]
      ]
