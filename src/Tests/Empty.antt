-- ===== src/Tests/Empty.antt =====
-- A directory that is empty: branch 0 has . and .wh.b, branch 1 has . and b.
use kernel_patches.Base.{
  ℕ, ◌≡◌, refl, Bool, true, false, not, ◌||◌, ◌&&◌, Option, none, some, List, [], ◌∷◌, length, ◌==◌,
  inl, inr, Bool-cases, if◌then◌else◌, arith,
}
use kernel_patches.Aufs.{DInfo}
use kernel_patches.Aufs.Dinfo.{has_inode, au_dbtaildir, au_h_dptr}
use kernel_patches.Aufs.Vdir.{HEntry, HDir, done, batch, wh_target, name_eq}
use kernel_patches.Aufs.Vdir.Merge.{merged, branch_contents}
use kernel_patches.Aufs.Empty.{EmptyEnv, au_test_empty, is_dot}
use kernel_patches.Aufs.Empty.Visible.{all_dots, apart, opened, au_test_empty-merged}

abbrev named : List ℕ → HEntry
named name = record { h_name = name; h_ino = 3; d_type = 8 }

abbrev above : HDir
above = batch (named (46 ∷ []) ∷ named (46 ∷ 119 ∷ 104 ∷ 46 ∷ 98 ∷ []) ∷ []) done

abbrev below : HDir
below = batch (named (46 ∷ []) ∷ named (98 ∷ []) ∷ []) done

abbrev env : EmptyEnv
env = record {
  full_name_hash = λ name. length name;
  kmalloc = λ _. true;
  h_open = λ b. if b == 0 then some above else if b == 1 then some below else none;
  gone = λ _. false;
  permits = λ _. true;
  au_wkq_wait = λ _. true;
}

abbrev dentry : DInfo
dentry = record {
  bstart = some 0;
  bend = some 1;
  bwh = none;
  bdiropq = none;
  hdentry = λ i. some (record { ident = i; inode = some i });
}

dentry-tail : au_dbtaildir dentry ≡ some 1
unfolding au_dbtaildir
dentry-tail = refl

all_there : (c : ℕ) → has_inode (au_h_dptr dentry c) ≡ true
unfolding au_h_dptr
all_there c = ground arith

dirs_apart :
    (c : ℕ)
    → apart
        (branch_contents (opened env dentry (λ b. refl) c))
        (branch_contents (opened env dentry (λ b. refl) c))
      ≡ true
unfolding wh_target name_eq is_dot
dirs_apart c = elim (Bool-cases (c == 0)) [
  | inl zeroth ↦ rw (all_there c, zeroth) refl
  | inr other ↦ elim (Bool-cases (c == 1)) [
    | inl first ↦ rw (all_there c, other, first) refl
    | inr rest ↦ rw (all_there c, other, rest) refl
  ]
]

tests_empty : (au_test_empty env dentry (λ _. []) 0).0 ≡ true
unfolding au_test_empty au_dbtaildir kernel_patches.Aufs.Empty.test_branches
    kernel_patches.Aufs.Empty.sio_test_empty kernel_patches.Aufs.Empty.do_test_empty
    kernel_patches.Aufs.Empty.test_hdir kernel_patches.Aufs.Empty.test_all
    kernel_patches.Aufs.Empty.test_empty_cb au_h_dptr is_dot wh_target name_eq
    kernel_patches.Aufs.Vdir.au_nhash_test_known_wh kernel_patches.Aufs.Vdir.wh_chain_has
    kernel_patches.Aufs.Vdir.add_wh kernel_patches.Aufs.Vdir.au_name_hash kernel_patches.Base.update
tests_empty = refl

au_test_empty-merged_example :
    all_dots (merged 2 0 (opened env dentry (λ b. refl)) (λ _. false)) ≡ true
au_test_empty-merged_example =
    au_test_empty-merged env dentry (λ b. refl) 0 1 0 refl dentry-tail dirs_apart tests_empty
