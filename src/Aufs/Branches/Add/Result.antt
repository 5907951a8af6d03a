-- ===== src/Aufs/Branches/Add/Result.antt =====
-- au_br_add (aufs/fs/aufs/branch.c): all its outcomes.
use kernel_patches.Base.{
  ℕ, ◌+◌, ◌^◌, ◌≤◌, ◌<◌, ◌≡◌, ◌≢◌, ◌⊎◌, inl, inr, refl, Bool, true, Option, none, some,
  if◌then◌else◌, Bool-cases, Option-cases, arith,
}
use kernel_patches.Aufs.{au_br_writable}
use kernel_patches.Aufs.Dinfo.{au_find_dbindex}
use kernel_patches.Aufs.Branches.{BrInfo, SbInfo, Error, enomem, is_index}
use kernel_patches.Aufs.Branches.Ids.{IsNewId, au_new_br_id_lem}
use kernel_patches.Aufs.Branches.Valid.{IsBranches}
use kernel_patches.Aufs.Branches.Add.{
  AddBranch, new_branch, Verdict, go_on, ignore, refuse, made, stopped, insert_branch, test_add,
  test_dir, au_br_init, au_br_add,
}
use kernel_patches.Aufs.Branches.Lookup.{not_found}
use kernel_patches.Aufs.Branches.Add.Insert.{
  IsInserted, insert_branch-IsBranches, insert_branch-IsInserted,
}

-- The result of au_br_add: the super block as it was, with an error unless a remount finds the branch
-- already there, or with a new branch put in.
pub record AddLem (branch_max w : ℕ) (sb : SbInfo) (add : AddBranch) (remount : Bool)
    (r : Option Error × SbInfo) : Type 0 where
  pub valid : IsBranches branch_max r.1
  pub result :
      (r.1 ≡ sb)
        × ((r.0 ≢ none)
            ⊎ (remount ≡ true) × (is_index (au_find_dbindex sb.root (some (add.dentry))) ≡ true))
      ⊎ (r.0 ≡ none) × IsInserted w sb add r.1

-- What test_add has tested when it lets the addition go on.
go_on_lem :
    (branch_max : ℕ) (sb : SbInfo) (add : AddBranch) (remount : Bool)
    → test_add branch_max sb add remount ≡ go_on
    → (sb.nbranch < branch_max)
      × ((b : ℕ) × (add.bindex ≡ some b) × (b ≤ sb.nbranch))
      × ((sb.nbranch ≡ 0) ⊎ (au_find_dbindex sb.root (some (add.dentry)) ≡ none))
unfolding test_add
go_on_lem branch_max sb add remount e = elim (Option-cases (add.bindex)) [
  | inl n ↦ absurd (ground arith)
  | inr (b, i) ↦ (
    ground arith,
    (b, i, ground arith),
    elim (Option-cases (au_find_dbindex sb.root (some (add.dentry)))) [
      | inl f ↦ inr f
      | inr (k, f) ↦ inl (ground arith)
    ],
  )
]

ignore_lem :
    (branch_max : ℕ) (sb : SbInfo) (add : AddBranch) (remount : Bool)
    → test_add branch_max sb add remount ≡ ignore
    → (remount ≡ true) × (is_index (au_find_dbindex sb.root (some (add.dentry))) ≡ true)
unfolding test_add test_dir
ignore_lem branch_max sb add remount e = (ground arith, ground arith)

Verdict-cases : (v : Verdict) → (v ≡ go_on) ⊎ (v ≡ ignore) ⊎ ((e : Error) × (v ≡ refuse e))
Verdict-cases go_on = inl refl
Verdict-cases ignore = inr (inl refl)
Verdict-cases (refuse e) = inr (inr (e, refl))

-- The branch that au_br_init makes.
made_lem :
    (branch_max w : ℕ) (sb : SbInfo) (add : AddBranch)
    → sb.nbranch + 1 < 2 ^ w
    → ((e : Error) × (au_br_init branch_max w sb add ≡ some (stopped e)))
      ⊎ ((br : BrInfo) × (au_br_init branch_max w sb add ≡ some (made br))
          × IsNewId w sb br.br_id
          × (br.br_perm ≡ add.perm)
          × (br.s_maxbytes ≡ add.add_maxbytes))
unfolding au_br_init new_branch
made_lem branch_max w sb add l =
    let (id, e, fresh) = au_new_br_id_lem w sb l in
    let wh = if au_br_writable add.perm then add.init_wh else none in
    elim (Bool-cases add.alloc) [
      | inr a ↦ inl (enomem, rw (au_br_init, a) refl)
      | inl a ↦ elim (Option-cases wh) [
        | inr (f, b) ↦ inl (f, rw (au_br_init, a, b) refl)
        | inl b ↦ elim (Option-cases add.xino) [
          | inr (f, c) ↦ inl (f, rw (au_br_init, a, b, c) refl)
          | inl c ↦ inr (new_branch sb add id, rw (au_br_init, a, b, c, e) refl, fresh, refl, refl)
        ]
      ]
    ]

added_lem :
    (branch_max w : ℕ) (sb : SbInfo) (add : AddBranch) (remount : Bool) (br : BrInfo) (b : ℕ)
    → test_add branch_max sb add remount ≡ go_on
    → au_br_init branch_max w sb add ≡ some (made br)
    → add.bindex ≡ some b
    → au_br_add branch_max w sb add remount ≡ some (none, insert_branch sb add br b)
unfolding au_br_add
added_lem branch_max w sb add remount br b e m i = ground arith

-- Adding a branch to a well-formed super block, whose branches and 0 leave an id of `w` bits over,
-- comes to an end and leaves a well-formed one: one entry of each array per branch, all of a branch at
-- the same index, ids that are not 0 and occur once, as do the root's hidden dentries, no more
-- branches than the maximum, and the largest s_maxbytes. Either nothing changes, and this is an error
-- unless a remount finds the branch already there, or the branch is in at the index asked for, with
-- a new id, and the others keep their order and their dentries and inodes.
pub au_br_add_lem :
    (branch_max w : ℕ) (sb : SbInfo) (add : AddBranch) (remount : Bool)
    → IsBranches branch_max sb
    → sb.nbranch + 1 < 2 ^ w
    → (r : Option Error × SbInfo) × (au_br_add branch_max w sb add remount ≡ some r)
      × AddLem branch_max w sb add remount r
unfolding au_br_add
au_br_add_lem branch_max w sb add remount v l =
    elim (Verdict-cases (test_add branch_max sb add remount)) [
      | inr (inr (e, t)) ↦ (
        (some e, sb),
        rw (au_br_add, t) refl,
        record { valid = v; result = inl (refl, inl (λ q. ground arith)) },
      )
      | inr (inl t) ↦ (
        (none, sb),
        rw (au_br_add, t) refl,
        record { valid = v; result = inl (refl, inr (ignore_lem branch_max sb add remount t)) },
      )
      | inl t ↦ elim (made_lem branch_max w sb add l) [
        | inl (e, m) ↦ (
          (some e, sb),
          rw (au_br_add, t, m) refl,
          record { valid = v; result = inl (refl, inl (λ q. ground arith)) },
        )
        | inr (br, m, fresh, p, q) ↦
            let (room, (b, i, inside), f) = go_on_lem branch_max sb add remount t in
            let new = not_found branch_max sb add.dentry v f in
            (
              (none, insert_branch sb add br b),
              added_lem branch_max w sb add remount br b t m i,
              record {
                valid = insert_branch-IsBranches branch_max w sb v add br b inside room fresh q new;
                result = inr (
                  refl,
                  insert_branch-IsInserted branch_max w sb v add br b inside room fresh q new i p,
                );
              },
            )
      ]
    ]
