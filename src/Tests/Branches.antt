-- ===== src/Tests/Branches.antt =====
-- Two branches with ids 1 and 2: a third is added, one is deleted or changed, an inode is refreshed.
use kernel_patches.Base.{
  ℕ, ◌+◌, ◌<◌, ◌≡◌, ◌≢◌, ◌⊎◌, refl, true, false, Option, none, some, ◌==◌, first_up, update,
  if◌then◌else◌, arith,
}
use kernel_patches.Aufs.{rw, ro, HDentry, DInfo, au_br_writable}
use kernel_patches.Aufs.Dinfo.{au_find_dbindex, same_dentry}
use kernel_patches.Aufs.Iinfo.{HInode}
use kernel_patches.Aufs.Branches.{BrInfo, SbInfo, Error, largest, au_br_index, au_new_br_id}
use kernel_patches.Aufs.Branches.Ids.{IsNewId, au_new_br_id_lem}
use kernel_patches.Aufs.Branches.Valid.{IsBranches}
use kernel_patches.Aufs.Branches.Add.{
  AddBranch, memmove_up, insert_branch, au_br_add, test_add, test_dir, test_br, overlapped,
  au_br_init, new_branch,
}
use kernel_patches.Aufs.Branches.Add.Result.{AddLem, au_br_add_lem}
use kernel_patches.Aufs.Branches.Delete.{au_br_del}
use kernel_patches.Aufs.Branches.Delete.Result.{DelLem, au_br_del_lem}
use kernel_patches.Aufs.Refresh.{InodeState, au_refresh_hinode_self}
use kernel_patches.Aufs.Refresh.Self.{IsRefreshable, IsRefreshed, au_refresh_hinode_self_lem}
use kernel_patches.Aufs.Refresh.Follow.{IsPlaced, FollowsUp, FollowsDown}
use kernel_patches.Aufs.Refresh.Dentry.{au_refresh_hinode}
use kernel_patches.Aufs.Refresh.Dentry.Held.{IsHeld, au_refresh_hinode_lem}
use kernel_patches.Aufs.Refresh.Compose.{add_then_refresh, del_then_refresh}

abbrev upper : BrInfo
upper = record {
  br_id = 1;
  br_perm = rw;
  wbr = some true;
  br_count = 0;
  br_generation = 1;
  s_maxbytes = 100;
}

abbrev lower : BrInfo
lower = record {
  br_id = 2;
  br_perm = ro;
  wbr = none;
  br_count = 0;
  br_generation = 1;
  s_maxbytes = 200;
}

abbrev directory : ℕ → HDentry
directory n = record { ident = n; inode = some n }

abbrev node : (id : ℕ) → HInode
node id = record { ident = id; nlink = 1; hi_id = id }

abbrev two {ℓ} : {A : Type ℓ} → A → A → ℕ → Option A
two a b j = if j == 0 then some a else if j == 1 then some b else none

abbrev mount : SbInfo
mount = record {
  si_branch = two upper lower;
  nbranch = 2;
  si_last_br_id = 2;
  si_generation = 7;
  root = record {
    bstart = some 0;
    bend = some 1;
    bwh = none;
    bdiropq = none;
    hdentry = two (directory 10) (directory 20);
  };
  root_inode = record { bstart = some 0; bend = some 1; hinode = two (node 1) (node 2) };
  maxbytes = 200;
}

mount-size : mount.maxbytes ≡ largest mount.si_branch mount.nbranch
unfolding largest
mount-size = refl

mount-IsBranches : IsBranches 127 mount
unfolding same_dentry
mount-IsBranches = record {
  here = λ i l. ground arith;
  gone = λ i l. ground arith;
  distinct = λ i j li lj e. ground arith;
  own = λ i j li lj e. ground arith;
  root_bstart = refl;
  root_bend = refl;
  inode_bstart = refl;
  inode_bend = refl;
  few = omega arith;
  size = mount-size;
}

abbrev addition : AddBranch
addition = record {
  bindex = some 1;
  perm = rw;
  dentry = directory 30;
  inode = node 0;
  is_rdonly = false;
  refused = false;
  overlaps = λ h. false;
  add_maxbytes = 300;
  alloc = true;
  init_wh = none;
  xino = none;
}

-- The ids of 1 byte go on after 255 with 1, which is taken, as 2 is.
abbrev wrapped : SbInfo
wrapped = record mount { si_last_br_id = 255 }

wraps : au_new_br_id 8 wrapped ≡ some 3
unfolding au_new_br_id
wraps = refl

abbrev branch_at : ℕ → Option (Option Error × SbInfo) → Option ℕ
branch_at j none = none
branch_at j (some (err, sb)) = elim (sb.si_branch j) [ none ↦ none | some br ↦ some br.br_id ]

-- Ids 1, 3, 2.
add_order :
    (branch_at 0 (au_br_add 127 8 mount addition false) ≡ some 1)
    × (branch_at 1 (au_br_add 127 8 mount addition false) ≡ some 3)
    × (branch_at 2 (au_br_add 127 8 mount addition false) ≡ some 2)
unfolding au_br_add test_add au_find_dbindex first_up test_dir test_br au_br_writable overlapped
    au_br_init au_new_br_id insert_branch update memmove_up new_branch
add_order = (refl, refl, refl)

two_after : (a b : HInode) (j : ℕ) → 1 < j → two a b j ≡ none
two_after a b j l = ground arith

two_unique :
    (a b : HInode)
    → a.hi_id ≢ b.hi_id
    → (i j : ℕ) (g h : HInode) → two a b i ≡ some g
    → two a b j ≡ some h
    → g.hi_id ≡ h.hi_id
    → i ≡ j
two_unique a b ne i j g h e f same = ground arith

-- An inode on both branches whose array is still in the other order.
abbrev inode : InodeState
inode = record {
  iinfo = record { bstart = some 0; bend = some 1; hinode = two (node 2) (node 1) };
  isdir = true;
  i_version = 5;
  ii_generation = 6;
}

abbrev inode-IsRefreshable : IsRefreshable inode.iinfo
inode-IsRefreshable = record {
  start = 0;
  end = 1;
  bstart = refl;
  bend = refl;
  before = λ j l. absurd (omega arith);
  after = two_after (node 2) (node 1);
  unique = two_unique (node 2) (node 1) (omega arith);
}

abbrev at_index : ℕ → Option (Option Error × InodeState) → Option ℕ
at_index j none = none
at_index j (some (err, ino)) = elim (ino.iinfo.hinode j) [ none ↦ none | some h ↦ some h.hi_id ]

refresh_order :
    (at_index 0 (au_refresh_hinode_self mount 5 true inode) ≡ some 1)
    × (at_index 1 (au_refresh_hinode_self mount 5 true inode) ≡ some 2)
unfolding au_refresh_hinode_self
refresh_order = (refl, refl)

abbrev settled : InodeState
settled = record inode {
  iinfo = record { bstart = some 0; bend = some 1; hinode = two (node 1) (node 2) };
}

abbrev settled-IsRefreshable : IsRefreshable settled.iinfo
settled-IsRefreshable = record {
  start = 0;
  end = 1;
  bstart = refl;
  bend = refl;
  before = λ j l. absurd (omega arith);
  after = two_after (node 1) (node 2);
  unique = two_unique (node 1) (node 2) (omega arith);
}

settled-IsPlaced : IsPlaced mount settled.iinfo
unfolding au_br_index
settled-IsPlaced j h e = ground arith

au_new_br_id_lem_example : (id : ℕ) × (au_new_br_id 8 wrapped ≡ some id) × IsNewId 8 wrapped id
au_new_br_id_lem_example = au_new_br_id_lem 8 wrapped (omega arith)

au_br_add_lem_example :
    (r : Option Error × SbInfo) × (au_br_add 127 8 mount addition false ≡ some r)
    × AddLem 127 8 mount addition false r
au_br_add_lem_example = au_br_add_lem 127 8 mount addition false mount-IsBranches (omega arith)

au_br_del_lem_example :
    DelLem 127 mount (directory 10) false none (au_br_del mount (directory 10) false none true)
au_br_del_lem_example = au_br_del_lem 127 mount (directory 10) false none true mount-IsBranches

au_refresh_hinode_self_lem_example :
    (r : Option Error × InodeState) × (au_refresh_hinode_self mount 5 true inode ≡ some r)
    × (((r.0 ≡ some Error.enomem) × (r.1 ≡ inode) × (true ≡ false) × (1 + 1 < 2))
        ⊎ ((r.0 ≡ none) × IsRefreshed mount inode r.1))
au_refresh_hinode_self_lem_example =
    au_refresh_hinode_self_lem mount inode 5 true inode-IsRefreshable (omega arith)

add_then_refresh_example :
    (r : Option Error × SbInfo) × (au_br_add 127 8 mount addition false ≡ some r)
    × (out : InodeState) × (au_refresh_hinode_self r.1 7 true settled ≡ some (none, out))
    × (((r.1 ≡ mount) × ((j : ℕ) → out.iinfo.hinode j ≡ settled.iinfo.hinode j))
        ⊎ ((b : ℕ) × (addition.bindex ≡ some b) × FollowsUp r.1 b settled.iinfo out.iinfo))
add_then_refresh_example =
    add_then_refresh 127 8 mount addition false mount-IsBranches (omega arith) settled 7
      settled-IsRefreshable (omega arith) settled-IsPlaced

del_then_refresh_example :
    let r = au_br_del mount (directory 10) false none true in
    (out : InodeState) × (au_refresh_hinode_self r.1 5 true settled ≡ some (none, out))
    × ((r.1 ≡ mount)
        ⊎ (r.0 ≢ none)
        ⊎ ((b : ℕ) × (au_find_dbindex mount.root (some (directory 10)) ≡ some b)
            × FollowsDown r.1 b settled.iinfo out.iinfo))
del_then_refresh_example =
    del_then_refresh 127 mount (directory 10) false none true mount-IsBranches settled 5
      settled-IsRefreshable (omega arith) settled-IsPlaced

-- A dentry whose one hidden dentry is of the inode that is on the first branch.
abbrev entry : DInfo
entry = record {
  bstart = some 0;
  bend = some 0;
  bwh = none;
  bdiropq = none;
  hdentry = λ j. if j == 0 then some (record { ident = 11; inode = some 1 }) else none;
}

au_refresh_hinode_lem_example :
    (r : Option Error × InodeState) × (au_refresh_hinode (λ i. 1) mount entry 5 true inode ≡ some r)
    × (((r.0 ≡ some Error.enomem) × (r.1 ≡ inode) × (true ≡ false))
        ⊎ (r.0 ≡ some Error.estale)
        ⊎ ((r.0 ≡ none) × IsHeld mount entry 0 0 inode r.1))
au_refresh_hinode_lem_example =
    au_refresh_hinode_lem (λ i. 1) mount entry 0 0 refl refl (omega arith) inode 5 true
      inode-IsRefreshable (omega arith)
