-- ===== src/Tests/Aufs.antt =====
-- aufs with three branches: 0 and 1 are writable, 2 is read-only.
use kernel_patches.Base.{
  ℕ, ◌+◌, ◌≤◌, ◌≡◌, ◌↔◌, refl, true, false, none, some, ◌==◌, leb, if◌then◌else◌, first_up,
  first_down, arith,
}
use kernel_patches.Aufs.{SuperBlock, DInfo, rw_no_link_wh, ro, au_br_rdonly}
use kernel_patches.Aufs.Dinfo.{au_h_dptr, au_dbtaildir, is_present, has_inode, au_update_dbrange}
use kernel_patches.Aufs.Dinfo.Range.{IsTight, au_update_dbrange_lem}
use kernel_patches.Aufs.Iinfo.{IInfo, has_hinode, au_update_brange}
use kernel_patches.Aufs.Iinfo.Range.{IsTightInode, is_linked, au_update_brange_lem}
use kernel_patches.Aufs.WbrPolicy.{
  Kernel, usable_parent, au_wbr_create_exp, au_wbr_create_pmfs, au_wbr_create_mfs, avail, writable,
  au_wbr_create_tdp, au_wbr_create_rr, au_mfs, au_wbr_copyup_bup, wbr_create, wbr_copyup, pmfs,
  copyup_bup,
}
use kernel_patches.Aufs.WbrPolicy.TopDown.{
  TdpChoice, BupChoice, au_wbr_create_tdp_lem, au_wbr_copyup_bup_lem,
}
use kernel_patches.Aufs.WbrPolicy.RoundRobin.{au_wbr_create_rr_fails}
use kernel_patches.Aufs.WbrPolicy.FreeSpace.{IsBest, au_mfs_lem}
use kernel_patches.Aufs.WbrPolicy.Create.{wbr_create-writable, wbr_copyup-writable}

abbrev kernel : Kernel
kernel = record {
  h_perm = λ inode. leb 10 inode;
  statfs = λ i. if i == 0 then avail 5 4096 else avail 9 4096;
  jiffies = 1000;
  time_after = λ a b. leb (b + 1) a;
}

abbrev super_block : SuperBlock
super_block = record {
  bend = 2;
  branch =
      λ i. record { ms_rdonly = false; perm = if i == 2 then ro else rw_no_link_wh; wbr_bytes = 0 };
  dirperm1 = false;
  rr_next = 7;
  mfs = record { jiffy = 0; expire = 30; bindex = none; rr_bytes = 0; rr_watermark = 4096 };
}

-- An entry on branch 2, with its directory on 1 and 2.
abbrev entry : DInfo
entry = record {
  bstart = some 2;
  bend = some 2;
  bwh = none;
  bdiropq = none;
  hdentry = λ i. if i == 2 then some (record { ident = 40; inode = some 22 }) else none;
}

abbrev directory : DInfo
directory = record {
  bstart = some 1;
  bend = some 2;
  bwh = none;
  bdiropq = none;
  hdentry = λ i.
      if i == 1
      then some (record { ident = 31; inode = some 11 })
      else if i == 2
      then some (record { ident = 32; inode = none })
      else none;
}

-- Runs: top-down-parent takes branch 1, where the directory is; the most free space is there too.
tdp_run : au_wbr_create_tdp kernel super_block entry directory ≡ some 1
unfolding au_wbr_create_tdp writable au_br_rdonly first_up usable_parent au_h_dptr
tdp_run = refl

pmfs_run : (wbr_create pmfs kernel super_block entry directory false).0 ≡ some 1
unfolding wbr_create au_wbr_create_pmfs au_wbr_create_tdp writable au_br_rdonly first_up
    usable_parent au_h_dptr au_dbtaildir au_wbr_create_mfs au_wbr_create_exp au_mfs
pmfs_run = refl

bup_run : wbr_copyup copyup_bup kernel super_block entry directory ≡ some 1
unfolding wbr_copyup au_wbr_copyup_bup first_down usable_parent au_h_dptr au_br_rdonly writable
bup_run = refl

wbr_create-writable_example : writable super_block 1 ≡ true
wbr_create-writable_example =
    wbr_create-writable kernel pmfs super_block entry directory false 1 pmfs_run

wbr_copyup-writable_example : writable super_block 1 ≡ true
wbr_copyup-writable_example =
    wbr_copyup-writable kernel copyup_bup super_block entry directory 1 bup_run

au_wbr_create_tdp_lem_example :
    TdpChoice kernel super_block directory 1 2
      (au_wbr_create_tdp kernel super_block entry directory)
au_wbr_create_tdp_lem_example =
    au_wbr_create_tdp_lem kernel super_block entry directory 1 2 refl refl (omega arith)

au_wbr_copyup_bup_lem_example :
    BupChoice kernel super_block directory 1 2
      (au_wbr_copyup_bup kernel super_block entry directory)
au_wbr_copyup_bup_lem_example =
    au_wbr_copyup_bup_lem kernel super_block entry directory 1 2 refl refl (omega arith)

au_wbr_create_rr_fails_example :
    ((au_wbr_create_rr super_block entry directory false).0 ≡ none)
    ↔ ((j : ℕ) → j ≤ 2 → writable super_block j ≡ false)
unfolding au_wbr_create_exp
au_wbr_create_rr_fails_example =
    au_wbr_create_rr_fails super_block entry directory refl (omega arith) (omega arith)

au_mfs_lem_example :
    ((j : ℕ) → writable (au_mfs kernel super_block) j ≡ writable super_block j)
    × IsBest kernel super_block 3
        (au_mfs kernel super_block).mfs.bindex
        (au_mfs kernel super_block).mfs.rr_bytes
au_mfs_lem_example = au_mfs_lem kernel super_block

au_update_dbrange_lem_example :
    IsTight 2 (au_update_dbrange directory true)
    × ((i : ℕ)
        → 1 ≤ i
        → i ≤ 2
        → is_present ((au_update_dbrange directory true).hdentry i)
          ≡ has_inode (directory.hdentry i))
au_update_dbrange_lem_example = au_update_dbrange_lem directory true 1 2 refl refl

-- An inode on branches 1 and 2, unlinked on 2.
abbrev inode : IInfo
inode = record {
  bstart = some 1;
  bend = some 2;
  hinode = λ i.
      if i == 1
      then some (record { ident = 11; nlink = 1; hi_id = 2 })
      else if i == 2
      then some (record { ident = 12; nlink = 0; hi_id = 3 })
      else none;
}

au_update_brange_lem_example :
    IsTightInode 2 (au_update_brange inode true)
    × ((i : ℕ)
        → 1 ≤ i
        → i ≤ 2
        → has_hinode ((au_update_brange inode true).hinode i) ≡ is_linked (inode.hinode i))
au_update_brange_lem_example = au_update_brange_lem inode true 1 2 refl refl
