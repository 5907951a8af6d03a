-- ===== src/Aufs/Branches.antt =====
-- aufs/fs/aufs/branch.c and sbinfo.c: the branches of a mount and their ids.
-- The ids are aufs_bindex_t, words of `w` bits.
pub mod Ids
pub mod Valid
pub mod Lookup
pub mod Put
pub mod Sizes
pub mod Add
pub mod Delete
pub mod Change
use kernel_patches.Base.{
  ℕ, zero, suc, ◌+◌, ◌-◌, ◌%◌, ◌^◌, max, Bool, true, false, not, ◌&&◌, ◌||◌, Option, none, some,
  ◌==◌, ltb, leb, if◌then◌else◌, first_up, update,
}
use kernel_patches.Aufs.{BrPerm, DInfo}
use kernel_patches.Aufs.Iinfo.{IInfo}

-- `struct au_branch`. `wbr` is whether br_wbr is allocated, and whether it has whiteout bases then.
pub record BrInfo : Type 0 where
  pub br_id : ℕ
  pub br_perm : BrPerm
  pub wbr : Option Bool
  pub br_count : ℕ
  pub br_generation : ℕ
  pub s_maxbytes : ℕ

-- The super block with its root directory. `nbranch` is si_bend + 1.
pub record SbInfo : Type 0 where
  pub si_branch : ℕ → Option BrInfo
  pub nbranch : ℕ
  pub si_last_br_id : ℕ
  pub si_generation : ℕ
  pub root : DInfo
  pub root_inode : IInfo
  pub maxbytes : ℕ

pub data Error : Type 0 where
  einval enospc edom enoent enomem ebusy eio estale : Error

abbrev pub has_id : ℕ → Option BrInfo → Bool
has_id id none = false
has_id id (some br) = br.br_id == id

unfoldable pub au_br_index : SbInfo → (br_id : ℕ) → Option ℕ
unfolding first_up
au_br_index sb br_id = first_up (λ bindex. has_id br_id (sb.si_branch bindex)) sb.nbranch 0

-- Whether a search found an index; in C an index of -1 says that it did not.
abbrev pub is_index : Option ℕ → Bool
is_index none = false
is_index (some i) = true

-- The loop of au_new_br_id from the last id on; `none` is out of fuel.
unfoldable pub new_id : (w : ℕ) → SbInfo → (fuel last : ℕ) → Option ℕ
unfolding au_br_index
new_id w sb zero last = none
new_id w sb (suc fuel) last =
    let br_id = (last + 1) % 2 ^ w in
    let rest = new_id w sb fuel br_id in
    if not (br_id == 0) && not (is_index (au_br_index sb br_id)) then some br_id else rest

-- One round more than there are branches, and one for 0.
unfoldable pub au_new_br_id : (w : ℕ) → SbInfo → Option ℕ
unfolding new_id
au_new_br_id w sb = new_id w sb (sb.nbranch + 2) sb.si_last_br_id

abbrev pub put_branch : SbInfo → (bindex : ℕ) → BrInfo → SbInfo
put_branch sb bindex br = record sb { si_branch = update sb.si_branch bindex (some br) }

-- The largest s_maxbytes of the branches below `n`.
unfoldable pub largest : (ℕ → Option BrInfo) → (n : ℕ) → ℕ
largest f zero = 0
largest f (suc n) = max (largest f n) (elim (f n) [ none ↦ 0 | some br ↦ br.s_maxbytes ])
