-- ===== src/Aufs/Vdir.antt =====
-- aufs/fs/aufs/vdir.c: a directory merged from the directories of the branches. A name is the list
-- of its bytes. `kmalloc` says which allocations, counted by the state, succeed; `full_name_hash`
-- is the kernel's. A block's entries are kept as a list instead of bytes, with the offset of its
-- end; an entry takes calc_size of its name's length. `ino_t` has four bytes.
pub mod Read
pub mod Names
pub mod Blocks
pub mod Merge
pub mod Filled
pub mod Step
pub mod Listing
pub mod Success
pub mod Bounds
pub mod Cache
pub mod Fill
pub mod Asked
pub mod Offsets
pub mod Resume
pub mod Rewind
pub mod Open
pub mod Kept
pub mod Readable
pub mod Readdir
use kernel_patches.Base.{
  ℕ, zero, suc, ◌+◌, ◌-◌, ◌*◌, ◌/◌, ◌%◌, ◌<◌, Bool, true, false, not, ◌&&◌, ◌||◌, Option, none,
  some, List, [], ◌∷◌, ◌++◌, length, ◌==◌, ltb, leb, if◌then◌else◌, update,
}

abbrev pub Name : Type 0
Name = List ℕ

-- `str->len == namelen && !memcmp(str->name, name, namelen)`.
unfoldable pub name_eq : Name → Name → Bool
name_eq [] [] = true
name_eq (x ∷ xs) (y ∷ ys) = (x == y) && name_eq xs ys
name_eq _ _ = false

abbrev pub au_size_deblk : ℕ
au_size_deblk = 512

abbrev pub au_size_nhash : ℕ
au_size_nhash = 32

-- `struct au_vdir_de` has six bytes before the name.
unfoldable pub calc_size : ℕ → ℕ
calc_size namelen = let sz = 6 + namelen in if sz % 4 == 0 then sz else (sz + 4) / 4 * 4

-- `struct au_vdir_de`, and `struct au_vdir_wh`.
pub record De : Type 0 where
  pub de_ino : ℕ
  pub de_type : ℕ
  pub de_name : Name

pub record Wh : Type 0 where
  pub wh_name : Name
  pub wh_bindex : ℕ
  pub wh_ino : ℕ
  pub wh_type : ℕ

-- `struct au_vdir`. The blocks from vd_nblk on are none.
pub record Vdir : Type 0 where
  pub vd_deblk : ℕ → List De
  pub vd_nblk : ℕ
  pub vd_last_i : ℕ
  pub vd_last_p : ℕ
  pub vd_version : ℕ
  pub vd_jiffy : ℕ

-- `struct au_nhash`: the chains, newest first.
abbrev pub Nhash {ℓ} : Type ℓ → Type ℓ
Nhash A = ℕ → List A

-- Whether there is room for an end mark, set_deblk_end.
unfoldable pub set_deblk_end : ℕ → Bool
set_deblk_end p = leb (calc_size 0) (au_size_deblk - p)

unfoldable pub chain_has : List Name → Name → Bool
chain_has [] name = false
chain_has (x ∷ xs) name = name_eq x name || chain_has xs name

unfoldable pub wh_chain_has : List Wh → Name → Bool
wh_chain_has [] name = false
wh_chain_has (x ∷ xs) name = name_eq x.wh_name name || wh_chain_has xs name

-- The count of the whiteouts of one branch goes on from `n`; `none` once it is above the limit.
unfoldable pub longer_chain : List Wh → (btgt limit n : ℕ) → Option ℕ
longer_chain [] btgt limit n = some n
longer_chain (x ∷ xs) btgt limit n =
    let next = longer_chain xs btgt limit (n + 1) in
    let same = longer_chain xs btgt limit n in
    if x.wh_bindex == btgt then (if ltb limit (n + 1) then none else next) else same

unfoldable pub longer_heads : (k i : ℕ) → Nhash Wh → (btgt limit n : ℕ) → Bool
longer_heads zero i whlist btgt limit n = false
longer_heads (suc k) i whlist btgt limit n = elim (longer_chain (whlist i) btgt limit n) [
  | none ↦ true
  | some m ↦ longer_heads k (i + 1) whlist btgt limit m
]

unfoldable pub au_nhash_test_longer_wh : Nhash Wh → (btgt limit : ℕ) → Bool
au_nhash_test_longer_wh whlist btgt limit = longer_heads au_size_nhash 0 whlist btgt limit 0

module _ (full_name_hash : Name → ℕ) where
  unfoldable pub au_name_hash : Name → ℕ
  au_name_hash name = full_name_hash name % au_size_nhash

  unfoldable pub test_known : Nhash Name → Name → Bool
  test_known delist name = chain_has (delist (au_name_hash name)) name

  unfoldable pub au_nhash_test_known_wh : Nhash Wh → Name → Bool
  au_nhash_test_known_wh whlist name = wh_chain_has (whlist (au_name_hash name)) name

  -- `hlist_add_head`.
  unfoldable pub add_name : Nhash Name → Name → Nhash Name
  add_name delist name = update delist (au_name_hash name) (name ∷ delist (au_name_hash name))

  unfoldable pub add_wh : Nhash Wh → Wh → Nhash Wh
  add_wh whlist wh = update whlist (au_name_hash wh.wh_name) (wh ∷ whlist (au_name_hash wh.wh_name))

-- The name that a whiteout stands for: what follows ".wh.", if anything does.
unfoldable pub wh_target : Name → Option Name
wh_target (a ∷ b ∷ c ∷ d ∷ x ∷ rest) =
    if (a == 46) && (b == 119) && (c == 104) && (d == 46) then some (x ∷ rest) else none
wh_target _ = none

-- A hidden directory as vfsub_readdir goes through it: a call hands over some entries, or fails.
pub record HEntry : Type 0 where
  pub h_name : Name
  pub h_ino : ℕ
  pub d_type : ℕ

pub data HDir : Type 0 where
  done failed no_seek : HDir
  batch : List HEntry → HDir → HDir
