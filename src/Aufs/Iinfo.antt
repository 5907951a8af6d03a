-- ===== src/Aufs/Iinfo.antt =====
-- aufs/fs/aufs/iinfo.c: the hidden inodes of an inode and the range of branches they lie in.
pub mod Range
use kernel_patches.Base.{
  ℕ, zero, suc, ◌+◌, ◌-◌, Bool, true, false, ◌&&◌, Option, none, some, ◌==◌, if◌then◌else◌,
  first_up, first_down,
}

-- A hidden inode with the branch it is on: an identity, its link count, and the branch's id.
pub record HInode : Type 0 where
  pub ident : ℕ
  pub nlink : ℕ
  pub hi_id : ℕ

-- `struct au_iinfo`.
pub record IInfo : Type 0 where
  pub bstart : Option ℕ
  pub bend : Option ℕ
  pub hinode : ℕ → Option HInode

unfoldable pub au_h_iptr : IInfo → ℕ → Option HInode
au_h_iptr d bindex = d.hinode bindex

-- `au_set_h_iptr(inode, bindex, NULL, 0)`.
unfoldable pub clear_h_iptr : IInfo → ℕ → IInfo
clear_h_iptr d bindex = record d { hinode = λ j. if bindex == j then none else d.hinode j }

abbrev pub has_hinode : Option HInode → Bool
has_hinode none = false
has_hinode (some h) = true

abbrev pub is_unlinked : Option HInode → Bool
is_unlinked none = false
is_unlinked (some h) = h.nlink == 0

unfoldable pub put_if_unlinked : ℕ → IInfo → IInfo
unfolding clear_h_iptr
put_if_unlinked bindex d = if is_unlinked (d.hinode bindex) then clear_h_iptr d bindex else d

-- Inodes without links in a range are put.
unfoldable pub put_unlinked : (n lo : ℕ) → IInfo → IInfo
unfolding put_if_unlinked
put_unlinked zero lo d = d
put_unlinked (suc n) lo d = put_unlinked n (lo + 1) (put_if_unlinked lo d)

-- The two loops that look for the first and the last hidden inode up to `bend`.
unfoldable pub shrink_irange_to : IInfo → (bend : ℕ) → (first : Option ℕ) → IInfo
shrink_irange_to d bend none = record d { bstart = none; bend = none }
shrink_irange_to d bend (some first) = record d {
  bstart = some first;
  bend = first_down (λ i. has_hinode (d.hinode i)) (bend + 1) 0;
}

unfoldable pub shrink_irange : IInfo → (bend : ℕ) → IInfo
unfolding shrink_irange_to
shrink_irange d bend =
    shrink_irange_to d bend (first_up (λ i. has_hinode (d.hinode i)) (bend + 1) 0)

-- Nothing happens without a start. With a start and no end the first loop ends at once.
unfoldable pub au_update_brange : IInfo → (do_put_zero : Bool) → IInfo
unfolding put_unlinked shrink_irange
au_update_brange d do_put_zero = elim (d.bstart) [
  | none ↦ d
  | some bstart ↦ elim (d.bend) [
    | none ↦ record d { bstart = none; bend = none }
    | some bend ↦
        shrink_irange (if do_put_zero then put_unlinked (bend + 1 - bstart) bstart d else d) bend
  ]
]
