-- ===== src/Aufs/Dinfo.antt =====
-- aufs/fs/aufs/dinfo.c: the hidden dentries of a dentry and the range of branches they lie in.
pub mod Range
use kernel_patches.Base.{
  ℕ, zero, suc, ◌+◌, ◌-◌, Bool, true, false, not, ◌&&◌, Option, none, some, ◌==◌, ltb, leb,
  if◌then◌else◌, first_up, first_down,
}
use kernel_patches.Aufs.{HDentry, DInfo}

unfoldable pub au_h_dptr : DInfo → ℕ → Option HDentry
au_h_dptr d bindex = elim (d.bstart) [
  | none ↦ none
  | some bstart ↦ if ltb bindex bstart then none else d.hdentry bindex
]

unfoldable pub au_dbtail : DInfo → Option ℕ
au_dbtail d = elim (d.bend) [
  | none ↦ none
  | some bend ↦ elim (d.bwh) [
    | none ↦ some bend
    | some bwh ↦
        if bwh == 0
        then some bwh
        else if ltb 0 bwh && ltb bwh bend
        then some (bwh - 1)
        else some bend
  ]
]

unfoldable pub au_dbtaildir : DInfo → Option ℕ
unfolding au_dbtail
au_dbtaildir d = elim (au_dbtail d) [
  | none ↦ none
  | some bend ↦ elim (d.bdiropq) [
    | none ↦ some bend
    | some bopq ↦ if ltb bopq bend then some bopq else some bend
  ]
]

-- `au_set_h_dptr(dentry, bindex, NULL)`.
unfoldable pub clear_h_dptr : DInfo → ℕ → DInfo
clear_h_dptr d bindex = record d { hdentry = λ j. if bindex == j then none else d.hdentry j }

abbrev pub is_present : Option HDentry → Bool
is_present none = false
is_present (some h) = true

abbrev pub has_inode : Option HDentry → Bool
has_inode none = false
has_inode (some h) = elim (h.inode) [ none ↦ false | some i ↦ true ]

unfoldable pub put_if_negative : ℕ → DInfo → DInfo
unfolding clear_h_dptr
put_if_negative bindex d =
    if is_present (d.hdentry bindex) && not (has_inode (d.hdentry bindex))
    then clear_h_dptr d bindex
    else d

-- Negative dentries in a range are put.
unfoldable pub put_zero : (n lo : ℕ) → DInfo → DInfo
unfolding put_if_negative
put_zero zero lo d = d
put_zero (suc n) lo d = put_zero n (lo + 1) (put_if_negative lo d)

-- The two loops that look for the first and the last hidden dentry up to `bend`.
unfoldable pub shrink_to : DInfo → (bend : ℕ) → (first : Option ℕ) → DInfo
shrink_to d bend none = record d { bstart = none; bend = none }
shrink_to d bend (some first) = record d {
  bstart = some first;
  bend = first_down (λ i. is_present (d.hdentry i)) (bend + 1) 0;
}

unfoldable pub shrink_range : DInfo → (bend : ℕ) → DInfo
unfolding shrink_to
shrink_range d bend = shrink_to d bend (first_up (λ i. is_present (d.hdentry i)) (bend + 1) 0)

-- Nothing happens without a start. With a start and no end the first loop ends at once.
unfoldable pub au_update_dbrange : DInfo → (do_put_zero : Bool) → DInfo
unfolding put_zero shrink_range
au_update_dbrange d do_put_zero = elim (d.bstart) [
  | none ↦ d
  | some bstart ↦ elim (d.bend) [
    | none ↦ record d { bstart = none; bend = none }
    | some bend ↦
        shrink_range (if do_put_zero then put_zero (bend + 1 - bstart) bstart d else d) bend
  ]
]

-- The loop of au_update_dbstart over `n` branches from `lo`, all from bstart on.
unfoldable pub update_dbstart_loop : (n lo : ℕ) → DInfo → DInfo
unfolding clear_h_dptr
update_dbstart_loop zero lo d = d
update_dbstart_loop (suc n) lo d =
    let rest =
      update_dbstart_loop n (lo + 1) (if is_present (d.hdentry lo) then clear_h_dptr d lo else d) in
    if has_inode (d.hdentry lo) then record d { bstart = some lo } else rest

unfoldable pub au_update_dbstart : DInfo → DInfo
unfolding update_dbstart_loop
au_update_dbstart d = elim (d.bstart) [
  | none ↦ d
  | some bstart ↦ elim (d.bend) [
    | none ↦ d
    | some bend ↦ update_dbstart_loop (bend + 1 - bstart) bstart d
  ]
]

-- The loop of au_update_dbend, `for (bindex = bend; bindex <= bstart; bindex--)`, entered with
-- `bend <= bstart`; the index is `n - 1`. Below index 0 au_h_dptr answers NULL and the loop's test
-- holds on, so it does not end: `none`.
unfoldable pub update_dbend_loop : (n : ℕ) → DInfo → Option DInfo
unfolding au_h_dptr clear_h_dptr
update_dbend_loop zero d = none
update_dbend_loop (suc n) d =
    let rest = update_dbend_loop n (if is_present (au_h_dptr d n) then clear_h_dptr d n else d) in
    if has_inode (au_h_dptr d n) then some (record d { bend = some n }) else rest

unfoldable pub au_update_dbend : DInfo → Option DInfo
unfolding update_dbend_loop
au_update_dbend d = elim (d.bstart) [
  | none ↦ elim (d.bend) [ none ↦ none | some bend ↦ some d ]
  | some bstart ↦ elim (d.bend) [
    | none ↦ none
    | some bend ↦ if leb bend bstart then update_dbend_loop (bend + 1) d else some d
  ]
]

-- The place of a hidden dentry in the range, by pointer; `h_dentry` may be NULL.
unfoldable pub same_dentry : Option HDentry → Option HDentry → Bool
same_dentry none none = true
same_dentry (some a) (some b) = a.ident == b.ident
same_dentry _ _ = false

unfoldable pub au_find_dbindex : DInfo → Option HDentry → Option ℕ
unfolding au_h_dptr same_dentry
au_find_dbindex d h = elim (d.bstart) [
  | none ↦ none
  | some bstart ↦ elim (d.bend) [
    | none ↦ none
    | some bend ↦ first_up (λ i. same_dentry (au_h_dptr d i) h) (bend + 1 - bstart) bstart
  ]
]
