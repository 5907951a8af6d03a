-- ===== src/Aufs/Dinfo/Range.antt =====
-- The range that au_update_dbrange leaves, and what au_update_dbend does.
use kernel_patches.Base.{
  ℕ, zero, suc, ◌+◌, ◌-◌, ◌≤◌, ◌<◌, ◌≡◌, ◌≢◌, refl, ap, ◌∙◌, Bool, true, false, Option, none, some,
  if◌then◌else◌, first_up, first_up_lem, IsLowest, arith,
}
use native.Mathlib.Decide.{dec_lt}
use kernel_patches.Aufs.Tight.{IsTightRange, range_none, range_some}
use kernel_patches.Aufs.{DInfo}
use kernel_patches.Aufs.Dinfo.{
  is_present, has_inode, put_zero, shrink_range, shrink_to, put_if_negative, au_update_dbrange,
  au_update_dbend,
}

-- The range is tight among the branches up to `e`.
abbrev pub IsTight : ℕ → DInfo → Type 0
IsTight e r = IsTightRange (λ i. is_present (r.hdentry i)) e r.bstart r.bend

shrink_range_lem : (d : DInfo) (e : ℕ) → IsTight e (shrink_range d e)
unfolding shrink_range
shrink_range_lem d e = go (first_up p (e + 1) 0) (first_up_lem p (e + 1) 0 (e + 1) (omega arith))
  where
    p : ℕ → Bool
    p i = is_present (d.hdentry i)

    go : (r : Option ℕ) → IsLowest p 0 (e + 1) r → IsTight e (shrink_to d e r)
    go none low = range_none p e low
    go (some k) low = range_some p e k low

put_if_negative_ne :
    (k : ℕ) (d : DInfo) (i : ℕ) → k ≢ i → (put_if_negative k d).hdentry i ≡ d.hdentry i
unfolding put_if_negative
put_if_negative_ne k d i ne = ground arith

put_if_negative_self :
    (k : ℕ) (d : DInfo) → is_present ((put_if_negative k d).hdentry k) ≡ has_inode (d.hdentry k)
unfolding put_if_negative
put_if_negative_self k d = ground arith

-- Only the branches from `lo` on are touched, and no negative dentry is left there.
put_zero_below : (n lo : ℕ) (d : DInfo) (i : ℕ) → i < lo → (put_zero n lo d).hdentry i ≡ d.hdentry i
unfolding put_zero
put_zero_below zero lo d i h = refl
put_zero_below (suc n) lo d i h =
    put_zero_below n (lo + 1) (put_if_negative lo d) i (omega arith)
    ∙ put_if_negative_ne lo d i (omega arith)

put_zero_lem :
    (n lo : ℕ) (d : DInfo) (i : ℕ)
    → lo ≤ i
    → i < lo + n
    → is_present ((put_zero n lo d).hdentry i) ≡ has_inode (d.hdentry i)
unfolding put_zero
put_zero_lem zero lo d i a b = absurd (omega arith)
put_zero_lem (suc n) lo d i a b = elim (dec_lt lo i) [
  | yes g ↦
      put_zero_lem n (lo + 1) (put_if_negative lo d) i (omega arith) (omega arith)
      ∙ ap has_inode (put_if_negative_ne lo d i (omega arith))
  | no g ↦
      let e : i ≡ lo = omega arith in
      rw e (
        ap is_present (put_zero_below n (lo + 1) (put_if_negative lo d) lo (omega arith))
        ∙ put_if_negative_self lo d)
]

shrink_range-hdentry : (d : DInfo) (e i : ℕ) → (shrink_range d e).hdentry i ≡ d.hdentry i
unfolding shrink_range
shrink_range-hdentry d e i = ground arith

-- For a dentry with a range, au_update_dbrange leaves a tight one: up to the old end, the new start
-- and end are the first and the last branch with a hidden dentry, or there is none and no range.
-- With `do_put_zero` exactly the hidden dentries of the old range that have an inode stay, without
-- it all of them.
pub au_update_dbrange_lem :
    (d : DInfo) (do_put_zero : Bool) (s e : ℕ)
    → d.bstart ≡ some s
    → d.bend ≡ some e
    → let r = au_update_dbrange d do_put_zero in
      IsTight e r
      × ((i : ℕ)
          → s ≤ i
          → i ≤ e
          → is_present (r.hdentry i)
            ≡ (if do_put_zero then has_inode (d.hdentry i) else is_present (d.hdentry i)))
unfolding au_update_dbrange
au_update_dbrange_lem d true s e hs he =
    rw (hs, he, au_update_dbrange)
      (
        shrink_range_lem (put_zero (e + 1 - s) s d) e,
        λ i a b.
            ap is_present (shrink_range-hdentry (put_zero (e + 1 - s) s d) e i)
            ∙ put_zero_lem (e + 1 - s) s d i a (omega arith),
      )
au_update_dbrange_lem d false s e hs he =
    rw (hs, he, au_update_dbrange)
      (shrink_range_lem d e, λ i a b. ap is_present (shrink_range-hdentry d e i))

-- au_update_dbend leaves every dentry whose range's end is above its start as it is, whatever lies
-- at that end.
pub au_update_dbend_idle :
    (d : DInfo) (s e : ℕ) → d.bstart ≡ some s → d.bend ≡ some e → s < e → au_update_dbend d ≡ some d
unfolding au_update_dbend
au_update_dbend_idle d s e hs he l = ground arith
