-- ===== src/Aufs/Iinfo/Range.antt =====
-- The range that au_update_brange leaves.
use kernel_patches.Base.{
  ℕ, zero, suc, ◌+◌, ◌-◌, ◌≤◌, ◌<◌, ◌≡◌, ◌≢◌, refl, ap, ◌∙◌, Bool, true, false, not, ◌&&◌, Option,
  none, some, if◌then◌else◌, first_up, first_up_lem, IsLowest, arith,
}
use native.Mathlib.Decide.{dec_lt}
use kernel_patches.Aufs.Tight.{IsTightRange, range_none, range_some}
use kernel_patches.Aufs.Iinfo.{
  HInode, IInfo, has_hinode, is_unlinked, put_if_unlinked, put_unlinked, shrink_irange,
  shrink_irange_to, au_update_brange,
}

-- The range is tight among the branches up to `e`.
abbrev pub IsTightInode : ℕ → IInfo → Type 0
IsTightInode e r = IsTightRange (λ i. has_hinode (r.hinode i)) e r.bstart r.bend

shrink_irange_lem : (d : IInfo) (e : ℕ) → IsTightInode e (shrink_irange d e)
unfolding shrink_irange
shrink_irange_lem d e = go (first_up p (e + 1) 0) (first_up_lem p (e + 1) 0 (e + 1) (omega arith))
  where
    p : ℕ → Bool
    p i = has_hinode (d.hinode i)

    go : (r : Option ℕ) → IsLowest p 0 (e + 1) r → IsTightInode e (shrink_irange_to d e r)
    go none low = range_none p e low
    go (some k) low = range_some p e k low

put_if_unlinked_ne :
    (k : ℕ) (d : IInfo) (i : ℕ) → k ≢ i → (put_if_unlinked k d).hinode i ≡ d.hinode i
unfolding put_if_unlinked
put_if_unlinked_ne k d i ne = ground arith

-- A hidden inode that has a link.
abbrev pub is_linked : Option HInode → Bool
is_linked h = has_hinode h && not (is_unlinked h)

put_if_unlinked_self :
    (k : ℕ) (d : IInfo) → has_hinode ((put_if_unlinked k d).hinode k) ≡ is_linked (d.hinode k)
unfolding put_if_unlinked
put_if_unlinked_self k d = ground arith

put_unlinked_below :
    (n lo : ℕ) (d : IInfo) (i : ℕ) → i < lo → (put_unlinked n lo d).hinode i ≡ d.hinode i
unfolding put_unlinked
put_unlinked_below zero lo d i h = refl
put_unlinked_below (suc n) lo d i h =
    put_unlinked_below n (lo + 1) (put_if_unlinked lo d) i (omega arith)
    ∙ put_if_unlinked_ne lo d i (omega arith)

put_unlinked_lem :
    (n lo : ℕ) (d : IInfo) (i : ℕ)
    → lo ≤ i
    → i < lo + n
    → has_hinode ((put_unlinked n lo d).hinode i) ≡ is_linked (d.hinode i)
unfolding put_unlinked
put_unlinked_lem zero lo d i a b = absurd (omega arith)
put_unlinked_lem (suc n) lo d i a b = elim (dec_lt lo i) [
  | yes g ↦
      put_unlinked_lem n (lo + 1) (put_if_unlinked lo d) i (omega arith) (omega arith)
      ∙ ap is_linked (put_if_unlinked_ne lo d i (omega arith))
  | no g ↦
      let e : i ≡ lo = omega arith in
      rw e (
        ap has_hinode (put_unlinked_below n (lo + 1) (put_if_unlinked lo d) lo (omega arith))
        ∙ put_if_unlinked_self lo d)
]

shrink_irange-hinode : (d : IInfo) (e i : ℕ) → (shrink_irange d e).hinode i ≡ d.hinode i
unfolding shrink_irange
shrink_irange-hinode d e i = ground arith

-- For an inode with a range, au_update_brange leaves a tight one: up to the old end, the new start
-- and end are the first and the last branch with a hidden inode, or there is none and no range. With
-- `do_put_zero` exactly the hidden inodes of the old range that have a link stay, without it all of
-- them.
pub au_update_brange_lem :
    (d : IInfo) (do_put_zero : Bool) (s e : ℕ)
    → d.bstart ≡ some s
    → d.bend ≡ some e
    → let r = au_update_brange d do_put_zero in
      IsTightInode e r
      × ((i : ℕ)
          → s ≤ i
          → i ≤ e
          → has_hinode (r.hinode i)
            ≡ (if do_put_zero then is_linked (d.hinode i) else has_hinode (d.hinode i)))
unfolding au_update_brange
au_update_brange_lem d true s e hs he =
    rw (hs, he, au_update_brange)
      (
        shrink_irange_lem (put_unlinked (e + 1 - s) s d) e,
        λ i a b.
            ap has_hinode (shrink_irange-hinode (put_unlinked (e + 1 - s) s d) e i)
            ∙ put_unlinked_lem (e + 1 - s) s d i a (omega arith),
      )
au_update_brange_lem d false s e hs he =
    rw (hs, he, au_update_brange)
      (shrink_irange_lem d e, λ i a b. ap has_hinode (shrink_irange-hinode d e i))
