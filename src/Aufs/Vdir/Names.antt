-- ===== src/Aufs/Vdir/Names.antt =====
-- Names: equality, the hash lists, and the tests over the branches above.
use kernel_patches.Base.{
  ℕ, zero, suc, ◌<◌, ◌≡◌, refl, ap, Bool, true, ◌||◌, List, [], ◌∷◌, ◌++◌, update, arith,
}
use kernel_patches.Aufs.Vdir.{
  Name, name_eq, Wh, Nhash, chain_has, wh_chain_has, au_name_hash, test_known,
  au_nhash_test_known_wh, add_name, add_wh,
}
use kernel_patches.Aufs.Vdir.Read.{any_below}

pub name_eq-eq : (a b : Name) → name_eq a b ≡ true → a ≡ b
unfolding name_eq
name_eq-eq [] [] e = refl
name_eq-eq [] (y ∷ ys) e = cc
name_eq-eq (x ∷ xs) [] e = cc
name_eq-eq (x ∷ xs) (y ∷ ys) e =
    let head : x ≡ y = ground arith in let tail = name_eq-eq xs ys (ground arith) in cc (head, tail)

pub name_eq_refl : (a : Name) → name_eq a a ≡ true
unfolding name_eq
name_eq_refl [] = refl
name_eq_refl (x ∷ xs) = ground (arith, name_eq_refl xs)

pub chain_has-append :
    (xs ys : List Name) (m : Name) → chain_has (xs ++ ys) m ≡ (chain_has xs m || chain_has ys m)
unfolding chain_has
chain_has-append [] ys m = refl
chain_has-append (x ∷ xs) ys m = ground (arith, chain_has-append xs ys m)

-- A hash list has what was added, and what it had before.
module _ (hash : Name → ℕ) where
  same_chain : (a m : Name) → name_eq a m ≡ true → au_name_hash hash a ≡ au_name_hash hash m
  same_chain a m e = ap (au_name_hash hash) (name_eq-eq a m e)

  pub test_known-add_name :
      (h : Nhash Name) (a m : Name)
      → test_known hash (add_name hash h a) m ≡ (name_eq a m || test_known hash h m)
  unfolding test_known add_name chain_has update
  test_known-add_name h a m = ground (arith, same_chain a m)

  pub known_wh-add_wh :
      (h : Nhash Wh) (w : Wh) (m : Name)
      → au_nhash_test_known_wh hash (add_wh hash h w) m
        ≡ (name_eq w.wh_name m || au_nhash_test_known_wh hash h m)
  unfolding au_nhash_test_known_wh add_wh wh_chain_has update
  known_wh-add_wh h w m = ground (arith, same_chain w.wh_name m)

pub any_below-ext :
    (n : ℕ) (p q : ℕ → Bool) → ((c : ℕ) → c < n → p c ≡ q c) → any_below n p ≡ any_below n q
unfolding any_below
any_below-ext zero p q e = refl
any_below-ext (suc n) p q e =
    let rest = any_below-ext n p q (λ c h. e c (omega arith)) in
    let here = e n (omega arith) in cc (rest, here)
