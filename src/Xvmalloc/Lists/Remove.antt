-- ===== src/Xvmalloc/Lists/Remove.antt =====
-- remove_block_head and remove_block against the lists of a pool.
use kernel_patches.Base.{
  ℕ, ◌<◌, ◌≡◌, ◌⊎◌, inl, inr, refl, sym, ap, subst, ◌∙◌, true, false, List, [], ◌∷◌, ◌==◌,
  Bool-cases, arith,
}
use kernel_patches.Kernel.Bitops.{Bitops}
use kernel_patches.Xvmalloc.{Loc, loc, loc_eq, Mem, at, Xv, XvPool, num_free_lists, update}
use kernel_patches.Xvmalloc.FreeList.{
  set_link_prev, at_nonnull, unlink, remove_block_head, remove_block,
}
use kernel_patches.Xvmalloc.Bitmaps.{used, unmark_list-IsMapped, with_head-IsMapped}
use kernel_patches.Xvmalloc.Chain.{
  loc_eq_iff, has, erase, Chain, frame, index_of_has, store_ne, at_nonnull_ne, first_has, has_of_eq,
  has_of_has, remove_head-Chain,
}
use kernel_patches.Xvmalloc.Unlink.{unlink-Chain, unlink_outside}
use kernel_patches.Xvmalloc.Lists.{IsListed, update-Chain, other_list, update_self, update_ne}

module _ (b : Bitops) (s : Xv) (lists : ℕ → List Loc) (v : IsListed s lists) (k : ℕ)
    (h : k < num_free_lists) where
  listed : (xs : List Loc) → lists k ≡ xs → Chain s.mem k (loc 0 0) (s.pool.freelist k) xs
  listed xs e = subst (λ l. Chain s.mem k (loc 0 0) (s.pool.freelist k) l) e (v.chain k h)

  used_of_cons : (a : Loc) (xs : List Loc) → lists k ≡ a ∷ xs → used s.pool k ≡ true
  used_of_cons a xs e = let (n, c) = listed (a ∷ xs) e in ground (arith, n.ne_null, n.place)

  -- Blocks of the other lists differ from every block of list `k`.
  other_node :
      (xs : List Loc) (z : Loc)
      → lists k ≡ xs
      → has z xs ≡ true
      → (i : ℕ) (y : Loc) → i < num_free_lists
      → has y (lists i) ≡ true
      → (k == i) ≡ false
      → loc_eq z y ≡ false
  other_node xs z e t i y hi t' d =
      other_list b s lists v i k y z hi t'
        (index_of_has s.mem k (loc 0 0) (s.pool.freelist k) xs z t (listed xs e)).0 d

  module _ (a : Loc) (xs : List Loc) (e : lists k ≡ a ∷ xs) where
    abbrev next : Loc
    next = (s.mem a).link.next

    abbrev mem1 : Mem
    mem1 = at s.mem a (set_link_prev (loc 0 0))

    abbrev mem2 : Mem
    mem2 = at_nonnull mem1 next (set_link_prev (loc 0 0))

    abbrev pool1 : XvPool
    pool1 = record (s.pool) { freelist = update s.pool.freelist k next }

    head_others :
        (i : ℕ)
        → i < num_free_lists
        → (k == i) ≡ false
        → Chain mem2 i (loc 0 0) (s.pool.freelist i) (lists i)
    head_others i hi d =
        frame s.mem mem2 i (loc 0 0) (s.pool.freelist i) (lists i)
          (λ y t.
            let eq : mem2 y ≡ s.mem y =
              at_nonnull_ne mem1 next y (set_link_prev (loc 0 0)) (next_ne y t)
              ∙ store_ne s.mem a y _ (other_node (a ∷ xs) a e (has_of_eq a a xs refl) i y hi t d) in
            rw eq (refl, refl))
          (v.chain i hi)
      where
        next_ne : (y : Loc) → has y (lists i) ≡ true → (next.pagenum ≡ 0) ⊎ (loc_eq next y ≡ false)
        next_ne y t = elim (first_has s.mem k a next xs (listed (a ∷ xs) e).1) [
          | inl z ↦ inl z
          | inr t' ↦ inr (other_node (a ∷ xs) next e (has_of_has next a xs t') i y hi t d)
        ]

    chain2 :
        (i : ℕ)
        → i < num_free_lists
        → Chain mem2 i (loc 0 0) (pool1.freelist i) (update lists k xs i)
    chain2 =
        update-Chain mem2 s.pool.freelist lists k next xs
          (remove_head-Chain s.mem k a (s.pool.freelist k) xs (listed (a ∷ xs) e)) head_others

    -- In a pool that holds its lists, remove_block_head of the first block of an existing list
    -- leaves the rest of that list, with the links of all lists and both bitmaps right again.
    pub remove_block_head_lem : IsListed (remove_block_head b s a k) (update lists k xs)
    unfolding remove_block_head
    remove_block_head_lem = elim (Bool-cases (next.pagenum == 0)) [
      | inl z ↦ rw z (record {
        mapped =
            unmark_list-IsMapped b s.pool v.mapped k h next (ground arith) (used_of_cons a xs e);
        chain = λ i hi. subst (at_list i) (rw z) (chain2 i hi);
      })
      | inr ne ↦ rw ne (record {
        mapped = with_head-IsMapped b s.pool v.mapped k h next (ground arith) (used_of_cons a xs e);
        chain = λ i hi. subst (at_list i) (rw ne) (chain2 i hi);
      })
    ]
      where
        at_list : ℕ → Mem → Type 0
        at_list i g = Chain g i (loc 0 0) (pool1.freelist i) (update lists k xs i)

  -- A block behind the head leaves its list by the two stores alone.
  module _ (a y : Loc) (ys : List Loc) (e : lists k ≡ y ∷ ys) (t : has a ys ≡ true) where
    unlink_other :
        (i : ℕ)
        → i < num_free_lists
        → (k == i) ≡ false
        → Chain (unlink s.mem a) i (loc 0 0) (s.pool.freelist i) (lists i)
    unlink_other i hi d =
        frame s.mem (unlink s.mem a) i (loc 0 0) (s.pool.freelist i) (lists i)
          (λ z t'.
            let eq =
              unlink_outside s.mem a k (loc 0 0) (s.pool.freelist k) y ys z t (listed (y ∷ ys) e)
                (not_here i z hi t' d) in
            rw eq (refl, refl))
          (v.chain i hi)
      where
        not_here :
            (i : ℕ) (z : Loc)
            → i < num_free_lists
            → has z (lists i) ≡ true
            → (k == i) ≡ false
            → has z (y ∷ ys) ≡ false
        not_here i z hi t' d = elim (Bool-cases (has z (y ∷ ys))) [
          | inr f ↦ f
          | inl u ↦ ground (arith, other_node (y ∷ ys) z e u i z hi t' d, (loc_eq_iff z z).1 refl)
        ]

    remove_inner : IsListed (record s { mem = unlink s.mem a }) (update lists k (y ∷ erase a ys))
    remove_inner = record {
      mapped = v.mapped;
      chain = λ i hi. elim (Bool-cases (k == i)) [
        | inl same ↦
            let e' : k ≡ i = ground arith in
            subst (at_place (update lists k (y ∷ erase a ys))) e' (
              subst (λ l. Chain (unlink s.mem a) k (loc 0 0) (s.pool.freelist k) l)
                (sym (update_self lists k (y ∷ erase a ys)))
                (unlink-Chain s.mem k (loc 0 0) (s.pool.freelist k) y ys a t (listed (y ∷ ys) e)))
        | inr d ↦
            subst (λ l. Chain (unlink s.mem a) i (loc 0 0) (s.pool.freelist i) l)
              (sym (update_ne lists k (y ∷ erase a ys) i d)) (unlink_other i hi d)
      ];
    }
      where
        at_place : (ℕ → List Loc) → ℕ → Type 0
        at_place ls i = Chain (unlink s.mem a) i (loc 0 0) (s.pool.freelist i) (ls i)

  remove_block_of :
      (a : Loc) (xs : List Loc)
      → lists k ≡ xs
      → has a xs ≡ true
      → IsListed (remove_block b s a a k) (update lists k (erase a xs))
  unfolding remove_block erase
  remove_block_of a [] e t = cc
  remove_block_of a (y ∷ ys) e t =
      let place : s.pool.freelist k ≡ y = (listed (y ∷ ys) e).0.place in
      elim (Bool-cases (loc_eq (s.pool.freelist k) a)) [
        | inl here ↦
            let is : a ≡ y = sym ((loc_eq_iff (s.pool.freelist k) a).0 here) ∙ place in
            rw (here, (loc_eq_iff a y).1 is)
              (remove_block_head_lem a ys (e ∙ ap (λ w. w ∷ ys) (sym is)))
        | inr there ↦
            let not_y : loc_eq a y ≡ false = ground (arith, place) in
            rw (there, not_y) (remove_inner a y ys e (rw not_y at t))
      ]

  -- In a pool that holds its lists, remove_block of any block of an existing list takes that block
  -- out and leaves the others in order, with the links of all lists and both bitmaps right again.
  pub remove_block_lem :
      (a : Loc)
      → has a (lists k) ≡ true
      → IsListed (remove_block b s a a k) (update lists k (erase a (lists k)))
  remove_block_lem a t = remove_block_of a (lists k) refl t
