-- ===== src/Xvmalloc/Lists.antt =====
-- All free lists of a pool at once: what they stand for, and what insert_block, remove_block_head
-- and remove_block do to them, bitmaps included.
pub mod Remove
pub use kernel_patches.Base.{update_self, update_ne}
use kernel_patches.Base.{
  ℕ, ◌<◌, ◌≡◌, ◌≢◌, ◌⊎◌, inl, inr, refl, sym, ap, subst, ◌∙◌, Bool, true, false, List, [], ◌∷◌,
  ◌==◌, if◌then◌else◌, Bool-cases, arith,
}
use kernel_patches.Kernel.Bitops.{Bitops}
use kernel_patches.Xvmalloc.{
  Loc, loc, loc_eq, Mem, at, store, Xv, page_size, num_free_lists, update, u16,
  get_index_for_insert,
}
use kernel_patches.Xvmalloc.FreeList.{
  set_link_prev, set_link_next, at_nonnull, unlink, mark_list, unmark_list, insert_block,
  remove_block_head, remove_block,
}
use kernel_patches.Xvmalloc.Bitmaps.{
  used, IsMapped, mark_list-IsMapped, unmark_list-IsMapped, with_head-IsMapped,
}
use kernel_patches.Xvmalloc.Chain.{
  loc_eq_iff, has, erase, Chain, SameNode, frame, index_of_has, store_ne, loc-u16, at_nonnull_ne,
  first_has, insert-Chain, remove_head-Chain,
}
use kernel_patches.Xvmalloc.Unlink.{unlink-Chain}

-- The pool's lists hold the blocks of `lists`, in order, and its bitmaps say which are empty.
pub record IsListed (s : Xv) (lists : ℕ → List Loc) : Type 0 where
  pub mapped : IsMapped s.pool
  pub chain : (i : ℕ) → i < num_free_lists → Chain s.mem i (loc 0 0) (s.pool.freelist i) (lists i)

-- A change of list `k` alone.
update-Chain :
    (m : Mem) (freelist : ℕ → Loc) (lists : ℕ → List Loc) (k : ℕ) (head : Loc) (xs : List Loc)
    → Chain m k (loc 0 0) head xs
    → ((i : ℕ) → i < num_free_lists → (k == i) ≡ false → Chain m i (loc 0 0) (freelist i) (lists i))
    → (i : ℕ) → i < num_free_lists
    → Chain m i (loc 0 0) (update freelist k head i) (update lists k xs i)
update-Chain m freelist lists k head xs c others i h = elim (Bool-cases (k == i)) [
  | inl e ↦
      let e' : k ≡ i = ground arith in
      subst (λ j. Chain m j (loc 0 0) (update freelist k head j) (update lists k xs j)) e'
        (subst (λ w. Chain m k (loc 0 0) w (update lists k xs k))
          (sym (update_self freelist k head))
          (subst (λ l. Chain m k (loc 0 0) head l) (sym (update_self lists k xs)) c))
  | inr ne ↦
      subst (λ w. Chain m i (loc 0 0) w (update lists k xs i))
        (sym (update_ne freelist k head i ne))
        (subst (λ l. Chain m i (loc 0 0) (freelist i) l) (sym (update_ne lists k xs i ne))
          (others i h ne))
]

module _ (b : Bitops) (s : Xv) (lists : ℕ → List Loc) (v : IsListed s lists) where
  -- A block whose size belongs to list `k` is in no other list.
  other_list :
      (i k : ℕ) (y z : Loc)
      → i < num_free_lists
      → has y (lists i) ≡ true
      → get_index_for_insert (s.mem z).size ≡ k
      → (k == i) ≡ false
      → loc_eq z y ≡ false
  other_list i k y z h t e ne = elim (Bool-cases (loc_eq z y)) [
    | inr f ↦ f
    | inl eq ↦
        let y_index =
          (index_of_has s.mem i (loc 0 0) (s.pool.freelist i) (lists i) y t (v.chain i h)).0 in
        let e' : get_index_for_insert (s.mem y).size ≡ k = rw (← (loc_eq_iff z y).0 eq) e in
        ground arith
  ]

  -- The head of list `k`, if it has one, is in no other list.
  head_other :
      (i k : ℕ) (y : Loc)
      → k < num_free_lists
      → i < num_free_lists
      → has y (lists i) ≡ true
      → (k == i) ≡ false
      → ((s.pool.freelist k).pagenum ≡ 0) ⊎ (loc_eq (s.pool.freelist k) y ≡ false)
  head_other i k y hk hi t ne =
      elim (first_has s.mem k (loc 0 0) (s.pool.freelist k) (lists k) (v.chain k hk)) [
        | inl z ↦ inl z
        | inr t' ↦ inr (
            other_list i k y (s.pool.freelist k) hi t
              (index_of_has s.mem k (loc 0 0) (s.pool.freelist k) (lists k) (s.pool.freelist k) t'
                (v.chain k hk)).0
              ne)
      ]

  module _ (a : Loc) (ne : a.pagenum ≢ 0) (fits : a.offset < page_size) where
    abbrev k : ℕ
    k = get_index_for_insert (s.mem a).size

    -- In a pool that holds its lists, insert_block of a block that is not in the list of its size,
    -- with a page that is not 0, an offset in the page and a size that belongs to an existing list,
    -- puts it in front of that list: the links of all lists and both bitmaps are right again.
    pub insert_block_lem :
        get_index_for_insert (s.mem a).size < num_free_lists
        → has a (lists (get_index_for_insert (s.mem a).size)) ≡ false
        → IsListed (insert_block b s a a) (
            update lists
              (get_index_for_insert (s.mem a).size)
              (a ∷ lists (get_index_for_insert (s.mem a).size)))
    unfolding insert_block
    insert_block_lem h out = record {
      mapped = mark_list-IsMapped b s.pool v.mapped k h (loc a.pagenum (u16 a.offset)) ne;
      chain =
          update-Chain g s.pool.freelist lists k (loc a.pagenum (u16 a.offset)) (a ∷ lists k)
            (subst (λ w. Chain g k (loc 0 0) w (a ∷ lists k)) (sym (loc-u16 a fits))
              (insert-Chain s.mem k a old ne fits refl (lists k) out (v.chain k h)))
            others;
    }
      where
        old : Loc
        old = s.pool.freelist k

        m1 : Mem
        m1 = at s.mem a (λ h. set_link_prev (loc 0 0) (set_link_next old h))

        g : Mem
        g = at_nonnull m1 old (set_link_prev a)

        others :
            (i : ℕ)
            → i < num_free_lists
            → (k == i) ≡ false
            → Chain g i (loc 0 0) (s.pool.freelist i) (lists i)
        others i hi d =
            frame s.mem g i (loc 0 0) (s.pool.freelist i) (lists i)
              (λ y t.
                let e : g y ≡ s.mem y =
                  at_nonnull_ne m1 old y (set_link_prev a) (head_other i k y h hi t d)
                  ∙ store_ne s.mem a y _ (other_list i k y a hi t refl d) in
                rw e (refl, refl))
              (v.chain i hi)
