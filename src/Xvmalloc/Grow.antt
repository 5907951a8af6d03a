-- ===== src/Xvmalloc/Grow.antt =====
-- xv_create_pool and grow_pool against the lists of a pool.
use kernel_patches.Base.{
  ℕ, ◌%◌, ◌<◌, ◌≡◌, ◌≢◌, inl, inr, refl, ap, subst, ◌∙◌, true, false, List, [], ◌∷◌, ◌==◌,
  Bool-cases, bit-zero, arith,
}
use kernel_patches.Kernel.Bitops.{Bitops}
use kernel_patches.Xvmalloc.{
  Loc, loc, loc_eq, BlockHeader, Mem, at, Xv, num_free_lists, update, stat_inc,
  get_index_for_insert, set_flag, clear_flag, set_blockprev,
}
use kernel_patches.Xvmalloc.FreeList.{insert_block}
use kernel_patches.Xvmalloc.Alloc.{ok, xv_create_pool, whole_page, grow_pool}
use kernel_patches.Xvmalloc.Bitmaps.{IsMapped, mark_list-IsMapped}
use kernel_patches.Xvmalloc.Chain.{has, frame, store_self, store_ne, ne_of_out}
use kernel_patches.Xvmalloc.Lists.{IsListed, insert_block_lem}

-- No list holds the place.
abbrev pub Unlisted : (ℕ → List Loc) → Loc → Type 0
Unlisted lists a = (i : ℕ) → i < num_free_lists → has a (lists i) ≡ false

-- A new pool holds 508 empty lists with consistent bitmaps, whatever memory holds.
pub xv_create_pool-IsListed :
    (mem : Mem) → IsListed (record { pool = xv_create_pool; mem = mem }) (λ _. [])
unfolding xv_create_pool
xv_create_pool-IsListed mem = record {
  mapped = record {
    fl_word = omega arith;
    sl_word = λ f h. omega arith;
    fl_bit = λ f. ground (arith, bit-zero f);
    sl_bit = λ i h. ground (arith, bit-zero (i % 32));
  };
  chain = λ i h. refl;
}

-- The header of a block that is in no list can be written freely.
pub at-IsListed :
    (s : Xv) (lists : ℕ → List Loc) (a : Loc) (f : BlockHeader → BlockHeader)
    → IsListed s lists
    → Unlisted lists a
    → IsListed (record s { mem = at s.mem a f }) lists
at-IsListed s lists a f v out = record {
  mapped = v.mapped;
  chain = λ i h.
      frame s.mem (at s.mem a f) i (loc 0 0) (s.pool.freelist i) (lists i)
        (λ y t. rw (store_ne s.mem a y (f (s.mem a)) (ne y i h t)) (refl, refl)) (v.chain i h);
}
  where
    ne : (y : Loc) (i : ℕ) → i < num_free_lists → has y (lists i) ≡ true → loc_eq a y ≡ false
    ne y i h t = ne_of_out a y (lists i) (out i h) t

pub with_pages-IsListed :
    (s : Xv) (lists : ℕ → List Loc) (n : ℕ)
    → IsListed s lists
    → IsListed (record s { pool = record (s.pool) { total_pages = n } }) lists
with_pages-IsListed s lists n v = record {
  mapped = record {
    fl_word = v.mapped.fl_word;
    sl_word = v.mapped.sl_word;
    fl_bit = v.mapped.fl_bit;
    sl_bit = v.mapped.sl_bit;
  };
  chain = v.chain;
}

whole_page-index : (h : BlockHeader) → get_index_for_insert (whole_page h).size ≡ 507
unfolding whole_page get_index_for_insert set_flag clear_flag set_blockprev
whole_page-index h = refl

page_index :
    (s : Xv) (fresh : ℕ)
    → get_index_for_insert (at s.mem (loc fresh 0) whole_page (loc fresh 0)).size ≡ 507
page_index s fresh =
    ap (λ (h : BlockHeader). get_index_for_insert h.size)
      (store_self s.mem (loc fresh 0) (whole_page (s.mem (loc fresh 0))))
    ∙ whole_page-index (s.mem (loc fresh 0))

pub grow_pool-IsMapped :
    (b : Bitops) (s : Xv) (fresh : ℕ) → IsMapped s.pool → IsMapped (grow_pool b s fresh).1.pool
unfolding grow_pool insert_block
grow_pool-IsMapped b s fresh m = elim (Bool-cases (fresh == 0)) [
  | inl z ↦ rw z m
  | inr ne ↦ rw ne (
      mark_list-IsMapped b (record (s.pool) { total_pages = stat_inc s.pool.total_pages })
        (record { fl_word = m.fl_word; sl_word = m.sl_word; fl_bit = m.fl_bit; sl_bit = m.sl_bit })
        (get_index_for_insert (at s.mem (loc fresh 0) whole_page (loc fresh 0)).size)
        (rw (page_index s fresh) (omega arith)) (loc fresh 0) (ground arith))
]

module _ (b : Bitops) (s : Xv) (lists : ℕ → List Loc) (v : IsListed s lists) (fresh : ℕ)
    (ne : fresh ≢ 0) (out : Unlisted lists (loc fresh 0)) where
  pub grow_pool_lem :
      ((grow_pool b s fresh).0 ≡ ok)
      × IsListed (grow_pool b s fresh).1 (update lists 507 (loc fresh 0 ∷ lists 507))
  unfolding grow_pool
  grow_pool_lem =
      let z : (fresh == 0) ≡ false = ground arith in
      rw z (
        refl,
        subst (λ k. IsListed grown (update lists k (loc fresh 0 ∷ lists k))) index
            (insert_block_lem b s1 lists prepared (loc fresh 0) ne (omega arith)
              (rw index (omega arith)) (rw index (out 507 (omega arith)))),
      )
    where
      s1 : Xv
      s1 = record {
        pool = record (s.pool) { total_pages = stat_inc s.pool.total_pages };
        mem = at s.mem (loc fresh 0) whole_page;
      }

      prepared : IsListed s1 lists
      prepared =
          with_pages-IsListed (record s { mem = at s.mem (loc fresh 0) whole_page }) lists
            (stat_inc s.pool.total_pages) (at-IsListed s lists (loc fresh 0) whole_page v out)

      grown : Xv
      grown = insert_block b s1 (loc fresh 0) (loc fresh 0)

      index : get_index_for_insert (s1.mem (loc fresh 0)).size ≡ 507
      index = page_index s fresh
