-- ===== src/Xvmalloc/FreeList.antt =====
-- The free lists of xvmalloc.c: insert_block, remove_block_head and remove_block. Each list is
-- doubly linked through the headers of its blocks, and two levels of bitmaps say which are not
-- empty. `a` is the <pagenum, offset> pair of the source and `block` its block pointer.
use kernel_patches.Base.{ℕ, ◌/◌, ◌%◌, ◌==◌, if◌then◌else◌}
use kernel_patches.Kernel.Bitops.{Bitops}
use kernel_patches.Xvmalloc.{
  Loc, loc, loc_eq, BlockHeader, Mem, at, XvPool, Xv, bits_per_long, update, u16,
  get_index_for_insert,
}

abbrev pub set_link_prev : Loc → BlockHeader → BlockHeader
set_link_prev p h = record h { link = record (h.link) { prev = loc p.pagenum (u16 p.offset) } }

abbrev pub set_link_next : Loc → BlockHeader → BlockHeader
set_link_next n h = record h { link = record (h.link) { next = loc n.pagenum (u16 n.offset) } }

-- The pointer to the place with these links is dereferenced only if its page is not 0.
abbrev pub at_nonnull : Mem → Loc → (BlockHeader → BlockHeader) → Mem
at_nonnull m a f = if a.pagenum == 0 then m else at m a f

-- The two stores that take a block out of the middle of its list.
unfoldable pub unlink : Mem → Loc → Mem
unlink m a =
    let link = (m a).link in
    let m1 = at_nonnull m link.prev (set_link_next link.next) in
    at_nonnull m1 (m1 a).link.next (set_link_prev (m1 a).link.prev)

module _ (b : Bitops) where
  -- `__set_bit` on the second level, then on the first.
  unfoldable pub mark_list : XvPool → ℕ → XvPool
  mark_list p slindex = record p {
    slbitmap =
        update p.slbitmap (slindex / bits_per_long)
          (b.set_bit (slindex % bits_per_long) (p.slbitmap (slindex / bits_per_long)));
    flbitmap = b.set_bit (slindex / bits_per_long) p.flbitmap;
  }

  -- `__clear_bit` on the second level, and on the first if that word became 0.
  unfoldable pub unmark_list : XvPool → ℕ → XvPool
  unmark_list p slindex =
      let flindex = slindex / bits_per_long in
      let word = b.clear_bit (slindex % bits_per_long) (p.slbitmap flindex) in
      record p {
        slbitmap = update p.slbitmap flindex word;
        flbitmap = if word == 0 then b.clear_bit flindex p.flbitmap else p.flbitmap;
      }

  unfoldable pub insert_block : Xv → (a block : Loc) → Xv
  unfolding mark_list
  insert_block s a block =
      let slindex = get_index_for_insert (s.mem block).size in
      let old = s.pool.freelist slindex in
      let linked = at s.mem block (λ h. set_link_prev (loc 0 0) (set_link_next old h)) in
      record {
        pool =
            mark_list
              (record (s.pool) {
                freelist = update s.pool.freelist slindex (loc a.pagenum (u16 a.offset));
              })
              slindex;
        mem = at_nonnull linked old (set_link_prev a);
      }

  unfoldable pub remove_block_head : Xv → Loc → ℕ → Xv
  unfolding unmark_list
  remove_block_head s block slindex =
      let next = (s.mem block).link.next in
      let pool = record (s.pool) { freelist = update s.pool.freelist slindex next } in
      let mem = at s.mem block (set_link_prev (loc 0 0)) in
      if next.pagenum == 0
      then record { pool = unmark_list pool slindex; mem = mem }
      else record { pool = pool; mem = at mem next (set_link_prev (loc 0 0)) }

  unfoldable pub remove_block : Xv → (a block : Loc) → ℕ → Xv
  unfolding remove_block_head unlink
  remove_block s a block slindex =
      if loc_eq (s.pool.freelist slindex) a
      then remove_block_head s block slindex
      else record s { mem = unlink s.mem block }
