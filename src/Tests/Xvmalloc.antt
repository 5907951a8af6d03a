-- ===== src/Tests/Xvmalloc.antt =====
-- xvmalloc at a pool of two pages.
use kernel_patches.Base.{
  ℕ, ◌<◌, ◌≤◌, ◌≡◌, ◌≢◌, ◌⊎◌, refl, true, false, List, [], ◌∷◌, if◌then◌else◌, arith,
}
use kernel_patches.Kernel.Bitops.{word_bitops}
use kernel_patches.Xvmalloc.{
  Loc, loc, Mem, store, Xv, update, get_index, get_index_for_insert, set_flag, clear_flag,
  set_blockprev,
}
use kernel_patches.Xvmalloc.FreeList.{insert_block, remove_block, remove_block_head}
use kernel_patches.Xvmalloc.FindBlock.{find_block}
use kernel_patches.Xvmalloc.Alloc.{ok, enomem, xv_create_pool, grow_pool, xv_malloc, whole_page}
use kernel_patches.Xvmalloc.Free.{xv_get_object_size}
use kernel_patches.Xvmalloc.Index.{get_index_for_insert_range}
use kernel_patches.Xvmalloc.Search.{IsFirst, NoneFrom, find_block_lem}
use kernel_patches.Xvmalloc.Chain.{has, erase}
use kernel_patches.Xvmalloc.Lists.{IsListed, insert_block_lem}
use kernel_patches.Xvmalloc.Lists.Remove.{remove_block_lem, remove_block_head_lem}
use kernel_patches.Xvmalloc.Grow.{Unlisted, xv_create_pool-IsListed, grow_pool_lem}
use kernel_patches.Xvmalloc.Malloc.{
  find_some, used_of_list, find_block_fits, xv_malloc_serves, xv_malloc_large,
}

-- Memory with a free block's header at <9, 64>, and garbage elsewhere.
abbrev pub memory : Mem
memory a = record {
  size = if kernel_patches.Xvmalloc.loc_eq (loc 9 64) a then 200 else 77;
  prev = 3;
  link = record { prev = loc 5 5; next = loc 6 6 };
}

abbrev pub empty_pool : Xv
empty_pool = record { pool = xv_create_pool; mem = memory }

abbrev pub no_lists : ℕ → List Loc
no_lists _ = []

pub empty_pool-IsListed : IsListed empty_pool no_lists
empty_pool-IsListed = xv_create_pool-IsListed memory

abbrev one_page : Xv
one_page = (grow_pool word_bitops empty_pool 7).1

abbrev one_list : ℕ → List Loc
one_list = update no_lists 507 (loc 7 0 ∷ [])

one_page-IsListed : IsListed one_page one_list
one_page-IsListed =
    (grow_pool_lem word_bitops empty_pool no_lists empty_pool-IsListed 7 (omega arith)
      λ i h. refl).1

eight_fresh : Unlisted one_list (loc 8 0)
unfolding update
eight_fresh i h = ground arith

abbrev two_pages : Xv
two_pages = (grow_pool word_bitops one_page 8).1

abbrev two_lists : ℕ → List Loc
two_lists = update one_list 507 (loc 8 0 ∷ one_list 507)

two_pages-IsListed : IsListed two_pages two_lists
two_pages-IsListed =
    (grow_pool_lem word_bitops one_page one_list one_page-IsListed 8 (omega arith) eight_fresh).1

-- Runs: a page holds one block of 4092 bytes, and an object of 100 bytes starts behind its header.
two_pages_head : two_pages.pool.freelist 507 ≡ loc 8 0
unfolding grow_pool insert_block update xv_create_pool whole_page set_flag clear_flag store
    get_index_for_insert set_blockprev
two_pages_head = refl

insert_block_lem_example :
    IsListed
      (insert_block word_bitops empty_pool (loc 9 64) (loc 9 64))
      (update no_lists (get_index_for_insert 200) (loc 9 64 ∷ []))
insert_block_lem_example =
    insert_block_lem word_bitops empty_pool no_lists empty_pool-IsListed (loc 9 64) (omega arith)
      (omega arith) small refl
  where
    small : get_index_for_insert 200 < 508
    small = (get_index_for_insert_range 200 (omega arith) (omega arith)).0

remove_block_lem_example :
    IsListed
      (remove_block word_bitops two_pages (loc 7 0) (loc 7 0) 507)
      (update two_lists 507 (erase (loc 7 0) (two_lists 507)))
unfolding update
remove_block_lem_example =
    remove_block_lem word_bitops two_pages two_lists two_pages-IsListed 507 (omega arith) (loc 7 0)
      refl

remove_block_head_lem_example :
    IsListed
      (remove_block_head word_bitops two_pages (loc 8 0) 507)
      (update two_lists 507 (loc 7 0 ∷ []))
unfolding update
remove_block_head_lem_example =
    remove_block_head_lem word_bitops two_pages two_lists two_pages-IsListed 507 (omega arith)
      (loc 8 0) (loc 7 0 ∷ []) refl

find_block_lem_example :
    IsFirst two_pages.pool (get_index 100) (find_block word_bitops two_pages.pool 100 (loc 0 0))
    ⊎ (find_block word_bitops two_pages.pool 100 (loc 0 0) ≡ record { index = 0; place = loc 0 0 })
      × NoneFrom two_pages.pool (get_index 100)
find_block_lem_example =
    find_block_lem word_bitops two_pages.pool two_pages-IsListed.mapped 100 (loc 0 0) (omega arith)

two_pages-find : (find_block word_bitops two_pages.pool 100 (loc 0 0)).place.pagenum ≢ 0
unfolding get_index
two_pages-find =
    (find_some word_bitops two_pages.pool two_pages-IsListed.mapped 100 (omega arith) 507
      (ground arith)
      (used_of_list two_pages one_list 507 (loc 8 0) (one_list 507) two_pages-IsListed
        (omega arith))).1

find_block_fits_example :
    let r = find_block word_bitops two_pages.pool 100 (loc 0 0) in
    (has r.place (two_lists r.index) ≡ true)
    × (r.place ≡ two_pages.pool.freelist r.index)
    × (r.index < 508)
    × (100 ≤ (two_pages.mem r.place).size)
find_block_fits_example =
    find_block_fits word_bitops two_pages two_lists 100 two_pages-IsListed (omega arith)
      two_pages-find

xv_malloc_serves_example :
    let r = xv_malloc word_bitops one_page 100 false 8 in
    (r.status ≡ ok)
    × (r.place.pagenum ≢ 0)
    × (r.place.offset < 4100)
    × (xv_get_object_size r.state.mem r.place ≡ 100)
xv_malloc_serves_example =
    xv_malloc_serves word_bitops one_page one_list 100 8 one_page-IsListed (omega arith)
      (omega arith) (omega arith) eight_fresh

xv_malloc_large_example :
    let r = xv_malloc word_bitops one_page 4090 false 8 in
    (r.status ≡ enomem) × (r.state ≡ (grow_pool word_bitops one_page 8).1)
xv_malloc_large_example =
    xv_malloc_large word_bitops one_page 4090 false 8 one_page-IsListed.mapped (omega arith)
      (omega arith)
