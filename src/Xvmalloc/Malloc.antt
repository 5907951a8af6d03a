-- ===== src/Xvmalloc/Malloc.antt =====
-- xv_malloc as its callers see it: what a search of a pool's lists finds, which requests succeed,
-- and which cannot.
use kernel_patches.Base.{
  ℕ, ◌+◌, ◌%◌, ◌^◌, ◌≤◌, ◌<◌, ◌≡◌, ◌≢◌, inl, inr, refl, ap, subst, ◌∙◌, Bool, true, false, List,
  ◌∷◌, ◌==◌, ltb, if◌then◌else◌, Bool-cases, arith,
}
use kernel_patches.Kernel.Bitops.{Bitops}
use kernel_patches.Xvmalloc.{
  Loc, loc, Xv, XvPool, num_free_lists, xv_align, xv_max_alloc_size, page_size, update, align,
  sub32, BlockHeader, clear_flag, get_index,
}
use kernel_patches.Xvmalloc.FindBlock.{Found, find_block}
use kernel_patches.Xvmalloc.Index.{get_index_fits, get_index_large}
use kernel_patches.Xvmalloc.Bitmaps.{used, IsMapped}
use kernel_patches.Xvmalloc.Search.{IsFirst, NoneFrom, find_block_lem}
use kernel_patches.Xvmalloc.Chain.{has, Chain, index_of_has, first_has, store_self}
use kernel_patches.Xvmalloc.Lists.{IsListed, update_self}
use kernel_patches.Xvmalloc.Grow.{Unlisted, grow_pool_lem, grow_pool-IsMapped}
use kernel_patches.Xvmalloc.Alloc.{
  ok, enomem, Malloc, grow_pool, finish_malloc, take_block, set_size, xv_malloc,
}
use kernel_patches.Xvmalloc.Free.{xv_get_object_size}

module _ (b : Bitops) (p : XvPool) (m : IsMapped p) (size : ℕ) (h : size ≤ xv_max_alloc_size) where
  pub find_none :
      NoneFrom p (get_index size)
      → find_block b p size (loc 0 0) ≡ record { index = 0; place = loc 0 0 }
  find_none none = elim (find_block_lem b p m size (loc 0 0) h) [
    | inl f ↦ ground (arith, none (find_block b p size (loc 0 0)).index f.from_le, f.in_use)
    | inr (e, _) ↦ e
  ]

  pub find_some :
      (j : ℕ)
      → get_index size ≤ j
      → used p j ≡ true
      → IsFirst p (get_index size) (find_block b p size (loc 0 0))
        × ((find_block b p size (loc 0 0)).place.pagenum ≢ 0)
  find_some j l u = elim (find_block_lem b p m size (loc 0 0) h) [
    | inl f ↦ (f, ground (arith, f.in_use, f.head))
    | inr (_, none) ↦ ground (arith, none j l)
  ]

-- In a pool that holds its lists, a block that a search for at most XV_MAX_ALLOC_SIZE bytes finds
-- is the head of the list of the returned index, which exists and holds it, and is at least as
-- large as requested.
pub find_block_fits :
    (b : Bitops) (s : Xv) (lists : ℕ → List Loc) (size : ℕ)
    → IsListed s lists
    → size ≤ xv_max_alloc_size
    → (find_block b s.pool size (loc 0 0)).place.pagenum ≢ 0
    → let r = find_block b s.pool size (loc 0 0) in
      (has r.place (lists r.index) ≡ true)
      × (r.place ≡ s.pool.freelist r.index)
      × (r.index < num_free_lists)
      × (size ≤ (s.mem r.place).size)
find_block_fits b s lists size v h ne = elim (find_block_lem b s.pool v.mapped size (loc 0 0) h) [
  | inr (e, _) ↦ absurd (ne (ap (λ (r : Found). r.place.pagenum) e))
  | inl f ↦ found f
]
  where
    r : Found
    r = find_block b s.pool size (loc 0 0)

    found :
        IsFirst s.pool (get_index size) r
        → (has r.place (lists r.index) ≡ true)
          × (r.place ≡ s.pool.freelist r.index)
          × (r.index < num_free_lists)
          × (size ≤ (s.mem r.place).size)
    found f =
        let lt : r.index < num_free_lists = ground (arith, f.in_use) in
        let c = v.chain r.index lt in
        let head_in : has (s.pool.freelist r.index) (lists r.index) ≡ true =
          elim (first_has s.mem r.index (loc 0 0) (s.pool.freelist r.index) (lists r.index) c) [
            | inl z ↦ absurd (ne (ap (λ (a : Loc). a.pagenum) f.head ∙ z))
            | inr t ↦ t
          ] in
        let place_in : has r.place (lists r.index) ≡ true = rw f.head head_in in
        let index =
          (index_of_has s.mem r.index (loc 0 0) (s.pool.freelist r.index) (lists r.index) r.place
            place_in c).0 in
        (
          place_in,
          f.head,
          lt,
          get_index_fits size (s.mem r.place).size h (omega (arith, index, lt))
              (omega (arith, index, f.from_le)),
        )

-- Nothing is found for a request of the last sizes below the limit.
find_large :
    (b : Bitops) (p : XvPool) (size : ℕ)
    → IsMapped p
    → 4088 < size
    → size ≤ xv_max_alloc_size
    → find_block b p (align size xv_align) (loc 0 0) ≡ record { index = 0; place = loc 0 0 }
find_large b p size m l h =
    let e : get_index (align size xv_align) ≡ num_free_lists =
      get_index_large (align size xv_align) (omega arith) (omega arith) in
    find_none b p m (align size xv_align) (omega arith) λ j le. ground (arith, e)

grow_failed :
    (b : Bitops) (s : Xv) (fresh : ℕ)
    → (grow_pool b s fresh).0 ≡ enomem
    → (grow_pool b s fresh).1 ≡ s
unfolding grow_pool
grow_failed b s fresh e = ground arith

-- A request of 4089 to 4092 bytes, which XV_MAX_ALLOC_SIZE allows, fails in every pool with
-- consistent bitmaps, also after the pool has grown for it.
pub xv_malloc_large :
    (b : Bitops) (s : Xv) (size : ℕ) (nowait : Bool) (fresh : ℕ)
    → IsMapped s.pool
    → 4088 < size
    → size ≤ xv_max_alloc_size
    → let r = xv_malloc b s size nowait fresh in
      (r.status ≡ enomem) × (r.state ≡ (if nowait then s else (grow_pool b s fresh).1))
unfolding xv_malloc finish_malloc
xv_malloc_large b s size nowait fresh m l h = ground (
  arith,
  find_large b s.pool size m l h,
  find_large b (grow_pool b s fresh).1.pool size (grow_pool-IsMapped b s fresh m) l h,
  grow_failed b s fresh,
)

-- The header that xv_get_object_size reads is the one that was written last.
take_block-object_size :
    (b : Bitops) (s : Xv) (found : Found) (size origsize : ℕ)
    → found.place.offset < page_size
    → origsize ≤ xv_max_alloc_size
    → xv_get_object_size
        (take_block b s found size origsize).mem
        (loc found.place.pagenum (found.place.offset + xv_align))
      ≡ origsize
unfolding take_block xv_get_object_size clear_flag set_size
take_block-object_size b s found size origsize fits h =
    let e : loc found.place.pagenum (sub32 (found.place.offset + xv_align) xv_align) ≡ found.place =
      ground arith in
    ap (λ (w : Loc). ((take_block b s found size origsize).mem w).size) e
    ∙ ap (λ (h : BlockHeader). h.size) (store_self _ found.place _)
    ∙ u16_small origsize h
  where
    u16_small : (n : ℕ) → n ≤ xv_max_alloc_size → n % 2 ^ 16 ≡ n
    u16_small n l = omega arith

-- A pool's block, at its object's place.
abbrev Serves : ℕ → Malloc → Type 0
Serves size r =
    (r.status ≡ ok)
    × (r.place.pagenum ≢ 0)
    × (r.place.offset < page_size + xv_align)
    × (xv_get_object_size r.state.mem r.place ≡ size)

module _ (b : Bitops) (s : Xv) (lists : ℕ → List Loc) (v : IsListed s lists) (size : ℕ)
    (h : size ≤ 4088) where
  abbrev found : Found
  found = find_block b s.pool (align size xv_align) (loc 0 0)

  found_ok :
      found.place.pagenum ≢ 0 → Serves size (finish_malloc b s found (align size xv_align) size)
  unfolding finish_malloc
  found_ok ne =
      let (t, _, lt, _) = find_block_fits b s lists (align size xv_align) v (omega arith) ne in
      let fits =
        (index_of_has s.mem found.index (loc 0 0) (s.pool.freelist found.index) (lists found.index)
          found.place t (v.chain found.index lt)).2 in
      let z : (found.place.pagenum == 0) ≡ false = ground arith in
      rw z (
        refl,
        ne,
        omega (arith, fits),
        take_block-object_size b s found (align size xv_align) size fits (omega arith),
      )

-- A list that holds a block is in use.
pub used_of_list :
    (s : Xv) (lists : ℕ → List Loc) (k : ℕ) (a : Loc) (xs : List Loc)
    → IsListed s (update lists k (a ∷ xs))
    → k < num_free_lists
    → used s.pool k ≡ true
used_of_list s lists k a xs v h =
    let (n, c) =
      subst (λ l. Chain s.mem k (loc 0 0) (s.pool.freelist k) l) (update_self lists k (a ∷ xs))
        (v.chain k h) in
    ground (arith, n.place, n.ne_null)

get_index-le : (size : ℕ) → size ≤ 4088 → get_index (align size xv_align) ≤ 507
unfolding get_index
get_index-le size h = ground arith

-- In a pool that holds its lists, and given a fresh page that is in none of them, xv_malloc without
-- GFP_NOWAIT serves every request of 1 to 4088 bytes: it succeeds, the page is not 0, the offset is
-- in a page but for the header before it, and xv_get_object_size reads the requested size at the
-- place returned.
pub xv_malloc_serves :
    (b : Bitops) (s : Xv) (lists : ℕ → List Loc) (size fresh : ℕ)
    → IsListed s lists
    → 0 < size
    → size ≤ 4088
    → fresh ≢ 0
    → Unlisted lists (loc fresh 0)
    → let r = xv_malloc b s size false fresh in
      (r.status ≡ ok)
      × (r.place.pagenum ≢ 0)
      × (r.place.offset < page_size + xv_align)
      × (xv_get_object_size r.state.mem r.place ≡ size)
unfolding xv_malloc
xv_malloc_serves b s lists size fresh v pos h ne out =
    let zero_size : (size == 0) ≡ false = ground arith in
    let large : ltb xv_max_alloc_size size ≡ false = ground arith in
    let (grown, v1) = grow_pool_lem b s lists v fresh ne out in
    elim (Bool-cases ((found b s lists v size h).place.pagenum == 0)) [
      | inr f ↦ rw (zero_size, large, f) (found_ok b s lists v size h (ground arith))
      | inl z ↦
          rw (zero_size, large, z, grown)
            (found_ok b (grow_pool b s fresh).1 (update lists 507 (loc fresh 0 ∷ lists 507)) v1 size
              h
              (find_some b (grow_pool b s fresh).1.pool v1.mapped (align size xv_align)
                (omega arith) 507 (get_index-le size h)
                (used_of_list (grow_pool b s fresh).1 lists 507 (loc fresh 0) (lists 507) v1
                  (omega arith))).1)
    ]
