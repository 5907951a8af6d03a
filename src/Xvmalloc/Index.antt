-- ===== src/Xvmalloc/Index.antt =====
-- The free-list indices of xvmalloc.c: which sizes a list holds, and which requests it serves.
use kernel_patches.Base.{ℕ, ◌+◌, ◌*◌, ◌≤◌, ◌<◌, ◌≡◌, arith}
use kernel_patches.Xvmalloc.{
  get_index, get_index_for_insert, num_free_lists, xv_min_alloc_size, xv_max_alloc_size, fl_delta,
}

-- A block of XV_MIN_ALLOC_SIZE to XV_MAX_ALLOC_SIZE bytes goes to a list that exists, and its size
-- is in the list's step of eight bytes.
pub get_index_for_insert_range :
    (size : ℕ)
    → xv_min_alloc_size ≤ size
    → size ≤ xv_max_alloc_size
    → (get_index_for_insert size < num_free_lists)
      × (xv_min_alloc_size + fl_delta * get_index_for_insert size ≤ size)
      × (size < xv_min_alloc_size + fl_delta * (get_index_for_insert size + 1))
unfolding get_index_for_insert
get_index_for_insert_range size l h = ground arith

-- A block that goes to a list that exists, with an index not below that of a request of at most
-- XV_MAX_ALLOC_SIZE, is at least as large as the request.
pub get_index_fits :
    (request size : ℕ)
    → request ≤ xv_max_alloc_size
    → get_index_for_insert size < num_free_lists
    → get_index request ≤ get_index_for_insert size
    → request ≤ size
unfolding get_index get_index_for_insert
get_index_fits request size r l le = ground arith

pub get_index-lt : (request : ℕ) → request ≤ xv_max_alloc_size → get_index request < 512
unfolding get_index
get_index-lt request r = ground arith

-- Requests of the last four bytes below the limit are sent to a list that does not exist.
pub get_index_large :
    (request : ℕ)
    → 4088 < request
    → request ≤ xv_max_alloc_size
    → get_index request ≡ num_free_lists
unfolding get_index
get_index_large request r h = ground arith
