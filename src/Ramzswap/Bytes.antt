-- ===== src/Ramzswap/Bytes.antt =====
-- The bytes of a page: what is copied to an object is read back from it, and pages of zeros.
use kernel_patches.Base.{ℕ, ◌+◌, ◌<◌, ◌≡◌, refl, ◌∙◌, true, List, [], ◌∷◌, length, arith}
use kernel_patches.Xvmalloc.{Loc, loc, update}
use kernel_patches.Ramzswap.{copy_to, copy_from, page_zero_filled, zeros}

-- A copy touches nothing before its start.
copy_to-before :
    (m : ℕ → ℕ → ℕ) (a : Loc) (xs : List ℕ) (o : ℕ)
    → o < a.offset
    → copy_to m a xs a.pagenum o ≡ m a.pagenum o
unfolding copy_to update
copy_to-before m a [] o h = refl
copy_to-before m a (x ∷ xs) o h =
    copy_to-before (update m a.pagenum (update (m a.pagenum) a.offset x))
      (loc a.pagenum (a.offset + 1)) xs o (omega arith)
    ∙ ground arith

pub copy_from-copy_to :
    (m : ℕ → ℕ → ℕ) (a : Loc) (xs : List ℕ) → copy_from (copy_to m a xs) a (length xs) ≡ xs
unfolding copy_to copy_from update
copy_from-copy_to m a [] = refl
copy_from-copy_to m a (x ∷ xs) =
    let m1 = update m a.pagenum (update (m a.pagenum) a.offset x) in
    let head : copy_to m1 (loc a.pagenum (a.offset + 1)) xs a.pagenum a.offset ≡ x =
      copy_to-before m1 (loc a.pagenum (a.offset + 1)) xs a.offset (omega arith) ∙ ground arith in
    let tail = copy_from-copy_to m1 (loc a.pagenum (a.offset + 1)) xs in cc (head, tail)

pub zero_filled-zeros : (xs : List ℕ) → page_zero_filled xs ≡ true → xs ≡ zeros (length xs)
unfolding page_zero_filled zeros
zero_filled-zeros [] e = refl
zero_filled-zeros (x ∷ xs) e =
    let x_zero : x ≡ 0 = ground arith in
    let rest = zero_filled-zeros xs (ground arith) in cc (x_zero, rest)
