-- ===== src/Aufs/Xino/Numbers.antt =====
-- Inode numbers: their places in the bitmap, and the number that au_xino_new_ino gives.
use kernel_patches.Base.{
  ℕ, ◌+◌, ◌-◌, ◌*◌, ◌/◌, ◌%◌, ◌^◌, ◌≤◌, ◌<◌, ◌≡◌, ◌⊎◌, inl, inr, refl, sym, ap, subst, ◌∙◌, Bool,
  true, false, not, ◌||◌, Option, none, some, ◌==◌, if◌then◌else◌, update, arith,
}
use kernel_patches.Aufs.Xino.{
  XinoInfo, page_bits, aufs_first_ino, xib_calc_ino, xib_calc_bit, Search, found, full, failed,
  search_xib, au_xino_new_ino,
}
use kernel_patches.Aufs.Xino.Bitmap.{held, IsXib, SameFiles, SameXib}
use kernel_patches.Aufs.Xino.Find.{Outcome, is_found, is_failed, search_xib_lem}

-- Whether a number is in use.
unfoldable pub in_use : XinoInfo → ℕ → Bool
in_use s ino = held s (xib_calc_bit ino).0 (xib_calc_bit ino).1

pub calc_bit-calc_ino :
    (p k : ℕ) → p ≤ 2 ^ 16 → k < page_bits → xib_calc_bit (xib_calc_ino p k) ≡ (p, k)
unfolding xib_calc_bit xib_calc_ino
calc_bit-calc_ino p k l h =
    let page : ((aufs_first_ino + p * page_bits + k) % 2 ^ 32 - aufs_first_ino) / page_bits ≡ p =
      omega (arith, l, h) in
    let bit : ((aufs_first_ino + p * page_bits + k) % 2 ^ 32 - aufs_first_ino) % page_bits ≡ k =
      omega (arith, l, h) in
    cc (page, bit)

-- For a page index up to 2 ^ 16 and a bit of a page, the place of the bit's number is the bit's;
-- and for a number from AUFS_FIRST_INO on that fits a word, the number of its place is the number.
pub xib_calc_bit-xib_calc_ino :
    (pindex bit ino : ℕ)
    → pindex ≤ 2 ^ 16
    → bit < page_bits
    → aufs_first_ino ≤ ino
    → ino < 2 ^ 32
    → (xib_calc_bit (xib_calc_ino pindex bit) ≡ (pindex, bit))
      × (xib_calc_ino (xib_calc_bit ino).0 (xib_calc_bit ino).1 ≡ ino)
unfolding xib_calc_bit xib_calc_ino
xib_calc_bit-xib_calc_ino p k n l h low high = (calc_bit-calc_ino p k l h, omega arith)

-- Different numbers have different places.
calc_bit_injective :
    (m n : ℕ)
    → aufs_first_ino ≤ m
    → aufs_first_ino ≤ n
    → (xib_calc_bit m).0 ≡ (xib_calc_bit n).0
    → (xib_calc_bit m).1 ≡ (xib_calc_bit n).1
    → m ≡ n
unfolding xib_calc_bit
calc_bit_injective m n a b p k = omega (arith, a, b, p, k)

-- A change of one bit in memory.
pub set_bit-in_use :
    (s : XinoInfo) (n : ℕ) (v : Bool) (next : ℕ)
    → aufs_first_ino ≤ n
    → (xib_calc_bit n).0 ≡ s.xib_last_pindex
    → (m : ℕ) → aufs_first_ino ≤ m
    → in_use (record s { xib_buf = update s.xib_buf (xib_calc_bit n).1 v; xib_next_bit = next }) m
      ≡ (if n == m then v else in_use s m)
unfolding in_use held update
set_bit-in_use s n v next h e m l = ground (arith, calc_bit_injective n m h l)

-- A number that was free and is now in use.
pub record Assigned (s : XinoInfo) (n : ℕ) (t : XinoInfo) : Type 0 where
  pub low : aufs_first_ino ≤ n
  pub free : in_use s n ≡ false
  pub valid : IsXib t
  pub files : SameFiles s t
  pub used : (m : ℕ) → aufs_first_ino ≤ m → in_use t m ≡ (n == m || in_use s m)

calc_ino_low : (p k : ℕ) → p ≤ 2 ^ 16 → k < page_bits → aufs_first_ino ≤ xib_calc_ino p k
unfolding xib_calc_ino
calc_ino_low p k l h = omega (arith, l, h)

pub same-in_use : (s t : XinoInfo) → SameXib s t → (m : ℕ) → in_use t m ≡ in_use s m
unfolding in_use
same-in_use s t k m = k.same (xib_calc_bit m).0 (xib_calc_bit m).1

in_use_here :
    (t : XinoInfo) (n bit : ℕ)
    → xib_calc_bit n ≡ (t.xib_last_pindex, bit)
    → in_use t n ≡ t.xib_buf bit
unfolding in_use held
in_use_here t n bit e = rw e (ground arith)

-- Setting a free bit of the page in memory.
assign_bit :
    (s t : XinoInfo) (bit : ℕ)
    → SameXib s t
    → bit < page_bits
    → t.xib_buf bit ≡ false
    → t.xib_last_pindex ≤ 2 ^ 16
    → Assigned s
        (xib_calc_ino t.xib_last_pindex bit)
        (record t { xib_buf = update t.xib_buf bit true; xib_next_bit = t.xib_next_bit + 1 })
assign_bit s t bit k lt free le =
    let n = xib_calc_ino t.xib_last_pindex bit in
    let place : xib_calc_bit n ≡ (t.xib_last_pindex, bit) =
      calc_bit-calc_ino t.xib_last_pindex bit le lt in
    record {
      low = calc_ino_low t.xib_last_pindex bit le lt;
      free = sym (same-in_use s t k n) ∙ in_use_here t n bit place ∙ free;
      valid = record { last_lt = k.valid.last_lt; beyond = k.valid.beyond };
      files = record {
        opt = k.files.opt;
        file = k.files.file;
        entries = k.files.entries;
        sizes = k.files.sizes;
      };
      used = λ m l.
          ap
            (λ q.
              in_use
                (record t { xib_buf = update t.xib_buf q true; xib_next_bit = t.xib_next_bit + 1 })
                m)
            (sym (ap (λ (c : ℕ × ℕ). c.1) place))
          ∙ set_bit-in_use t n true (t.xib_next_bit + 1) (calc_ino_low t.xib_last_pindex bit le lt)
              (ap (λ (c : ℕ × ℕ). c.0) place) m l
          ∙ ground (arith, same-in_use s t k m);
    }

-- For a bitmap of at most 2 ^ 16 pages and the mount option xino, au_xino_new_ino never gets to its
-- BUG: it gives 0 for an I/O error, or a number from AUFS_FIRST_INO on that was not in use; then
-- that number is in use, of the others the same ones as before, and the xino files are untouched.
pub au_xino_new_ino_lem :
    (io : ℕ → Bool) (s : XinoInfo) (iunique : ℕ)
    → IsXib s
    → s.opt_xino ≡ true
    → s.xib_npages ≤ 2 ^ 16
    → let r = au_xino_new_ino io s iunique in
      (r.0 ≡ some 0) ⊎ ((n : ℕ) × (r.0 ≡ some n) × Assigned s n r.1)
unfolding au_xino_new_ino
au_xino_new_ino_lem io s iunique v opt small =
    subst
      (λ (r : Option ℕ × XinoInfo). (r.0 ≡ some 0) ⊎ ((n : ℕ) × (r.0 ≡ some n) × Assigned s n r.1))
      (sym (ap (λ o. if not o then (some iunique, s) else next (search_xib io s)) opt))
      (go (search_xib io s) (search_xib_lem io s v))
  where
    next : Search × XinoInfo → Option ℕ × XinoInfo
    next r = elim (r.0) [
      | found bit ↦ (
        some (xib_calc_ino r.1.xib_last_pindex bit),
        record (r.1) { xib_buf = update r.1.xib_buf bit true; xib_next_bit = r.1.xib_next_bit + 1 },
      )
      | failed ↦ (some 0, r.1)
      | full ↦ (none, r.1)
    ]

    go :
        (r : Search × XinoInfo)
        → Outcome s r
        → ((next r).0 ≡ some 0) ⊎ ((n : ℕ) × ((next r).0 ≡ some n) × Assigned s n (next r).1)
    go r (is_found bit t k lt free le) = inr (
      xib_calc_ino t.xib_last_pindex bit,
      refl,
      assign_bit s t bit k lt free (omega (arith, le, small)),
    )
    go r (is_failed t) = inl refl
