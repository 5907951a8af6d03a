-- ===== src/Aufs/Xino/Lost.antt =====
-- A write that fails while the bitmap grows: xib_pindex and au_xino_new_ino of aufs/fs/aufs/xino.c
-- when the only page is full.
use kernel_patches.Base.{
  ℕ, zero, suc, ◌+◌, ◌-◌, ◌≤◌, ◌<◌, ◌≡◌, inl, inr, refl, sym, ap, subst, ◌∙◌, Bool, true, false,
  not, ◌&&◌, Option, none, some, ltb, Bool-cases, Option-cases, arith,
}
use kernel_patches.Aufs.Xino.{
  XinoInfo, page_bits, aufs_first_ino, find_first_zero_bit, write_xib, load_xib, xib_pindex,
  xib_calc_ino, Search, found, full, failed, search_down, search_up, search_others, search_xib,
  au_xino_new_ino,
}
use kernel_patches.Aufs.Xino.Bitmap.{held}
use kernel_patches.Aufs.Xino.Find.{zero_bit}
use kernel_patches.Aufs.Xino.Numbers.{in_use, calc_bit-calc_ino}

-- The bitmap is one page, and all its numbers are in use.
pub record IsFull (s : XinoInfo) : Type 0 where
  pub opt : s.opt_xino ≡ true
  pub page : s.xib_last_pindex ≡ 0
  pub npages : s.xib_npages ≡ 1
  pub full_page : (k : ℕ) → k < page_bits → s.xib_buf k ≡ true

full_none : (s : XinoInfo) → IsFull s → find_first_zero_bit s.xib_buf ≡ none
full_none s v = elim (Option-cases (find_first_zero_bit s.xib_buf)) [
  | inl e ↦ e
  | inr (bit, e) ↦ let (lt, free) = zero_bit s.xib_buf bit e in ground (arith, v.full_page bit lt)
]

full_miss :
    (s : XinoInfo)
    → IsFull s
    → (ltb s.xib_next_bit page_bits && not (s.xib_buf s.xib_next_bit)) ≡ false
full_miss s v = elim (Bool-cases (ltb s.xib_next_bit page_bits)) [
  | inl lt ↦ ground (arith, v.full_page s.xib_next_bit)
  | inr ge ↦ rw ge refl
]

zeroed_lem :
    (io : ℕ → Bool) (s : XinoInfo)
    → IsFull s
    → io s.io_calls ≡ true
    → io (s.io_calls + 1) ≡ false
    → ((xib_pindex io s 1).0 ≡ false)
      × ((xib_pindex io s 1).1.xib_buf ≡ (λ _. false))
      × ((xib_pindex io s 1).1.xib_last_pindex ≡ 0)
      × ((xib_pindex io s 1).1.xib_next_bit ≡ s.xib_next_bit)
      × ((xib_pindex io s 1).1.opt_xino ≡ true)
unfolding xib_pindex write_xib load_xib
zeroed_lem io s v ok fails = (
  ground (arith, v.page, v.npages),
  ground (arith, v.page, v.npages),
  ground (arith, v.page, v.npages),
  ground (arith, v.page, v.npages),
  ground (arith, v.page, v.npages, v.opt),
)

none_below : (io : ℕ → Bool) (n : ℕ) (s : XinoInfo) → n ≡ 0 → search_down io n s ≡ (full, s)
unfolding search_down
none_below io n s e = subst (λ m. search_down io m s ≡ (full, s)) (sym e) refl

new_page :
    (io : ℕ → Bool) (s : XinoInfo) (n p : ℕ)
    → p ≡ 0
    → n ≡ 1
    → (xib_pindex io s 1).0 ≡ false
    → search_up io (n - p) (p + 1) s ≡ (failed, (xib_pindex io s 1).1)
unfolding search_up
new_page io s n p page npages fails =
    let rounds : n - p ≡ 1 = omega arith in
    let first : p + 1 ≡ 1 = omega arith in
    ap (λ m. search_up io m (p + 1) s) rounds ∙ ap (λ q. search_up io 1 q s) first ∙ rw fails refl

full_search :
    (io : ℕ → Bool) (s : XinoInfo)
    → IsFull s
    → (xib_pindex io s 1).0 ≡ false
    → search_xib io s ≡ (failed, (xib_pindex io s 1).1)
unfolding search_xib search_others
full_search io s v fails =
    rw (full_miss s v, full_none s v)
      (ap next (none_below io s.xib_last_pindex s v.page)
        ∙ new_page io s s.xib_npages s.xib_last_pindex v.page v.npages fails)
  where
    next : Search × XinoInfo → Search × XinoInfo
    next r = elim (r.0) [
      | found bit ↦ (found bit, r.1)
      | failed ↦ (failed, r.1)
      | full ↦ search_up io (r.1.xib_npages - s.xib_last_pindex) (s.xib_last_pindex + 1) r.1
    ]

zero_page : find_first_zero_bit (λ _. false) ≡ some 0
unfolding find_first_zero_bit kernel_patches.Base.first_up
zero_page = refl

-- From an empty page some number is given.
empty_search :
    (io : ℕ → Bool) (t : XinoInfo)
    → t.xib_buf ≡ (λ _. false)
    → (bit : ℕ) × (search_xib io t ≡ (found bit, t)) × (bit < page_bits)
unfolding search_xib
empty_search io t empty =
    let free : t.xib_buf t.xib_next_bit ≡ false = ap (λ (f : ℕ → Bool). f t.xib_next_bit) empty in
    let zeroth : find_first_zero_bit t.xib_buf ≡ some 0 =
      ap find_first_zero_bit empty ∙ zero_page in
    elim (Bool-cases (ltb t.xib_next_bit page_bits)) [
      | inl lt ↦ (t.xib_next_bit, rw (lt, free) refl, ground arith)
      | inr ge ↦ (0, rw (ge, zeroth) refl, omega arith)
    ]

-- A number of the page in memory.
first_page_in_use :
    (s : XinoInfo) (bit : ℕ)
    → IsFull s
    → bit < page_bits
    → (in_use s (xib_calc_ino 0 bit) ≡ true) × (aufs_first_ino ≤ xib_calc_ino 0 bit)
unfolding in_use held xib_calc_ino
first_page_in_use s bit v lt =
    (rw (calc_bit-calc_ino 0 bit (omega arith) lt, v.page) (v.full_page bit lt), omega (arith, lt))

-- When the bitmap is one page with all its numbers in use, the page is written back, and the write
-- of the new page behind it fails, au_xino_new_ino gives no number; but the next call gives one
-- from AUFS_FIRST_INO on that was in use, whatever the later reads and writes do.
pub au_xino_new_ino_again :
    (io : ℕ → Bool) (s : XinoInfo) (iunique : ℕ)
    → IsFull s
    → io s.io_calls ≡ true
    → io (s.io_calls + 1) ≡ false
    → let t = (au_xino_new_ino io s iunique).1 in
      ((au_xino_new_ino io s iunique).0 ≡ some 0)
      × (n : ℕ) × ((au_xino_new_ino io t iunique).0 ≡ some n)
      × (aufs_first_ino ≤ n)
      × (in_use s n ≡ true)
unfolding au_xino_new_ino
au_xino_new_ino_again io s iunique v ok fails =
    let (failed_io, empty, page, next, opt) = zeroed_lem io s v ok fails in
    let t = (xib_pindex io s 1).1 in
    let first = full_search io s v failed_io in
    let (bit, again, lt) = empty_search io t empty in
    let (used, low) = first_page_in_use s bit v lt in
    let path : au_xino_new_ino io s iunique ≡ (some 0, t) = ground (arith, first, v.opt) in
    (
      ap (λ r. r.0) path,
      xib_calc_ino 0 bit,
      ap (λ r. (au_xino_new_ino io r.1 iunique).0) path ∙ ground (arith, again, opt, page),
      low,
      used,
    )
