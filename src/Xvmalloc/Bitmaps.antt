-- ===== src/Xvmalloc/Bitmaps.antt =====
-- The two-level bitmap of a pool against its free lists.
use kernel_patches.Base.{
  ℕ, ◌/◌, ◌%◌, ◌^◌, ◌<◌, ◌≡◌, ◌≢◌, inl, inr, ◌∙◌, Bool, true, false, not, ◌&&◌, ◌==◌, ltb, bit,
  bit-zero, Bool-cases, arith,
}
use kernel_patches.Kernel.Bitops.{Bitops}
use kernel_patches.Xvmalloc.{Loc, XvPool, num_free_lists, update}
use kernel_patches.Xvmalloc.FreeList.{mark_list, unmark_list}

-- List `i` exists and has a head.
abbrev pub used : XvPool → ℕ → Bool
used p i = ltb i num_free_lists && not ((p.freelist i).pagenum == 0)

-- A second-level bit is set exactly for a list with a head, and a first-level bit exactly for a
-- second-level word that is not 0.
pub record IsMapped (p : XvPool) : Type 0 where
  pub fl_word : p.flbitmap < 2 ^ 32
  pub sl_word : (f : ℕ) → f < 16 → p.slbitmap f < 2 ^ 32
  pub fl_bit : (f : ℕ) → bit f p.flbitmap ≡ (ltb f 16 && not (p.slbitmap f == 0))
  pub sl_bit : (i : ℕ) → i < 512 → bit (i % 32) (p.slbitmap (i / 32)) ≡ used p i

-- A word with a bit set is not 0.
pub ne_zero_of_bit : (k w : ℕ) → bit k w ≡ true → w ≢ 0
ne_zero_of_bit k w t z = let f : bit k 0 ≡ true = rw z at t in ground (arith, bit-zero k)

module _ (b : Bitops) where
  set_bit-ne_zero : (k w : ℕ) → (b.set_bit k w == 0) ≡ false
  set_bit-ne_zero k w = ground (arith, ne_zero_of_bit k (b.set_bit k w), b.bit-set_bit k k w)

module _ (b : Bitops) (p : XvPool) (m : IsMapped p) (k : ℕ) (small : k < num_free_lists)
    (a : Loc) where
  abbrev with_head : XvPool
  with_head = record p { freelist = update p.freelist k a }

  mark_list-sl_bit :
      a.pagenum ≢ 0
      → (i : ℕ) → i < 512
      → bit (i % 32) ((mark_list b with_head k).slbitmap (i / 32))
        ≡ used (mark_list b with_head k) i
  unfolding mark_list update
  mark_list-sl_bit ne i h = elim (Bool-cases (k == i)) [
    | inl e ↦ ground (arith, b.bit-set_bit (k % 32) (i % 32) (p.slbitmap (k / 32)))
    | inr e ↦ ground (arith, m.sl_bit i, b.bit-set_bit (k % 32) (i % 32) (p.slbitmap (k / 32)))
  ]

  pub mark_list-IsMapped : a.pagenum ≢ 0 → IsMapped (mark_list b with_head k)
  unfolding mark_list update
  mark_list-IsMapped ne = record {
    fl_word = b.set_bit-lt (k / 32) p.flbitmap m.fl_word (omega arith);
    sl_word = λ f h.
        ground
          (arith, m.sl_word f, m.sl_word (k / 32), b.set_bit-lt (k % 32) (p.slbitmap (k / 32)));
    fl_bit = λ f. ground (
      arith,
      m.fl_bit f,
      b.bit-set_bit (k / 32) f p.flbitmap,
      set_bit-ne_zero b (k % 32) (p.slbitmap (k / 32)),
    );
    sl_bit = mark_list-sl_bit ne;
  }

  unmark_list-sl_bit :
      a.pagenum ≡ 0
      → (i : ℕ) → i < 512
      → bit (i % 32) ((unmark_list b with_head k).slbitmap (i / 32))
        ≡ used (unmark_list b with_head k) i
  unfolding unmark_list update
  unmark_list-sl_bit z i h = elim (Bool-cases (k == i)) [
    | inl e ↦ ground (arith, b.bit-clear_bit (k % 32) (i % 32) (p.slbitmap (k / 32)))
    | inr e ↦ ground (arith, m.sl_bit i, b.bit-clear_bit (k % 32) (i % 32) (p.slbitmap (k / 32)))
  ]

  pub unmark_list-IsMapped : a.pagenum ≡ 0 → used p k ≡ true → IsMapped (unmark_list b with_head k)
  unfolding unmark_list update
  unmark_list-IsMapped z u = record {
    fl_word = ground (arith, m.fl_word, b.clear_bit-lt (k / 32) p.flbitmap m.fl_word);
    sl_word = λ f h.
        ground
          (arith, m.sl_word f, m.sl_word (k / 32), b.clear_bit-lt (k % 32) (p.slbitmap (k / 32)));
    fl_bit = λ f. ground (arith, m.fl_bit f, b.bit-clear_bit (k / 32) f p.flbitmap, word_ne_zero);
    sl_bit = unmark_list-sl_bit z;
  }
    where
      word_ne_zero : p.slbitmap (k / 32) ≢ 0
      word_ne_zero = ne_zero_of_bit (k % 32) _ (m.sl_bit k (omega arith) ∙ u)

  -- Another head for a list that stays in use changes no bit.
  pub with_head-IsMapped : a.pagenum ≢ 0 → used p k ≡ true → IsMapped with_head
  unfolding update
  with_head-IsMapped ne u = record {
    fl_word = m.fl_word;
    sl_word = m.sl_word;
    fl_bit = m.fl_bit;
    sl_bit = λ i h. ground (arith, m.sl_bit i h);
  }
