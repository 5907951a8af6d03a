-- ===== src/Xvmalloc/Search.antt =====
-- find_block against the list of free lists: it finds the first list in use from the request's
-- index on.
use kernel_patches.Base.{
  ℕ, ◌+◌, ◌-◌, ◌*◌, ◌/◌, ◌%◌, ◌^◌, ◌≤◌, ◌<◌, ◌≡◌, ◌≢◌, ◌⊎◌, inl, inr, refl, ◌∙◌, Bool, true, false,
  not, ◌&&◌, ◌==◌, bit, shr, bit-zero, bit-shr, shr-lt, bit-ge, Bool-cases, arith, sym,
}
use native.Mathlib.Decide.{dec_lt}
use kernel_patches.Kernel.Bitops.{Bitops}
use kernel_patches.Xvmalloc.{Loc, XvPool, xv_max_alloc_size, get_index}
use kernel_patches.Xvmalloc.Index.{get_index-lt}
use kernel_patches.Xvmalloc.FindBlock.{Found, find_block, find_next_chunk}
use kernel_patches.Xvmalloc.Bitmaps.{used, IsMapped}

-- From list `from` on, the list with the index found is the first in use, and the place is its
-- head.
pub record IsFirst (p : XvPool) (from : ℕ) (r : Found) : Type 0 where
  pub from_le : from ≤ r.index
  pub in_use : used p r.index ≡ true
  pub first : (j : ℕ) → from ≤ j → j < r.index → used p j ≡ false
  pub head : r.place ≡ p.freelist r.index

abbrev pub NoneFrom : XvPool → ℕ → Type 0
NoneFrom p from = (j : ℕ) → from ≤ j → used p j ≡ false

-- No bit below the lowest is set.
below_ffs : (b : Bitops) (w j : ℕ) → w < 2 ^ 32 → j < b.ffs w → bit j w ≡ false
below_ffs b w j h l = elim (Bool-cases (bit j w)) [
  | inl t ↦ absurd (omega (arith, b.ffs_least w j h t))
  | inr f ↦ f
]

bit_set-lt : (n k w : ℕ) → w < 2 ^ n → bit k w ≡ true → k < n
bit_set-lt n k w h t = elim (dec_lt k n) [
  | yes l ↦ l
  | no g ↦ ground (arith, bit-ge n k w h (omega arith))
]

ffs-lt : (b : Bitops) (w : ℕ) → w < 2 ^ 32 → w ≢ 0 → b.ffs w < 32
ffs-lt b w h ne = bit_set-lt 32 (b.ffs w) w h (b.bit-ffs w h ne)

module _ (b : Bitops) (p : XvPool) (m : IsMapped p) where
  -- A word that is 0 speaks of 32 lists that are not in use.
  unused_of_word : (j : ℕ) → p.slbitmap (j / 32) ≡ 0 → used p j ≡ false
  unused_of_word j z = elim (dec_lt j 512) [
    | yes l ↦ sym (m.sl_bit j l) ∙ rw z (bit-zero (j % 32))
    | no g ↦ ground arith
  ]

  -- So does a first-level bit that is not set.
  unused_of_fl : (j : ℕ) → bit (j / 32) p.flbitmap ≡ false → used p j ≡ false
  unused_of_fl j e = ground (arith, m.fl_bit (j / 32), unused_of_word j)

  -- The rest of a word behind bit `s`, read as the lists behind it in the same chunk.
  rest_bit :
      (s j : ℕ)
      → s < j
      → j / 32 ≡ s / 32
      → j < 512
      → bit (j - (s + 1)) (shr (p.slbitmap (s / 32)) (s % 32 + 1)) ≡ used p j
  rest_bit s j l e h =
      let at_bit : j - (s + 1) + (s % 32 + 1) ≡ j % 32 = omega arith in
      rw (bit-shr (p.slbitmap (s / 32)) (s % 32 + 1) (j - (s + 1)), at_bit, ← e) (m.sl_bit j h)

  -- The rest of the first level behind chunk `f`.
  fl_rest : (f g : ℕ) → f < g → bit (g - (f + 1)) (shr p.flbitmap (f + 1)) ≡ bit g p.flbitmap
  fl_rest f g l =
      let at_bit : g - (f + 1) + (f + 1) ≡ g = omega arith in
      rw (bit-shr p.flbitmap (f + 1) (g - (f + 1)), at_bit)

  module _ (s : ℕ) (h : s < 512)
      (chunk : (j : ℕ) → s ≤ j → j / 32 ≡ s / 32 → used p j ≡ false) where
    none_next : shr p.flbitmap (s / 32 + 1) ≡ 0 → NoneFrom p s
    none_next z j l = elim (dec_lt (s / 32) (j / 32)) [
      | yes above ↦
          let e : bit (j / 32 - (s / 32 + 1)) 0 ≡ bit (j / 32) p.flbitmap =
            rw z at (fl_rest (s / 32) (j / 32) above) in
          unused_of_fl j (sym e ∙ bit-zero _)
      | no same ↦ chunk j l (omega arith)
    ]

    -- The first list of the first chunk behind that has one.
    IsFirst-of_chunk :
        (g : ℕ)
        → s / 32 < g
        → bit g p.flbitmap ≡ true
        → ((q : ℕ) → s / 32 < q → q < g → bit q p.flbitmap ≡ false)
        → IsFirst p s (record {
          index = g * 32 + b.ffs (p.slbitmap g);
          place = p.freelist (g * 32 + b.ffs (p.slbitmap g));
        })
    IsFirst-of_chunk g above on off = record {
      from_le = omega arith;
      in_use =
          sym (m.sl_bit (g * 32 + t) (omega (arith, in_range, t_lt)))
          ∙ rw (chunk_of, bit_of) (b.bit-ffs word w ne);
      first = before;
      head = refl;
    }
      where
        word : ℕ
        word = p.slbitmap g

        in_range : (g < 16) × (word ≢ 0)
        in_range = ground (arith, m.fl_bit g)

        w : word < 2 ^ 32
        w = m.sl_word g in_range.0

        ne : word ≢ 0
        ne = in_range.1

        t : ℕ
        t = b.ffs word

        t_lt : t < 32
        t_lt = ffs-lt b word w ne

        chunk_of : (g * 32 + t) / 32 ≡ g
        chunk_of = omega (arith, t_lt)

        bit_of : (g * 32 + t) % 32 ≡ t
        bit_of = omega (arith, t_lt)

        here : (j : ℕ) → j / 32 ≡ g → j % 32 < t → used p j ≡ false
        here j e l =
            sym (m.sl_bit j (omega (arith, in_range))) ∙ rw e (below_ffs b word (j % 32) w l)

        before : (j : ℕ) → s ≤ j → j < g * 32 + t → used p j ≡ false
        before j l u = elim (dec_lt (s / 32) (j / 32)) [
          | no same ↦ chunk j l (omega arith)
          | yes behind ↦ elim (dec_lt (j / 32) g) [
            | yes between ↦ unused_of_fl j (off (j / 32) behind between)
            | no last ↦ here j (omega (arith, t_lt)) (omega (arith, t_lt))
          ]
        ]

    IsFirst-next :
        shr p.flbitmap (s / 32 + 1) ≢ 0
        → let g = s / 32 + (b.ffs (shr p.flbitmap (s / 32 + 1)) + 1) in
          IsFirst p s (record {
            index = g * 32 + b.ffs (p.slbitmap g);
            place = p.freelist (g * 32 + b.ffs (p.slbitmap g));
          })
    IsFirst-next ne = IsFirst-of_chunk g (omega arith) on off
      where
        word : ℕ
        word = shr p.flbitmap (s / 32 + 1)

        w : word < 2 ^ 32
        w = shr-lt 32 (s / 32 + 1) p.flbitmap m.fl_word

        g : ℕ
        g = s / 32 + (b.ffs (shr p.flbitmap (s / 32 + 1)) + 1)

        back : g - (s / 32 + 1) ≡ b.ffs word
        back = omega arith

        on : bit g p.flbitmap ≡ true
        on = sym (fl_rest (s / 32) g (omega arith)) ∙ rw back (b.bit-ffs word w ne)

        off : (q : ℕ) → s / 32 < q → q < g → bit q p.flbitmap ≡ false
        off q l u = sym (fl_rest (s / 32) q l) ∙ below_ffs b word (q - (s / 32 + 1)) w (omega arith)

    find_next_chunk_lem :
        (place : Loc)
        → IsFirst p s (find_next_chunk b p (s / 32) place)
          ⊎ (find_next_chunk b p (s / 32) place ≡ record { index = 0; place = place })
            × NoneFrom p s
    unfolding find_next_chunk
    find_next_chunk_lem place = elim (Bool-cases (shr p.flbitmap (s / 32 + 1) == 0)) [
      | inl z ↦ rw z (inr (refl, none_next (ground arith)))
      | inr ne ↦ rw ne (inl (IsFirst-next (ground arith)))
    ]

  -- The three ways in which the search can go on once the pool is not empty.
  module _ (s : ℕ) (h : s < 512) where
    none_of_fl : p.flbitmap ≡ 0 → NoneFrom p s
    none_of_fl z j l = unused_of_fl j (rw z (bit-zero (j / 32)))

    IsFirst-here :
        bit (s % 32) (p.slbitmap (s / 32)) ≡ true
        → IsFirst p s (record { index = s; place = p.freelist s })
    IsFirst-here t = record {
      from_le = omega arith;
      in_use = sym (m.sl_bit s h) ∙ t;
      first = λ j l u. absurd (omega arith);
      head = refl;
    }

    IsFirst-in_rest :
        used p s ≡ false
        → let rest = shr (p.slbitmap (s / 32)) (s % 32 + 1) in
          rest ≢ 0
          → IsFirst p s
              (record { index = s + (b.ffs rest + 1); place = p.freelist (s + (b.ffs rest + 1)) })
    IsFirst-in_rest off ne = record {
      from_le = omega arith;
      in_use =
          sym (rest_bit s i (omega arith) same (omega (arith, fits)))
          ∙ rw back (b.bit-ffs rest w ne);
      first = before;
      head = refl;
    }
      where
        rest : ℕ
        rest = shr (p.slbitmap (s / 32)) (s % 32 + 1)

        word_lt : p.slbitmap (s / 32) < 2 ^ 32
        word_lt = m.sl_word (s / 32) (omega arith)

        w : rest < 2 ^ 32
        w = shr-lt 32 (s % 32 + 1) (p.slbitmap (s / 32)) word_lt

        t : ℕ
        t = b.ffs rest

        i : ℕ
        i = s + (b.ffs rest + 1)

        in_word : bit (t + (s % 32 + 1)) (p.slbitmap (s / 32)) ≡ true
        in_word = sym (bit-shr (p.slbitmap (s / 32)) (s % 32 + 1) t) ∙ b.bit-ffs rest w ne

        fits : t + (s % 32 + 1) < 32
        fits = bit_set-lt 32 (t + (s % 32 + 1)) (p.slbitmap (s / 32)) word_lt in_word

        same : i / 32 ≡ s / 32
        same = omega (arith, fits)

        back : i - (s + 1) ≡ t
        back = omega arith

        before : (j : ℕ) → s ≤ j → j < i → used p j ≡ false
        before j l u = elim (dec_lt s j) [
          | yes behind ↦
              sym (rest_bit s j behind (omega (arith, fits)) (omega (arith, fits)))
              ∙ below_ffs b rest (j - (s + 1)) w (omega arith)
          | no eq ↦ let e : j ≡ s = omega arith in rw e off
        ]

    chunk_done :
        used p s ≡ false
        → (s % 32 + 1 ≡ 32) ⊎ (shr (p.slbitmap (s / 32)) (s % 32 + 1) ≡ 0)
        → (j : ℕ) → s ≤ j
        → j / 32 ≡ s / 32
        → used p j ≡ false
    chunk_done off d j l e = elim (dec_lt s j) [
      | no eq ↦ let e' : j ≡ s = omega arith in rw e' off
      | yes behind ↦ elim d [
        | inl end ↦ absurd (omega arith)
        | inr z ↦
            let r : bit (j - (s + 1)) 0 ≡ used p j =
              rw z at (rest_bit s j behind e (omega arith)) in
            sym r ∙ bit-zero (j - (s + 1))
      ]
    ]

  module _ (size : ℕ) (place : Loc) (h : size ≤ xv_max_alloc_size) where
    abbrev start : ℕ
    start = get_index size

    unused_start : bit (start % 32) (p.slbitmap (start / 32)) ≡ false → used p start ≡ false
    unused_start f = sym (m.sl_bit start (get_index-lt size h)) ∙ f

    abbrev go_on : Bool
    go_on = not (start % 32 + 1 == 32) && not (shr (p.slbitmap (start / 32)) (start % 32 + 1) == 0)

    -- For a pool with consistent bitmaps and a request of at most XV_MAX_ALLOC_SIZE, find_block
    -- returns the first list in use from the request's index on, with its head; or none is in use
    -- from there on, and it returns 0 and leaves the out parameters alone.
    pub find_block_lem :
        IsFirst p (get_index size) (find_block b p size place)
        ⊎ (find_block b p size place ≡ record { index = 0; place = place })
          × NoneFrom p (get_index size)
    unfolding find_block
    find_block_lem = elim (Bool-cases (p.flbitmap == 0)) [
      | inl z ↦ rw z (inr (refl, none_of_fl start lt (ground arith)))
      | inr fl ↦ elim (Bool-cases (bit (start % 32) (p.slbitmap (start / 32)))) [
        | inl t ↦ rw (fl, b.test_bit_lem, t) (inl (IsFirst-here start lt t))
        | inr f ↦ elim (Bool-cases go_on) [
          | inl g ↦
              rw (fl, b.test_bit_lem, f, g)
                (inl (IsFirst-in_rest start lt (unused_start f) (ground arith)))
          | inr g ↦
              rw (fl, b.test_bit_lem, f, g)
                (find_next_chunk_lem start lt (chunk_done start lt (unused_start f) (ground arith))
                  place)
        ]
      ]
    ]
      where
        lt : start < 512
        lt = get_index-lt size h
