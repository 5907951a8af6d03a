-- ===== src/Aufs/Xino/Find.antt =====
-- The search for a number that is not in use.
use kernel_patches.Base.{
  ℕ, zero, suc, ◌+◌, ◌-◌, ◌≤◌, ◌<◌, ◌≡◌, ◌≢◌, ◌⊎◌, inl, inr, refl, sym, subst, ◌∙◌, Bool, true,
  false, not, ◌&&◌, none, some, Option-cases, ltb, Bool-cases, first_up_lem, IsLowest, arith,
}
use native.Mathlib.Decide.{dec_lt}
use kernel_patches.Aufs.Xino.{
  XinoInfo, page_bits, find_first_zero_bit, xib_pindex, Search, found, full, failed, search_down,
  search_up, search_others, search_xib,
}
use kernel_patches.Aufs.Xino.Bitmap.{
  held, IsXib, SameXib, SameXib-refl, SameXib-trans, xib_pindex_lem, held_beyond,
}

pub zero_bit :
    (p : ℕ → Bool) (bit : ℕ)
    → find_first_zero_bit p ≡ some bit
    → (bit < page_bits) × (p bit ≡ false)
unfolding find_first_zero_bit
zero_bit p bit e =
    let low =
      subst (IsLowest (λ i. not (p i)) 0 page_bits) e
        (first_up_lem (λ i. not (p i)) page_bits 0 page_bits (omega arith)) in
    (low.1, ground (arith, low.2))

no_zero_bit : (p : ℕ → Bool) → find_first_zero_bit p ≡ none → (k : ℕ) → k < page_bits → p k ≡ true
unfolding find_first_zero_bit
no_zero_bit p e k h =
    let low =
      subst (IsLowest (λ i. not (p i)) 0 page_bits) e
        (first_up_lem (λ i. not (p i)) page_bits 0 page_bits (omega arith)) in
    ground (arith, low k (omega arith) h)

-- A search that keeps what is in use and ends at a bit that is not, or in an error.
pub data Outcome (s : XinoInfo) : Search × XinoInfo → Type 0 where
  is_found :
      (bit : ℕ) (t : XinoInfo)
      → SameXib s t
      → bit < page_bits
      → t.xib_buf bit ≡ false
      → t.xib_last_pindex ≤ s.xib_npages
      → Outcome s (found bit, t)
  is_failed : (t : XinoInfo) → Outcome s (failed, t)

-- The same from a later state.
Outcome-from :
    (s t : XinoInfo) (r : Search × XinoInfo)
    → SameXib s t
    → t.xib_npages ≡ s.xib_npages
    → Outcome t r
    → Outcome s r
Outcome-from s t r k n (is_found bit u same lt free le) =
    is_found bit u (SameXib-trans k same) lt free (omega (arith, n, le))
Outcome-from s t r k n (is_failed u) = is_failed u

-- No page that was searched has a free bit.
abbrev Exhausted : XinoInfo → Search × XinoInfo → Type 0
Exhausted s r = (t : XinoInfo) × (r ≡ (full, t)) × SameXib s t × (t.xib_npages ≡ s.xib_npages)

module _ (io : ℕ → Bool) where
  -- One round of a search.
  found_here :
      (s : XinoInfo) (p bit : ℕ)
      → IsXib s
      → p ≤ s.xib_npages
      → (xib_pindex io s p).0 ≡ true
      → find_first_zero_bit (xib_pindex io s p).1.xib_buf ≡ some bit
      → Outcome s (found bit, (xib_pindex io s p).1)
  found_here s p bit v le ok e =
      let sw = xib_pindex_lem io s p v ok in
      let (lt, free) = zero_bit (xib_pindex io s p).1.xib_buf bit e in
      is_found bit (xib_pindex io s p).1 sw.kept lt free (omega (arith, sw.here, le))

  pub search_down_lem :
      (n : ℕ) (s : XinoInfo)
      → IsXib s
      → n ≤ s.xib_npages
      → Outcome s (search_down io n s) ⊎ Exhausted s (search_down io n s)
  unfolding search_down
  search_down_lem zero s v h = inr (s, refl, SameXib-refl s v, refl)
  search_down_lem (suc n) s v h = elim (Bool-cases (xib_pindex io s n).0) [
    | inr f ↦ rw f (inl (is_failed (xib_pindex io s n).1))
    | inl ok ↦ elim (Option-cases (find_first_zero_bit (xib_pindex io s n).1.xib_buf)) [
      | inr (bit, e) ↦ rw (ok, e) (inl (found_here s n bit v (omega arith) ok e))
      | inl e ↦
          let sw = xib_pindex_lem io s n v ok in
          let same : (xib_pindex io s n).1.xib_npages ≡ s.xib_npages = omega (arith, sw.npages) in
          rw (ok, e)
            (elim (search_down_lem n (xib_pindex io s n).1 sw.kept.valid (omega (arith, same))) [
              | inl o ↦ inl (Outcome-from s (xib_pindex io s n).1 _ sw.kept same o)
              | inr (t, is, k, m) ↦ inr (t, is, SameXib-trans sw.kept k, m ∙ same)
            ])
    ]
  ]

  -- The page behind the file's last has free bits only.
  fresh_page :
      (s : XinoInfo) (p : ℕ)
      → IsXib s
      → s.xib_npages ≤ p
      → (xib_pindex io s p).0 ≡ true
      → find_first_zero_bit (xib_pindex io s p).1.xib_buf ≢ none
  unfolding held
  fresh_page s p v le ok e =
      let sw = xib_pindex_lem io s p v ok in
      let one = no_zero_bit (xib_pindex io s p).1.xib_buf e 0 (omega arith) in
      ground (arith, one, sw.here, sw.kept.same p 0, held_beyond s v p 0 le)

  pub search_up_lem :
      (n ul : ℕ) (s : XinoInfo)
      → IsXib s
      → ul + n ≡ s.xib_npages + 1
      → ul ≤ s.xib_npages
      → Outcome s (search_up io n ul s)
  unfolding search_up
  search_up_lem zero ul s v e le = absurd (omega arith)
  search_up_lem (suc n) ul s v e le = elim (Bool-cases (xib_pindex io s ul).0) [
    | inr f ↦ rw f (is_failed (xib_pindex io s ul).1)
    | inl ok ↦ elim (Option-cases (find_first_zero_bit (xib_pindex io s ul).1.xib_buf)) [
      | inr (bit, z) ↦ rw (ok, z) (found_here s ul bit v le ok z)
      | inl z ↦
          let sw = xib_pindex_lem io s ul v ok in
          let before : ul < s.xib_npages = elim (dec_lt ul s.xib_npages) [
            | yes l ↦ l
            | no g ↦ absurd (fresh_page s ul v (omega arith) ok z)
          ] in
          let same : (xib_pindex io s ul).1.xib_npages ≡ s.xib_npages = omega (arith, sw.npages) in
          rw (ok, z)
            (Outcome-from s (xib_pindex io s ul).1 _ sw.kept same (
              search_up_lem n (ul + 1) (xib_pindex io s ul).1 sw.kept.valid (omega (arith, same, e))
                (omega (arith, same, before))))
    ]
  ]

  search_others_lem : (s : XinoInfo) → IsXib s → Outcome s (search_others io s)
  unfolding search_others
  search_others_lem s v =
      go (search_down io s.xib_last_pindex s)
        (search_down_lem s.xib_last_pindex s v (omega (arith, v.last_lt)))
    where
      next : Search × XinoInfo → Search × XinoInfo
      next r = elim (r.0) [
        | found bit ↦ (found bit, r.1)
        | failed ↦ (failed, r.1)
        | full ↦ search_up io (r.1.xib_npages - s.xib_last_pindex) (s.xib_last_pindex + 1) r.1
      ]

      go : (r : Search × XinoInfo) → Outcome s r ⊎ Exhausted s r → Outcome s (next r)
      go r (inl (is_found bit t k lt free le)) = is_found bit t k lt free le
      go r (inl (is_failed t)) = is_failed t
      go r (inr (t, is, k, same)) =
          subst (λ q. Outcome s (next q)) (sym is)
            (Outcome-from s t
              (search_up io (t.xib_npages - s.xib_last_pindex) (s.xib_last_pindex + 1) t) k same
              (search_up_lem (t.xib_npages - s.xib_last_pindex) (s.xib_last_pindex + 1) t k.valid
                (omega (arith, same, v.last_lt)) (omega (arith, same, v.last_lt))))

  -- The search always ends at a free bit or in an error, and keeps what is in use.
  pub search_xib_lem : (s : XinoInfo) → IsXib s → Outcome s (search_xib io s)
  unfolding search_xib
  search_xib_lem s v =
      elim (Bool-cases (ltb s.xib_next_bit page_bits && not (s.xib_buf s.xib_next_bit))) [
        | inl hit ↦ rw hit (
            is_found s.xib_next_bit s (SameXib-refl s v) (ground arith) (ground arith)
              (omega (arith, v.last_lt)))
        | inr miss ↦ elim (Option-cases (find_first_zero_bit s.xib_buf)) [
          | inr (bit, z) ↦
              let (lt, free) = zero_bit s.xib_buf bit z in
              rw (miss, z) (is_found bit s (SameXib-refl s v) lt free (omega (arith, v.last_lt)))
          | inl z ↦ rw (miss, z) (search_others_lem s v)
        ]
      ]
