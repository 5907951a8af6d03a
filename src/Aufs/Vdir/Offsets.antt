-- ===== src/Aufs/Vdir/Offsets.antt =====
-- Offsets into a block and its entries, and handing over the entries of one block: fill_block, of
-- au_vdir_fill_de of aufs/fs/aufs/vdir.c.
use mathlib.Core.List.{append-nil, append_assoc}
use kernel_patches.Base.{
  ℕ, ◌+◌, ◌-◌, ◌≤◌, ◌<◌, ◌≡◌, refl, sym, ap, subst, ◌∙◌, Bool, true, false, List, [], ◌∷◌, ◌++◌,
  length, ◌==◌, ltb, inl, inr, Bool-cases, arith,
}
use kernel_patches.Aufs.Vdir.{De, au_size_deblk, calc_size}
use kernel_patches.Aufs.Vdir.Fill.{entries_at, is_deblk_end, Handing, fill_block}
use kernel_patches.Aufs.Vdir.Asked.{Asked, Asked-cons}
use kernel_patches.Aufs.Vdir.Bounds.{block_size}

-- Names have at least one byte.
abbrev pub Named : List De → Type 0
Named [] = Unit
Named (d ∷ ds) = (0 < length d.de_name) × Named ds

calc_size-least : (n : ℕ) → 8 ≤ calc_size n
unfolding calc_size
calc_size-least n = ground arith

calc_size-zero : calc_size 0 ≡ 8
unfolding calc_size
calc_size-zero = refl

pub entries_at-zero : (ds : List De) → entries_at ds 0 ≡ ds
unfolding entries_at
entries_at-zero [] = refl
entries_at-zero (d ∷ ds) = refl

-- From the entry after the one at an offset on.
entries_at-next :
    (ds : List De) (p : ℕ) (d : De) (rest : List De)
    → entries_at ds p ≡ d ∷ rest
    → entries_at ds (p + calc_size (length d.de_name)) ≡ rest
unfolding entries_at
entries_at-next [] p d rest e = absurd (ground arith)
entries_at-next (x ∷ xs) p d rest e =
    let l = calc_size (length x.de_name) in
    let n = calc_size (length d.de_name) in
    let big = calc_size-least (length x.de_name) in
    let more = calc_size-least (length d.de_name) in
    elim (Bool-cases (p == 0)) [
      | inl start ↦
          let same : x ≡ d = ground arith in
          let tail : xs ≡ rest = ground arith in
          let size : l ≡ n = ap (λ y. calc_size (length y.de_name)) same in
          let off : p + n - l ≡ 0 = ground arith in
          let here = ap (entries_at xs) off ∙ entries_at-zero xs in ground arith
      | inr inner ↦ elim (Bool-cases (ltb p l)) [
        | inl short ↦ absurd (ground arith)
        | inr far ↦
            let old : entries_at xs (p - l) ≡ d ∷ rest = ground arith in
            let off : p + n - l ≡ p - l + n = ground arith in
            let here = ap (entries_at xs) off ∙ entries_at-next xs (p - l) d rest old in
            ground arith
      ]
    ]

entries_at-size :
    (ds : List De) (p : ℕ) (d : De) (rest : List De)
    → entries_at ds p ≡ d ∷ rest
    → p + block_size (d ∷ rest) ≡ block_size ds
unfolding entries_at
entries_at-size [] p d rest e = absurd (ground arith)
entries_at-size (x ∷ xs) p d rest e =
    let l = calc_size (length x.de_name) in
    elim (Bool-cases (p == 0)) [
      | inl start ↦
          let same : x ∷ xs ≡ d ∷ rest = ground arith in
          let size = ap block_size same in ground arith
      | inr inner ↦ elim (Bool-cases (ltb p l)) [
        | inl short ↦ absurd (ground arith)
        | inr far ↦
            let old : entries_at xs (p - l) ≡ d ∷ rest = ground arith in
            let size = entries_at-size xs (p - l) d rest old in ground arith
      ]
    ]

inside :
    (d : De) (ds : List De) (p : ℕ)
    → 0 < length d.de_name
    → p + block_size (d ∷ ds) ≤ au_size_deblk
    → is_deblk_end (d ∷ ds) p ≡ false
unfolding is_deblk_end
inside d ds p named h = ground (arith, calc_size-least (length d.de_name), calc_size-zero)

entries_at-Named :
    (ds : List De) (p : ℕ) (d : De) (rest : List De)
    → entries_at ds p ≡ d ∷ rest
    → Named ds
    → 0 < length d.de_name
unfolding entries_at
entries_at-Named [] p d rest e named = absurd (ground arith)
entries_at-Named (x ∷ xs) p d rest e named =
    let l = calc_size (length x.de_name) in
    elim (Bool-cases (p == 0)) [
      | inl start ↦
          let same : x ≡ d = ground arith in subst (λ y. 0 < length y.de_name) same (named.0)
      | inr inner ↦ elim (Bool-cases (ltb p l)) [
        | inl short ↦ absurd (ground arith)
        | inr far ↦ entries_at-Named xs (p - l) d rest (ground arith) (named.1)
      ]
    ]

-- What handing over the entries of block `b` does.
pub record Passed (filldir : ℕ → De → Bool) (b : List De) (h r : Handing) : Type 0 where
  pub same : r.vdir ≡ record (h.vdir) { vd_last_p = r.vdir.vd_last_p }
  pub total : r.handed ++ entries_at b r.vdir.vd_last_p ≡ h.handed ++ entries_at b h.vdir.vd_last_p
  pub moved : r.pos + h.vdir.vd_last_p ≡ h.pos + r.vdir.vd_last_p
  pub ended : r.stopped ≡ false → entries_at b r.vdir.vd_last_p ≡ []
  pub asked : Asked filldir (entries_at b r.vdir.vd_last_p) h r

module _ (filldir : ℕ → De → Bool) where
  pub fill_block-Passed :
      (b ds : List De) (h : Handing)
      → entries_at b h.vdir.vd_last_p ≡ ds
      → block_size b ≤ au_size_deblk
      → Named b
      → h.stopped ≡ false
      → Passed filldir b h (fill_block filldir ds h)
  unfolding fill_block
  fill_block-Passed b [] h at size named going = record {
    same = refl;
    total = refl;
    moved = refl;
    ended = λ _. at;
    asked = record {
      new = [];
      handed = sym (append-nil h.handed);
      taken = tt;
      refused = λ e. absurd (ground arith);
      counted = λ e. omega arith;
    };
  }
  fill_block-Passed b (d ∷ ds) h at size named going =
      let p = h.vdir.vd_last_p in
      let l = calc_size (length d.de_name) in
      let bytes = entries_at-size b p d ds at in
      let go_on = inside d ds p (entries_at-Named b p d ds at named) (omega arith) in
      let taken : Handing = record h {
        vdir = record (h.vdir) { vd_last_p = p + l };
        pos = h.pos + l;
        handed = h.handed ++ (d ∷ []);
        calls = h.calls + 1;
      } in
      elim (Bool-cases (filldir h.calls d)) [
        | inl takes ↦
            let path : fill_block filldir (d ∷ ds) h ≡ fill_block filldir ds taken =
              rw (fill_block, go_on, takes) refl in
            let next = entries_at-next b p d ds at in
            let rest = fill_block-Passed b ds taken next size named going in
            let r = fill_block filldir ds taken in
            subst (Passed filldir b h) (sym path) (record {
              same = rest.same;
              total =
                  rest.total
                  ∙ append_assoc h.handed (d ∷ []) (entries_at b (p + l))
                  ∙ ap (λ m. h.handed ++ (d ∷ m)) next
                  ∙ ap (λ m. h.handed ++ m) (sym at);
              moved = (let m = rest.moved in omega arith);
              ended = rest.ended;
              asked =
                  Asked-cons filldir (entries_at b r.vdir.vd_last_p) h r d (taken.vdir) (taken.pos)
                    takes rest.asked;
            })
        | inr leaves ↦
            let path : fill_block filldir (d ∷ ds) h
                ≡ record h { stopped = true; calls = h.calls + 1 } =
              rw (fill_block, go_on, leaves) refl in
            let here : h.calls + length {A = De} [] ≡ h.calls = omega arith in
            subst (Passed filldir b h) (sym path) (record {
              same = refl;
              total = refl;
              moved = refl;
              ended = λ e. absurd (ground arith);
              asked = record {
                new = [];
                handed = sym (append-nil h.handed);
                taken = tt;
                refused = λ e. (d, ds, at, ap (λ c. filldir c d) here ∙ leaves);
                counted = λ e. absurd (ground arith);
              };
            })
      ]
