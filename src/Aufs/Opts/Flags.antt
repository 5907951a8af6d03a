-- ===== src/Aufs/Opts/Flags.antt =====
-- The simple options (aufs/fs/aufs/opts.c): the flags that exclude each other.
use kernel_patches.Base.{
  ℕ, ◌≡◌, ◌⊎◌, inl, inr, refl, ap, sym, subst, ◌∙◌, Bool, true, false, Option, none, some, List, [],
  ◌∷◌, ◌==◌, update, arith,
}
use kernel_patches.Aufs.Branches.{Error}
use kernel_patches.Aufs.Opts.{
  Opt, Udba, Coo, Mount, Handled, processed, unprocessed, failed, opt_udba, opt_coo, udba_bit,
  coo_bit, in_mask_udba, in_mask_coo, bit_sum_w, choose,
}
use kernel_patches.Aufs.Opts.Simple.{set_wbr_create, au_opt_simple, simple_loop}

-- The last of the options that chooses a way to see changes on branches, and a time to copy up.
abbrev pub last_udba : List Opt → Udba → Udba
last_udba [] u = u
last_udba (opt_udba v ∷ opts) u = last_udba opts v
last_udba (_ ∷ opts) u = last_udba opts u

abbrev pub last_coo : List Opt → Coo → Coo
last_coo [] c = c
last_coo (opt_coo v ∷ opts) c = last_coo opts v
last_coo (_ ∷ opts) c = last_coo opts c

-- Of each of the two groups exactly one flag is set, and SUM_W is not.
pub record IsChosen (u : Udba) (c : Coo) (flags : ℕ → Bool) : Type 0 where
  pub udba : (b : ℕ) → in_mask_udba b ≡ true → flags b ≡ (b == udba_bit u)
  pub coo : (b : ℕ) → in_mask_coo b ≡ true → flags b ≡ (b == coo_bit c)
  pub sum_w : flags bit_sum_w ≡ false

-- One more option.
simple-IsChosen :
    (hz : ℕ) (opt : Opt) (u : Udba) (c : Coo) (m : Mount)
    → IsChosen u c m.si_mntflags
    → IsChosen
        (last_udba (opt ∷ []) u)
        (last_coo (opt ∷ []) c)
        (au_opt_simple hz opt m).1.si_mntflags
unfolding au_opt_simple choose set_wbr_create update
simple-IsChosen hz opt u c m v = record {
  udba = λ b e. ground (arith, v.udba b e);
  coo = λ b e. ground (arith, v.coo b e);
  sum_w = ground (arith, v.sum_w);
}

last_udba-cons :
    (opt : Opt) (opts : List Opt) (u : Udba)
    → last_udba (opt ∷ opts) u ≡ last_udba opts (last_udba (opt ∷ []) u)
last_udba-cons opt opts u = ground arith

last_coo-cons :
    (opt : Opt) (opts : List Opt) (c : Coo)
    → last_coo (opt ∷ opts) c ≡ last_coo opts (last_coo (opt ∷ []) c)
last_coo-cons opt opts c = ground arith

pub Handled-cases :
    (h : Handled) → ((e : Error) × (h ≡ failed e)) ⊎ ((h ≡ processed) ⊎ (h ≡ unprocessed))
Handled-cases processed = inr (inl refl)
Handled-cases unprocessed = inr (inr refl)
Handled-cases (failed e) = inl (e, refl)

simple_loop-cons :
    (hz : ℕ) (opt : Opt) (opts : List Opt) (m : Mount)
    → ((au_opt_simple hz opt m).0 ≡ processed) ⊎ ((au_opt_simple hz opt m).0 ≡ unprocessed)
    → simple_loop hz (opt ∷ opts) m ≡ simple_loop hz opts (au_opt_simple hz opt m).1
unfolding simple_loop
simple_loop-cons hz opt opts m (inl k) = rw (simple_loop, k) refl
simple_loop-cons hz opt opts m (inr k) = rw (simple_loop, k) refl

simple_loop-failed :
    (hz : ℕ) (opt : Opt) (opts : List Opt) (m : Mount) (e : Error)
    → (au_opt_simple hz opt m).0 ≡ failed e
    → simple_loop hz (opt ∷ opts) m ≡ (some e, (au_opt_simple hz opt m).1)
unfolding simple_loop
simple_loop-failed hz opt opts m e k = rw (simple_loop, k) refl

simple-sb : (hz : ℕ) (opt : Opt) (m : Mount) → (au_opt_simple hz opt m).1.sb ≡ m.sb
unfolding au_opt_simple set_wbr_create
simple-sb hz opt m = ground arith

-- The simple options together: they leave the branches.
pub simple_loop-sb : (hz : ℕ) (opts : List Opt) (m : Mount) → (simple_loop hz opts m).1.sb ≡ m.sb
unfolding simple_loop
simple_loop-sb hz [] m = refl
simple_loop-sb hz (opt ∷ opts) m = elim (Handled-cases (au_opt_simple hz opt m).0) [
  | inl (e, k) ↦
      ap (λ (x : Option Error × Mount). x.1.sb) (simple_loop-failed hz opt opts m e k)
      ∙ simple-sb hz opt m
  | inr k ↦
      ap (λ (x : Option Error × Mount). x.1.sb) (simple_loop-cons hz opt opts m k)
      ∙ simple_loop-sb hz opts (au_opt_simple hz opt m).1
      ∙ simple-sb hz opt m
]

pub simple_loop-IsChosen :
    (hz : ℕ) (opts : List Opt) (u : Udba) (c : Coo) (m : Mount)
    → IsChosen u c m.si_mntflags
    → (simple_loop hz opts m).0 ≡ none
    → IsChosen (last_udba opts u) (last_coo opts c) (simple_loop hz opts m).1.si_mntflags
unfolding simple_loop
simple_loop-IsChosen hz [] u c m v e = v
simple_loop-IsChosen hz (opt ∷ opts) u c m v e = elim (Handled-cases (au_opt_simple hz opt m).0) [
  | inl (f, k) ↦
      let both : some f ≡ none =
        sym (ap (λ (x : Option Error × Mount). x.0) (simple_loop-failed hz opt opts m f k)) ∙ e in
      absurd (ground (arith, both))
  | inr k ↦
      let path = simple_loop-cons hz opt opts m k in
      let m1 = (au_opt_simple hz opt m).1 in
      let rest =
        simple_loop-IsChosen hz opts (last_udba (opt ∷ []) u) (last_coo (opt ∷ []) c) m1
          (simple-IsChosen hz opt u c m v)
          (sym (ap (λ (x : Option Error × Mount). x.0) path) ∙ e) in
      rw (last_udba-cons opt opts u, last_coo-cons opt opts c)
        (subst
          (λ (x : Option Error × Mount).
            IsChosen (last_udba opts (last_udba (opt ∷ []) u))
              (last_coo opts (last_coo (opt ∷ []) c)) x.1.si_mntflags)
          (sym path) rest)
]
