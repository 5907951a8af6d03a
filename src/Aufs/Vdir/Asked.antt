-- ===== src/Aufs/Vdir/Asked.antt =====
-- What the caller of au_vdir_fill_de of aufs/fs/aufs/vdir.c answers: which entries it took and
-- which it did not.
use mathlib.Core.List.{append_assoc}
use kernel_patches.Base.{
  ℕ, ◌+◌, ◌≡◌, subst, ap, ◌∙◌, Bool, true, false, List, [], ◌∷◌, ◌++◌, length, length-append, arith,
}
use kernel_patches.Aufs.Vdir.{De, Vdir}
use kernel_patches.Aufs.Vdir.Fill.{Handing}

-- The caller took these entries, offered one after the other from its call number `c` on.
abbrev pub Takes : (ℕ → De → Bool) → (c : ℕ) → List De → Type 0
Takes filldir c [] = Unit
Takes filldir c (d ∷ ds) = (filldir c d ≡ true) × Takes filldir (c + 1) ds

-- At its call number `c` the caller did not take the first of these entries.
abbrev pub Refuses : (ℕ → De → Bool) → (c : ℕ) → List De → Type 0
Refuses filldir c ds = (d : De) × (rest : List De) × (ds ≡ d ∷ rest) × (filldir c d ≡ false)

-- What the caller did with the entries `new` that were handed over from `h` to `r`, and with the
-- first of those `behind` them if handing over has stopped.
pub record Asked (filldir : ℕ → De → Bool) (behind : List De) (h r : Handing) : Type 0 where
  pub new : List De
  pub handed : r.handed ≡ h.handed ++ new
  pub taken : Takes filldir h.calls new
  pub refused : r.stopped ≡ true → Refuses filldir (h.calls + length new) behind
  pub counted : r.stopped ≡ false → r.calls ≡ h.calls + length new

module _ (filldir : ℕ → De → Bool) where
  -- One entry is taken before the others.
  pub Asked-cons :
      (behind : List De) (h r : Handing) (d : De) (v : Vdir) (pos : ℕ)
      → filldir h.calls d ≡ true
      → Asked filldir behind
          (record h { vdir = v; pos = pos; handed = h.handed ++ (d ∷ []); calls = h.calls + 1 })
          r
      → Asked filldir behind h r
  Asked-cons behind h r d v pos takes a =
      let more : h.calls + 1 + length a.new ≡ h.calls + length (d ∷ a.new) = omega arith in
      record {
        new = d ∷ a.new;
        handed = a.handed ∙ append_assoc h.handed (d ∷ []) a.new;
        taken = (takes, a.taken);
        refused = λ e. subst (λ c. Refuses filldir c behind) more (a.refused e);
        counted = λ e. a.counted e ∙ more;
      }

  Refuses-append : (c : ℕ) (xs ys : List De) → Refuses filldir c xs → Refuses filldir c (xs ++ ys)
  Refuses-append c xs ys (d, rest, is, refused) = (d, rest ++ ys, ap (λ l. l ++ ys) is, refused)

  Takes-append :
      (c : ℕ) (xs ys : List De)
      → Takes filldir c xs
      → Takes filldir (c + length xs) ys
      → Takes filldir c (xs ++ ys)
  Takes-append c [] ys t u =
      (let same : c + length {A = De} [] ≡ c = omega arith in
        subst (λ n. Takes filldir n ys) same u)
  Takes-append c (x ∷ xs) ys t u =
      let same : c + length (x ∷ xs) ≡ c + 1 + length xs = omega arith in
      (t.0, Takes-append (c + 1) xs ys (t.1) (subst (λ n. Takes filldir n ys) same u))

  -- With more entries behind.
  pub Asked-append :
      (h r : Handing) (xs ys : List De) → Asked filldir xs h r → Asked filldir (xs ++ ys) h r
  Asked-append h r xs ys a = record {
    new = a.new;
    handed = a.handed;
    taken = a.taken;
    refused = λ e. Refuses-append (h.calls + length a.new) xs ys (a.refused e);
    counted = a.counted;
  }

  -- First to `r` without a stop, and from there to `t`.
  pub Asked-trans :
      (h r t : Handing) (v : Vdir) (pos : ℕ) (xs ys : List De)
      → r.stopped ≡ false
      → Asked filldir xs h r
      → Asked filldir ys (record r { vdir = v; pos = pos }) t
      → Asked filldir ys h t
  Asked-trans h r t v pos xs ys go a b =
      let all : r.calls + length b.new ≡ h.calls + length (a.new ++ b.new) =
        (let c = a.counted go in let l = length-append a.new b.new in omega arith) in
      record {
        new = a.new ++ b.new;
        handed = b.handed ∙ ap (λ l. l ++ b.new) a.handed ∙ append_assoc h.handed a.new b.new;
        taken =
            Takes-append h.calls a.new b.new a.taken
              (subst (λ c. Takes filldir c b.new) (a.counted go) b.taken);
        refused = λ e. subst (λ c. Refuses filldir c ys) all (b.refused e);
        counted = λ e. b.counted e ∙ all;
      }
