-- ===== src/Aufs/Vdir/Merge.antt =====
-- The merge of aufs/fs/aufs/vdir.c described by the branches' entries alone: which names a branch
-- shows under those before it.
use kernel_patches.Base.{
  ℕ, zero, suc, ◌+◌, ◌≡◌, refl, ap, Bool, false, ◌||◌, Option, none, some, List, [], ◌∷◌, ◌++◌, map,
  if◌then◌else◌, inl, inr, Bool-cases, Option-cases, arith,
}
use kernel_patches.Aufs.Vdir.{
  Vdir, Name, name_eq, wh_target, HEntry, HDir, done, failed, no_seek, batch,
}
use kernel_patches.Aufs.Vdir.Blocks.{listing}

-- The names that entries show below branches that hide some.
abbrev pub visible : (hidden : Name → Bool) → List HEntry → List Name
visible hidden [] = []
visible hidden (e ∷ es) =
    let rest = visible hidden es in
    elim (wh_target e.h_name) [
      | none ↦ if hidden e.h_name then rest else e.h_name ∷ rest
      | some t ↦ rest
    ]

-- What a name hides in the branches under it: itself, or what it is a whiteout for.
abbrev pub target_hides : Option Name → Name → Name → Bool
target_hides none name m = name_eq name m
target_hides (some t) name m = name_eq t m

abbrev pub hides : List HEntry → Name → Bool
hides [] m = false
hides (e ∷ es) m = target_hides (wh_target e.h_name) e.h_name m || hides es m

-- The entries that a directory hands over.
abbrev pub contents : HDir → List HEntry
contents done = []
contents failed = []
contents no_seek = []
contents (batch [] rest) = []
contents (batch (e ∷ es) rest) = (e ∷ es) ++ contents rest

abbrev pub branch_contents : Option HDir → List HEntry
branch_contents none = []
branch_contents (some d) = contents d

-- The names of `n` branches, each under those before it.
abbrev pub merged : (n bindex : ℕ) → (ℕ → Option HDir) → (hidden : Name → Bool) → List Name
merged zero bindex files hidden = []
merged (suc n) bindex files hidden =
    let es = branch_contents (files bindex) in
    visible hidden es ++ merged n (bindex + 1) files (λ m. hidden m || hides es m)

abbrev pub listed_names : Vdir → List Name
listed_names v = map (λ d. d.de_name) (listing v)

pub visible-append :
    (p : Name → Bool) (es fs : List HEntry) → visible p (es ++ fs) ≡ visible p es ++ visible p fs
visible-append p [] fs = refl
visible-append p (e ∷ es) fs =
    let rest = visible-append p es fs in
    elim (Option-cases (wh_target e.h_name)) [
      | inl nothing ↦ elim (Bool-cases (p e.h_name)) [
        | inl hid ↦ rw (visible, nothing, hid) rest
        | inr new ↦ rw (visible, nothing, new) (ap (λ l. e.h_name ∷ l) rest)
      ]
      | inr (t, target) ↦ rw (visible, target) rest
    ]

pub visible-ext :
    (p q : Name → Bool) (es : List HEntry) → ((m : Name) → p m ≡ q m) → visible p es ≡ visible q es
visible-ext p q [] h = refl
visible-ext p q (e ∷ es) h =
    let rest = visible-ext p q es h in
    elim (Option-cases (wh_target e.h_name)) [
      | inl nothing ↦ rw (visible, nothing, h e.h_name, rest) refl
      | inr (t, target) ↦ rw (visible, target) rest
    ]

pub merged-ext :
    (n b : ℕ) (files : ℕ → Option HDir) (p q : Name → Bool)
    → ((m : Name) → p m ≡ q m)
    → merged n b files p ≡ merged n b files q
merged-ext zero b files p q h = refl
merged-ext (suc n) b files p q h =
    let es = branch_contents (files b) in
    let rest =
      merged-ext n (b + 1) files (λ m. p m || hides es m) (λ m. q m || hides es m)
        (λ m. ap (λ x. x || hides es m) (h m)) in
    let here = visible-ext p q es h in cc (rest, here)

pub hides-append :
    (es fs : List HEntry) (m : Name) → hides (es ++ fs) m ≡ (hides es m || hides fs m)
hides-append [] fs m = refl
hides-append (e ∷ es) fs m = ground (arith, hides-append es fs m)
