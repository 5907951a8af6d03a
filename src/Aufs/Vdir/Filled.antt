-- ===== src/Aufs/Vdir/Filled.antt =====
-- What the steps of fillvdir, aufs/fs/aufs/vdir.c, do to the lists of names and to the entries.
use mathlib.Core.List.{append-nil, append_assoc, map-append}
use kernel_patches.Base.{
  ℕ, zero, suc, ◌<◌, ◌≡◌, ◌≢◌, refl, sym, ap, ◌∙◌, true, false, ◌||◌, Option, none, some, List, [],
  ◌∷◌, ◌++◌, map, update, update_self, update_ne, arith,
}
use kernel_patches.Aufs.Xino.{XinoInfo}
use kernel_patches.Aufs.Vdir.{
  De, Wh, Name, name_eq, wh_target, test_known, au_nhash_test_known_wh, add_name, add_wh, HEntry,
}
use kernel_patches.Aufs.Vdir.Read.{Reading, ReadEnv, any_below, shadowed}
use kernel_patches.Aufs.Vdir.Names.{name_eq-eq, test_known-add_name, known_wh-add_wh, any_below-ext}
use kernel_patches.Aufs.Vdir.Blocks.{listing, Appended}
use kernel_patches.Aufs.Vdir.Merge.{
  visible, target_hides, hides, visible-append, visible-ext, hides-append, listed_names,
}

-- What handing over entries of branch `b` does.
pub record Filled (k : ReadEnv) (s : Reading) (b : ℕ) (es : List HEntry) (t : Reading)
    : Type 0 where
  pub others : (c : ℕ) → c ≢ b → (t.delist c ≡ s.delist c) × (t.whlist c ≡ s.whlist c)
  pub now_hidden : (m : Name) → shadowed k t (suc b) m ≡ (shadowed k s (suc b) m || hides es m)
  pub listed : listed_names t.vdir ≡ listed_names s.vdir ++ visible (shadowed k s b) es
  pub has_block : 0 < t.vdir.vd_nblk

module _ (k : ReadEnv) where
  pub shadowed-others :
      (s t : Reading) (b : ℕ)
      → ((c : ℕ) → c < b → (t.delist c ≡ s.delist c) × (t.whlist c ≡ s.whlist c))
      → (m : Name) → shadowed k t b m ≡ shadowed k s b m
  unfolding shadowed
  shadowed-others s t b same m =
      any_below-ext b
        (λ c.
          test_known k.full_name_hash (t.delist c) m
          || au_nhash_test_known_wh k.full_name_hash (t.whlist c) m)
        (λ c.
          test_known k.full_name_hash (s.delist c) m
          || au_nhash_test_known_wh k.full_name_hash (s.whlist c) m)
        (λ c h. let p = same c h in rw (p.0, p.1) refl)

  pub Filled-above :
      (s t : Reading) (b : ℕ) (es : List HEntry)
      → Filled k s b es t
      → (m : Name) → shadowed k t b m ≡ shadowed k s b m
  Filled-above s t b es f = shadowed-others s t b (λ c h. f.others c (omega arith))

  pub Filled-nothing : (s : Reading) (b : ℕ) → 0 < s.vdir.vd_nblk → Filled k s b [] s
  Filled-nothing s b h = record {
    others = λ c ne. (refl, refl);
    now_hidden = λ m. ground arith;
    listed = sym (append-nil (listed_names s.vdir));
    has_block = h;
  }

  pub Filled-append :
      (s t u : Reading) (b : ℕ) (es fs : List HEntry)
      → Filled k s b es t
      → Filled k t b fs u
      → Filled k s b (es ++ fs) u
  Filled-append s t u b es fs f g = record {
    others = λ c ne. ((g.others c ne).0 ∙ (f.others c ne).0, (g.others c ne).1 ∙ (f.others c ne).1);
    now_hidden = λ m. ground (arith, f.now_hidden m, g.now_hidden m, hides-append es fs m);
    listed =
        let same = visible-ext (shadowed k t b) (shadowed k s b) fs (Filled-above s t b es f) in
        g.listed
        ∙ ap (λ l. l ++ visible (shadowed k t b) fs) (f.listed)
        ∙ append_assoc (listed_names s.vdir) (visible (shadowed k s b) es)
            (visible (shadowed k t b) fs)
        ∙ ap (λ l. listed_names s.vdir ++ (visible (shadowed k s b) es ++ l)) same
        ∙ ap (λ l. listed_names s.vdir ++ l) (sym (visible-append (shadowed k s b) es fs));
    has_block = g.has_block;
  }

  pub shadowed-suc :
      (s : Reading) (b : ℕ) (m : Name)
      → shadowed k s (suc b) m ≡ (
          shadowed k s b m
          || (test_known k.full_name_hash (s.delist b) m
              || au_nhash_test_known_wh k.full_name_hash (s.whlist b) m))
  unfolding shadowed any_below
  shadowed-suc s b m = refl

  hides-one :
      (e : HEntry) (o : Option Name) (m : Name)
      → wh_target e.h_name ≡ o
      → hides (e ∷ []) m ≡ target_hides o e.h_name m
  hides-one e o m eq = let same = ap (λ x. target_hides x e.h_name m) eq in ground (arith, same)

  -- A name that a branch above has or hides.
  pub name_passed :
      (s : Reading) (b : ℕ) (e : HEntry)
      → wh_target e.h_name ≡ none
      → shadowed k s b e.h_name ≡ true
      → 0 < s.vdir.vd_nblk
      → Filled k s b (e ∷ []) s
  name_passed s b e nothing hid h = record {
    others = λ c ne. (refl, refl);
    now_hidden = λ m.
        let one : hides (e ∷ []) m ≡ name_eq e.h_name m = hides-one e none m nothing in
        let same : name_eq e.h_name m ≡ true → shadowed k s b m ≡ true =
          λ eq. ap (shadowed k s b) (sym (name_eq-eq e.h_name m eq)) ∙ hid in
        ground (arith, one, same, shadowed-suc s b m);
    listed =
        let none_shown : visible (shadowed k s b) (e ∷ []) ≡ [] = rw (visible, nothing, hid) refl in
        sym (append-nil (listed_names s.vdir))
        ∙ ap (λ l. listed_names s.vdir ++ l) (sym none_shown);
    has_block = h;
  }

  pub name_added :
      (s t : Reading) (b : ℕ) (e : HEntry) (de : De)
      → wh_target e.h_name ≡ none
      → shadowed k s b e.h_name ≡ false
      → de.de_name ≡ e.h_name
      → Appended k s b de t
      → Filled k s b (e ∷ []) t
  name_added s t b e de nothing new eq a =
      let delist : (c : ℕ) → c ≢ b → t.delist c ≡ s.delist c = λ c ne.
        ap (λ d. d c) (a.names)
        ∙ update_ne s.delist b (add_name k.full_name_hash (s.delist b) de.de_name) c
            (ground arith) in
      let whlist : (c : ℕ) → t.whlist c ≡ s.whlist c = λ c. ap (λ d. d c) (a.whiteouts) in
      record {
        others = λ c ne. (delist c ne, whlist c);
        now_hidden = λ m.
            let one : hides (e ∷ []) m ≡ name_eq e.h_name m = hides-one e none m nothing in
            let added : test_known k.full_name_hash (t.delist b) m
                ≡ (name_eq e.h_name m || test_known k.full_name_hash (s.delist b) m) =
              ap (λ d. test_known k.full_name_hash (d b) m) (a.names)
              ∙ ap (λ d. test_known k.full_name_hash d m)
                  (update_self s.delist b (add_name k.full_name_hash (s.delist b) de.de_name))
              ∙ test_known-add_name k.full_name_hash (s.delist b) de.de_name m
              ∙ ap (λ n. name_eq n m || test_known k.full_name_hash (s.delist b) m) eq in
            let kept = whlist b in
            let above = shadowed-others s t b (λ c lt. (delist c (omega arith), whlist c)) m in
            ground (arith, one, added, kept, above, shadowed-suc s b m, shadowed-suc t b m);
        listed =
            let shown : visible (shadowed k s b) (e ∷ []) ≡ e.h_name ∷ [] =
              rw (visible, nothing, new) refl in
            ap (map (λ d. d.de_name)) (a.appended)
            ∙ map-append (λ d. d.de_name) (listing s.vdir) (de ∷ [])
            ∙ ap (λ n. listed_names s.vdir ++ (n ∷ [])) eq
            ∙ ap (λ l. listed_names s.vdir ++ l) (sym shown);
        has_block = a.blocks;
      }

  pub any_below-known :
      (s : Reading) (n b : ℕ) (name : Name)
      → any_below n (λ _. au_nhash_test_known_wh k.full_name_hash (s.whlist b) name) ≡ true
      → au_nhash_test_known_wh k.full_name_hash (s.whlist b) name ≡ true
  unfolding any_below
  any_below-known s zero b name eq = absurd (ground arith)
  any_below-known s (suc n) b name eq = ground (arith, any_below-known s n b name)

  -- A whiteout that the branch's list has.
  pub wh_passed :
      (s : Reading) (b : ℕ) (e : HEntry) (name : Name)
      → wh_target e.h_name ≡ some name
      → au_nhash_test_known_wh k.full_name_hash (s.whlist b) name ≡ true
      → 0 < s.vdir.vd_nblk
      → Filled k s b (e ∷ []) s
  wh_passed s b e name target known h = record {
    others = λ c ne. (refl, refl);
    now_hidden = λ m.
        let one = hides-one e (some name) m target in
        let same : name_eq name m ≡ true
            → au_nhash_test_known_wh k.full_name_hash (s.whlist b) m ≡ true =
          λ eq.
            ap (au_nhash_test_known_wh k.full_name_hash (s.whlist b)) (sym (name_eq-eq name m eq))
            ∙ known in
        ground (arith, one, same, shadowed-suc s b m);
    listed =
        let none_shown : visible (shadowed k s b) (e ∷ []) ≡ [] = rw (visible, target) refl in
        sym (append-nil (listed_names s.vdir))
        ∙ ap (λ l. listed_names s.vdir ++ l) (sym none_shown);
    has_block = h;
  }

  pub wh_added :
      (s : Reading) (x : XinoInfo) (b : ℕ) (e : HEntry) (w : Wh) (a : ℕ)
      → wh_target e.h_name ≡ some w.wh_name
      → 0 < s.vdir.vd_nblk
      → Filled k s b (e ∷ []) (record s {
        whlist = update s.whlist b (add_wh k.full_name_hash (s.whlist b) w);
        xino = x;
        allocs = a;
      })
  wh_added s x b e w a target h =
      let chains = add_wh k.full_name_hash (s.whlist b) w in
      let t : Reading = record s { whlist = update s.whlist b chains; xino = x; allocs = a } in
      let whlist : (c : ℕ) → c ≢ b → t.whlist c ≡ s.whlist c =
        λ c ne. update_ne s.whlist b chains c (ground arith) in
      record {
        others = λ c ne. (refl, whlist c ne);
        now_hidden = λ m.
            let one = hides-one e (some w.wh_name) m target in
            let added =
              ap (λ d. au_nhash_test_known_wh k.full_name_hash d m) (update_self s.whlist b chains)
              ∙ known_wh-add_wh k.full_name_hash (s.whlist b) w m in
            let above = shadowed-others s t b (λ c lt. (refl, whlist c (omega arith))) m in
            ground (arith, one, added, above, shadowed-suc s b m, shadowed-suc t b m);
        listed =
            let none_shown : visible (shadowed k s b) (e ∷ []) ≡ [] = rw (visible, target) refl in
            sym (append-nil (listed_names s.vdir))
            ∙ ap (λ l. listed_names s.vdir ++ l) (sym none_shown);
        has_block = h;
      }
