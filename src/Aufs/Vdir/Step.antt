-- ===== src/Aufs/Vdir/Step.antt =====
-- One entry of a branch's directory: fillvdir of aufs/fs/aufs/vdir.c.
use kernel_patches.Base.{
  ℕ, ◌+◌, ◌<◌, ◌≡◌, refl, sym, ap, subst, ◌∙◌, Bool, true, false, none, some, List, [], ◌∷◌,
  if◌then◌else◌, inl, inr, Bool-cases, Option-cases, arith,
}
use kernel_patches.Aufs.Xino.{XinoInfo, au_ino}
use kernel_patches.Aufs.Vdir.{De, Wh, Name, wh_target, au_nhash_test_known_wh, HEntry}
use kernel_patches.Aufs.Vdir.Read.{
  Reading, ReadEnv, any_below, append_de, au_nhash_append_wh, shadowed, fill_name, fill_wh,
  note_time, fillvdir,
}
use kernel_patches.Aufs.Vdir.Blocks.{append_de-Appended}
use kernel_patches.Aufs.Vdir.Filled.{
  Filled, name_passed, name_added, any_below-known, wh_passed, wh_added,
}

module _ (k : ReadEnv) where
  -- The numbers given so far do not matter.
  Filled-numbers :
      (s : Reading) (x : XinoInfo) (b : ℕ) (es : List HEntry) (t : Reading)
      → Filled k (record s { xino = x }) b es t
      → Filled k s b es t
  unfolding shadowed
  Filled-numbers s x b es t f = record {
    others = f.others;
    now_hidden = f.now_hidden;
    listed = f.listed;
    has_block = f.has_block;
  }

  fill_name-Filled :
      (s : Reading) (b : ℕ) (e : HEntry)
      → wh_target e.h_name ≡ none
      → 0 < s.vdir.vd_nblk
      → (fill_name k s b e).0 ≡ true
      → Filled k s b (e ∷ []) ((fill_name k s b e).1)
  unfolding fill_name shadowed
  fill_name-Filled s b e nothing h ok =
      let numbered = au_ino k.io s.xino b e.h_ino k.iunique in
      elim (Bool-cases (shadowed k s b e.h_name)) [
        | inl hid ↦ rw hid (name_passed k s b e nothing hid h)
        | inr new ↦ elim (Option-cases (numbered.0)) [
          | inl bug ↦ absurd (ground arith)
          | inr (ino, given) ↦
              let s1 : Reading = record s { xino = numbered.1 } in
              let de : De = record { de_ino = ino; de_type = e.d_type; de_name = e.h_name } in
              let path : fill_name k s b e ≡ append_de k s1 b de = rw (new, given) refl in
              let done = append_de-Appended k s1 b de h (ap (λ p. p.0) (sym path) ∙ ok) in
              subst (λ p. Filled k s b (e ∷ []) (p.1)) (sym path)
                (Filled-numbers s (numbered.1) b (e ∷ []) ((append_de k s1 b de).1)
                  (name_added k s1 ((append_de k s1 b de).1) b e de nothing new refl done))
        ]
      ]

  fill_wh-Filled :
      (s : Reading) (shwh : Bool) (b : ℕ) (e : HEntry) (name : Name)
      → wh_target e.h_name ≡ some name
      → 0 < s.vdir.vd_nblk
      → (fill_wh k s shwh b e name).0 ≡ true
      → Filled k s b (e ∷ []) ((fill_wh k s shwh b e name).1)
  unfolding fill_wh au_nhash_append_wh
  fill_wh-Filled s shwh b e name target h ok =
      let known = any_below b (λ _. au_nhash_test_known_wh k.full_name_hash (s.whlist b) name) in
      let numbered = if shwh then au_ino k.io s.xino b e.h_ino k.iunique else (some 1, s.xino) in
      elim (Bool-cases known) [
        | inl has ↦ rw has (wh_passed k s b e name target (any_below-known k s b b name has) h)
        | inr new ↦ elim (Option-cases (numbered.0)) [
          | inl bug ↦ absurd (ground arith)
          | inr (ino, given) ↦ elim (Bool-cases (k.kmalloc s.allocs)) [
            | inl space ↦
                let w : Wh = record {
                  wh_name = name;
                  wh_bindex = b;
                  wh_ino = ino;
                  wh_type = e.d_type;
                } in
                rw (new, given, space) (wh_added k s (numbered.1) b e w (s.allocs + 1) target h)
            | inr space ↦ absurd (ground arith)
          ]
        ]
      ]

  note_time-Filled :
      (s : Reading) (b : ℕ) (es : List HEntry) (r : Bool × Reading)
      → Filled k s b es (r.1)
      → Filled k s b es ((note_time k r).1)
  unfolding note_time shadowed
  note_time-Filled s b es (true, t) f = record {
    others = f.others;
    now_hidden = f.now_hidden;
    listed = f.listed;
    has_block = f.has_block;
  }
  note_time-Filled s b es (false, t) f = f

  pub note_time-ok : (r : Bool × Reading) → (note_time k r).0 ≡ r.0
  unfolding note_time
  note_time-ok (true, t) = refl
  note_time-ok (false, t) = refl

  pub fillvdir-Filled :
      (s : Reading) (shwh : Bool) (b : ℕ) (e : HEntry)
      → 0 < s.vdir.vd_nblk
      → (fillvdir k s shwh b e).0 ≡ true
      → Filled k s b (e ∷ []) ((fillvdir k s shwh b e).1)
  unfolding fillvdir
  fillvdir-Filled s shwh b e h ok = elim (Option-cases (wh_target e.h_name)) [
    | inl nothing ↦
        let r = fill_name k s b e in
        let path : fillvdir k s shwh b e ≡ note_time k r = rw (fillvdir, nothing) refl in
        let fine = sym (note_time-ok r) ∙ ap (λ p. p.0) (sym path) ∙ ok in
        subst (λ p. Filled k s b (e ∷ []) (p.1)) (sym path)
          (note_time-Filled s b (e ∷ []) r (fill_name-Filled s b e nothing h fine))
    | inr (name, target) ↦
        let r = fill_wh k s shwh b e name in
        let path : fillvdir k s shwh b e ≡ note_time k r = rw (fillvdir, target) refl in
        let fine = sym (note_time-ok r) ∙ ap (λ p. p.0) (sym path) ∙ ok in
        subst (λ p. Filled k s b (e ∷ []) (p.1)) (sym path)
          (note_time-Filled s b (e ∷ []) r (fill_wh-Filled s shwh b e name target h fine))
  ]
