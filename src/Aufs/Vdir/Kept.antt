-- ===== src/Aufs/Vdir/Kept.antt =====
-- What append_de keeps of a merged directory, fillvdir and au_do_read_vdir of aufs/fs/aufs/vdir.c
-- keep as well.
use kernel_patches.Base.{
  ℕ, zero, suc, ◌+◌, ◌-◌, ◌≡◌, refl, sym, ap, subst, ◌∙◌, Bool, true, false, Option, none, some,
  List, [], ◌∷◌, ◌++◌, inl, inr, Bool-cases, Option-cases, arith,
}
use kernel_patches.Aufs.Xino.{XinoInfo, au_ino}
use kernel_patches.Aufs.Vdir.{De, Vdir, Name, wh_target, HEntry, HDir, done, failed, no_seek, batch}
use kernel_patches.Aufs.Vdir.Read.{
  Reading, ReadEnv, append_de, au_nhash_append_wh, shadowed, fill_name, fill_wh, note_time,
  fillvdir, fill_all, read_hdir, read_branch, read_branches, au_do_read_vdir,
}
use kernel_patches.Aufs.Vdir.Step.{note_time-ok}
use kernel_patches.Aufs.Vdir.Merge.{contents, branch_contents}

-- All names of entries have a property.
abbrev pub AllNames {ℓ} : (Name → Type ℓ) → List HEntry → Type ℓ
AllNames q [] = Unit
AllNames q (e ∷ es) = q e.h_name × AllNames q es

AllNames-append {ℓ} :
    (q : Name → Type ℓ) (es fs : List HEntry)
    → AllNames q (es ++ fs)
    → AllNames q es × AllNames q fs
AllNames-append q [] fs h = (tt, h)
AllNames-append q (e ∷ es) fs h =
    let rest = AllNames-append q es fs (h.1) in ((h.0, rest.0), rest.1)

module _ {ℓ κ} (k : ReadEnv) (p : Vdir → Type ℓ) (q : Name → Type κ)
    (keeps : (s : Reading) (b : ℕ) (de : De)
      → q de.de_name
      → p s.vdir
      → (append_de k s b de).0 ≡ true
      → p ((append_de k s b de).1.vdir))
    (any_time : (v : Vdir) (t : ℕ) → p v → p (record v { vd_jiffy = t })) where
  fill_name_keeps :
      (s : Reading) (b : ℕ) (e : HEntry)
      → q e.h_name
      → p s.vdir
      → (fill_name k s b e).0 ≡ true
      → p ((fill_name k s b e).1.vdir)
  unfolding fill_name
  fill_name_keeps s b e name h ok =
      let numbered = au_ino k.io s.xino b e.h_ino k.iunique in
      elim (Bool-cases (shadowed k s b e.h_name)) [
        | inl hid ↦ rw hid h
        | inr new ↦ elim (Option-cases (numbered.0)) [
          | inl bug ↦ absurd (ground arith)
          | inr (ino, given) ↦
              let s1 : Reading = record s { xino = numbered.1 } in
              let de : De = record { de_ino = ino; de_type = e.d_type; de_name = e.h_name } in
              let path : fill_name k s b e ≡ append_de k s1 b de = rw (new, given) refl in
              subst (λ r. p (r.1.vdir)) (sym path)
                (keeps s1 b de name h (ap (λ r. r.0) (sym path) ∙ ok))
        ]
      ]

  fill_wh_keeps :
      (s : Reading) (shwh : Bool) (b : ℕ) (e : HEntry) (name : Name)
      → (fill_wh k s shwh b e name).1.vdir ≡ s.vdir
  unfolding fill_wh au_nhash_append_wh
  fill_wh_keeps s shwh b e name = ground arith

  note_time_keeps : (r : Bool × Reading) → p (r.1.vdir) → p ((note_time k r).1.vdir)
  unfolding note_time
  note_time_keeps (true, t) h = any_time t.vdir k.jiffies h
  note_time_keeps (false, t) h = h

  fillvdir_keeps :
      (s : Reading) (shwh : Bool) (b : ℕ) (e : HEntry)
      → q e.h_name
      → p s.vdir
      → (fillvdir k s shwh b e).0 ≡ true
      → p ((fillvdir k s shwh b e).1.vdir)
  unfolding fillvdir
  fillvdir_keeps s shwh b e name h ok = elim (Option-cases (wh_target e.h_name)) [
    | inl nothing ↦
        let r = fill_name k s b e in
        let path : fillvdir k s shwh b e ≡ note_time k r = rw (fillvdir, nothing) refl in
        let fine = sym (note_time-ok k r) ∙ ap (λ x. x.0) (sym path) ∙ ok in
        subst (λ x. p (x.1.vdir)) (sym path) (note_time_keeps r (fill_name_keeps s b e name h fine))
    | inr (t, target) ↦
        let r = fill_wh k s shwh b e t in
        let path : fillvdir k s shwh b e ≡ note_time k r = rw (fillvdir, target) refl in
        subst (λ x. p (x.1.vdir)) (sym path)
          (note_time_keeps r (subst p (sym (fill_wh_keeps s shwh b e t)) h))
  ]

  fill_all_keeps :
      (s : Reading) (shwh : Bool) (b : ℕ) (es : List HEntry)
      → AllNames q es
      → p s.vdir
      → (fill_all k s shwh b es).0 ≡ true
      → p ((fill_all k s shwh b es).1.vdir)
  unfolding fill_all
  fill_all_keeps s shwh b [] names h ok = h
  fill_all_keeps s shwh b (e ∷ es) names h ok =
      let one = fillvdir k s shwh b e in
      elim (Bool-cases (one.0)) [
        | inl fine ↦
            let path : fill_all k s shwh b (e ∷ es) ≡ fill_all k (one.1) shwh b es =
              rw (fill_all, fine) refl in
            let first = fillvdir_keeps s shwh b e (names.0) h fine in
            subst (λ x. p (x.1.vdir)) (sym path)
              (fill_all_keeps (one.1) shwh b es (names.1) first (ap (λ x. x.0) (sym path) ∙ ok))
        | inr bad ↦ absurd (ground arith)
      ]

  read_hdir_keeps :
      (s : Reading) (shwh : Bool) (b : ℕ) (d : HDir)
      → AllNames q (contents d)
      → p s.vdir
      → (read_hdir k s shwh b d).0 ≡ true
      → p ((read_hdir k s shwh b d).1.vdir)
  unfolding read_hdir
  read_hdir_keeps s shwh b done names h ok = h
  read_hdir_keeps s shwh b failed names h ok = h
  read_hdir_keeps s shwh b no_seek names h ok = h
  read_hdir_keeps s shwh b (batch [] rest) names h ok = h
  read_hdir_keeps s shwh b (batch (e ∷ es) rest) names h ok =
      let one = fill_all k s shwh b (e ∷ es) in
      let both = AllNames-append q (e ∷ es) (contents rest) names in
      elim (Bool-cases (one.0)) [
        | inl fine ↦
            let path : read_hdir k s shwh b (batch (e ∷ es) rest)
                ≡ read_hdir k (one.1) shwh b rest =
              rw (read_hdir, fine) refl in
            let first = fill_all_keeps s shwh b (e ∷ es) (both.0) h fine in
            subst (λ x. p (x.1.vdir)) (sym path)
              (read_hdir_keeps (one.1) shwh b rest (both.1) first (ap (λ x. x.0) (sym path) ∙ ok))
        | inr bad ↦ absurd (ground arith)
      ]

  read_branch_keeps :
      (s : Reading) (shwh : Bool) (b : ℕ) (d : Option HDir)
      → AllNames q (branch_contents d)
      → p s.vdir
      → (read_branch k s shwh b d).0 ≡ true
      → p ((read_branch k s shwh b d).1.vdir)
  unfolding read_branch
  read_branch_keeps s shwh b none names h ok = h
  read_branch_keeps s shwh b (some d) names h ok = read_hdir_keeps s shwh b d names h ok

  read_branches_keeps :
      (s : Reading) (shwh : Bool) (n b : ℕ) (files : ℕ → Option HDir)
      → ((c : ℕ) → AllNames q (branch_contents (files c)))
      → p s.vdir
      → (read_branches k s shwh n b files).0 ≡ true
      → p ((read_branches k s shwh n b files).1.vdir)
  unfolding read_branches
  read_branches_keeps s shwh zero b files names h ok = h
  read_branches_keeps s shwh (suc n) b files names h ok =
      let one = read_branch k s shwh b (files b) in
      elim (Bool-cases (one.0)) [
        | inl fine ↦
            let path : read_branches k s shwh (suc n) b files
                ≡ read_branches k (one.1) shwh n (b + 1) files =
              rw (read_branches, fine) refl in
            let first = read_branch_keeps s shwh b (files b) (names b) h fine in
            subst (λ x. p (x.1.vdir)) (sym path)
              (read_branches_keeps (one.1) shwh n (b + 1) files names first
                (ap (λ x. x.0) (sym path) ∙ ok))
        | inr bad ↦ absurd (ground arith)
      ]

  -- Without shwh.
  pub au_do_read_vdir_keeps :
      (v : Vdir) (x : XinoInfo) (allocs bstart bend : ℕ) (files : ℕ → Option HDir)
      → ((c : ℕ) → AllNames q (branch_contents (files c)))
      → p v
      → (au_do_read_vdir k v x allocs false bstart bend files).0 ≡ true
      → p ((au_do_read_vdir k v x allocs false bstart bend files).1.vdir)
  unfolding au_do_read_vdir
  au_do_read_vdir_keeps v x allocs bstart bend files names h ok =
      let start : Reading = record {
        vdir = v;
        delist = λ _ _. [];
        whlist = λ _ _. [];
        xino = x;
        allocs = allocs + 2;
      } in
      let n = bend + 1 - bstart in
      let r = read_branches k start false n bstart files in
      let one : k.kmalloc allocs ≡ true = ground arith in
      let two : k.kmalloc (allocs + 1) ≡ true = ground arith in
      let fine : r.0 ≡ true = ground arith in
      let path : (au_do_read_vdir k v x allocs false bstart bend files).1 ≡ r.1 =
        rw (au_do_read_vdir, one, two, fine) refl in
      subst (λ x. p (x.vdir)) (sym path)
        (read_branches_keeps start false n bstart files names h fine)
