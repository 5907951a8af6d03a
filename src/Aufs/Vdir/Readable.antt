-- ===== src/Aufs/Vdir/Readable.antt =====
-- A merged directory that has been read can be handed over: its blocks and names, through append_de
-- and au_do_read_vdir of aufs/fs/aufs/vdir.c.
use kernel_patches.Base.{
  ℕ, ◌+◌, ◌-◌, ◌≤◌, ◌<◌, ◌≡◌, sym, subst, true, false, Option, List, [], ◌∷◌, ◌++◌, ◌==◌, length,
  ltb, inl, inr, Bool-cases, update, update_self, update_ne, arith,
}
use kernel_patches.Aufs.Xino.{XinoInfo}
use kernel_patches.Aufs.Vdir.{De, Vdir, Name, HDir, calc_size, set_deblk_end, au_size_deblk}
use kernel_patches.Aufs.Vdir.Read.{
  Reading, ReadEnv, append_deblk, place_de, make_room, end_block, append_de, au_do_read_vdir,
}
use kernel_patches.Aufs.Vdir.Merge.{branch_contents}
use kernel_patches.Aufs.Vdir.Bounds.{IsMarked, append_de-IsMarked}
use kernel_patches.Aufs.Vdir.Offsets.{Named}
use kernel_patches.Aufs.Vdir.Kept.{AllNames, au_do_read_vdir_keeps}

-- A name of a directory entry, of 1 to 255 bytes.
abbrev pub IsName : Name → Type 0
IsName name = (0 < length name) × (length name ≤ 255)

abbrev pub HasNames : (ℕ → List De) → Type 0
HasNames f = (i : ℕ) → Named (f i)

abbrev pub IsReadable : Vdir → Type 0
IsReadable v = IsMarked v × HasNames v.vd_deblk

Named-snoc : (ds : List De) (d : De) → Named ds → 0 < length d.de_name → Named (ds ++ (d ∷ []))
Named-snoc [] d h name = (name, tt)
Named-snoc (x ∷ xs) d h name = (h.0, Named-snoc xs d (h.1) name)

pub HasNames-update :
    (f : ℕ → List De) (j : ℕ) (ds : List De) → HasNames f → Named ds → HasNames (update f j ds)
HasNames-update f j ds h new i = elim (Bool-cases (j == i)) [
  | inl same ↦
      let index : j ≡ i = ground arith in
      subst (λ c. Named (update f j ds c)) index (subst Named (sym (update_self f j ds)) new)
  | inr other ↦ subst Named (sym (update_ne f j ds i other)) (h i)
]

module _ (k : ReadEnv) where
  append_deblk-HasNames :
      (v : Vdir) (a : ℕ) → HasNames v.vd_deblk → HasNames ((append_deblk k v a).1.vd_deblk)
  unfolding append_deblk
  append_deblk-HasNames v a h = elim (Bool-cases (k.kmalloc a)) [
    | inl one ↦ elim (Bool-cases (k.kmalloc (a + 1))) [
      | inl two ↦ rw (one, two) (HasNames-update v.vd_deblk v.vd_nblk [] h tt)
      | inr two ↦ rw (one, two) h
    ]
    | inr one ↦ rw one h
  ]

  append_de-HasNames :
      (s : Reading) (b : ℕ) (de : De)
      → 0 < length de.de_name
      → HasNames s.vdir.vd_deblk
      → (append_de k s b de).0 ≡ true
      → HasNames ((append_de k s b de).1.vdir.vd_deblk)
  unfolding append_de make_room end_block place_de
  append_de-HasNames s b de name h ok =
      let room = make_room k s.vdir (calc_size (length de.de_name)) s.allocs in
      let placed = place_de k (room.1) de in
      let one : room.0 ≡ true = ground arith in
      let two : k.kmalloc (room.2) ≡ true = ground arith in
      let start : HasNames (room.1.vd_deblk) =
        elim (Bool-cases (ltb (au_size_deblk - s.vdir.vd_last_p) (calc_size (length de.de_name)))) [
          | inl small ↦ rw small (append_deblk-HasNames s.vdir s.allocs h)
          | inr fits ↦ rw fits h
        ] in
      let j = room.1.vd_nblk - 1 in
      let here : HasNames (placed.vd_deblk) =
        HasNames-update (room.1.vd_deblk) j (room.1.vd_deblk j ++ (de ∷ [])) start
          (Named-snoc (room.1.vd_deblk j) de (start j) name) in
      let ends : HasNames ((end_block k placed (room.2 + 1)).1.vd_deblk) =
        elim (Bool-cases (set_deblk_end placed.vd_last_p)) [
          | inl fits ↦ rw fits here
          | inr over ↦ rw over (append_deblk-HasNames placed (room.2 + 1) here)
        ] in
      rw (append_de, one, two) ends

  append_de-IsReadable :
      (s : Reading) (b : ℕ) (de : De)
      → IsName de.de_name
      → IsReadable s.vdir
      → (append_de k s b de).0 ≡ true
      → IsReadable ((append_de k s b de).1.vdir)
  append_de-IsReadable s b de name h ok =
      (append_de-IsMarked k s b de (name.1) (h.0) ok, append_de-HasNames s b de (name.0) (h.1) ok)

  any_time : (v : Vdir) (t : ℕ) → IsReadable v → IsReadable (record v { vd_jiffy = t })
  any_time v t h =
      ((record { has_block = h.0.0.has_block; sizes = h.0.0.sizes; last = h.0.0.last }, h.0.1), h.1)

  pub au_do_read_vdir-IsReadable :
      (v : Vdir) (x : XinoInfo) (allocs bstart bend : ℕ) (files : ℕ → Option HDir)
      → ((c : ℕ) → AllNames IsName (branch_contents (files c)))
      → IsReadable v
      → (au_do_read_vdir k v x allocs false bstart bend files).0 ≡ true
      → IsReadable ((au_do_read_vdir k v x allocs false bstart bend files).1.vdir)
  au_do_read_vdir-IsReadable =
      au_do_read_vdir_keeps k IsReadable IsName append_de-IsReadable any_time
