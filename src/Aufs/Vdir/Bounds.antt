-- ===== src/Aufs/Vdir/Bounds.antt =====
-- The entries of aufs/fs/aufs/vdir.c stay in their blocks: append_de and the sizes.
use kernel_patches.Base.{
  ℕ, ◌+◌, ◌-◌, ◌≤◌, ◌<◌, ◌≡◌, refl, sym, ap, subst, ◌∙◌, true, List, [], ◌∷◌, ◌++◌, length, ◌==◌,
  ltb, inl, inr, Bool-cases, update, update_self, update_ne, arith,
}
use kernel_patches.Aufs.Vdir.{De, Vdir, calc_size, set_deblk_end, au_size_deblk}
use kernel_patches.Aufs.Vdir.Read.{
  Reading, ReadEnv, append_deblk, place_de, make_room, end_block, append_de,
}

-- The bytes that the entries of a block take.
abbrev pub block_size : List De → ℕ
block_size [] = 0
block_size (d ∷ ds) = calc_size (length d.de_name) + block_size ds

-- No block is larger than it may be, and the end of the last one is where its entries end.
pub record IsWithin (v : Vdir) : Type 0 where
  pub has_block : 0 < v.vd_nblk
  pub sizes : (i : ℕ) → i < v.vd_nblk → block_size (v.vd_deblk i) ≤ au_size_deblk
  pub last : block_size (v.vd_deblk (v.vd_nblk - 1)) ≡ v.vd_last_p

-- There is room for the end mark as well.
abbrev pub IsMarked : Vdir → Type 0
IsMarked v = IsWithin v × (set_deblk_end v.vd_last_p ≡ true)

block_size-snoc :
    (ds : List De) (d : De)
    → block_size (ds ++ (d ∷ [])) ≡ block_size ds + calc_size (length d.de_name)
block_size-snoc [] d = omega arith
block_size-snoc (x ∷ ds) d = omega (arith, block_size-snoc ds d)

-- An entry of a name of at most 255 bytes is smaller than a block.
pub calc_size-bound : (n : ℕ) → n ≤ 255 → calc_size n ≤ 264
unfolding calc_size
calc_size-bound n h = ground arith

module _ (k : ReadEnv) where
  append_deblk-IsMarked :
      (v : Vdir) (a : ℕ)
      → IsWithin v
      → (append_deblk k v a).0 ≡ true
      → IsMarked ((append_deblk k v a).1) × ((append_deblk k v a).1.vd_last_p ≡ 0)
  unfolding append_deblk set_deblk_end calc_size
  append_deblk-IsMarked v a w ok =
      let f = update v.vd_deblk v.vd_nblk [] in
      let new : block_size (f v.vd_nblk) ≡ 0 =
        ap block_size (update_self v.vd_deblk v.vd_nblk []) in
      let old : (i : ℕ) → i < v.vd_nblk → block_size (f i) ≡ block_size (v.vd_deblk i) =
        λ i lt. ap block_size (update_ne v.vd_deblk v.vd_nblk [] i (ground arith)) in
      let next : Vdir = record v {
        vd_deblk = f;
        vd_nblk = v.vd_nblk + 1;
        vd_last_i = v.vd_nblk;
        vd_last_p = 0;
      } in
      let one : k.kmalloc a ≡ true = ground arith in
      let two : k.kmalloc (a + 1) ≡ true = ground arith in
      let path : append_deblk k v a ≡ (true, next, a + 2) = rw (one, two) refl in
      let index : v.vd_nblk + 1 - 1 ≡ v.vd_nblk = omega arith in
      let within : IsWithin next = record {
        has_block = omega arith;
        sizes = λ i lt. elim (Bool-cases (v.vd_nblk == i)) [
          | inl last ↦
              let same : block_size (f i) ≡ 0 = ap (λ j. block_size (f j)) (ground arith) ∙ new in
              omega arith
          | inr inner ↦
              let bound = w.sizes i (ground arith) in let same = old i (ground arith) in omega arith
        ];
        last = ap (λ j. block_size (f j)) index ∙ new;
      } in
      subst (λ p. IsMarked (p.1) × (p.1.vd_last_p ≡ 0)) (sym path) (((within, refl), refl))

  place_de-IsWithin :
      (v : Vdir) (de : De)
      → IsWithin v
      → v.vd_last_p + calc_size (length de.de_name) ≤ au_size_deblk
      → IsWithin (place_de k v de)
  unfolding place_de
  place_de-IsWithin v de w h =
      let j = v.vd_nblk - 1 in
      let ds = v.vd_deblk j ++ (de ∷ []) in
      let grown : block_size (update v.vd_deblk j ds j)
          ≡ v.vd_last_p + calc_size (length de.de_name) =
        ap block_size (update_self v.vd_deblk j ds)
        ∙ block_size-snoc (v.vd_deblk j) de
        ∙ ap (λ n. n + calc_size (length de.de_name)) (w.last) in
      record {
        has_block = w.has_block;
        sizes = λ i lt. elim (Bool-cases (j == i)) [
          | inl last ↦
              let same : block_size (update v.vd_deblk j ds i)
                  ≡ block_size (update v.vd_deblk j ds j) =
                ap (λ c. block_size (update v.vd_deblk j ds c)) (ground arith) in
              omega arith
          | inr inner ↦
              let same = ap block_size (update_ne v.vd_deblk j ds i inner) in
              let bound = w.sizes i lt in omega arith
        ];
        last = grown;
      }

  make_room-IsWithin :
      (v : Vdir) (n a : ℕ)
      → n ≤ 255
      → IsMarked v
      → (make_room k v (calc_size n) a).0 ≡ true
      → IsWithin ((make_room k v (calc_size n) a).1)
        × ((make_room k v (calc_size n) a).1.vd_last_p + calc_size n ≤ au_size_deblk)
  unfolding make_room
  make_room-IsWithin v n a h m ok =
      let small = calc_size-bound n h in
      elim (Bool-cases (ltb (au_size_deblk - v.vd_last_p) (calc_size n))) [
        | inl over ↦
            let room = append_deblk-IsMarked v a (m.0) (ground arith) in
            let zero_p = room.1 in rw over ((room.0.0, omega arith))
        | inr fits ↦
            let bound = m.0.sizes (v.vd_nblk - 1) (let some_block = m.0.has_block in omega arith) in
            let last = m.0.last in rw fits ((m.0, ground arith))
      ]

  end_block-IsMarked :
      (v : Vdir) (a : ℕ) → IsWithin v → (end_block k v a).0 ≡ true → IsMarked ((end_block k v a).1)
  unfolding end_block
  end_block-IsMarked v a w ok = elim (Bool-cases (set_deblk_end v.vd_last_p)) [
    | inl fits ↦ rw fits ((w, fits))
    | inr over ↦ rw over ((append_deblk-IsMarked v a w (ground arith)).0)
  ]

  -- When append_de succeeds for a name of at most 255 bytes, on a directory in which the entries of
  -- each block take no more than its 512 bytes, the end of the last block is where its entries end,
  -- and an end mark fits there, the directory that it leaves has the same three properties.
  pub append_de-IsMarked :
      (s : Reading) (b : ℕ) (de : De)
      → length de.de_name ≤ 255
      → IsMarked s.vdir
      → (append_de k s b de).0 ≡ true
      → IsMarked ((append_de k s b de).1.vdir)
  unfolding append_de
  append_de-IsMarked s b de h m ok =
      let n = length de.de_name in
      let room = make_room k s.vdir (calc_size n) s.allocs in
      let placed = place_de k (room.1) de in
      let one : room.0 ≡ true = ground arith in
      let two : k.kmalloc (room.2) ≡ true = ground arith in
      let ends : (end_block k placed (room.2 + 1)).0 ≡ true = ground arith in
      let start = make_room-IsWithin s.vdir n s.allocs h m one in
      let here = place_de-IsWithin (room.1) de (start.0) (start.1) in
      rw (append_de, one, two) (end_block-IsMarked placed (room.2 + 1) here ends)
