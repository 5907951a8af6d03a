-- ===== src/Aufs/Vdir/Blocks.antt =====
-- The blocks of a merged directory: the entries that they list, and their sizes.
use mathlib.Core.List.{append-nil, append_assoc}
use kernel_patches.Base.{
  ℕ, zero, suc, ◌+◌, ◌-◌, ◌≤◌, ◌<◌, ◌≡◌, refl, sym, ap, subst, ◌∙◌, true, List, [], ◌∷◌, ◌++◌,
  length, ltb, inl, inr, Bool-cases, update, update_self, update_ne, arith,
}
use kernel_patches.Aufs.Vdir.{De, Vdir, calc_size, set_deblk_end, au_size_deblk, add_name}
use kernel_patches.Aufs.Vdir.Read.{
  Reading, ReadEnv, append_deblk, place_de, make_room, end_block, append_de,
}

abbrev pub concat_blocks : (ℕ → List De) → ℕ → List De
concat_blocks f zero = []
concat_blocks f (suc n) = concat_blocks f n ++ f n

-- All entries, in order.
abbrev pub listing : Vdir → List De
listing v = concat_blocks v.vd_deblk v.vd_nblk

concat-update :
    (f : ℕ → List De) (i : ℕ) (x : List De) (n : ℕ)
    → n ≤ i
    → concat_blocks (update f i x) n ≡ concat_blocks f n
concat-update f i x zero h = refl
concat-update f i x (suc n) h =
    let rest = concat-update f i x n (omega arith) in
    let here = update_ne f i x n (ground arith) in cc (rest, here)

-- A block more, which is empty.
concat-empty : (f : ℕ → List De) (n : ℕ) → concat_blocks (update f n []) (n + 1) ≡ concat_blocks f n
concat-empty f n =
    let next : n + 1 ≡ suc n = omega arith in
    ap (concat_blocks (update f n [])) next
    ∙ ap (λ l. l ++ update f n [] n) (concat-update f n [] n (omega arith))
    ∙ ap (λ l. concat_blocks f n ++ l) (update_self f n [])
    ∙ append-nil (concat_blocks f n)

-- An entry more in the last block.
concat-snoc :
    (f : ℕ → List De) (n j : ℕ) (de : De)
    → j ≡ n
    → concat_blocks (update f j (f j ++ (de ∷ []))) (suc n) ≡ concat_blocks f (suc n) ++ (de ∷ [])
concat-snoc f n j de e =
    ap (λ i. concat_blocks (update f i (f i ++ (de ∷ []))) (suc n)) e
    ∙ ap (λ l. l ++ update f n (f n ++ (de ∷ [])) n)
        (concat-update f n (f n ++ (de ∷ [])) n (omega arith))
    ∙ ap (λ l. concat_blocks f n ++ l) (update_self f n (f n ++ (de ∷ [])))
    ∙ sym (append_assoc (concat_blocks f n) (f n) (de ∷ []))

snoc_last :
    (f : ℕ → List De) (n : ℕ) (de : De)
    → 0 < n
    → concat_blocks (update f (n - 1) (f (n - 1) ++ (de ∷ []))) n ≡ concat_blocks f n ++ (de ∷ [])
snoc_last f zero de h = absurd (omega arith)
snoc_last f (suc n) de h = concat-snoc f n (suc n - 1) de (omega arith)

listing-place_de :
    (k : ReadEnv) (v : Vdir) (de : De)
    → 0 < v.vd_nblk
    → listing (place_de k v de) ≡ listing v ++ (de ∷ [])
unfolding place_de
listing-place_de k v de h = snoc_last v.vd_deblk v.vd_nblk de h

-- A block that is started leaves the entries as they are.
abbrev SameEntries : (v w : Vdir) → Type 0
SameEntries v w = (listing w ≡ listing v) × (0 < v.vd_nblk → 0 < w.vd_nblk)

append_deblk-SameEntries : (k : ReadEnv) (v : Vdir) (a : ℕ) → SameEntries v ((append_deblk k v a).1)
unfolding append_deblk
append_deblk-SameEntries k v a = elim (Bool-cases (k.kmalloc a)) [
  | inl one ↦ elim (Bool-cases (k.kmalloc (a + 1))) [
    | inl two ↦ rw (one, two) ((concat-empty v.vd_deblk v.vd_nblk, λ _. omega arith))
    | inr two ↦ rw (one, two) ((refl, λ h. h))
  ]
  | inr one ↦ rw one ((refl, λ h. h))
]

make_room-SameEntries : (k : ReadEnv) (v : Vdir) (sz a : ℕ) → SameEntries v ((make_room k v sz a).1)
unfolding make_room
make_room-SameEntries k v sz a =
    let block = append_deblk-SameEntries k v a in
    elim (Bool-cases (ltb (au_size_deblk - v.vd_last_p) sz)) [
      | inl small ↦ rw small block
      | inr fits ↦ rw fits ((refl, λ h. h))
    ]

end_block-SameEntries : (k : ReadEnv) (v : Vdir) (a : ℕ) → SameEntries v ((end_block k v a).1)
unfolding end_block
end_block-SameEntries k v a =
    let block = append_deblk-SameEntries k v a in
    elim (Bool-cases (set_deblk_end v.vd_last_p)) [
      | inl fits ↦ rw fits ((refl, λ h. h))
      | inr ends ↦ rw ends block
    ]

-- What a successful append_de leaves behind.
pub record Appended (k : ReadEnv) (s : Reading) (b : ℕ) (de : De) (t : Reading) : Type 0 where
  pub appended : listing t.vdir ≡ listing s.vdir ++ (de ∷ [])
  pub blocks : 0 < t.vdir.vd_nblk
  pub names : t.delist ≡ update s.delist b (add_name k.full_name_hash (s.delist b) de.de_name)
  pub whiteouts : t.whlist ≡ s.whlist
  pub numbers : t.xino ≡ s.xino

pub append_de-Appended :
    (k : ReadEnv) (s : Reading) (b : ℕ) (de : De)
    → 0 < s.vdir.vd_nblk
    → (append_de k s b de).0 ≡ true
    → Appended k s b de ((append_de k s b de).1)
unfolding append_de place_de
append_de-Appended k s b de h ok =
    let sz = calc_size (length de.de_name) in
    let room = make_room k s.vdir sz s.allocs in
    let placed = place_de k (room.1) de in
    let start = make_room-SameEntries k s.vdir sz s.allocs in
    let end = end_block-SameEntries k placed (room.2 + 1) in
    let here = listing-place_de k (room.1) de (start.1 h) in
    elim (Bool-cases (room.0)) [
      | inl one ↦ elim (Bool-cases (k.kmalloc (room.2))) [
        | inl two ↦
            let path : append_de k s b de ≡ (
              (end_block k placed (room.2 + 1)).0,
              record s {
                vdir = (end_block k placed (room.2 + 1)).1;
                delist = update s.delist b (add_name k.full_name_hash (s.delist b) de.de_name);
                allocs = (end_block k placed (room.2 + 1)).2;
              },
            ) =
              rw (one, two) refl in
            subst (λ p. Appended k s b de (p.1)) (sym path)
              (record {
                appended = end.0 ∙ here ∙ ap (λ l. l ++ (de ∷ [])) (start.0);
                blocks = end.1 (start.1 h);
                names = refl;
                whiteouts = refl;
                numbers = refl;
              })
        | inr two ↦ absurd (ground arith)
      ]
      | inr one ↦ absurd (ground arith)
    ]
