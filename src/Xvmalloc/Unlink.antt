-- ===== src/Xvmalloc/Unlink.antt =====
-- The middle case of remove_block: a block that is not the head leaves its chain.
use kernel_patches.Base.{
  ℕ, ◌≡◌, ◌≢◌, ◌⊎◌, inl, inr, refl, sym, ap, subst, ◌∙◌, true, false, List, [], ◌∷◌, Bool-cases,
  arith,
}
use kernel_patches.Xvmalloc.{Loc, loc_eq, Mem, at}
use kernel_patches.Xvmalloc.FreeList.{set_link_prev, set_link_next, at_nonnull, unlink}
use kernel_patches.Xvmalloc.Chain.{
  loc_eq_iff, has, erase, Chain, SameNode, frame, has_of_eq, has_of_has, ne_of_out, store_self,
  store_ne, loc-u16, at_nonnull-eq, at_nonnull_ne, first_has,
}

has-erase : (y a : Loc) (xs : List Loc) → has y xs ≡ false → has y (erase a xs) ≡ false
unfolding erase
has-erase y a [] h = refl
has-erase y a (x ∷ xs) h = ground (arith, has-erase y a xs)

module _ (m : Mem) (a : Loc) where
  abbrev before : Loc
  before = (m a).link.prev

  abbrev behind : Loc
  behind = (m a).link.next

  -- Both stores, with the links read before the first.
  unlink-eq :
      loc_eq before a ≡ false
      → unlink m a
        ≡ at_nonnull (at_nonnull m before (set_link_next behind)) behind (set_link_prev before)
  unfolding unlink
  unlink-eq e = rw (at_nonnull_ne m before a (set_link_next behind) (inr e))

  unlink_ne :
      (y : Loc)
      → loc_eq before a ≡ false
      → loc_eq before y ≡ false
      → (behind.pagenum ≡ 0) ⊎ (loc_eq behind y ≡ false)
      → unlink m a y ≡ m y
  unlink_ne y e f d = rw (unlink-eq e) (
      at_nonnull_ne _ behind y (set_link_prev before) d
      ∙ at_nonnull_ne m before y (set_link_next behind) (inr f))

  module _ (i : ℕ) where
    -- The neighbours of a block that is not the head are in the list too.
    before-has :
        (p cur x : Loc) (xs : List Loc)
        → has a xs ≡ true
        → Chain m i p cur (x ∷ xs)
        → (has before (x ∷ xs) ≡ true) × (loc_eq before a ≡ false)
    before-has p cur x [] h c = cc
    before-has p cur x (y ∷ ys) h (n, (k, c)) = elim (Bool-cases (loc_eq a y)) [
      | inl e ↦
          let is_x : (m a).link.prev ≡ x = rw ((loc_eq_iff a y).0 e) k.back in
          (
            has_of_eq before x (y ∷ ys) is_x,
            ground (arith, (loc_eq_iff before a).0, (loc_eq_iff a y).0 e, (loc_eq_iff x y).1),
          )
      | inr f ↦
          let (t, ne) = before-has x (m x).link.next y ys (ground arith) (k, c) in
          (has_of_has before x (y ∷ ys) t, ne)
    ]

    behind-has :
        (p cur : Loc) (xs : List Loc)
        → has a xs ≡ true
        → Chain m i p cur xs
        → (behind.pagenum ≡ 0) ⊎ (has behind xs ≡ true)
    behind-has p cur [] h c = cc
    behind-has p cur (y ∷ ys) h (n, c) = elim (Bool-cases (loc_eq a y)) [
      | inl e ↦ elim (first_has m i y (m y).link.next ys c) [
        | inl z ↦ inl (rw ((loc_eq_iff a y).0 e) z)
        | inr t ↦ inr (has_of_has behind y ys (rw ((loc_eq_iff a y).0 e) t))
      ]
      | inr f ↦ elim (behind-has y (m y).link.next ys (ground arith) c) [
        | inl z ↦ inl z
        | inr t ↦ inr (has_of_has behind y ys t)
      ]
    ]

    -- Nothing changes at a block outside the part of the list that `a` and its neighbours are in.
    pub unlink_outside :
        (p cur x : Loc) (xs : List Loc) (y : Loc)
        → has a xs ≡ true
        → Chain m i p cur (x ∷ xs)
        → has y (x ∷ xs) ≡ false
        → unlink m a y ≡ m y
    unlink_outside p cur x xs y h (n, c) out =
        let (t, ne) = before-has p cur x xs h (n, c) in
        unlink_ne y ne (neq before t) (elim (behind-has x (m x).link.next xs h c) [
          | inl z ↦ inl z
          | inr t' ↦ inr (neq behind (has_of_has behind x xs t'))
        ])
      where
        neq : (z : Loc) → has z (x ∷ xs) ≡ true → loc_eq z y ≡ false
        neq z t = ground (arith, ne_of_out y z (x ∷ xs) out t)

module _ (m : Mem) (i : ℕ) where
  -- With its links known, a block is taken out by one store or two.
  unlink-at :
      (y x : Loc)
      → (m x).link.prev ≡ y
      → y.pagenum ≢ 0
      → loc_eq y x ≡ false
      → let q = (m x).link.next in
        unlink m x ≡ at_nonnull (at m y (set_link_next q)) q (set_link_prev y)
  unlink-at y x e ne f =
      let q = (m x).link.next in
      unlink-eq m x (rw e f)
      ∙ ap (λ w. at_nonnull (at_nonnull m w (set_link_next q)) q (set_link_prev w)) e
      ∙ ap (λ g. at_nonnull g q (set_link_prev y)) (at_nonnull-eq m y y (set_link_next q) refl ne)

  unlink_last :
      (p cur y x : Loc) → Chain m i p cur (y ∷ x ∷ []) → Chain (unlink m x) i p cur (y ∷ [])
  unlink_last p cur y x (n, (k, c)) =
      subst (λ g. Chain g i p cur (y ∷ [])) (sym eq)
        (
          record {
            place = n.place;
            ne_null = n.ne_null;
            in_page = n.in_page;
            out = refl;
            back = rw at_y n.back;
            size = rw at_y n.size;
          },
          rw at_y c,
        )
    where
      q : Loc
      q = (m x).link.next

      at_y : at m y (set_link_next q) y ≡ set_link_next q (m y)
      at_y = store_self m y _

      eq : unlink m x ≡ at m y (set_link_next q)
      eq = unlink-at y x k.back n.ne_null (ground arith) ∙ rw c

  unlink_inner :
      (p cur y x z : Loc) (zs : List Loc)
      → Chain m i p cur (y ∷ x ∷ z ∷ zs)
      → Chain (unlink m x) i p cur (y ∷ z ∷ zs)
  unlink_inner p cur y x z zs (n, (k, (l, c))) =
      subst (λ g'. Chain g' i p cur (y ∷ z ∷ zs)) (sym eq)
        (
          record {
            place = n.place;
            ne_null = n.ne_null;
            in_page = n.in_page;
            out = ground arith;
            back = rw at_y n.back;
            size = rw at_y n.size;
          },
          (
            record {
              place = rw (at_y, l.place) (loc-u16 z l.in_page);
              ne_null = l.ne_null;
              in_page = l.in_page;
              out = l.out;
              back = rw at_z (loc-u16 y n.in_page);
              size = rw at_z l.size;
            },
            rw at_z (frame m g i z (m z).link.next zs same c),
          ),
        )
    where
      q : Loc
      q = (m x).link.next

      m1 : Mem
      m1 = at m y (set_link_next q)

      g : Mem
      g = at m1 z (set_link_prev y)

      y-ne-z : loc_eq y z ≡ false
      y-ne-z = ground arith

      z-ne-y : loc_eq z y ≡ false
      z-ne-y = ground arith

      eq : unlink m x ≡ g
      eq =
          unlink-at y x k.back n.ne_null (ground arith)
          ∙ at_nonnull-eq m1 q z (set_link_prev y) l.place l.ne_null

      at_y : g y ≡ set_link_next q (m y)
      at_y = store_ne m1 z y _ z-ne-y ∙ store_self m y _

      at_z : g z ≡ set_link_prev y (m z)
      at_z = store_self m1 z _ ∙ ap (set_link_prev y) (store_ne m y z _ y-ne-z)

      same : (w : Loc) → has w zs ≡ true → SameNode g m w
      same w h =
          let e : g w ≡ m w =
            store_ne m1 z w _ (ne_of_out z w zs l.out h)
            ∙ store_ne m y w _ (ne_of_out y w zs (ground arith) h) in
          rw e (refl, refl)

  -- The block behind the head leaves the chain.
  unlink_second :
      (p cur y x : Loc) (xs : List Loc)
      → Chain m i p cur (y ∷ x ∷ xs)
      → Chain (unlink m x) i p cur (y ∷ xs)
  unlink_second p cur y x [] c = unlink_last p cur y x c
  unlink_second p cur y x (z ∷ zs) c = unlink_inner p cur y x z zs c

  pub unlink-Chain :
      (p cur y : Loc) (xs : List Loc) (a : Loc)
      → has a xs ≡ true
      → Chain m i p cur (y ∷ xs)
      → Chain (unlink m a) i p cur (y ∷ erase a xs)
  unfolding erase
  unlink-Chain p cur y [] a h c = cc
  unlink-Chain p cur y (x ∷ xs) a h (n, c) = elim (Bool-cases (loc_eq a x)) [
    | inl e ↦ rw e (
        subst (λ w. Chain (unlink m w) i p cur (y ∷ xs)) (sym ((loc_eq_iff a x).0 e))
          (unlink_second p cur y x xs (n, c)))
    | inr f ↦
        let same = unlink_outside m a i y (m y).link.next x xs y (ground arith) c n.out in
        let rest = unlink-Chain y (m y).link.next x xs a (ground arith) c in
        rw f (
          record {
            place = n.place;
            ne_null = n.ne_null;
            in_page = n.in_page;
            out = ground (arith, has-erase y a xs);
            back = rw same n.back;
            size = rw same n.size;
          },
          rw same rest,
        )
  ]
