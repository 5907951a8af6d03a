-- ===== src/Xvmalloc/Chain.antt =====
-- One free list as a chain of headers: what the list stands for, and what the stores of
-- xvmalloc.c do to it.
use kernel_patches.Base.{
  ℕ, ◌<◌, ◌≡◌, ◌≢◌, ◌↔◌, ◌⊎◌, refl, sym, ap, subst, ◌∙◌, Bool, true, false, ◌||◌, List, [], ◌∷◌,
  ◌==◌, if◌then◌else◌, Bool-cases, inl, inr, arith,
}
use kernel_patches.Xvmalloc.{
  Loc, loc, loc_eq, BlockHeader, Mem, store, at, page_size, u16, get_index_for_insert,
}
use kernel_patches.Xvmalloc.FreeList.{set_link_prev, set_link_next, at_nonnull}

pub loc_eq_iff : (a b : Loc) → (loc_eq a b ≡ true) ↔ (a ≡ b)
loc_eq_iff a b = ground arith

abbrev pub has : Loc → List Loc → Bool
has a [] = false
has a (x ∷ xs) = loc_eq a x || has a xs

unfoldable pub erase : Loc → List Loc → List Loc
erase a [] = []
erase a (x ∷ xs) = if loc_eq a x then xs else x ∷ erase a xs

-- Block `x` of list `i` at `cur`, behind `prev` and before the blocks `xs`.
pub record Node (m : Mem) (i : ℕ) (prev cur x : Loc) (xs : List Loc) : Type 0 where
  pub place : cur ≡ x
  pub ne_null : x.pagenum ≢ 0
  pub in_page : x.offset < page_size
  pub out : has x xs ≡ false
  pub back : (m x).link.prev ≡ prev
  pub size : get_index_for_insert (m x).size ≡ i

-- From `cur` the headers lead, in both directions, through the distinct blocks listed, all of
-- them of a size that belongs to list `i`.
abbrev pub Chain : Mem → ℕ → Loc → Loc → List Loc → Type 0
Chain m i prev cur [] = cur.pagenum ≡ 0
Chain m i prev cur (x ∷ xs) = Node m i prev cur x xs × Chain m i x (m x).link.next xs

-- The parts of a header that the lists look at.
abbrev pub SameNode : Mem → Mem → Loc → Type 0
SameNode g m a = ((g a).link ≡ (m a).link) × ((g a).size ≡ (m a).size)

pub has_of_eq : (a x : Loc) (xs : List Loc) → a ≡ x → has a (x ∷ xs) ≡ true
has_of_eq a x xs e = ground (arith, (loc_eq_iff a x).1 e)

pub has_of_has : (a x : Loc) (xs : List Loc) → has a xs ≡ true → has a (x ∷ xs) ≡ true
has_of_has a x xs e = ground arith

module _ (m g : Mem) (i : ℕ) where
  pub frame :
      (prev cur : Loc) (xs : List Loc)
      → ((a : Loc) → has a xs ≡ true → SameNode g m a)
      → Chain m i prev cur xs
      → Chain g i prev cur xs
  frame prev cur [] same c = c
  frame prev cur (x ∷ xs) same (n, c) =
      let (l, z) = same x (has_of_eq x x xs refl) in
      (
        record {
          place = n.place;
          ne_null = n.ne_null;
          in_page = n.in_page;
          out = n.out;
          back = rw l n.back;
          size = rw z n.size;
        },
        rw l (frame x (m x).link.next xs (λ a h. same a (has_of_has a x xs h)) c),
      )

-- A block of the list has a size that belongs to the list, and a place in a page.
pub index_of_has :
    (m : Mem) (i : ℕ) (prev cur : Loc) (xs : List Loc) (a : Loc)
    → has a xs ≡ true
    → Chain m i prev cur xs
    → (get_index_for_insert (m a).size ≡ i) × (a.pagenum ≢ 0) × (a.offset < page_size)
index_of_has m i prev cur [] a h c = cc
index_of_has m i prev cur (x ∷ xs) a h (n, c) = elim (Bool-cases (loc_eq a x)) [
  | inl e ↦ rw ((loc_eq_iff a x).0 e) (n.size, n.ne_null, n.in_page)
  | inr ne ↦ index_of_has m i x (m x).link.next xs a (ground arith) c
]

-- What is in a list differs from what is not.
pub ne_of_out :
    (a c : Loc) (xs : List Loc) → has a xs ≡ false → has c xs ≡ true → loc_eq a c ≡ false
ne_of_out a c xs out h = elim (Bool-cases (loc_eq a c)) [
  | inr f ↦ f
  | inl t ↦ let t' : has a xs ≡ true = rw ((loc_eq_iff a c).0 t) h in ground arith
]

pub store_self : (m : Mem) (a : Loc) (h : BlockHeader) → store m a h a ≡ h
unfolding store
store_self m a h = ground arith

pub store_ne : (m : Mem) (a x : Loc) (h : BlockHeader) → loc_eq a x ≡ false → store m a h x ≡ m x
unfolding store
store_ne m a x h e = ground arith

-- Offsets in a page survive a `u16` field.
pub loc-u16 : (a : Loc) → a.offset < page_size → loc a.pagenum (u16 a.offset) ≡ a
loc-u16 a h = ground arith

pub at_nonnull-eq :
    (m : Mem) (p x : Loc) (f : BlockHeader → BlockHeader)
    → p ≡ x
    → x.pagenum ≢ 0
    → at_nonnull m p f ≡ at m x f
at_nonnull-eq m p x f e ne = rw e (ground arith)

pub at_nonnull_ne :
    (m : Mem) (p y : Loc) (f : BlockHeader → BlockHeader)
    → (p.pagenum ≡ 0) ⊎ (loc_eq p y ≡ false)
    → at_nonnull m p f y ≡ m y
at_nonnull_ne m p y f d = elim (Bool-cases (p.pagenum == 0)) [
  | inl z ↦ rw z
  | inr ne ↦ rw ne (store_ne m p y (f (m p)) (ground arith))
]

pub first_has :
    (m : Mem) (i : ℕ) (p cur : Loc) (xs : List Loc)
    → Chain m i p cur xs
    → (cur.pagenum ≡ 0) ⊎ (has cur xs ≡ true)
first_has m i p cur [] c = inl c
first_has m i p cur (x ∷ xs) (n, c) = inr (has_of_eq cur x xs n.place)

-- The stores of insert_block put a new block in front.
module _ (m : Mem) (i : ℕ) (a head : Loc) (ne : a.pagenum ≢ 0) (fits : a.offset < page_size)
    (size : get_index_for_insert (m a).size ≡ i) where
  abbrev linked : Mem
  linked = at m a (λ h. set_link_prev (loc 0 0) (set_link_next head h))

  insert-Chain-cons :
      (x : Loc) (xs : List Loc)
      → head ≡ x
      → has a (x ∷ xs) ≡ false
      → Chain m i (loc 0 0) head (x ∷ xs)
      → Chain (at linked x (set_link_prev a)) i (loc 0 0) a (a ∷ x ∷ xs)
  insert-Chain-cons x xs e out (n, c) = (
    record {
      place = refl;
      ne_null = ne;
      in_page = fits;
      out = out;
      back = rw at_a refl;
      size = rw at_a size;
    },
    (
      record {
        place = rw (at_a, e) (loc-u16 x n.in_page);
        ne_null = n.ne_null;
        in_page = n.in_page;
        out = n.out;
        back = rw at_x (loc-u16 a fits);
        size = rw at_x n.size;
      },
      rw at_x (frame m g i x (m x).link.next xs same c),
    ),
  )
    where
      g : Mem
      g = at linked x (set_link_prev a)

      a-ne-x : loc_eq a x ≡ false
      a-ne-x = ground arith

      x-ne-a : loc_eq x a ≡ false
      x-ne-a = ground arith

      at_a : g a ≡ set_link_prev (loc 0 0) (set_link_next head (m a))
      at_a = store_ne linked x a _ x-ne-a ∙ store_self m a _

      at_x : g x ≡ set_link_prev a (m x)
      at_x = store_self linked x _ ∙ ap (set_link_prev a) (store_ne m a x _ a-ne-x)

      same : (y : Loc) → has y xs ≡ true → SameNode g m y
      same y h =
          let e : g y ≡ m y =
            store_ne linked x y _ (ne_of_out x y xs n.out h)
            ∙ store_ne m a y _ (ne_of_out a y xs (ground arith) h) in
          rw e (refl, refl)

  pub insert-Chain :
      (xs : List Loc)
      → has a xs ≡ false
      → Chain m i (loc 0 0) head xs
      → Chain (at_nonnull linked head (set_link_prev a)) i (loc 0 0) a (a ∷ xs)
  unfolding store
  insert-Chain [] out c = (
    record {
      place = refl;
      ne_null = ne;
      in_page = fits;
      out = refl;
      back = ground arith;
      size = ground arith;
    },
    ground arith,
  )
  insert-Chain (x ∷ xs) out (n, c) =
      let e : at_nonnull linked head (set_link_prev a) ≡ at linked x (set_link_prev a) =
        at_nonnull-eq linked head x (set_link_prev a) n.place n.ne_null in
      subst (λ g. Chain g i (loc 0 0) a (a ∷ x ∷ xs)) (sym e)
        (insert-Chain-cons x xs n.place out (n, c))

-- The stores of remove_block_head take the first block off.
module _ (m : Mem) (i : ℕ) (a head : Loc) where
  pub remove_head-Chain :
      (xs : List Loc)
      → Chain m i (loc 0 0) head (a ∷ xs)
      → let m1 = at m a (set_link_prev (loc 0 0)) in
        Chain
          (at_nonnull m1 (m a).link.next (set_link_prev (loc 0 0)))
          i
          (loc 0 0)
          (m a).link.next
          xs
  remove_head-Chain [] (n, c) = c
  remove_head-Chain (x ∷ xs) (n, (k, c)) =
      subst (λ g'. Chain g' i (loc 0 0) (m a).link.next (x ∷ xs))
        (sym (at_nonnull-eq m1 (m a).link.next x (set_link_prev (loc 0 0)) k.place k.ne_null))
        (
          record {
            place = k.place;
            ne_null = k.ne_null;
            in_page = k.in_page;
            out = k.out;
            back = rw at_x refl;
            size = rw at_x k.size;
          },
          rw at_x (frame m g i x (m x).link.next xs same c),
        )
    where
      m1 : Mem
      m1 = at m a (set_link_prev (loc 0 0))

      g : Mem
      g = at m1 x (set_link_prev (loc 0 0))

      a-ne-x : loc_eq a x ≡ false
      a-ne-x = ne_of_out a x (x ∷ xs) n.out (has_of_eq x x xs refl)

      at_x : g x ≡ set_link_prev (loc 0 0) (m x)
      at_x = store_self m1 x _ ∙ ap (set_link_prev (loc 0 0)) (store_ne m a x _ a-ne-x)

      same : (y : Loc) → has y xs ≡ true → SameNode g m y
      same y h =
          let e : g y ≡ m y =
            store_ne m1 x y _ (ne_of_out x y xs k.out h)
            ∙ store_ne m a y _ (ne_of_out a y (x ∷ xs) n.out (has_of_has y x xs h)) in
          rw e (refl, refl)
