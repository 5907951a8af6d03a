-- ===== src/Aufs/Refresh/Rounds.antt =====
-- The rounds of au_refresh_hinode_self's loop (aufs/fs/aufs/inode.c).
use kernel_patches.Base.{
  ℕ, ◌+◌, ◌≤◌, ◌<◌, ◌≡◌, ◌≢◌, ◌⊎◌, inl, inr, ap, sym, subst, ◌∙◌, min, max, Option, none, some,
  ◌==◌, if◌then◌else◌, eq-cases, update, arith,
}
use kernel_patches.Aufs.Iinfo.{HInode}
use kernel_patches.Aufs.Refresh.{Walk, swap}

-- Where an entry comes from in a swap.
abbrev pub swapped : (p q j : ℕ) → ℕ
swapped p q j = if p == j then q else if q == j then p else j

pub swap_lem : (f : ℕ → Option HInode) (p q j : ℕ) → swap f p q j ≡ f (swapped p q j)
unfolding swap update
swap_lem f p q j = ground arith

swapped-swapped : (p q j : ℕ) → swapped p q (swapped p q j) ≡ j
swapped-swapped p q j = ground arith

swapped_injective : (p q i j : ℕ) → swapped p q i ≡ swapped p q j → i ≡ j
swapped_injective p q i j e = ground arith

module _ (new_index : HInode → Option ℕ) (o : ℕ → Option HInode) (size : ℕ) where
  -- What holds before each round: every hidden inode is one of the old ones, none that has a branch is
  -- lost, no two are of one branch, those before `bindex` are at their place, none is after the end;
  -- `update` counts those that are put.
  pub record IsWalk (s : Walk) : Type 0 where
    pub old : (j : ℕ) (h : HInode) → s.hinode j ≡ some h → (i : ℕ) × (o i ≡ some h)
    pub kept :
        (i k : ℕ) (h : HInode)
        → o i ≡ some h
        → new_index h ≡ some k
        → (j : ℕ) × (s.hinode j ≡ some h)
    pub unique :
        (i j : ℕ) (g h : HInode)
        → s.hinode i ≡ some g
        → s.hinode j ≡ some h
        → g.hi_id ≡ h.hi_id
        → i ≡ j
    pub settled : (j : ℕ) (h : HInode) → j < s.bindex → s.hinode j ≡ some h → new_index h ≡ some j
    pub beyond : (j : ℕ) → s.last < j → s.hinode j ≡ none
    pub inside : s.last < size
    pub complete :
        s.update_count ≡ 0 → (i : ℕ) (h : HInode) → o i ≡ some h → (j : ℕ) × (s.hinode j ≡ some h)
    pub lost : s.update_count ≢ 0 → (i : ℕ) × (h : HInode) × (o i ≡ some h) × (new_index h ≡ none)

  module _ (s : Walk) (v : IsWalk s) (go : s.bindex ≤ s.last) where
    abbrev b : ℕ
    b = s.bindex

    -- A place is left: its hidden inode, if there is one, is where it belongs.
    pub passed :
        ((h : HInode) → s.hinode b ≡ some h → new_index h ≡ some b)
        → IsWalk (record s { bindex = b + 1 })
    passed right = record {
      old = v.old;
      kept = v.kept;
      unique = v.unique;
      settled = λ j h l e. elim (eq-cases b j) [
        | inl same ↦ subst (λ k. new_index h ≡ some k) same (right h (ap s.hinode same ∙ e))
        | inr ne ↦ v.settled j h (omega arith) e
      ];
      beyond = v.beyond;
      inside = v.inside;
      complete = v.complete;
      lost = v.lost;
    }

    module _ (h : HInode) (here : s.hinode b ≡ some h) where
      abbrev pub cleared : Walk
      cleared = record s {
        hinode = update s.hinode b none;
        update_count = s.update_count + 1;
        bindex = b + 1;
      }

      pub cleared_some :
          (j : ℕ) (g : HInode) → update s.hinode b none j ≡ some g → (b ≢ j) × (s.hinode j ≡ some g)
      unfolding update
      cleared_some j g e = (ground arith, ground arith)

      cleared_other : (j : ℕ) → b ≢ j → update s.hinode b none j ≡ s.hinode j
      unfolding update
      cleared_other j ne = ground arith

      cleared_kept :
          new_index h ≡ none
          → (i k : ℕ) (g : HInode) → o i ≡ some g
          → new_index g ≡ some k
          → (j : ℕ) × (update s.hinode b none j ≡ some g)
      cleared_kept gone i k g e f =
          let (j, l) = v.kept i k g e f in
          elim (eq-cases b j) [
            | inl same ↦
                let both : some h ≡ some g = sym here ∙ ap s.hinode same ∙ l in
                absurd (ground (arith, both))
            | inr ne ↦ (j, cleared_other j ne ∙ l)
          ]

      pub cleared-IsWalk : new_index h ≡ none → IsWalk cleared
      cleared-IsWalk gone = record {
        old = λ j g e. v.old j g (cleared_some j g e).1;
        kept = cleared_kept gone;
        unique = λ i j g k e f. v.unique i j g k (cleared_some i g e).1 (cleared_some j k f).1;
        settled = λ j g l e. let (ne, f) = cleared_some j g e in v.settled j g (omega arith) f;
        beyond = λ j l. cleared_other j (omega arith) ∙ v.beyond j l;
        inside = v.inside;
        complete = λ z. absurd (omega arith);
        lost = λ z. let (i, e) = v.old b h here in (i, h, e, gone);
      }

      module _ (k : ℕ) (to : new_index h ≡ some k) (ne : k ≢ b) (low : k < size) where
        abbrev pub moved : (bindex : ℕ) → Walk
        moved bindex = record s {
          hinode = swap s.hinode b k;
          first = min s.first k;
          last = max s.last k;
          bindex = bindex;
        }

        pub at_k : swap s.hinode b k k ≡ some h
        at_k = swap_lem s.hinode b k k ∙ ap s.hinode (ground arith) ∙ here

        swap_back : (j : ℕ) → swap s.hinode b k (swapped b k j) ≡ s.hinode j
        swap_back j = swap_lem s.hinode b k (swapped b k j) ∙ ap s.hinode (swapped-swapped b k j)

        pub moved-IsWalk :
            (bindex : ℕ)
            → bindex ≤ b + 1
            → ((bindex ≤ b) ⊎ (s.hinode k ≡ none))
            → IsWalk (moved bindex)
        moved-IsWalk bindex l stay = record {
          old = λ j g e. v.old (swapped b k j) g (sym (swap_lem s.hinode b k j) ∙ e);
          kept = λ i n g e f. let (j, at) = v.kept i n g e f in (swapped b k j, swap_back j ∙ at);
          unique = λ i j g n e f same. swapped_injective b k i j (
              v.unique (swapped b k i) (swapped b k j) g n (sym (swap_lem s.hinode b k i) ∙ e)
                (sym (swap_lem s.hinode b k j) ∙ f) same);
          settled = λ j g a e. elim (eq-cases k j) [
            | inl same ↦
                let both : some h ≡ some g = sym at_k ∙ ap (swap s.hinode b k) same ∙ e in
                ground arith
            | inr other ↦ elim (eq-cases b j) [
              | inl same ↦ elim stay [
                | inl small ↦ absurd (omega arith)
                | inr empty ↦
                    let both : s.hinode k ≡ some g =
                      ap s.hinode (ground arith) ∙ sym (swap_lem s.hinode b k j) ∙ e in
                    absurd (ground arith)
              ]
              | inr apart ↦
                  v.settled j g (omega arith)
                    (ap s.hinode (ground arith) ∙ sym (swap_lem s.hinode b k j) ∙ e)
            ]
          ];
          beyond = λ j a.
              swap_lem s.hinode b k j ∙ ap s.hinode (ground arith) ∙ v.beyond j (omega arith);
          inside = omega (arith, v.inside);
          complete =
              λ z i g e. let (j, at) = v.complete z i g e in (swapped b k j, swap_back j ∙ at);
          lost = v.lost;
        }
