-- ===== src/Aufs/Vdir/Resume.antt =====
-- A directory that is handed over by several calls: au_vdir_fill_de of aufs/fs/aufs/vdir.c.
use mathlib.Core.List.{append-nil, append_assoc}
use kernel_patches.Base.{
  ℕ, zero, suc, ◌+◌, ◌-◌, ◌≤◌, ◌<◌, ◌≡◌, refl, sym, ap, subst, ◌∙◌, Bool, true, false, List, [],
  ◌++◌, length, ◌==◌, ◌⊎◌, inl, inr, Bool-cases, arith,
}
use kernel_patches.Aufs.Vdir.{De, Vdir, au_size_deblk}
use kernel_patches.Aufs.Vdir.Fill.{
  entries_at, calc_offset, seek_vdir, Handing, fill_last, next_block, fill_blocks, au_vdir_fill_de,
}
use kernel_patches.Aufs.Vdir.Asked.{Takes, Refuses, Asked, Asked-append, Asked-trans}
use kernel_patches.Aufs.Vdir.Bounds.{block_size}
use kernel_patches.Aufs.Vdir.Offsets.{Named, entries_at-zero, Passed, fill_block-Passed}

-- The entries of `n` blocks from `i` on.
abbrev pub blocks_from : (ℕ → List De) → (i n : ℕ) → List De
blocks_from f i zero = []
blocks_from f i (suc n) = f i ++ blocks_from f (i + 1) n

-- The entries from the position on.
abbrev pub left : Vdir → List De
left v =
    entries_at (v.vd_deblk v.vd_last_i) v.vd_last_p
    ++ blocks_from v.vd_deblk (v.vd_last_i + 1) (v.vd_nblk - 1 - v.vd_last_i)

-- An open directory at a position: its blocks are of their size, names have at least one byte, and
-- the position is where the file's is.
pub record IsOpen (v : Vdir) (f_pos : ℕ) : Type 0 where
  pub sizes : (i : ℕ) → i < v.vd_nblk → block_size (v.vd_deblk i) ≤ au_size_deblk
  pub named : (i : ℕ) → i < v.vd_nblk → Named (v.vd_deblk i)
  pub index : v.vd_last_i < v.vd_nblk
  pub position : f_pos ≡ calc_offset v

-- From `h` to `r`, no entry is lost or handed over twice, and the caller has taken those that were
-- handed over.
pub record Resumes (filldir : ℕ → De → Bool) (h r : Handing) : Type 0 where
  pub all_there : r.handed ++ left r.vdir ≡ h.handed ++ left h.vdir
  pub still_open : IsOpen r.vdir r.pos
  pub to_the_end : r.stopped ≡ false → left r.vdir ≡ []
  pub asked : Asked filldir (left r.vdir) h r

abbrev block_left : Vdir → List De
block_left v = entries_at (v.vd_deblk v.vd_last_i) v.vd_last_p

abbrev in_block : Vdir → ℕ → Vdir
in_block v p = record v { vd_last_p = p }

in_block-IsOpen :
    (v : Vdir) (f_pos pos p : ℕ)
    → IsOpen v f_pos
    → pos + v.vd_last_p ≡ f_pos + p
    → IsOpen (in_block v p) pos
unfolding calc_offset
in_block-IsOpen v f_pos pos p o moved = record {
  sizes = o.sizes;
  named = o.named;
  index = o.index;
  position = (let at = o.position in omega arith);
}

module _ (filldir : ℕ → De → Bool) where
  -- The block at the position, and what is left after it.
  fill_last_lem :
      (h : Handing)
      → IsOpen h.vdir h.pos
      → h.stopped ≡ false
      → Passed filldir (h.vdir.vd_deblk h.vdir.vd_last_i) h (fill_last filldir h)
        × ((fill_last filldir h).handed ++ left ((fill_last filldir h).vdir)
            ≡ h.handed ++ left h.vdir)
        × IsOpen ((fill_last filldir h).vdir) ((fill_last filldir h).pos)
        × ((fill_last filldir h).stopped ≡ false → block_left ((fill_last filldir h).vdir) ≡ [])
        × Asked filldir (left ((fill_last filldir h).vdir)) h (fill_last filldir h)
  unfolding fill_last
  fill_last_lem h o going =
      let v = h.vdir in
      let b = v.vd_deblk v.vd_last_i in
      let tail = blocks_from v.vd_deblk (v.vd_last_i + 1) (v.vd_nblk - 1 - v.vd_last_i) in
      let r = fill_last filldir h in
      let done =
        fill_block-Passed filldir b (entries_at b v.vd_last_p) h refl (o.sizes v.vd_last_i o.index)
          (o.named v.vd_last_i o.index) going in
      let q = r.vdir.vd_last_p in
      (
        done,
        ap (λ w. r.handed ++ left w) done.same
            ∙ sym (append_assoc r.handed (entries_at b q) tail)
            ∙ ap (λ l. l ++ tail) done.total
            ∙ append_assoc h.handed (entries_at b v.vd_last_p) tail,
        subst (λ w. IsOpen w r.pos) (sym done.same) (in_block-IsOpen v h.pos r.pos q o done.moved),
        λ e. ap block_left done.same ∙ done.ended e,
        subst (λ l. Asked filldir l h r) (sym (ap left done.same))
            (Asked-append filldir h r (entries_at b q) tail done.asked),
      )

  next_block_lem :
      (m : ℕ) (h : Handing)
      → IsOpen h.vdir h.pos
      → h.vdir.vd_nblk ≡ h.vdir.vd_last_i + 1 + suc m
      → entries_at (h.vdir.vd_deblk h.vdir.vd_last_i) h.vdir.vd_last_p ≡ []
      → IsOpen ((next_block filldir h).vdir) ((next_block filldir h).pos)
        × (left ((next_block filldir h).vdir) ≡ left h.vdir)
  unfolding next_block calc_offset
  next_block_lem m h o count none_left =
      let v = h.vdir in
      let f = v.vd_deblk in
      let i = v.vd_last_i in
      let here : v.vd_nblk - 1 - i ≡ suc m = omega arith in
      let there : v.vd_nblk - 1 - (i + 1) ≡ m = omega arith in
      (
        record { sizes = o.sizes; named = o.named; index = omega arith; position = omega arith },
        ap (λ l. l ++ blocks_from f (i + 1 + 1) (v.vd_nblk - 1 - (i + 1)))
              (entries_at-zero (f (i + 1)))
            ∙ ap (λ n. f (i + 1) ++ blocks_from f (i + 1 + 1) n) there
            ∙ sym (ap (λ n. blocks_from f (i + 1) n) here)
            ∙ sym (ap (λ l. l ++ blocks_from f (i + 1) (v.vd_nblk - 1 - i)) none_left),
      )

  pub fill_blocks-Resumes :
      (n : ℕ) (h : Handing)
      → IsOpen h.vdir h.pos
      → h.stopped ≡ false
      → h.vdir.vd_nblk ≡ h.vdir.vd_last_i + 1 + n
      → Resumes filldir h (fill_blocks filldir n h)
  unfolding fill_blocks next_block
  fill_blocks-Resumes zero h o going count =
      let r = fill_last filldir h in
      let (done, total, opened, none_left, asked) = fill_last_lem h o going in
      let tail : r.vdir.vd_nblk - 1 - r.vdir.vd_last_i ≡ 0 =
        (let n = ap (λ w. w.vd_nblk) done.same in
          let i = ap (λ w. w.vd_last_i) done.same in omega arith) in
      record {
        all_there = total;
        still_open = opened;
        to_the_end = λ e.
            ap
              (λ n.
                entries_at (r.vdir.vd_deblk r.vdir.vd_last_i) r.vdir.vd_last_p
                ++ blocks_from r.vdir.vd_deblk (r.vdir.vd_last_i + 1) n)
              tail
            ∙ append-nil (entries_at (r.vdir.vd_deblk r.vdir.vd_last_i) r.vdir.vd_last_p)
            ∙ none_left e;
        asked = asked;
      }
  fill_blocks-Resumes (suc n) h o going count =
      let r = fill_last filldir h in
      let (done, total, opened, none_left, asked) = fill_last_lem h o going in
      elim (Bool-cases (r.stopped)) [
        | inl stop ↦
            let path : fill_blocks filldir (suc n) h ≡ r = rw (fill_blocks, stop) refl in
            subst (Resumes filldir h) (sym path) (record {
              all_there = total;
              still_open = opened;
              to_the_end = λ e. absurd (ground arith);
              asked = asked;
            })
        | inr go ↦
            let path : fill_blocks filldir (suc n) h
                ≡ fill_blocks filldir n (next_block filldir r) =
              rw (fill_blocks, go) refl in
            let nblk = ap (λ w. w.vd_nblk) done.same in
            let i = ap (λ w. w.vd_last_i) done.same in
            let next = next_block_lem n r opened (omega arith) (none_left go) in
            let rest = fill_blocks-Resumes n (next_block filldir r) (next.0) go (omega arith) in
            subst (Resumes filldir h) (sym path) (record {
              all_there = rest.all_there ∙ ap (λ l. r.handed ++ l) (next.1) ∙ total;
              still_open = rest.still_open;
              to_the_end = rest.to_the_end;
              asked =
                  let t = fill_blocks filldir n (next_block filldir r) in
                  let k = next_block filldir r in
                  Asked-trans filldir h r t (k.vdir) (k.pos) (left r.vdir) (left t.vdir) go asked
                    rest.asked;
            })
      ]

  -- What the caller was asked from where nothing was handed over on.
  module _ (h r : Handing) (none_yet : h.handed ≡ []) (k : Resumes filldir h r) where
    Asked-new : k.asked.new ≡ r.handed
    Asked-new = sym (k.asked.handed ∙ ap (λ l. l ++ k.asked.new) none_yet)

    pub Asked-taken : Takes filldir h.calls r.handed
    Asked-taken = subst (Takes filldir h.calls) Asked-new k.asked.taken

    pub Asked-refused :
        Refuses filldir (h.calls + length r.handed) (left r.vdir) ⊎ (left r.vdir ≡ [])
    Asked-refused = elim (Bool-cases r.stopped) [
      | inl stop ↦ inl (
          subst (λ l. Refuses filldir (h.calls + length l) (left r.vdir)) Asked-new
            (k.asked.refused stop))
      | inr go ↦ inr (k.to_the_end go)
    ]

  -- When the file's position is where the directory's is, the blocks hold at most 512 bytes of
  -- entries, and names have at least one byte, a call of au_vdir_fill_de hands over entries such
  -- that these followed by those then left are the ones left before; the position is again where
  -- the directory's is, so that the next call goes on from there. The caller's answers to its calls
  -- from the given count on took each of the entries handed over, in their order; and its next
  -- answer did not take the first of those left, or none is left.
  pub au_vdir_fill_de-Resumes :
      (v : Vdir) (f_pos calls : ℕ)
      → IsOpen v f_pos
      → ((au_vdir_fill_de filldir v f_pos calls).handed
            ++ left ((au_vdir_fill_de filldir v f_pos calls).vdir)
          ≡ left v)
        × IsOpen
            ((au_vdir_fill_de filldir v f_pos calls).vdir)
            ((au_vdir_fill_de filldir v f_pos calls).pos)
        × Takes filldir calls ((au_vdir_fill_de filldir v f_pos calls).handed)
        × (Refuses filldir
              (calls + length ((au_vdir_fill_de filldir v f_pos calls).handed))
              (left ((au_vdir_fill_de filldir v f_pos calls).vdir))
            ⊎ (left ((au_vdir_fill_de filldir v f_pos calls).vdir) ≡ []))
  unfolding au_vdir_fill_de seek_vdir
  au_vdir_fill_de-Resumes v f_pos calls o =
      let start : Handing = record {
        stopped = false;
        vdir = v;
        pos = f_pos;
        handed = [];
        calls = calls;
      } in
      let n = v.vd_nblk - 1 - v.vd_last_i in
      let here : (f_pos == calc_offset v) ≡ true = (let at = o.position in ground arith) in
      let path : au_vdir_fill_de filldir v f_pos calls ≡ fill_blocks filldir n start =
        rw (au_vdir_fill_de, seek_vdir, here) refl in
      let r = fill_blocks-Resumes n start o refl (let i = o.index in omega arith) in
      rw path (
        (
          r.all_there,
          r.still_open,
          Asked-taken start (fill_blocks filldir n start) refl r,
          Asked-refused start (fill_blocks filldir n start) refl r,
        ))
