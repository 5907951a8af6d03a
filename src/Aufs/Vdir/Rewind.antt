-- ===== src/Aufs/Vdir/Rewind.antt =====
-- Reading a directory from the start: au_vdir_fill_de of aufs/fs/aufs/vdir.c at position 0.
use mathlib.Core.List.{append-nil, append_assoc}
use kernel_patches.Base.{
  ℕ, zero, suc, ◌+◌, ◌-◌, ◌≤◌, ◌<◌, ◌≡◌, refl, sym, ap, ◌∙◌, Bool, true, false, List, [], ◌++◌,
  length, ◌==◌, ◌⊎◌, inl, inr, Bool-cases, arith,
}
use kernel_patches.Aufs.Vdir.{De, Vdir, au_size_deblk}
use kernel_patches.Aufs.Vdir.Fill.{calc_offset, seek_vdir, Handing, fill_blocks, au_vdir_fill_de}
use kernel_patches.Aufs.Vdir.Asked.{Takes, Refuses}
use kernel_patches.Aufs.Vdir.Bounds.{block_size}
use kernel_patches.Aufs.Vdir.Offsets.{Named, entries_at-zero}
use kernel_patches.Aufs.Vdir.Blocks.{concat_blocks, listing}
use kernel_patches.Aufs.Vdir.Resume.{
  blocks_from, left, IsOpen, Asked-taken, Asked-refused, fill_blocks-Resumes,
}

blocks_from-listing :
    (f : ℕ → List De) (i n : ℕ) → concat_blocks f i ++ blocks_from f i n ≡ concat_blocks f (i + n)
blocks_from-listing f i zero =
    let index : i + 0 ≡ i = omega arith in
    append-nil (concat_blocks f i) ∙ sym (ap (concat_blocks f) index)
blocks_from-listing f i (suc n) =
    let next : i + 1 ≡ suc i = omega arith in
    let last : i + 1 + n ≡ i + suc n = omega arith in
    sym (append_assoc (concat_blocks f i) (f i) (blocks_from f (i + 1) n))
    ∙ sym (ap (λ j. concat_blocks f j ++ blocks_from f (i + 1) n) next)
    ∙ blocks_from-listing f (i + 1) n
    ∙ ap (concat_blocks f) last

-- At the start all entries are left.
left-start :
    (v : Vdir) → 0 < v.vd_nblk → left (record v { vd_last_i = 0; vd_last_p = 0 }) ≡ listing v
left-start v h =
    let f = v.vd_deblk in
    let n : 1 + (v.vd_nblk - 1 - 0) ≡ v.vd_nblk = omega arith in
    ap (λ l. l ++ blocks_from f 1 (v.vd_nblk - 1 - 0)) (entries_at-zero (f 0))
    ∙ blocks_from-listing f 1 (v.vd_nblk - 1 - 0)
    ∙ ap (concat_blocks f) n

seek_vdir-start : (v : Vdir) → seek_vdir v 0 ≡ (true, record v { vd_last_i = 0; vd_last_p = 0 })
unfolding seek_vdir calc_offset
seek_vdir-start v = elim (Bool-cases (0 == calc_offset v)) [
  | inl here ↦
      let i : v.vd_last_i ≡ 0 = ground arith in
      let p : v.vd_last_p ≡ 0 = ground arith in
      let first = ap (λ n. record v { vd_last_i = n }) i in
      let second = ap (λ n. record v { vd_last_i = 0; vd_last_p = n }) p in
      rw here (ap (λ w. (true, w)) (first ∙ second))
  | inr far ↦ rw far refl
]

-- At position 0, wherever the directory's position was, if it has a block, the blocks hold at most
-- 512 bytes of entries, and names have at least one byte, what au_vdir_fill_de hands over followed
-- by what is left then is the whole listing. The caller's answers to its calls from the given count
-- on took each of the entries handed over, in their order; and its next answer did not take the
-- first of those left, or it was handed the whole listing.
pub au_vdir_fill_de-listing :
    (filldir : ℕ → De → Bool) (v : Vdir) (calls : ℕ)
    → 0 < v.vd_nblk
    → ((i : ℕ) → i < v.vd_nblk → block_size (v.vd_deblk i) ≤ au_size_deblk)
    → ((i : ℕ) → i < v.vd_nblk → Named (v.vd_deblk i))
    → ((au_vdir_fill_de filldir v 0 calls).handed ++ left ((au_vdir_fill_de filldir v 0 calls).vdir)
        ≡ listing v)
      × Takes filldir calls ((au_vdir_fill_de filldir v 0 calls).handed)
      × (Refuses filldir
            (calls + length ((au_vdir_fill_de filldir v 0 calls).handed))
            (left ((au_vdir_fill_de filldir v 0 calls).vdir))
          ⊎ ((au_vdir_fill_de filldir v 0 calls).handed ≡ listing v))
unfolding au_vdir_fill_de calc_offset
au_vdir_fill_de-listing filldir v calls h sizes named =
    let v0 : Vdir = record v { vd_last_i = 0; vd_last_p = 0 } in
    let start : Handing = record {
      stopped = false;
      vdir = v0;
      pos = 0;
      handed = [];
      calls = calls;
    } in
    let n = v.vd_nblk - 1 - 0 in
    let path : au_vdir_fill_de filldir v 0 calls ≡ fill_blocks filldir n start =
      rw (au_vdir_fill_de, seek_vdir-start v) refl in
    let opened : IsOpen v0 0 = record {
      sizes = sizes;
      named = named;
      index = h;
      position = refl;
    } in
    let r = fill_blocks-Resumes filldir n start opened refl (omega arith) in
    let all = r.all_there ∙ left-start v h in
    rw path (
      (
        all,
        Asked-taken filldir start (fill_blocks filldir n start) refl r,
        elim (Asked-refused filldir start (fill_blocks filldir n start) refl r) [
          | inl refused ↦ inl refused
          | inr none_left ↦ inr (
              sym (append-nil ((fill_blocks filldir n start).handed))
              ∙ sym (ap (λ l. (fill_blocks filldir n start).handed ++ l) none_left)
              ∙ all)
        ],
      ))
