-- ===== src/Aufs/Vdir/Readdir.antt =====
-- Opening a directory and reading its entries: au_vdir_init and then au_vdir_fill_de of
-- aufs/fs/aufs/vdir.c.
use mathlib.Core.List.{map-append}
use kernel_patches.Base.{
  ℕ, ◌+◌, ◌-◌, ◌≤◌, ◌<◌, ◌≡◌, ◌⊎◌, inl, inr, refl, sym, ap, ◌∙◌, Bool, true, false, Option, none,
  some, List, [], ◌++◌, map, length, ◌==◌, Bool-cases, update, update_self, arith,
}
use kernel_patches.Aufs.Vdir.{De, Vdir, Name, HDir, au_size_deblk, set_deblk_end, calc_size}
use kernel_patches.Aufs.Vdir.Read.{ReadEnv}
use kernel_patches.Aufs.Vdir.Blocks.{concat_blocks}
use kernel_patches.Aufs.Vdir.Merge.{merged, branch_contents, listed_names}
use kernel_patches.Aufs.Vdir.Listing.{au_do_read_vdir-merged}
use kernel_patches.Aufs.Vdir.Bounds.{block_size}
use kernel_patches.Aufs.Vdir.Kept.{AllNames}
use kernel_patches.Aufs.Vdir.Readable.{
  IsName, IsReadable, HasNames, HasNames-update, au_do_read_vdir-IsReadable,
}
use kernel_patches.Aufs.Vdir.Cache.{DirFile, au_vdir_init}
use kernel_patches.Aufs.Vdir.Open.{first_vdir, Reads, au_vdir_init-HasBlocks}
use kernel_patches.Aufs.Vdir.Fill.{au_vdir_fill_de}
use kernel_patches.Aufs.Vdir.Asked.{Takes, Refuses}
use kernel_patches.Aufs.Vdir.Resume.{left}
use kernel_patches.Aufs.Vdir.Rewind.{au_vdir_fill_de-listing}

-- Blocks that list these names, and can be handed over.
abbrev Lists : List Name → (ℕ → List De) → ℕ → Type 0
Lists names f n =
    (map (λ d. d.de_name) (concat_blocks f n) ≡ names)
    × (0 < n)
    × ((i : ℕ) → i < n → block_size (f i) ≤ au_size_deblk)
    × HasNames f

first_vdir-IsReadable : IsReadable first_vdir
unfolding update set_deblk_end calc_size
first_vdir-IsReadable = (
  (
    record {
      has_block = omega arith;
      sizes = λ i lt. elim (Bool-cases (0 == i)) [
        | inl here ↦ rw here (omega arith)
        | inr there ↦ rw there (omega arith)
      ];
      last = refl;
    },
    refl,
  ),
  HasNames-update (λ _. []) 0 [] (λ i. tt) tt,
)

module _ (k : ReadEnv) (time_after : ℕ → ℕ → Bool) (rdcache bstart bend : ℕ)
    (files : ℕ → Option HDir) (names : (c : ℕ) → AllNames IsName (branch_contents (files c))) where
  reads-Lists :
      Reads k time_after rdcache bstart bend files
        (Lists (merged (bend + 1 - bstart) bstart files (λ _. false)))
  reads-Lists x a ok =
      let shown = merged (bend + 1 - bstart) bstart files (λ _. false) in
      let first : listed_names first_vdir ≡ [] =
        ap (map (λ d. d.de_name)) (update_self (λ _. []) 0 []) in
      let r =
        au_do_read_vdir-IsReadable k first_vdir x a bstart bend files names first_vdir-IsReadable
          ok in
      (
        au_do_read_vdir-merged k first_vdir x a bstart bend files (omega arith) ok
            ∙ ap (λ l. l ++ shown) first,
        r.0.0.has_block,
        r.0.0.sizes,
        r.1,
      )

  -- When neither the inode nor the file has a merged directory yet, au_vdir_init succeeds without
  -- the option shwh, and the branches' names have 1 to 255 bytes, the file has a merged directory;
  -- a call of au_vdir_fill_de at position 0 then hands over entries whose names, followed by those
  -- of the entries left, are the merge of the branches. The caller's answers to its calls from the
  -- given count on took each of the entries handed over, in their order; and its next answer did
  -- not take the first of those left, or the names of what it was handed are the merge.
  pub au_vdir_init-fill_de :
      (s : DirFile) (filldir : ℕ → De → Bool) (calls : ℕ)
      → s.ivdir ≡ none
      → s.fvdir_cache ≡ none
      → (au_vdir_init k time_after rdcache false bstart bend files s).0 ≡ true
      → (v : Vdir) × ((au_vdir_init k time_after rdcache false bstart bend files s).1.fvdir_cache
          ≡ some v)
        × (map (λ d. d.de_name) ((au_vdir_fill_de filldir v 0 calls).handed)
              ++ map (λ d. d.de_name) (left ((au_vdir_fill_de filldir v 0 calls).vdir))
            ≡ merged (bend + 1 - bstart) bstart files (λ _. false))
        × Takes filldir calls ((au_vdir_fill_de filldir v 0 calls).handed)
        × (Refuses filldir
              (calls + length ((au_vdir_fill_de filldir v 0 calls).handed))
              (left ((au_vdir_fill_de filldir v 0 calls).vdir))
            ⊎ (map (λ d. d.de_name) ((au_vdir_fill_de filldir v 0 calls).handed)
                ≡ merged (bend + 1 - bstart) bstart files (λ _. false)))
  au_vdir_init-fill_de s filldir calls closed empty ok =
      let shown = merged (bend + 1 - bstart) bstart files (λ _. false) in
      let (v, has, (listed, block, sizes, named)) =
        au_vdir_init-HasBlocks k time_after rdcache bstart bend files (Lists shown) s closed empty
          reads-Lists ok in
      let (all, taken, end) =
        au_vdir_fill_de-listing filldir v calls block sizes (λ i lt. named i) in
      let r = au_vdir_fill_de filldir v 0 calls in
      (
        v,
        has,
        sym (map-append (λ d. d.de_name) (r.handed) (left (r.vdir)))
            ∙ ap (map (λ d. d.de_name)) all
            ∙ listed,
        taken,
        elim end [
          | inl refused ↦ inl refused
          | inr whole ↦ inr (ap (map (λ d. d.de_name)) whole ∙ listed)
        ],
      )
