-- ===== src/Aufs/Xino/Bitmap.antt =====
-- The bitmap of inode numbers: which pages and bits a switch of the page in memory keeps.
use kernel_patches.Base.{
  ℕ, ◌+◌, ◌≤◌, ◌<◌, max, ◌≡◌, inl, inr, refl, sym, subst, ◌∙◌, Bool, true, false, ◌==◌, Bool-cases,
  if◌then◌else◌, update, arith,
}
use kernel_patches.Aufs.Xino.{XinoInfo, write_xib, read_xib, load_xib, xib_pindex}

-- Whether the number of a page's bit is in use: the page in memory is newer than the file's.
unfoldable pub held : XinoInfo → (pindex bit : ℕ) → Bool
held s pindex bit = if pindex == s.xib_last_pindex then s.xib_buf bit else s.xib_pages pindex bit

-- The page in memory is one of the file's, and behind the file there is nothing.
pub record IsXib (s : XinoInfo) : Type 0 where
  pub last_lt : s.xib_last_pindex < s.xib_npages
  pub beyond : (p k : ℕ) → s.xib_npages ≤ p → s.xib_pages p k ≡ false

-- What does not concern the bitmap is the same.
pub record SameFiles (s t : XinoInfo) : Type 0 where
  pub opt : t.opt_xino ≡ s.opt_xino
  pub file : t.xi_file ≡ s.xi_file
  pub entries : t.xi_entries ≡ s.xi_entries
  pub sizes : t.xi_size ≡ s.xi_size

-- The same numbers are in use.
pub record SameXib (s t : XinoInfo) : Type 0 where
  pub valid : IsXib t
  pub same : (p k : ℕ) → held t p k ≡ held s p k
  pub files : SameFiles s t

pub SameFiles-trans : {s t u : XinoInfo} → SameFiles s t → SameFiles t u → SameFiles s u
SameFiles-trans a b = record {
  opt = b.opt ∙ a.opt;
  file = b.file ∙ a.file;
  entries = b.entries ∙ a.entries;
  sizes = b.sizes ∙ a.sizes;
}

pub SameXib-refl : (s : XinoInfo) → IsXib s → SameXib s s
SameXib-refl s v = record {
  valid = v;
  same = λ p k. refl;
  files = record { opt = refl; file = refl; entries = refl; sizes = refl };
}

pub SameXib-trans : {s t u : XinoInfo} → SameXib s t → SameXib t u → SameXib s u
SameXib-trans a b = record {
  valid = b.valid;
  same = λ p k. b.same p k ∙ a.same p k;
  files = SameFiles-trans a.files b.files;
}

pub held_beyond : (s : XinoInfo) → IsXib s → (p k : ℕ) → s.xib_npages ≤ p → held s p k ≡ false
unfolding held
held_beyond s v p k h = ground (arith, v.last_lt, v.beyond p k)

-- A switch of the page in memory that succeeds.
pub record Switched (s : XinoInfo) (pindex : ℕ) (t : XinoInfo) : Type 0 where
  pub kept : SameXib s t
  pub here : t.xib_last_pindex ≡ pindex
  pub npages : t.xib_npages ≡ max s.xib_npages (pindex + 1)

module _ (io : ℕ → Bool) where
  module _ (s : XinoInfo) (v : IsXib s) where
    -- The buffer is written back: the file's pages are then all that is in use.
    write_back_pages :
        (write_xib io s s.xib_last_pindex).0 ≡ true
        → (p k : ℕ) → (write_xib io s s.xib_last_pindex).1.xib_pages p k ≡ held s p k
    unfolding write_xib held update
    write_back_pages e p k = ground arith

    write_back_npages : (write_xib io s s.xib_last_pindex).1.xib_npages ≡ s.xib_npages
    unfolding write_xib
    write_back_npages = ground (arith, v.last_lt)

  -- The other page of the file is read, or made if the file ends before it.
  load_held :
      (s : XinoInfo) (pindex : ℕ)
      → ((p k : ℕ) → s.xib_npages ≤ p → s.xib_pages p k ≡ false)
      → (load_xib io s pindex).0 ≡ true
      → (p k : ℕ)
      → held (record ((load_xib io s pindex).1) { xib_last_pindex = pindex }) p k ≡ s.xib_pages p k
  unfolding load_xib read_xib write_xib held update
  load_held s pindex beyond e p k = ground (arith, beyond p k)

  load_beyond :
      (s : XinoInfo) (pindex : ℕ)
      → ((p k : ℕ) → s.xib_npages ≤ p → s.xib_pages p k ≡ false)
      → (load_xib io s pindex).0 ≡ true
      → IsXib (record ((load_xib io s pindex).1) { xib_last_pindex = pindex })
  unfolding load_xib read_xib write_xib update
  load_beyond s pindex beyond e = record {
    last_lt = ground arith;
    beyond = λ p k h. ground (arith, beyond p k);
  }

  write_SameFiles : (s : XinoInfo) (p : ℕ) → SameFiles s (write_xib io s p).1
  unfolding write_xib
  write_SameFiles s p = ground arith

  load_SameFiles :
      (s : XinoInfo) (p : ℕ) → SameFiles s (record ((load_xib io s p).1) { xib_last_pindex = p })
  unfolding load_xib read_xib write_xib
  load_SameFiles s p = ground arith

  load_npages :
      (s : XinoInfo) (p : ℕ)
      → (load_xib io s p).0 ≡ true
      → (load_xib io s p).1.xib_npages ≡ max s.xib_npages (p + 1)
  unfolding load_xib read_xib write_xib
  load_npages s p e = ground arith

  -- Both steps succeeded.
  two_steps :
      (s : XinoInfo) (pindex : ℕ)
      → (pindex == s.xib_last_pindex) ≡ false
      → (xib_pindex io s pindex).0 ≡ true
      → let w = write_xib io s s.xib_last_pindex in
        (w.0 ≡ true)
        × ((load_xib io w.1 pindex).0 ≡ true)
        × ((xib_pindex io s pindex).1
            ≡ record ((load_xib io w.1 pindex).1) { xib_last_pindex = pindex })
  unfolding xib_pindex
  two_steps s pindex ne e = ground arith

  pub xib_pindex_lem :
      (s : XinoInfo) (pindex : ℕ)
      → IsXib s
      → (xib_pindex io s pindex).0 ≡ true
      → Switched s pindex (xib_pindex io s pindex).1
  unfolding xib_pindex
  xib_pindex_lem s pindex v e = elim (Bool-cases (pindex == s.xib_last_pindex)) [
    | inl y ↦
        let is : (xib_pindex io s pindex).1 ≡ s = rw (y, xib_pindex) in
        subst (Switched s pindex) (sym is) (record {
          kept = SameXib-refl s v;
          here = ground arith;
          npages = ground (arith, v.last_lt);
        })
    | inr n ↦
        let w = write_xib io s s.xib_last_pindex in
        let t = (load_xib io w.1 pindex).1 in
        let (wrote, loaded, is) = two_steps s pindex n e in
        let beyond : (p k : ℕ) → w.1.xib_npages ≤ p → w.1.xib_pages p k ≡ false = λ p k h.
          write_back_pages s v wrote p k
          ∙ held_beyond s v p k (ground (arith, write_back_npages s v)) in
        subst (Switched s pindex) (sym is) (record {
          kept = record {
            valid = load_beyond w.1 pindex beyond loaded;
            same = λ p k. load_held w.1 pindex beyond loaded p k ∙ write_back_pages s v wrote p k;
            files =
                SameFiles-trans (write_SameFiles s s.xib_last_pindex) (load_SameFiles w.1 pindex);
          };
          here = refl;
          npages = ground (arith, load_npages w.1 pindex loaded, write_back_npages s v);
        })
  ]
