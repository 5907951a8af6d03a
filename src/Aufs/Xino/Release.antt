-- ===== src/Aufs/Xino/Release.antt =====
-- Inode numbers that are given up by au_xino_write0.
use kernel_patches.Base.{
  ℕ, ◌+◌, ◌≤◌, ◌≡◌, ◌≢◌, max, sym, ap, subst, ◌∙◌, Bool, true, false, not, ◌&&◌, ◌==◌,
  if◌then◌else◌, update, arith,
}
use kernel_patches.Aufs.Xino.{
  XinoInfo, aufs_first_ino, au_xino_write, xib_pindex, xib_calc_bit, clear_ino, au_xino_write0,
}
use kernel_patches.Aufs.Xino.Bitmap.{held, IsXib, SameFiles, xib_pindex_lem, Switched}
use kernel_patches.Aufs.Xino.Numbers.{in_use, same-in_use, set_bit-in_use}
use kernel_patches.Aufs.Xino.Unique.{
  IsNumbered, put_entry, put_entry-eq, write_lem, entry-eq, size-eq,
}

-- A number that was in use and is free.
record Freed (s : XinoInfo) (n : ℕ) (t : XinoInfo) : Type 0 where
  valid : IsXib t
  files : SameFiles s t
  used : (m : ℕ) → aufs_first_ino ≤ m → in_use t m ≡ (not (n == m) && in_use s m)

clear_ino_lem :
    (io : ℕ → Bool) (s : XinoInfo) (n : ℕ)
    → IsXib s
    → aufs_first_ino ≤ n
    → (clear_ino io s n).0 ≡ true
    → Freed s n (clear_ino io s n).1
unfolding clear_ino
clear_ino_lem io s n v low e = subst (Freed s n) (sym is) (record {
  valid = record { last_lt = sw.kept.valid.last_lt; beyond = sw.kept.valid.beyond };
  files = record {
    opt = sw.kept.files.opt;
    file = sw.kept.files.file;
    entries = sw.kept.files.entries;
    sizes = sw.kept.files.sizes;
  };
  used = λ m l.
      set_bit-in_use t n false (xib_calc_bit n).1 low (sym sw.here) m l
      ∙ ground (arith, same-in_use s t sw.kept m);
})
  where
    t : XinoInfo
    t = (xib_pindex io s (xib_calc_bit n).0).1

    ok : (xib_pindex io s (xib_calc_bit n).0).0 ≡ true
    ok = ground arith

    sw : Switched s (xib_calc_bit n).0 t
    sw = xib_pindex_lem io s (xib_calc_bit n).0 v ok

    is : (clear_ino io s n).1 ≡ record t {
      xib_buf = update t.xib_buf (xib_calc_bit n).1 false;
      xib_next_bit = (xib_calc_bit n).1;
    }
    is = ground arith

-- The inode's entry is cleared after its number.
module _ (s t : XinoInfo) (v : IsNumbered s) (n : ℕ) (a : Freed s n t) (file h_ino calls : ℕ)
    (only : (f h : ℕ) → s.xi_entries f h ≡ n → (f ≡ file) × (h ≡ h_ino)) where
  abbrev erased : XinoInfo
  erased = record t {
    xi_entries = put_entry t.xi_entries file h_ino 0;
    xi_size = update t.xi_size file (max (t.xi_size file) (h_ino + 1));
    io_calls = calls;
  }

  erased-entry :
      (f h : ℕ)
      → erased.xi_entries f h ≡ (if (file == f) && (h_ino == h) then 0 else s.xi_entries f h)
  erased-entry f h =
      put_entry-eq t.xi_entries file h_ino 0 f h
      ∙ ap (λ x. if (file == f) && (h_ino == h) then 0 else x) (entry-eq a.files f h)

  erased-in_use : (m : ℕ) → aufs_first_ino ≤ m → in_use erased m ≡ (not (n == m) && in_use s m)
  unfolding in_use held
  erased-in_use m l = a.used m l

  -- A number that is left is an old one, and not the one given up.
  left :
      (f h : ℕ)
      → erased.xi_entries f h ≢ 0
      → (erased.xi_entries f h ≡ s.xi_entries f h) × (s.xi_entries f h ≢ n)
  left f h old =
      let same : erased.xi_entries f h ≡ s.xi_entries f h = ground (arith, erased-entry f h) in
      (
        same,
        λ e.
            let (is_file, is_h) = only f h e in
            old (erased-entry f h ∙ ground (arith, is_file, is_h)),
      )

  erased-IsNumbered : IsNumbered erased
  unfolding update
  erased-IsNumbered = record {
    xib = record { last_lt = a.valid.last_lt; beyond = a.valid.beyond };
    used = λ f h l.
        let (same, other) = left f h (λ z. absurd (omega (arith, l, z))) in
        let before : aufs_first_ino ≤ s.xi_entries f h = omega (arith, l, same) in
        ap (in_use erased) same
        ∙ erased-in_use (s.xi_entries f h) before
        ∙ ground (arith, v.used f h before, other);
    beyond = λ f h l. ground (arith, erased-entry f h, v.beyond f h, size-eq a.files f);
  }

-- For xino files in which every number from AUFS_FIRST_INO on is in use in the bitmap, and such a
-- number that is the entry of no inode but one: when au_xino_write0 succeeds with this inode and
-- number, the number is free, the inode has no entry, the other inodes keep theirs, and every
-- number from AUFS_FIRST_INO on in the files is again in use.
pub au_xino_write0-IsNumbered :
    (io : ℕ → Bool) (s : XinoInfo) (b h n : ℕ)
    → IsNumbered s
    → s.opt_xino ≡ true
    → aufs_first_ino ≤ n
    → ((f g : ℕ) → s.xi_entries f g ≡ n → (f ≡ s.xi_file b) × (g ≡ h))
    → (au_xino_write0 io s b h n).0 ≡ true
    → let t = (au_xino_write0 io s b h n).1 in
      IsNumbered t
      × (in_use t n ≡ false)
      × ((f g : ℕ)
          → t.xi_entries f g ≡ (if (s.xi_file b == f) && (h == g) then 0 else s.xi_entries f g))
unfolding au_xino_write0
au_xino_write0-IsNumbered io s b h n v opt low only e =
    subst Result (sym (is ∙ write_lem io t b h 0 (a.files.opt ∙ opt) wrote)) (
      erased-IsNumbered s t v n a (t.xi_file b) h (t.io_calls + 1) only_t,
      erased-in_use s t v n a (t.xi_file b) h (t.io_calls + 1) only_t n low ∙ ground arith,
      λ f g.
          erased-entry s t v n a (t.xi_file b) h (t.io_calls + 1) only_t f g ∙ ground (arith, file),
    )
  where
    t : XinoInfo
    t = (clear_ino io s n).1

    ok : (clear_ino io s n).0 ≡ true
    ok = ground arith

    wrote : (au_xino_write io t b h 0).0 ≡ true
    wrote = ground arith

    is : (au_xino_write0 io s b h n).1 ≡ (au_xino_write io t b h 0).1
    is = ground arith

    a : Freed s n t
    a = clear_ino_lem io s n v.xib low ok

    file : t.xi_file b ≡ s.xi_file b
    file = ap (λ (e : ℕ → ℕ). e b) a.files.file

    only_t : (f g : ℕ) → s.xi_entries f g ≡ n → (f ≡ t.xi_file b) × (g ≡ h)
    only_t f g q = ((only f g q).0 ∙ sym file, (only f g q).1)

    Result : XinoInfo → Type 0
    Result t =
        IsNumbered t
        × (in_use t n ≡ false)
        × ((f g : ℕ)
            → t.xi_entries f g ≡ (if (s.xi_file b == f) && (h == g) then 0 else s.xi_entries f g))
