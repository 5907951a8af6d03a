-- ===== src/Aufs/Xino/Unique.antt =====
-- The numbers that the xino files give: au_ino of aufs/fs/aufs/vdir.c over aufs/fs/aufs/xino.c. An
-- inode has its number in the file of each branch that has it, and the roots of the branches have
-- AUFS_ROOT_INO, which the bitmap does not count.
use kernel_patches.Base.{
  ℕ, ◌+◌, ◌^◌, ◌≤◌, ◌≡◌, ◌≢◌, ◌⊎◌, max, inl, inr, sym, ap, subst, ◌∙◌, Bool, true, false, ◌&&◌,
  ◌||◌, some, Bool-cases, ◌==◌, if◌then◌else◌, update, arith,
}
use kernel_patches.Aufs.Xino.{
  XinoInfo, aufs_first_ino, au_xino_read, au_xino_write, au_xino_do_write, au_xino_new_ino, au_ino,
}
use kernel_patches.Aufs.Xino.Bitmap.{held, IsXib, SameFiles, SameXib}
use kernel_patches.Aufs.Xino.Numbers.{in_use, same-in_use, Assigned, au_xino_new_ino_lem}

-- Every number from AUFS_FIRST_INO on in a xino file is in use.
pub record IsNumbered (s : XinoInfo) : Type 0 where
  pub xib : IsXib s
  pub used : (f h : ℕ) → aufs_first_ino ≤ s.xi_entries f h → in_use s (s.xi_entries f h) ≡ true
  pub beyond : (f h : ℕ) → s.xi_size f ≤ h → s.xi_entries f h ≡ 0

-- One entry of one file is written.
abbrev pub put_entry : (ℕ → ℕ → ℕ) → (file h_ino ino : ℕ) → ℕ → ℕ → ℕ
put_entry e file h_ino ino = update e file (update (e file) h_ino ino)

pub put_entry-eq :
    (e : ℕ → ℕ → ℕ) (file h_ino ino f h : ℕ)
    → put_entry e file h_ino ino f h ≡ (if (file == f) && (h_ino == h) then ino else e f h)
unfolding update
put_entry-eq e file h_ino ino f h = ground arith

module _ (io : ℕ → Bool) (s : XinoInfo) (v : IsNumbered s) (opt : s.opt_xino ≡ true) where
  pub read-SameXib : (b h : ℕ) → SameXib s (au_xino_read io s b h).1
  unfolding au_xino_read held
  read-SameXib b h = record {
    valid = record {
      last_lt = ground (arith, v.xib.last_lt);
      beyond = λ p k l. ground (arith, v.xib.beyond p k);
    };
    same = λ p k. ground arith;
    files = ground arith;
  }

  read-npages : (b h : ℕ) → (au_xino_read io s b h).1.xib_npages ≡ s.xib_npages
  unfolding au_xino_read
  read-npages b h = ground arith

  -- What is read is the entry.
  pub read_lem :
      (b h old : ℕ) → (au_xino_read io s b h).0 ≡ some old → old ≡ s.xi_entries (s.xi_file b) h
  unfolding au_xino_read
  read_lem b h old e = ground (arith, v.beyond (s.xi_file b) h)

-- A write that succeeds.
pub write_lem :
    (io : ℕ → Bool) (s : XinoInfo) (b h ino : ℕ)
    → s.opt_xino ≡ true
    → (au_xino_write io s b h ino).0 ≡ true
    → let t = (au_xino_write io s b h ino).1 in
      (t ≡ record s {
        xi_entries = put_entry s.xi_entries (s.xi_file b) h ino;
        xi_size = update s.xi_size (s.xi_file b) (max (s.xi_size (s.xi_file b)) (h + 1));
        io_calls = s.io_calls + 1;
      })
unfolding au_xino_write au_xino_do_write
write_lem io s b h ino opt e = ground arith

pub entry-eq : {s t : XinoInfo} → SameFiles s t → (f h : ℕ) → t.xi_entries f h ≡ s.xi_entries f h
entry-eq k f h = ap (λ (e : ℕ → ℕ → ℕ). e f h) k.entries

pub size-eq : {s t : XinoInfo} → SameFiles s t → (f : ℕ) → t.xi_size f ≡ s.xi_size f
size-eq k f = ap (λ (e : ℕ → ℕ). e f) k.sizes

pub SameXib-IsNumbered : (s t : XinoInfo) → IsNumbered s → SameXib s t → IsNumbered t
SameXib-IsNumbered s t v k = record {
  xib = k.valid;
  used = λ f h l.
      ap (in_use t) (entry-eq k.files f h)
      ∙ same-in_use s t k (s.xi_entries f h)
      ∙ v.used f h (omega (arith, l, entry-eq k.files f h));
  beyond = λ f h l. entry-eq k.files f h ∙ v.beyond f h (omega (arith, l, size-eq k.files f));
}

-- A number that was free becomes the entry of an inode that had none.
module _ (s t : XinoInfo) (v : IsNumbered s) (n : ℕ) (a : Assigned s n t)
    (file h_ino calls : ℕ) where
  abbrev written : XinoInfo
  written = record t {
    xi_entries = put_entry t.xi_entries file h_ino n;
    xi_size = update t.xi_size file (max (t.xi_size file) (h_ino + 1));
    io_calls = calls;
  }

  written-entry :
      (f h : ℕ)
      → written.xi_entries f h ≡ (if (file == f) && (h_ino == h) then n else s.xi_entries f h)
  written-entry f h =
      put_entry-eq t.xi_entries file h_ino n f h
      ∙ ap (λ x. if (file == f) && (h_ino == h) then n else x) (entry-eq a.files f h)

  pub written-in_use : (m : ℕ) → aufs_first_ino ≤ m → in_use written m ≡ (n == m || in_use s m)
  unfolding in_use held
  written-in_use m l = a.used m l

  -- An old entry is not the new number.
  pub not_old : (f h : ℕ) → s.xi_entries f h ≢ n
  not_old f h e = cc (ap (in_use s) e, v.used f h (let low = a.low in omega (arith, e)), a.free)

  entry_cases :
      (f h : ℕ)
      → (file ≡ f) × (h_ino ≡ h) × (written.xi_entries f h ≡ n)
        ⊎ (written.xi_entries f h ≡ s.xi_entries f h)
  entry_cases f h = elim (Bool-cases ((file == f) && (h_ino == h))) [
    | inl y ↦ inl (ground arith, ground arith, written-entry f h ∙ rw y)
    | inr other ↦ inr (written-entry f h ∙ rw other)
  ]

  written_used :
      (f h : ℕ)
      → aufs_first_ino ≤ written.xi_entries f h
      → in_use written (written.xi_entries f h) ≡ true
  written_used f h l = elim (entry_cases f h) [
    | inl (_, _, e) ↦ ap (in_use written) e ∙ written-in_use n a.low ∙ ground arith
    | inr e ↦
        let old : aufs_first_ino ≤ s.xi_entries f h = omega (arith, l, e) in
        ap (in_use written) e
        ∙ written-in_use (s.xi_entries f h) old
        ∙ ground (arith, v.used f h old)
  ]

  pub written-IsNumbered : IsNumbered written
  unfolding update
  written-IsNumbered = record {
    xib = record { last_lt = a.valid.last_lt; beyond = a.valid.beyond };
    used = written_used;
    beyond = λ f h l. ground (arith, written-entry f h, v.beyond f h, size-eq a.files f);
  }

module _ (io : ℕ → Bool) (s : XinoInfo) (b h iunique : ℕ) (opt : s.opt_xino ≡ true) where
  -- What au_ino does where it succeeds.
  au_ino_cases :
      (n : ℕ)
      → (au_ino io s b h iunique).0 ≡ some n
      → let r = au_xino_read io s b h in
        let m = au_xino_new_ino io r.1 iunique in
        let w = au_xino_write io m.1 b h n in
        ((r.0 ≡ some n) × (n ≢ 0) × ((au_ino io s b h iunique).1 ≡ r.1))
        ⊎ ((r.0 ≡ some 0)
            × (m.0 ≡ some n)
            × (n ≢ 0)
            × (w.0 ≡ true)
            × ((au_ino io s b h iunique).1 ≡ w.1))
  unfolding au_ino
  au_ino_cases n e = ground arith

-- The inode has this number already, or it had none and this is a new one that was free and that no
-- entry was.
abbrev pub IsGiven : (s t : XinoInfo) → (b h n : ℕ) → Type 0
IsGiven s t b h n =
    (s.xi_entries (s.xi_file b) h ≡ n)
    ⊎ ((s.xi_entries (s.xi_file b) h ≡ 0)
        × (aufs_first_ino ≤ n)
        × (in_use s n ≡ false)
        × (in_use t n ≡ true)
        × ((f g : ℕ) → s.xi_entries f g ≢ n))

-- For xino files in which every number from AUFS_FIRST_INO on is in use in the bitmap, at most
-- 2 ^ 16 pages of bitmap, and the mount option xino: when au_ino succeeds it gives a number that is
-- not 0, which is then the inode's entry; the other entries stay as they are, and every number from
-- AUFS_FIRST_INO on in the files is again in use. Either the number was the inode's entry before,
-- or the inode had no entry, and the number is at least AUFS_FIRST_INO, was free and is in use now,
-- and was no inode's entry in any of the files.
pub au_ino-IsNumbered :
    (io : ℕ → Bool) (s : XinoInfo) (b h iunique n : ℕ)
    → IsNumbered s
    → s.opt_xino ≡ true
    → s.xib_npages ≤ 2 ^ 16
    → (au_ino io s b h iunique).0 ≡ some n
    → let t = (au_ino io s b h iunique).1 in
      IsNumbered t
      × (n ≢ 0)
      × ((f g : ℕ)
          → t.xi_entries f g ≡ (if (s.xi_file b == f) && (h == g) then n else s.xi_entries f g))
      × IsGiven s t b h n
au_ino-IsNumbered io s b h iunique n v opt small e = elim (au_ino_cases io s b h iunique opt n e) [
  | inl (at_r, ne, is) ↦
      let k = read-SameXib io s v opt b h in
      let same = sym (read_lem io s v opt b h n at_r) in
      subst Result (sym is) (
        SameXib-IsNumbered s r v k,
        ne,
        λ f g. ground (arith, entry-eq k.files f g, same),
        inl same,
      )
  | inr (at_r, at_m, ne, wrote, is) ↦
      let k = read-SameXib io s v opt b h in
      let a : Assigned r n m = assigned k at_m ne in
      let u = SameXib-IsNumbered s r v k in
      let old : m.xi_file b ≡ s.xi_file b =
        ap (λ (e : ℕ → ℕ). e b) a.files.file ∙ ap (λ (e : ℕ → ℕ). e b) k.files.file in
      let file = m.xi_file b in
      let calls = m.io_calls + 1 in
      subst Result (sym (is ∙ write_lem io m b h n (a.files.opt ∙ k.files.opt ∙ opt) wrote)) (
        written-IsNumbered r m u n a file h calls,
        ne,
        λ f g. written-entry r m u n a file h calls f g ∙ ground (arith, entry-eq k.files f g, old),
        inr (
          sym (read_lem io s v opt b h 0 at_r),
          a.low,
          sym (same-in_use s r k n) ∙ a.free,
          written-in_use r m u n a file h calls n a.low ∙ ground arith,
          λ f g q. not_old r m u n a file h calls f g (entry-eq k.files f g ∙ q),
        ),
      )
]
  where
    r : XinoInfo
    r = (au_xino_read io s b h).1

    m : XinoInfo
    m = (au_xino_new_ino io r iunique).1

    assigned : SameXib s r → (au_xino_new_ino io r iunique).0 ≡ some n → n ≢ 0 → Assigned r n m
    assigned k at_m ne =
        elim (au_xino_new_ino_lem io r iunique k.valid (k.files.opt ∙ opt)
          (omega (arith, read-npages io s v opt b h, small))) [
            | inl z ↦ let no_number : n ≡ 0 = ground (arith, z, at_m) in absurd (ne no_number)
            | inr (i, at_i, a) ↦
                let same : i ≡ n = ground (arith, at_i, at_m) in subst (λ j. Assigned r j m) same a
          ]

    Result : XinoInfo → Type 0
    Result t =
        IsNumbered t
        × (n ≢ 0)
        × ((f g : ℕ)
            → t.xi_entries f g ≡ (if (s.xi_file b == f) && (h == g) then n else s.xi_entries f g))
        × IsGiven s t b h n
