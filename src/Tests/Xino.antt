-- ===== src/Tests/Xino.antt =====
-- Inode numbers: two branches with a bitmap of one page, their roots with the number AUFS_ROOT_INO,
-- and the inode 5 of both with one number.
use kernel_patches.Base.{
  ℕ, ◌≤◌, ◌≡◌, ◌≢◌, ◌⊎◌, refl, Bool, true, false, ◌&&◌, some, ◌==◌, ltb, if◌then◌else◌, arith,
}
use kernel_patches.Aufs.Xino.{
  XinoInfo, aufs_first_ino, au_xino_read, au_xino_do_write, au_xino_write, au_xino_new_ino,
  au_xino_write0, au_ino, xib_pindex, xib_calc_ino, xib_calc_bit,
}
use kernel_patches.Aufs.Xino.Bitmap.{IsXib, held}
use kernel_patches.Aufs.Xino.Numbers.{
  in_use, Assigned, xib_calc_bit-xib_calc_ino, au_xino_new_ino_lem,
}
use kernel_patches.Aufs.Xino.Unique.{IsNumbered, IsGiven, au_ino-IsNumbered}
use kernel_patches.Aufs.Xino.Release.{au_xino_write0-IsNumbered}
use kernel_patches.Aufs.Xino.Lost.{IsFull, au_xino_new_ino_again}

abbrev no_numbers : XinoInfo
no_numbers = record {
  opt_xino = true;
  xib_buf = λ _. false;
  xib_last_pindex = 0;
  xib_next_bit = 0;
  xib_pages = λ _ _. false;
  xib_npages = 1;
  xi_file = λ b. b;
  xi_entries = λ _ _. 0;
  xi_size = λ _. 0;
  io_calls = 0;
}

no_numbers-IsXib : IsXib no_numbers
no_numbers-IsXib = record { last_lt = omega arith; beyond = λ p k h. refl }

abbrev works : ℕ → Bool
works n = true

-- The first call works, the others fail.
abbrev first_works : ℕ → Bool
first_works n = n == 0

xib_calc_bit-xib_calc_ino_example :
    (xib_calc_bit (xib_calc_ino 1 5) ≡ (1, 5))
    × (xib_calc_ino (xib_calc_bit 40000).0 (xib_calc_bit 40000).1 ≡ 40000)
xib_calc_bit-xib_calc_ino_example =
    xib_calc_bit-xib_calc_ino 1 5 40000 (omega arith) (omega arith) (omega arith) (omega arith)

au_xino_new_ino_lem_example :
    ((au_xino_new_ino works no_numbers 0).0 ≡ some 0)
    ⊎ ((n : ℕ) × ((au_xino_new_ino works no_numbers 0).0 ≡ some n)
        × Assigned no_numbers n (au_xino_new_ino works no_numbers 0).1)
au_xino_new_ino_lem_example =
    au_xino_new_ino_lem works no_numbers 0 no_numbers-IsXib refl (omega arith)

-- The roots have the number 2, and a directory that both branches have has 11.
abbrev mounted : XinoInfo
mounted = record no_numbers {
  xib_buf = λ i. i == 0;
  xi_entries = λ f h. if ltb f 2 && (h == 2) then 2 else if ltb f 2 && (h == 5) then 11 else 0;
  xi_size = λ f. if ltb f 2 then 6 else 0;
}

mounted-IsNumbered : IsNumbered mounted
unfolding in_use held xib_calc_bit
mounted-IsNumbered = record {
  xib = record { last_lt = omega arith; beyond = λ p k h. refl };
  used = λ f h l. ground arith;
  beyond = λ f h l. ground arith;
}

abbrev next_number : ℕ
next_number = 12

gives_next : (au_ino works mounted 0 7 0).0 ≡ some 12
unfolding au_ino au_xino_read au_xino_new_ino kernel_patches.Aufs.Xino.search_xib xib_calc_ino
    au_xino_write au_xino_do_write kernel_patches.Aufs.Xino.find_first_zero_bit
    kernel_patches.Base.first_up
gives_next = refl

au_ino-IsNumbered_example :
    IsNumbered (au_ino works mounted 0 7 0).1
    × (next_number ≢ 0)
    × ((f g : ℕ)
        → (au_ino works mounted 0 7 0).1.xi_entries f g
          ≡ (if (0 == f) && (7 == g) then next_number else mounted.xi_entries f g))
    × IsGiven mounted (au_ino works mounted 0 7 0).1 0 7 next_number
au_ino-IsNumbered_example =
    au_ino-IsNumbered works mounted 0 7 0 next_number mounted-IsNumbered refl (omega arith)
      gives_next

-- The inode 7 of branch 0 has the number 12.
abbrev one_more : XinoInfo
one_more = record mounted {
  xib_buf = λ i. ltb i 2;
  xi_entries = λ f h. if (f == 0) && (h == 7) then 12 else mounted.xi_entries f h;
  xi_size = λ f. if f == 0 then 8 else if f == 1 then 6 else 0;
}

one_more-IsNumbered : IsNumbered one_more
unfolding in_use held xib_calc_bit
one_more-IsNumbered = record {
  xib = record { last_lt = omega arith; beyond = λ p k h. refl };
  used = λ f h l. ground arith;
  beyond = λ f h l. ground arith;
}

frees : (au_xino_write0 works one_more 0 7 12).0 ≡ true
unfolding au_xino_write0 kernel_patches.Aufs.Xino.clear_ino xib_pindex xib_calc_bit au_xino_write
    au_xino_do_write
frees = refl

au_xino_write0-IsNumbered_example :
    IsNumbered (au_xino_write0 works one_more 0 7 12).1
    × (in_use (au_xino_write0 works one_more 0 7 12).1 12 ≡ false)
    × ((f g : ℕ)
        → (au_xino_write0 works one_more 0 7 12).1.xi_entries f g
          ≡ (if (0 == f) && (7 == g) then 0 else one_more.xi_entries f g))
au_xino_write0-IsNumbered_example =
    au_xino_write0-IsNumbered works one_more 0 7 12 one_more-IsNumbered refl (omega arith)
      (λ f g q. (ground arith, ground arith)) frees

abbrev all_used : XinoInfo
all_used = record no_numbers { xib_buf = λ _. true }

all_used-IsFull : IsFull all_used
all_used-IsFull = record { opt = refl; page = refl; npages = refl; full_page = λ k lt. refl }

au_xino_new_ino_again_example :
    ((au_xino_new_ino first_works all_used 0).0 ≡ some 0)
    × (n : ℕ) × ((au_xino_new_ino first_works (au_xino_new_ino first_works all_used 0).1 0).0
        ≡ some n)
    × (aufs_first_ino ≤ n)
    × (in_use all_used n ≡ true)
au_xino_new_ino_again_example =
    au_xino_new_ino_again first_works all_used 0 all_used-IsFull refl refl
