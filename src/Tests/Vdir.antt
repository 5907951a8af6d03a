-- ===== src/Tests/Vdir.antt =====
-- A merged directory: branch 0 has the names a and .wh.b, branch 1 has a, b and c.
use kernel_patches.Base.{
  map, inl, inr, Bool-cases, ℕ, ◌+◌, ◌≤◌, ◌<◌, ◌≡◌, ◌⊎◌, refl, Bool, true, false, Option, none,
  some, List, [], ◌∷◌, ◌++◌, length, ◌==◌, if◌then◌else◌, arith,
}
use kernel_patches.Aufs.Xino.{XinoInfo}
use kernel_patches.Aufs.Vdir.{
  De, Vdir, HEntry, HDir, done, batch, au_size_deblk, set_deblk_end, calc_size,
}
use kernel_patches.Aufs.Vdir.Read.{Reading, ReadEnv, append_de, au_do_read_vdir}
use kernel_patches.Aufs.Vdir.Blocks.{listing}
use kernel_patches.Aufs.Vdir.Merge.{merged, branch_contents, listed_names}
use kernel_patches.Aufs.Vdir.Listing.{au_do_read_vdir-merged}
use kernel_patches.Aufs.Vdir.Success.{readable, au_do_read_vdir-succeeds}
use kernel_patches.Aufs.Vdir.Bounds.{IsMarked, block_size, append_de-IsMarked}
use kernel_patches.Aufs.Vdir.Cache.{DirFile, au_vdir_init}
use kernel_patches.Aufs.Vdir.Open.{au_vdir_init-succeeds}
use kernel_patches.Aufs.Vdir.Kept.{AllNames}
use kernel_patches.Aufs.Vdir.Readable.{IsName}
use kernel_patches.Aufs.Vdir.Readdir.{au_vdir_init-fill_de}
use kernel_patches.Aufs.Vdir.Fill.{au_vdir_fill_de, calc_offset}
use kernel_patches.Aufs.Vdir.Asked.{Takes, Refuses}
use kernel_patches.Aufs.Vdir.Resume.{left, IsOpen, au_vdir_fill_de-Resumes}
use kernel_patches.Aufs.Vdir.Rewind.{au_vdir_fill_de-listing}

abbrev numbers : XinoInfo
numbers = record {
  opt_xino = false;
  xib_buf = λ _. false;
  xib_last_pindex = 0;
  xib_next_bit = 0;
  xib_pages = λ _ _. false;
  xib_npages = 1;
  xi_file = λ b. b;
  xi_entries = λ _ _. 0;
  xi_size = λ _. 0;
  io_calls = 0;
}

abbrev env : ReadEnv
env = record {
  full_name_hash = λ name. length name;
  kmalloc = λ _. true;
  io = λ _. true;
  iunique = 7;
  jiffies = 100;
}

abbrev entry : List ℕ → HEntry
entry name = record { h_name = name; h_ino = 3; d_type = 8 }

abbrev upper : HDir
upper = batch (entry (97 ∷ []) ∷ entry (46 ∷ 119 ∷ 104 ∷ 46 ∷ 98 ∷ []) ∷ []) done

abbrev lower : HDir
lower = batch (entry (97 ∷ []) ∷ entry (98 ∷ []) ∷ entry (99 ∷ []) ∷ []) done

abbrev dirs : ℕ → Option HDir
dirs b = if b == 0 then some upper else if b == 1 then some lower else none

abbrev one_block : Vdir
one_block = record {
  vd_deblk = λ _. [];
  vd_nblk = 1;
  vd_last_i = 0;
  vd_last_p = 0;
  vd_version = 0;
  vd_jiffy = 0;
}

-- The merge lists a and c.
merges : merged 2 0 dirs (λ _. false) ≡ (97 ∷ []) ∷ (99 ∷ []) ∷ []
unfolding kernel_patches.Aufs.Vdir.wh_target kernel_patches.Aufs.Vdir.name_eq
merges = refl

dirs-readable : (c : ℕ) (h : HDir) → dirs c ≡ some h → readable h ≡ true
dirs-readable c h e = ground arith

reads : (au_do_read_vdir env one_block numbers 0 false 0 1 dirs).0 ≡ true
reads =
    au_do_read_vdir-succeeds env (λ n. refl) refl one_block numbers 0 0 1 dirs dirs-readable refl

au_do_read_vdir-merged_example :
    listed_names ((au_do_read_vdir env one_block numbers 0 false 0 1 dirs).1.vdir)
    ≡ merged 2 0 dirs (λ _. false)
au_do_read_vdir-merged_example =
    au_do_read_vdir-merged env one_block numbers 0 0 1 dirs (omega arith) reads

abbrev closed_file : DirFile
closed_file = record {
  i_version = 1;
  ivdir = none;
  f_pos = 0;
  f_version = 0;
  fvdir_cache = none;
  xino = numbers;
  allocs = 0;
}

-- A caller that takes all entries.
abbrev takes_all : ℕ → De → Bool
takes_all calls d = true

abbrev never : ℕ → ℕ → Bool
never a b = false

opens : (au_vdir_init env never 10 false 0 1 dirs closed_file).0 ≡ true
opens =
    au_vdir_init-succeeds env never 10 0 1 dirs (λ n. refl) refl closed_file refl refl refl
      dirs-readable

au_vdir_init-succeeds_example : (au_vdir_init env never 10 false 0 1 dirs closed_file).0 ≡ true
au_vdir_init-succeeds_example =
    au_vdir_init-succeeds env never 10 0 1 dirs (λ n. refl) refl closed_file refl refl refl
      dirs-readable

letter-IsName : (x : ℕ) → IsName (x ∷ [])
letter-IsName x = (omega arith, omega arith)

dirs-AllNames : (c : ℕ) → AllNames IsName (branch_contents (dirs c))
dirs-AllNames c = elim (Bool-cases (c == 0)) [
  | inl zeroth ↦ rw zeroth ((letter-IsName 97, ((omega arith, omega arith), tt)))
  | inr other ↦ elim (Bool-cases (c == 1)) [
    | inl first ↦ rw (other, first) ((letter-IsName 97, (letter-IsName 98, (letter-IsName 99, tt))))
    | inr rest ↦ rw (other, rest) tt
  ]
]

au_vdir_init-fill_de_example :
    (v : Vdir) × ((au_vdir_init env never 10 false 0 1 dirs closed_file).1.fvdir_cache ≡ some v)
    × (map (λ d. d.de_name) ((au_vdir_fill_de takes_all v 0 0).handed)
          ++ map (λ d. d.de_name) (left ((au_vdir_fill_de takes_all v 0 0).vdir))
        ≡ merged 2 0 dirs (λ _. false))
    × Takes takes_all 0 ((au_vdir_fill_de takes_all v 0 0).handed)
    × (Refuses takes_all
          (0 + length ((au_vdir_fill_de takes_all v 0 0).handed))
          (left ((au_vdir_fill_de takes_all v 0 0).vdir))
        ⊎ (map (λ d. d.de_name) ((au_vdir_fill_de takes_all v 0 0).handed)
            ≡ merged 2 0 dirs (λ _. false)))
au_vdir_init-fill_de_example =
    au_vdir_init-fill_de env never 10 0 1 dirs dirs-AllNames closed_file takes_all 0 refl refl opens

abbrev reading : Reading
reading = record {
  vdir = one_block;
  delist = λ _ _. [];
  whlist = λ _ _. [];
  xino = numbers;
  allocs = 0;
}

one_block-IsMarked : IsMarked one_block
unfolding set_deblk_end calc_size
one_block-IsMarked =
    (record { has_block = omega arith; sizes = λ i lt. omega arith; last = refl }, refl)

abbrev de_a : De
de_a = record { de_ino = 7; de_type = 8; de_name = 97 ∷ [] }

appends : (append_de env reading 0 de_a).0 ≡ true
unfolding append_de kernel_patches.Aufs.Vdir.Read.make_room calc_size
    kernel_patches.Aufs.Vdir.Read.end_block set_deblk_end kernel_patches.Aufs.Vdir.Read.place_de
appends = refl

append_de-IsMarked_example : IsMarked ((append_de env reading 0 de_a).1.vdir)
append_de-IsMarked_example =
    append_de-IsMarked env reading 0 de_a (omega arith) one_block-IsMarked appends

-- One entry, and a caller that takes one.
abbrev one_entry : Vdir
one_entry = record one_block { vd_deblk = λ _. de_a ∷ [] }

abbrev takes_one : ℕ → De → Bool
takes_one calls d = calls == 0

one_entry-sizes : (i : ℕ) → i < 1 → block_size (de_a ∷ []) ≤ au_size_deblk
unfolding calc_size
one_entry-sizes i lt = omega arith

one_entry-IsOpen : IsOpen one_entry 0
unfolding calc_offset
one_entry-IsOpen = record {
  sizes = one_entry-sizes;
  named = λ i lt. (omega arith, tt);
  index = omega arith;
  position = refl;
}

au_vdir_fill_de-Resumes_example :
    ((au_vdir_fill_de takes_one one_entry 0 0).handed
        ++ left ((au_vdir_fill_de takes_one one_entry 0 0).vdir)
      ≡ left one_entry)
    × IsOpen
        ((au_vdir_fill_de takes_one one_entry 0 0).vdir)
        ((au_vdir_fill_de takes_one one_entry 0 0).pos)
    × Takes takes_one 0 ((au_vdir_fill_de takes_one one_entry 0 0).handed)
    × (Refuses takes_one
          (0 + length ((au_vdir_fill_de takes_one one_entry 0 0).handed))
          (left ((au_vdir_fill_de takes_one one_entry 0 0).vdir))
        ⊎ (left ((au_vdir_fill_de takes_one one_entry 0 0).vdir) ≡ []))
au_vdir_fill_de-Resumes_example = au_vdir_fill_de-Resumes takes_one one_entry 0 0 one_entry-IsOpen

au_vdir_fill_de-listing_example :
    ((au_vdir_fill_de takes_one one_entry 0 0).handed
        ++ left ((au_vdir_fill_de takes_one one_entry 0 0).vdir)
      ≡ listing one_entry)
    × Takes takes_one 0 ((au_vdir_fill_de takes_one one_entry 0 0).handed)
    × (Refuses takes_one
          (0 + length ((au_vdir_fill_de takes_one one_entry 0 0).handed))
          (left ((au_vdir_fill_de takes_one one_entry 0 0).vdir))
        ⊎ ((au_vdir_fill_de takes_one one_entry 0 0).handed ≡ listing one_entry))
au_vdir_fill_de-listing_example =
    au_vdir_fill_de-listing takes_one one_entry 0 (omega arith) one_entry-sizes
      (one_entry-IsOpen.named)
