-- ===== src/Aufs/Vdir/Fill.antt =====
-- Handing over the entries of an open directory: calc_offset, seek_vdir and au_vdir_fill_de of
-- aufs/fs/aufs/vdir.c. `filldir` says whether the caller takes an entry, by the count of its calls.
use kernel_patches.Base.{
  ℕ, zero, suc, ◌+◌, ◌-◌, ◌*◌, ◌/◌, Bool, true, false, not, ◌&&◌, List, [], ◌∷◌, ◌++◌, length, ◌==◌,
  ltb, leb, if◌then◌else◌,
}
use kernel_patches.Aufs.Vdir.{De, Vdir, au_size_deblk, calc_size}

-- The entries of a block from an offset on, none if no entry starts there.
unfoldable pub entries_at : List De → ℕ → List De
entries_at [] p = []
entries_at (d ∷ ds) p =
    let rest = entries_at ds (p - calc_size (length d.de_name)) in
    if p == 0 then d ∷ ds else if ltb p (calc_size (length d.de_name)) then [] else rest

-- At an offset with these entries from there on.
unfoldable pub is_deblk_end : List De → (p : ℕ) → Bool
is_deblk_end rest p =
    if leb (calc_size 0) (au_size_deblk - p)
    then elim rest [ [] ↦ true | d ∷ ds ↦ length d.de_name == 0 ]
    else true

unfoldable pub calc_offset : Vdir → ℕ
calc_offset v = v.vd_last_p + au_size_deblk * v.vd_last_i

-- From the offset `p` of block `i` to the first entry that does not start before `f_pos`.
unfoldable pub seek_block : List De → (p i f_pos : ℕ) → List De × ℕ
seek_block [] p i f_pos = ([], p)
seek_block (d ∷ ds) p i f_pos =
    let rest = seek_block ds (p + calc_size (length d.de_name)) i f_pos in
    if not (is_deblk_end (d ∷ ds) p) && ltb (i * au_size_deblk + p) f_pos then rest else (d ∷ ds, p)

-- `n` blocks from `i` on.
unfoldable pub seek_blocks : Vdir → (n i f_pos : ℕ) → Bool × Vdir
seek_blocks v zero i f_pos = (false, v)
seek_blocks v (suc n) i f_pos =
    let (rest, p) = seek_block (v.vd_deblk i) 0 i f_pos in
    let next = seek_blocks v n (i + 1) f_pos in
    if is_deblk_end rest p then next else (true, record v { vd_last_i = i; vd_last_p = p })

unfoldable pub seek_vdir : Vdir → (f_pos : ℕ) → Bool × Vdir
seek_vdir v f_pos =
    let v1 : Vdir = record v { vd_last_i = 0; vd_last_p = 0 } in
    let i = f_pos / au_size_deblk in
    if f_pos == calc_offset v
    then (true, v)
    else if f_pos == 0
    then (true, v1)
    else if leb v.vd_nblk i
    then (false, v1)
    else seek_blocks v1 (v.vd_nblk - i) i f_pos

-- Where handing over is: `stopped` is whether filldir gave an error, `handed` and `calls` are what
-- the caller has taken and how often it was asked.
pub record Handing : Type 0 where
  pub stopped : Bool
  pub vdir : Vdir
  pub pos : ℕ
  pub handed : List De
  pub calls : ℕ

module _ (filldir : ℕ → De → Bool) where
  -- The entries of one block from the position on.
  unfoldable pub fill_block : List De → Handing → Handing
  fill_block [] h = h
  fill_block (d ∷ ds) h =
      let l = calc_size (length d.de_name) in
      let taken : Handing = record h {
        vdir = record (h.vdir) { vd_last_p = h.vdir.vd_last_p + l };
        pos = h.pos + l;
        handed = h.handed ++ (d ∷ []);
        calls = h.calls + 1;
      } in
      let rest = fill_block ds taken in
      if is_deblk_end (d ∷ ds) h.vdir.vd_last_p
      then h
      else if filldir h.calls d
      then rest
      else record h { stopped = true; calls = h.calls + 1 }

  -- The block at the position.
  unfoldable pub fill_last : Handing → Handing
  fill_last h = fill_block (entries_at (h.vdir.vd_deblk h.vdir.vd_last_i) h.vdir.vd_last_p) h

  unfoldable pub next_block : Handing → Handing
  next_block h =
      let i = h.vdir.vd_last_i + 1 in
      record h { vdir = record (h.vdir) { vd_last_i = i; vd_last_p = 0 }; pos = au_size_deblk * i }

  -- `n` is the number of blocks after the one at the position.
  unfoldable pub fill_blocks : (n : ℕ) → Handing → Handing
  fill_blocks zero h = fill_last h
  fill_blocks (suc n) h =
      let r = fill_last h in
      let rest = fill_blocks n (next_block r) in if r.stopped then r else rest

  unfoldable pub au_vdir_fill_de : Vdir → (f_pos calls : ℕ) → Handing
  au_vdir_fill_de v f_pos calls =
      let (valid, v1) = seek_vdir v f_pos in
      let start : Handing = record {
        stopped = false;
        vdir = v1;
        pos = f_pos;
        handed = [];
        calls = calls;
      } in
      if valid then fill_blocks (v.vd_nblk - 1 - v1.vd_last_i) start else start
