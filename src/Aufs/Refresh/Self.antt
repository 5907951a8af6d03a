-- ===== src/Aufs/Refresh/Self.antt =====
-- What au_refresh_hinode_self (aufs/fs/aufs/inode.c) makes of an inode.
use kernel_patches.Base.{
  ℕ, ◌+◌, ◌*◌, ◌<◌, ◌≡◌, ◌⊎◌, inl, inr, refl, ap, sym, ◌∙◌, max, Bool, true, false, not, ◌&&◌,
  Option, none, some, ◌==◌, ltb, if◌then◌else◌, Bool-cases, eq-cases, arith,
}
use kernel_patches.Aufs.Iinfo.{HInode, IInfo, au_update_brange}
use kernel_patches.Aufs.Iinfo.Range.{IsTightInode, au_update_brange_lem}
use kernel_patches.Aufs.Branches.{SbInfo, Error, enomem, au_br_index}
use kernel_patches.Aufs.Branches.Ids.{au_br_index_found, has_id_unique}
use kernel_patches.Aufs.Refresh.{
  Walk, InodeState, au_kzrealloc, refresh_from, au_refresh_hinode_self,
}
use kernel_patches.Aufs.Refresh.Rounds.{IsWalk}
use kernel_patches.Aufs.Refresh.Loop.{measure_le, refresh_loop_lem}

-- An inode with a range outside of which it has no hidden inode, and no two on a branch.
pub record IsRefreshable (d : IInfo) : Type 0 where
  pub start : ℕ
  pub end : ℕ
  pub bstart : d.bstart ≡ some start
  pub bend : d.bend ≡ some end
  pub before : (j : ℕ) → j < start → d.hinode j ≡ none
  pub after : (j : ℕ) → end < j → d.hinode j ≡ none
  pub unique :
      (i j : ℕ) (g h : HInode)
      → d.hinode i ≡ some g
      → d.hinode j ≡ some h
      → g.hi_id ≡ h.hi_id
      → i ≡ j

-- Every hidden inode whose branch is still there is at the branch's index, and nothing else is
-- anywhere; the range is tight; the version of a directory tells whether one went.
pub record IsRefreshed (sb : SbInfo) (ino t : InodeState) : Type 0 where
  pub kept :
      (i k : ℕ) (h : HInode)
      → ino.iinfo.hinode i ≡ some h
      → au_br_index sb h.hi_id ≡ some k
      → t.iinfo.hinode k ≡ some h
  pub only :
      (j : ℕ) (h : HInode)
      → t.iinfo.hinode j ≡ some h
      → (au_br_index sb h.hi_id ≡ some j) × ((i : ℕ) × (ino.iinfo.hinode i ≡ some h))
  pub last : ℕ
  pub tight : IsTightInode last t.iinfo
  pub beyond : (j : ℕ) → last < j → t.iinfo.hinode j ≡ none
  pub version :
      ((t.i_version ≡ ino.i_version)
        × ((ino.isdir ≡ false)
            ⊎ ((i : ℕ) (h : HInode)
                → ino.iinfo.hinode i ≡ some h
                → (k : ℕ) × (au_br_index sb h.hi_id ≡ some k))))
      ⊎ ((t.i_version ≡ ino.i_version + 1)
          × (ino.isdir ≡ true)
          × ((i : ℕ) × (h : HInode) × (ino.iinfo.hinode i ≡ some h)
              × (au_br_index sb h.hi_id ≡ none)))
  pub generation : t.ii_generation ≡ sb.si_generation
  pub same_kind : t.isdir ≡ ino.isdir

pub brange-hinode : (d : IInfo) (i : ℕ) → (au_update_brange d false).hinode i ≡ d.hinode i
unfolding au_update_brange
brange-hinode d i = ground arith

kzrealloc_lem :
    (f : ℕ → Option HInode) (e n : ℕ)
    → ((j : ℕ) → e < j → f j ≡ none)
    → (j : ℕ) → au_kzrealloc f (e + 1) n j ≡ f j
unfolding au_kzrealloc
kzrealloc_lem f e n after j = ground (arith, after j)

module _ (sb : SbInfo) (ino : InodeState) (v : IsRefreshable ino.iinfo) where
  abbrev place : HInode → Option ℕ
  place h = au_br_index sb h.hi_id

  place_lt : (h : HInode) (k : ℕ) → place h ≡ some k → k < sb.nbranch
  place_lt h k e = (au_br_index_found sb h.hi_id k e).0

  place_id : (g h : HInode) (k : ℕ) → place g ≡ some k → place h ≡ some k → g.hi_id ≡ h.hi_id
  place_id g h k e f =
      has_id_unique g.hi_id h.hi_id (sb.si_branch k) (au_br_index_found sb g.hi_id k e).1
        (au_br_index_found sb h.hi_id k f).1

  abbrev size : ℕ
  size = max (v.end + 1) sb.nbranch

  abbrev o : ℕ → Option HInode
  o = ino.iinfo.hinode

  abbrev walk : Walk
  walk = record {
    hinode = au_kzrealloc o (v.end + 1) sb.nbranch;
    first = v.start;
    last = v.end;
    bindex = v.start;
    update_count = 0;
  }

  same : (j : ℕ) → walk.hinode j ≡ o j
  same = kzrealloc_lem o v.end sb.nbranch v.after

  walk-IsWalk : IsWalk place o size walk
  walk-IsWalk = record {
    old = λ j h e. (j, sym (same j) ∙ e);
    kept = λ i k h e f. (i, same i ∙ e);
    unique = λ i j g h e f. v.unique i j g h (sym (same i) ∙ e) (sym (same j) ∙ f);
    settled = λ j h l e. absurd (ground (arith, same j, v.before j l));
    beyond = λ j l. same j ∙ v.after j l;
    inside = omega arith;
    complete = λ z i h e. (i, same i ∙ e);
    lost = λ z. absurd (z refl);
  }

  module _ (t : Walk) (w : IsWalk place o size t) (past : t.last < t.bindex) where
    abbrev ranged : IInfo
    ranged = record { bstart = some t.first; bend = some t.last; hinode = t.hinode }

    abbrev refreshed : InodeState
    refreshed = record {
      iinfo = au_update_brange ranged false;
      isdir = ino.isdir;
      i_version =
          if not (t.update_count == 0) && ino.isdir then ino.i_version + 1 else ino.i_version;
      ii_generation = sb.si_generation;
    }

    entry : (j : ℕ) → refreshed.iinfo.hinode j ≡ t.hinode j
    entry = brange-hinode ranged

    at_place : (j : ℕ) (h : HInode) → t.hinode j ≡ some h → place h ≡ some j
    at_place j h e = elim (Bool-cases (ltb t.last j)) [
      | inl l ↦ absurd (ground (arith, w.beyond j))
      | inr l ↦ w.settled j h (ground arith) e
    ]

    refreshed-IsRefreshed : IsRefreshed sb ino refreshed
    refreshed-IsRefreshed = record {
      kept = λ i k h e f.
          let (j, l) = w.kept i k h e f in
          let is : j ≡ k = ground (arith, at_place j h l) in entry k ∙ ap t.hinode (sym is) ∙ l;
      only = λ j h e. let e' = sym (entry j) ∙ e in (at_place j h e', w.old j h e');
      last = t.last;
      tight = (au_update_brange_lem ranged false t.first t.last refl refl).0;
      beyond = λ j l. entry j ∙ w.beyond j l;
      version = elim (Bool-cases ino.isdir) [
        | inr file ↦ inl (ground arith, inl file)
        | inl dir ↦ elim (eq-cases t.update_count 0) [
          | inl z ↦
              inl (
                ground arith,
                inr (λ i h e. let (j, l) = w.complete z i h e in (j, at_place j h l)),
              )
          | inr z ↦ inr (ground arith, dir, w.lost z)
        ]
      ];
      generation = refl;
      same_kind = refl;
    }

  refresh_from_lem :
      (fuel : ℕ)
      → 2 * size < fuel
      → (t : InodeState) × (refresh_from sb fuel ino v.start v.end ≡ some (none, t))
        × IsRefreshed sb ino t
  unfolding refresh_from
  refresh_from_lem fuel l =
      let (t, e, w, past) =
        refresh_loop_lem place o size (λ h k e. omega (arith, place_lt h k e)) place_id fuel walk
          walk-IsWalk
          (omega (
            arith,
            measure_le place o size (λ h k e. omega (arith, place_lt h k e)) place_id walk,
          )) in
      (refreshed t w past, rw (refresh_from, e) refl, refreshed-IsRefreshed t w past)

self_cases :
    (sb : SbInfo) (ino : InodeState) (fuel : ℕ) (alloc : Bool) (s e : ℕ)
    → ino.iinfo.bstart ≡ some s
    → ino.iinfo.bend ≡ some e
    → au_refresh_hinode_self sb fuel alloc ino ≡ (
        if ltb (e + 1) sb.nbranch && not alloc
        then some (some enomem, ino)
        else refresh_from sb fuel ino s e)
unfolding au_refresh_hinode_self
self_cases sb ino fuel alloc s e hs he = ground arith

-- For an inode with a range, outside of which it has no hidden inode, and no two hidden inodes on a
-- branch, fuel of more than twice the entries of the larger array is enough for the loop of
-- au_refresh_hinode_self. It fails only when the array has to grow and there is no memory, and
-- then changes nothing. Otherwise every hidden inode whose branch is in the super block stands at that
-- branch's index, no other is there, the range runs from the first to the last, and i_version is
-- raised exactly for a directory of which a hidden inode's branch was not found.
pub au_refresh_hinode_self_lem :
    (sb : SbInfo) (ino : InodeState) (fuel : ℕ) (alloc : Bool) (v : IsRefreshable ino.iinfo)
    → 2 * max (v.end + 1) sb.nbranch < fuel
    → (r : Option Error × InodeState) × (au_refresh_hinode_self sb fuel alloc ino ≡ some r)
      × (((r.0 ≡ some enomem) × (r.1 ≡ ino) × (alloc ≡ false) × (v.end + 1 < sb.nbranch))
          ⊎ ((r.0 ≡ none) × IsRefreshed sb ino r.1))
unfolding au_refresh_hinode_self
au_refresh_hinode_self_lem sb ino fuel alloc v l =
    elim (Bool-cases (ltb (v.end + 1) sb.nbranch && not alloc)) [
      | inl e ↦ (
        (some enomem, ino),
        self_cases sb ino fuel alloc v.start v.end v.bstart v.bend ∙ rw e refl,
        inl (refl, refl, ground arith, ground arith),
      )
      | inr e ↦
          let (t, f, w) = refresh_from_lem sb ino v fuel l in
          (
            (none, t),
            self_cases sb ino fuel alloc v.start v.end v.bstart v.bend ∙ rw e f,
            inr (refl, w),
          )
    ]
