-- ===== src/Aufs/Refresh/Follow.antt =====
-- au_br_add and au_br_del (aufs/fs/aufs/branch.c), and then au_refresh_hinode_self
-- (aufs/fs/aufs/inode.c): hidden inodes follow their branches.
use kernel_patches.Base.{
  ℕ, ◌+◌, ◌<◌, ◌≡◌, ◌≢◌, inl, inr, refl, ap, sym, ◌∙◌, Bool, true, false, not, none, some, ◌==◌,
  ltb, if◌then◌else◌, Bool-cases, Option-cases, arith,
}
use kernel_patches.Aufs.{HDentry}
use kernel_patches.Aufs.Iinfo.{HInode, IInfo}
use kernel_patches.Aufs.Branches.{SbInfo, has_id, au_br_index}
use kernel_patches.Aufs.Branches.Ids.{au_br_index_found, au_br_index-none}
use kernel_patches.Aufs.Branches.Valid.{IsBranches}
use kernel_patches.Aufs.Branches.Add.{AddBranch}
use kernel_patches.Aufs.Branches.Add.Arrays.{moved_up}
use kernel_patches.Aufs.Branches.Add.Insert.{IsInserted}
use kernel_patches.Aufs.Branches.Delete.Remove.{IsRemoved, moved_down}
use kernel_patches.Aufs.Refresh.{InodeState}
use kernel_patches.Aufs.Refresh.Self.{IsRefreshed}

-- Every hidden inode is at its branch's index.
abbrev pub IsPlaced : SbInfo → IInfo → Type 0
IsPlaced sb d = (j : ℕ) (h : HInode) → d.hinode j ≡ some h → au_br_index sb h.hi_id ≡ some j

-- The index of a branch is where it stands.
index_there :
    (branch_max : ℕ) (sb : SbInfo) (id k : ℕ)
    → IsBranches branch_max sb
    → k < sb.nbranch
    → has_id id (sb.si_branch k) ≡ true
    → au_br_index sb id ≡ some k
index_there branch_max sb id k v l e = elim (Option-cases (au_br_index sb id)) [
  | inl n ↦ absurd (ground (arith, au_br_index-none sb id k n l))
  | inr (i, f) ↦
      let (small, g) = au_br_index_found sb id i f in
      let same = v.distinct i k small l (ground arith) in f ∙ ap some same
]

pub IsRefreshed-IsPlaced :
    (t : SbInfo) (ino out : InodeState) → IsRefreshed t ino out → IsPlaced t out.iinfo
IsRefreshed-IsPlaced t ino out w j h e = (w.only j h e).0

-- `to` is where an old index goes, if its branch `stays`.
module _ (branch_max : ℕ) (sb t : SbInfo) (v : IsBranches branch_max t) (stays : ℕ → Bool)
    (to : ℕ → ℕ) (to_lt : (i : ℕ) → i < sb.nbranch → stays i ≡ true → to i < t.nbranch)
    (to_branch : (i : ℕ) → i < sb.nbranch → stays i ≡ true → t.si_branch (to i) ≡ sb.si_branch i)
    (to_injective : (i j : ℕ) → stays i ≡ true → stays j ≡ true → to i ≡ to j → i ≡ j)
    (goes : (i k id : ℕ)
      → i < sb.nbranch
      → stays i ≡ false
      → has_id id (sb.si_branch i) ≡ true
      → k < t.nbranch
      → has_id id (t.si_branch k) ≡ false)
    (ino out : InodeState) (placed : IsPlaced sb ino.iinfo) (w : IsRefreshed t ino out) where
  follows :
      (i : ℕ) (h : HInode)
      → stays i ≡ true
      → ino.iinfo.hinode i ≡ some h
      → au_br_index t h.hi_id ≡ some (to i)
  follows i h s e =
      let (l, f) = au_br_index_found sb h.hi_id i (placed i h e) in
      index_there branch_max t h.hi_id (to i) v (to_lt i l s)
        (ap (has_id h.hi_id) (to_branch i l s) ∙ f)

  -- What is at a place now was at one that goes there.
  comes_from :
      (k : ℕ) (h : HInode)
      → out.iinfo.hinode k ≡ some h
      → (i : ℕ) × (ino.iinfo.hinode i ≡ some h) × (stays i ≡ true) × (to i ≡ k)
  comes_from k h e =
      let (at, (i, f)) = w.only k h e in
      let (l, g) = au_br_index_found sb h.hi_id i (placed i h f) in
      let (small, here) = au_br_index_found t h.hi_id k at in
      elim (Bool-cases (stays i)) [
        | inl s ↦ let to_i = follows i h s f in (i, f, s, ground arith)
        | inr s ↦ let other = goes i k h.hi_id l s g small in absurd (ground arith)
      ]

  moves : (i : ℕ) → stays i ≡ true → out.iinfo.hinode (to i) ≡ ino.iinfo.hinode i
  moves i s = elim (Option-cases (ino.iinfo.hinode i)) [
    | inr (h, e) ↦ w.kept i (to i) h e (follows i h s e) ∙ sym e
    | inl e ↦ elim (Option-cases (out.iinfo.hinode (to i))) [
      | inl f ↦ f ∙ sym e
      | inr (h, f) ↦
          let (j, g, sj, same) = comes_from (to i) h f in
          let is : j ≡ i = to_injective j i sj s same in
          let both : none ≡ some h = sym e ∙ ap (ino.iinfo.hinode) (sym is) ∙ g in
          absurd (ground (arith, both))
    ]
  ]

-- Nothing moves when the super block is the same.
pub same_moves :
    (sb : SbInfo) (ino out : InodeState)
    → IsPlaced sb ino.iinfo
    → IsRefreshed sb ino out
    → (j : ℕ) → out.iinfo.hinode j ≡ ino.iinfo.hinode j
same_moves sb ino out placed w j = elim (Option-cases (ino.iinfo.hinode j)) [
  | inr (h, e) ↦ w.kept j j h e (placed j h e) ∙ sym e
  | inl e ↦ elim (Option-cases (out.iinfo.hinode j)) [
    | inl f ↦ f ∙ sym e
    | inr (h, f) ↦
        let (at, (i, g)) = w.only j h f in
        let at' = placed i h g in
        let same : i ≡ j = ground arith in
        let both : none ≡ some h = sym e ∙ ap (ino.iinfo.hinode) (sym same) ∙ g in
        absurd (ground (arith, both))
  ]
]

-- The inode after an addition and a refresh: the place of the new branch is empty, the others' hidden
-- inodes have moved with them.
pub record FollowsUp (t : SbInfo) (b : ℕ) (d d' : IInfo) : Type 0 where
  pub placed : IsPlaced t d'
  pub moved : (i : ℕ) → d'.hinode (moved_up b i) ≡ d.hinode i
  pub vacant : d'.hinode b ≡ none

pub FollowsUp_lem :
    (branch_max w : ℕ) (sb t : SbInfo) (add : AddBranch) (v : IsBranches branch_max t)
    (n : IsInserted w sb add t) (ino out : InodeState)
    → IsPlaced sb ino.iinfo
    → IsRefreshed t ino out
    → FollowsUp t n.place ino.iinfo out.iinfo
FollowsUp_lem branch_max w sb t add v n ino out placed r =
    let b = n.place in
    let all : ℕ → Bool = λ i. true in
    let low : (i : ℕ) → i < sb.nbranch → all i ≡ true → moved_up b i < t.nbranch =
      λ i l s. ground (arith, n.more) in
    let branch : (i : ℕ)
        → i < sb.nbranch
        → all i ≡ true
        → t.si_branch (moved_up b i) ≡ sb.si_branch i =
      λ i l s. n.old_branch i l in
    let injective : (i j : ℕ) → all i ≡ true → all j ≡ true → moved_up b i ≡ moved_up b j → i ≡ j =
      λ i j si sj e. ground arith in
    let goes : (i k id : ℕ)
        → i < sb.nbranch
        → all i ≡ false
        → has_id id (sb.si_branch i) ≡ true
        → k < t.nbranch
        → has_id id (t.si_branch k) ≡ false =
      λ i k id l s. absurd (ground arith) in
    record {
      placed = IsRefreshed-IsPlaced t ino out r;
      moved = λ i.
          moves branch_max sb t v all (moved_up b) low branch injective goes ino out placed r i
            refl;
      vacant = elim (Option-cases (out.iinfo.hinode b)) [
        | inl e ↦ e
        | inr (h, e) ↦
            let (i, f, s, same) =
              comes_from branch_max sb t v all (moved_up b) low branch injective goes ino out placed
                r b h e in
            absurd (ground arith)
      ];
    }

-- The inode after a deletion and a refresh.
pub record FollowsDown (t : SbInfo) (b : ℕ) (d d' : IInfo) : Type 0 where
  pub placed : IsPlaced t d'
  pub moved : (i : ℕ) → i ≢ b → d'.hinode (moved_down b i) ≡ d.hinode i

pub FollowsDown_lem :
    (branch_max : ℕ) (sb t : SbInfo) (h_root : HDentry) (u : IsBranches branch_max sb)
    (v : IsBranches branch_max t) (n : IsRemoved sb h_root t) (ino out : InodeState)
    → IsPlaced sb ino.iinfo
    → IsRefreshed t ino out
    → FollowsDown t n.place ino.iinfo out.iinfo
FollowsDown_lem branch_max sb t h_root u v n ino out placed r =
    let b = n.place in
    let other : ℕ → Bool = λ i. not (i == b) in
    let low : (i : ℕ) → i < sb.nbranch → other i ≡ true → moved_down b i < t.nbranch =
      λ i l s. ground (arith, n.less, n.inside) in
    let branch : (i : ℕ)
        → i < sb.nbranch
        → other i ≡ true
        → t.si_branch (moved_down b i) ≡ sb.si_branch i =
      λ i l s. n.old_branch i l (ground arith) in
    let injective : (i j : ℕ)
        → other i ≡ true
        → other j ≡ true
        → moved_down b i ≡ moved_down b j
        → i ≡ j =
      λ i j si sj e. ground arith in
    let goes : (i k id : ℕ)
        → i < sb.nbranch
        → other i ≡ false
        → has_id id (sb.si_branch i) ≡ true
        → k < t.nbranch
        → has_id id (t.si_branch k) ≡ false =
      λ i k id l s e m. gone i k id l (ground arith) e m in
    record {
      placed = IsRefreshed-IsPlaced t ino out r;
      moved = λ i ne.
          moves branch_max sb t v other (moved_down b) low branch injective goes ino out placed r i
            (ground arith);
    }
  where
    gone :
        (i k id : ℕ)
        → i < sb.nbranch
        → i ≡ n.place
        → has_id id (sb.si_branch i) ≡ true
        → k < t.nbranch
        → has_id id (t.si_branch k) ≡ false
    gone i k id l e f m =
        let b = n.place in
        let j = if ltb k b then k else k + 1 in
        let back : moved_down b j ≡ k = ground arith in
        let small : j < sb.nbranch = ground (arith, n.less) in
        let same : t.si_branch k ≡ sb.si_branch j =
          ap t.si_branch (sym back) ∙ n.old_branch j small (ground arith) in
        elim (Bool-cases (has_id id (sb.si_branch j))) [
          | inr no_id ↦ ap (has_id id) same ∙ no_id
          | inl has ↦ let ij = u.distinct i j l small (ground arith) in absurd (ground arith)
        ]
