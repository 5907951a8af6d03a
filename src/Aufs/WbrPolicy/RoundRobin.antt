-- ===== src/Aufs/WbrPolicy/RoundRobin.antt =====
-- The round-robin policy.
use kernel_patches.Base.{
  ℕ, zero, suc, ◌+◌, ◌-◌, ◌*◌, ◌/◌, ◌%◌, ◌^◌, ◌≤◌, ◌<◌, ◌≡◌, inl, inr, refl, ap, ◌∙◌, ◌↔◌, Bool,
  true, false, none, some, Option-cases, ◌==◌, if◌then◌else◌, Bool-cases, arith,
}
use native.Mathlib.Decide.{dec_lt}
use native.Mathlib.Nat.{mod-lt, mod-eq_of_lt, div-add-mod, mul-add-mod_self_left}
use kernel_patches.Aufs.{SuperBlock, DInfo}
use kernel_patches.Aufs.WbrPolicy.{
  writable, au_wbr_create_exp, rr_take, rr_loop, round_robin, au_wbr_create_rr, dec32,
}

-- A branch that the loop chooses may be written.
pub rr_loop-writable :
    (sb : SuperBlock) (isdir : Bool) (n next i : ℕ)
    → (rr_loop sb isdir n next).0 ≡ some i
    → (writable sb i ≡ true) × (i ≤ sb.bend)
unfolding rr_loop
rr_loop-writable sb isdir zero next i e = cc
rr_loop-writable sb isdir (suc n) next i e = elim (Bool-cases (writable sb bindex)) [
  | inl w ↦
      let same : bindex ≡ i = ground arith in
      rw (← same) (w, omega (arith, mod-lt u {m = sb.bend + 1} (omega arith)))
  | inr f ↦ rr_loop-writable sb isdir n next1 i (rw f at e)
]
  where
    taken : ℕ × ℕ
    taken = if isdir then (next, next) else rr_take next

    u : ℕ
    u = taken.0

    next1 : ℕ
    next1 = taken.1

    bindex : ℕ
    bindex = u % (sb.bend + 1)

-- One try for a file, away from the counter's end.
pub rr_loop_step :
    (sb : SuperBlock) (n next : ℕ)
    → 0 < next
    → next < 2 ^ 32
    → rr_loop sb false (suc n) next ≡ (
        if writable sb (next % (sb.bend + 1))
        then (some (next % (sb.bend + 1)), next - 1)
        else rr_loop sb false n (next - 1))
unfolding rr_loop
rr_loop_step sb n next h u =
    let z : (next == 0) ≡ false = ground arith in
    let d : dec32 next ≡ next - 1 = omega arith in rw (z, d)

rr_loop_failed :
    (sb : SuperBlock) (n next : ℕ)
    → suc n ≤ next
    → next < 2 ^ 32
    → (rr_loop sb false (suc n) next).0 ≡ none
    → (writable sb (next % (sb.bend + 1)) ≡ false) × ((rr_loop sb false n (next - 1)).0 ≡ none)
rr_loop_failed sb n next h u e = elim (Bool-cases (writable sb (next % (sb.bend + 1)))) [
  | inl w ↦ ground (arith, rr_loop_step sb n next (omega arith) u)
  | inr f ↦ (f, ground (arith, rr_loop_step sb n next (omega arith) u))
]

-- For a file, `n` tries that all fail have asked for the branches of `n` counter values in turn.
rr_loop_tried :
    (sb : SuperBlock) (n next : ℕ)
    → n ≤ next
    → next < 2 ^ 32
    → (rr_loop sb false n next).0 ≡ none
    → (t : ℕ) → t < n
    → writable sb ((next - t) % (sb.bend + 1)) ≡ false
rr_loop_tried sb zero next h u e t l = absurd (omega arith)
rr_loop_tried sb (suc n) next h u e zero l =
    let same : next - 0 ≡ next = omega arith in rw same (rr_loop_failed sb n next h u e).0
rr_loop_tried sb (suc n) next h u e (suc t) l =
    let same : next - suc t ≡ next - 1 - t = omega arith in
    rw same (
      rr_loop_tried sb n (next - 1) (omega arith) (omega arith) (rr_loop_failed sb n next h u e).1 t
        (omega arith))

-- For a directory each try asks for the same branch.
rr_loop_dir :
    (sb : SuperBlock) (n next : ℕ)
    → writable sb (next % (sb.bend + 1)) ≡ false
    → rr_loop sb true n next ≡ (none, next)
unfolding rr_loop
rr_loop_dir sb zero next e = refl
rr_loop_dir sb (suc n) next e = rw e (rr_loop_dir sb n next e)

mul_pred : (m q : ℕ) → 0 < q → m * q ≡ m * (q - 1) + m
mul_pred m zero h = absurd (omega arith)
mul_pred m (suc q) h = let e : suc q - 1 ≡ q = omega arith in rw e (omega arith)

-- Every branch is among as many consecutive counter values as there are branches.
residue : (m next j : ℕ) → j < m → m ≤ next + 1 → (t : ℕ) × (t < m) × ((next - t) % m ≡ j)
residue m next j h l = elim (dec_lt (next % m) j) [
  | no g ↦ (
    next % m - j,
    omega (arith, r_lt),
    ap (λ x. x % m) (back (omega arith)) ∙ mul-add-mod_self_left m (next / m) j ∙ mod-eq_of_lt h,
  )
  | yes g ↦ (
    next % m + m - j,
    omega (arith, r_lt),
    ap (λ x. x % m) (round g) ∙ mul-add-mod_self_left m (next / m - 1) j ∙ mod-eq_of_lt h,
  )
]
  where
    r_lt : next % m < m
    r_lt = mod-lt next (omega arith)

    split : m * (next / m) + next % m ≡ next
    split = div-add-mod next m

    back : j ≤ next % m → next - (next % m - j) ≡ m * (next / m) + j
    back g = omega (arith, split)

    pos : next % m < j → 0 < next / m
    pos g = elim (dec_lt 0 (next / m)) [
      | yes p ↦ p
      | no p ↦
          let z : next / m ≡ 0 = omega arith in
          let s : m * 0 + next % m ≡ next = rw z at split in absurd (omega arith)
    ]

    round : next % m < j → next - (next % m + m - j) ≡ m * (next / m - 1) + j
    round g = omega (arith, split, pos g, mul_pred m (next / m) (pos g))

round_robin-eq :
    (sb : SuperBlock) (isdir : Bool)
    → let r = rr_loop sb isdir (sb.bend + 1) sb.rr_next in
      round_robin sb isdir ≡ (r.0, record sb { rr_next = r.1 })
unfolding round_robin
round_robin-eq sb isdir = refl

-- The first of the tries, one for each branch.
first_try :
    (sb : SuperBlock) (isdir : Bool)
    → rr_loop sb isdir (sb.bend + 1) sb.rr_next ≡ rr_loop sb isdir (suc sb.bend) sb.rr_next
first_try sb isdir = ap (λ n. rr_loop sb isdir n sb.rr_next) (omega arith)

rr_loop_dir_hit :
    (sb : SuperBlock) (n next : ℕ)
    → writable sb (next % (sb.bend + 1)) ≡ true
    → rr_loop sb true (suc n) next ≡ (some (next % (sb.bend + 1)), next)
unfolding rr_loop
rr_loop_dir_hit sb n next w = rw w

module _ (sb : SuperBlock) (dentry parent : DInfo)
    (no_exp : au_wbr_create_exp sb dentry parent ≡ none) where
  rr-round_robin : (isdir : Bool) → au_wbr_create_rr sb dentry parent isdir ≡ round_robin sb isdir
  unfolding au_wbr_create_rr
  rr-round_robin isdir = ground arith

  -- Where no exception applies, for a file and a counter of at least the number of branches, below
  -- 2 ^ 32, round-robin fails exactly if every branch is read-only.
  pub au_wbr_create_rr_fails :
      sb.bend < sb.rr_next
      → sb.rr_next < 2 ^ 32
      → ((au_wbr_create_rr sb dentry parent false).0 ≡ none)
        ↔ ((j : ℕ) → j ≤ sb.bend → writable sb j ≡ false)
  au_wbr_create_rr_fails l u = rw (rr-round_robin false) (fails, none_left)
    where
      tries : ℕ
      tries = sb.bend + 1

      fails : (round_robin sb false).0 ≡ none → (j : ℕ) → j ≤ sb.bend → writable sb j ≡ false
      fails e j h =
          let (t, lt, at_j) = residue tries sb.rr_next j (omega arith) (omega arith) in
          let no_branch : (rr_loop sb false tries sb.rr_next).0 ≡ none = unfold round_robin in e in
          rw at_j at (rr_loop_tried sb tries sb.rr_next (omega arith) u no_branch t lt)

      none_left : ((j : ℕ) → j ≤ sb.bend → writable sb j ≡ false) → (round_robin sb false).0 ≡ none
      none_left all =
          ap (λ r. r.0) (round_robin-eq sb false)
          ∙ elim (Option-cases (rr_loop sb false tries sb.rr_next).0) [
            | inl e ↦ e
            | inr (i, e) ↦
                let (w, h) = rr_loop-writable sb false tries sb.rr_next i e in cc (w, all i h)
          ]

  -- Where no exception applies, round-robin chooses for a directory the branch that the counter
  -- names if it may be written, fails otherwise, whatever the other branches are, and leaves the
  -- super block as it is.
  pub au_wbr_create_rr_dir : au_wbr_create_rr sb dentry parent true ≡ (
    if writable sb (sb.rr_next % (sb.bend + 1)) then some (sb.rr_next % (sb.bend + 1)) else none,
    sb,
  )
  au_wbr_create_rr_dir =
      rr-round_robin true
      ∙ round_robin-eq sb true
      ∙ elim (Bool-cases (writable sb (sb.rr_next % (sb.bend + 1)))) [
        | inl w ↦ rw (first_try sb true, rr_loop_dir_hit sb sb.bend sb.rr_next w, w)
        | inr f ↦ rw (rr_loop_dir sb (sb.bend + 1) sb.rr_next f, f)
      ]

  -- Where no exception applies, for a file, a counter that is not 0 and below 2 ^ 32, and a writable
  -- branch that the counter names, round-robin chooses that branch and the counter goes down by one.
  pub au_wbr_create_rr_turn :
      0 < sb.rr_next
      → sb.rr_next < 2 ^ 32
      → writable sb (sb.rr_next % (sb.bend + 1)) ≡ true
      → au_wbr_create_rr sb dentry parent false
        ≡ (some (sb.rr_next % (sb.bend + 1)), record sb { rr_next = sb.rr_next - 1 })
  au_wbr_create_rr_turn h u w =
      rr-round_robin false
      ∙ round_robin-eq sb false
      ∙ rw (first_try sb false, rr_loop_step sb sb.bend sb.rr_next h u, w)
