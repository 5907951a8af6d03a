-- ===== src/Aufs/Branches/Ids.antt =====
-- au_new_br_id (aufs/fs/aufs/sbinfo.c): the loop ends, and the id is new.
use kernel_patches.Base.{
  ℕ, zero, suc, ◌+◌, ◌%◌, ◌^◌, ◌<◌, ◌≡◌, ◌≢◌, inl, inr, subst, Bool, true, false, not, ◌&&◌, Option,
  none, some, Bool-cases, Option-cases, ◌==◌, first_up_lem, IsLowest, next, next_injective,
  pigeonhole, arith,
}
use native.Mathlib.Nat.{mod-lt}
use kernel_patches.Aufs.Branches.{
  BrInfo, SbInfo, has_id, au_br_index, is_index, new_id, au_new_br_id,
}

pub au_br_index_found :
    (sb : SbInfo) (id i : ℕ)
    → au_br_index sb id ≡ some i
    → (i < sb.nbranch) × (has_id id (sb.si_branch i) ≡ true)
unfolding au_br_index
au_br_index_found sb id i e =
    let p : ℕ → Bool = λ b. has_id id (sb.si_branch b) in
    let low : IsLowest p 0 sb.nbranch (some i) =
      subst (IsLowest p 0 sb.nbranch) e (first_up_lem p sb.nbranch 0 sb.nbranch (omega arith)) in
    (low.1, low.2)

pub au_br_index-none :
    (sb : SbInfo) (id i : ℕ)
    → au_br_index sb id ≡ none
    → i < sb.nbranch
    → has_id id (sb.si_branch i) ≡ false
unfolding au_br_index
au_br_index-none sb id i e l =
    let p : ℕ → Bool = λ b. has_id id (sb.si_branch b) in
    let low : IsLowest p 0 sb.nbranch none =
      subst (IsLowest p 0 sb.nbranch) e (first_up_lem p sb.nbranch 0 sb.nbranch (omega arith)) in
    low i (omega arith) l

pub has_id_unique : (a b : ℕ) (br : Option BrInfo) → has_id a br ≡ true → has_id b br ≡ true → a ≡ b
has_id_unique a b br e f = ground arith

-- An id is taken when it is 0 or that of a branch.
abbrev is_taken : SbInfo → ℕ → Bool
is_taken sb id = not (not (id == 0) && not (is_index (au_br_index sb id)))

-- The place that makes an id taken: its branch's index, or the number of branches for 0.
abbrev place : SbInfo → ℕ → ℕ
place sb id = elim (au_br_index sb id) [ none ↦ sb.nbranch | some i ↦ i ]

place_lt : (sb : SbInfo) (id : ℕ) → place sb id < sb.nbranch + 1
place_lt sb id = elim (Option-cases (au_br_index sb id)) [
  | inl e ↦ rw (place, e) (omega arith)
  | inr (i, e) ↦ let l = au_br_index_found sb id i e in rw (place, e) (omega (arith, l.0))
]

place_injective :
    (sb : SbInfo) (a b : ℕ)
    → is_taken sb a ≡ true
    → is_taken sb b ≡ true
    → place sb a ≡ place sb b
    → a ≡ b
place_injective sb a b ta tb e = elim (Option-cases (au_br_index sb a)) [
  | inl ea ↦ elim (Option-cases (au_br_index sb b)) [
    | inl eb ↦ ground arith
    | inr (j, eb) ↦ let l = au_br_index_found sb b j eb in ground (arith, l)
  ]
  | inr (i, ea) ↦
      let k = au_br_index_found sb a i ea in
      elim (Option-cases (au_br_index sb b)) [
        | inl eb ↦ ground (arith, k)
        | inr (j, eb) ↦
            let l = au_br_index_found sb b j eb in
            let same : i ≡ j = ground arith in has_id_unique a b (sb.si_branch i) k.1 (rw same l.1)
      ]
]

-- Without an answer, all the ids that the loop tried are taken.
new_id-none :
    (w : ℕ) (sb : SbInfo) (fuel last : ℕ)
    → new_id w sb fuel last ≡ none
    → (k : ℕ) → k < fuel
    → is_taken sb (next (2 ^ w) k last) ≡ true
unfolding new_id
new_id-none w sb zero last e k h = absurd (omega arith)
new_id-none w sb (suc fuel) last e zero h = ground arith
new_id-none w sb (suc fuel) last e (suc k) h =
    new_id-none w sb fuel ((last + 1) % 2 ^ w) (ground arith) k (omega arith)

new_id-some :
    (w : ℕ) (sb : SbInfo) (fuel last id : ℕ)
    → zero < 2 ^ w
    → new_id w sb fuel last ≡ some id
    → (is_taken sb id ≡ false) × (id < 2 ^ w)
unfolding new_id
new_id-some w sb zero last id l e = absurd (ground arith)
new_id-some w sb (suc fuel) last id l e = elim (Bool-cases (is_taken sb ((last + 1) % 2 ^ w))) [
  | inl t ↦ new_id-some w sb fuel ((last + 1) % 2 ^ w) id l (ground arith)
  | inr f ↦
      let same : (last + 1) % 2 ^ w ≡ id = ground arith in
      (subst (λ x. is_taken sb x ≡ false) same f, ground (arith, mod-lt (last + 1) l))
]

-- The id that au_new_br_id gives.
pub record IsNewId (w : ℕ) (sb : SbInfo) (id : ℕ) : Type 0 where
  pub nonzero : id ≢ 0
  pub word : id < 2 ^ w
  pub unused : (i : ℕ) → i < sb.nbranch → has_id id (sb.si_branch i) ≡ false

taken-IsNewId :
    (w : ℕ) (sb : SbInfo) (id : ℕ) → (is_taken sb id ≡ false) × (id < 2 ^ w) → IsNewId w sb id
taken-IsNewId w sb id (f, l) = record {
  nonzero = ground arith;
  word = l;
  unused = λ i. au_br_index-none sb id i (ground arith);
}

pub au_new_br_id-IsNewId :
    (w : ℕ) (sb : SbInfo) (id : ℕ)
    → sb.nbranch + 1 < 2 ^ w
    → au_new_br_id w sb ≡ some id
    → IsNewId w sb id
unfolding au_new_br_id
au_new_br_id-IsNewId w sb id l e =
    taken-IsNewId w sb id (new_id-some w sb (sb.nbranch + 2) sb.si_last_br_id id (omega arith) e)

-- As long as the branches and 0 leave a word of `w` bits over, au_new_br_id's loop ends within one
-- round per branch and two more, whatever id it starts from: it returns an id of `w` bits that is
-- not 0 and that no branch has.
pub au_new_br_id_lem :
    (w : ℕ) (sb : SbInfo)
    → sb.nbranch + 1 < 2 ^ w
    → (id : ℕ) × (au_new_br_id w sb ≡ some id) × IsNewId w sb id
unfolding au_new_br_id
au_new_br_id_lem w sb l = elim (Option-cases (au_new_br_id w sb)) [
  | inr (id, e) ↦ (id, e, au_new_br_id-IsNewId w sb id l e)
  | inl e ↦
      let m = 2 ^ w in
      let last = sb.si_last_br_id in
      let taken = new_id-none w sb (sb.nbranch + 2) last e in
      absurd (
        pigeonhole (sb.nbranch + 1) (λ k. place sb (next m k last))
          (λ i j a b same. next_injective m last i j (omega arith) (omega arith) (
            place_injective sb (next m i last) (next m j last) (taken i (omega arith))
              (taken j (omega arith)) same))
          (λ k a. place_lt sb (next m k last)))
]
