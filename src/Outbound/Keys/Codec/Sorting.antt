-- ===== src/Outbound/Keys/Codec/Sorting.antt =====
-- `sortBytewise` of internal/outbound/keys/codec.go gives one order to one collection of members.
use mathlib.Core.Logic.{∥∥₁_elim}
use mathlib.Core.List.{Permᴰ, is_set}
use mathlib.Core.List.Perm
use mathlib.Core.List.Permᴰ
use native.Mathlib.Nat.{ℕ_set}
use tokayops.Prelude.{
  suc, length, All, ◌≡◌, refl, sym, subst, ◌∙◌, ◌⊎◌, inl, inr, true, false, List, [], ◌∷◌, Perm,
  Bytes, if◌then◌else◌, arith,
}
use tokayops.Outbound.Keys.Codec.{is_before, insert_bytewise, sort_bytewise}

abbrev Compared : Bytes → Bytes → Type 0
Compared a b =
    (a ≡ b)
    ⊎ ((is_before a b ≡ true) × (is_before b a ≡ false))
    ⊎ ((is_before a b ≡ false) × (is_before b a ≡ true))

compare_bytes : (a b : Bytes) → Compared a b
unfolding is_before
compare_bytes [] [] = inl refl
compare_bytes [] (b ∷ t) = inr (inl (refl, refl))
compare_bytes (a ∷ s) [] = inr (inr (refl, refl))
compare_bytes (a ∷ s) (b ∷ t) = let rest = compare_bytes s t in ground arith

is_before_irrefl : (a : Bytes) → is_before a a ≡ false
unfolding is_before
is_before_irrefl [] = refl
is_before_irrefl (a ∷ s) = let rest = is_before_irrefl s in ground arith

is_before_trans :
    (a b c : Bytes) → is_before a b ≡ true → is_before b c ≡ true → is_before a c ≡ true
unfolding is_before
is_before_trans a b [] ab bc = ground arith
is_before_trans a [] (z ∷ c) ab bc = ground arith
is_before_trans [] (y ∷ b) (z ∷ c) ab bc = refl
is_before_trans (x ∷ a) (y ∷ b) (z ∷ c) ab bc = let rest = is_before_trans a b c in ground arith

insert_bytewise_comm :
    (a b : Bytes) (members : List Bytes)
    → insert_bytewise a (insert_bytewise b members) ≡ insert_bytewise b (insert_bytewise a members)
unfolding insert_bytewise
insert_bytewise_comm a b [] = let order = compare_bytes a b in ground arith
insert_bytewise_comm a b (c ∷ members) =
    let rest = insert_bytewise_comm a b members in
    let ab = compare_bytes a b in
    let ca = compare_bytes c a in
    let cb = compare_bytes c b in
    let acb = is_before_trans a c b in let bca = is_before_trans b c a in ground arith

sort_bytewise-permᴰ : {xs ys : List Bytes} → Permᴰ xs ys → sort_bytewise xs ≡ sort_bytewise ys
unfolding sort_bytewise
sort_bytewise-permᴰ Permᴰ.nil = refl
sort_bytewise-permᴰ (Permᴰ.cons e d) = λ i. insert_bytewise (e i) (sort_bytewise-permᴰ d i)
sort_bytewise-permᴰ (Permᴰ.swap {a = x} {b = y} {l = l} e f) =
    (λ i. insert_bytewise (e i) (insert_bytewise (f i) (sort_bytewise l)))
    ∙ insert_bytewise_comm _ _ (sort_bytewise l)
sort_bytewise-permᴰ (Permᴰ.trans d e) = sort_bytewise-permᴰ d ∙ sort_bytewise-permᴰ e

pub sort_bytewise-perm : {xs ys : List Bytes} → Perm xs ys → sort_bytewise xs ≡ sort_bytewise ys
sort_bytewise-perm d = ∥∥₁_elim d (is_set (is_set ℕ_set) _ _) sort_bytewise-permᴰ

insert_bytewise-Permᴰ :
    (a : Bytes) (members : List Bytes) → Permᴰ (insert_bytewise a members) (a ∷ members)
unfolding insert_bytewise
insert_bytewise-Permᴰ a [] = Permᴰ.cons refl (Permᴰ.nil)
insert_bytewise-Permᴰ a (c ∷ members) =
    let behind = insert_bytewise-Permᴰ a members in
    elim (is_before c a)
      as (λ earlier.
        Permᴰ (if earlier then c ∷ insert_bytewise a members else a ∷ c ∷ members)
          (a ∷ c ∷ members)) [
            | true ↦ Permᴰ.trans (Permᴰ.cons refl behind) (Permᴰ.swap refl refl)
            | false ↦ Permᴰ.refl (a ∷ c ∷ members)
          ]

sort_bytewise-Permᴰ : (members : List Bytes) → Permᴰ (sort_bytewise members) members
unfolding sort_bytewise
sort_bytewise-Permᴰ [] = Permᴰ.nil
sort_bytewise-Permᴰ (a ∷ members) =
    Permᴰ.trans (insert_bytewise-Permᴰ a (sort_bytewise members))
      (Permᴰ.cons refl (sort_bytewise-Permᴰ members))

-- Members that sort alike are the same members, in one order or another.
pub perm-sort_bytewise : (xs ys : List Bytes) → sort_bytewise xs ≡ sort_bytewise ys → Perm xs ys
perm-sort_bytewise xs ys same =
    let back = ∣ Permᴰ.symm (sort_bytewise-Permᴰ xs) ∣₁ in
    let over : Perm (sort_bytewise xs) ys =
      subst (λ sorted. Perm sorted ys) (sym same) ∣ sort_bytewise-Permᴰ ys ∣₁ in
    Perm.trans back over

module _ {κ} (P : Bytes → Type κ) where
  insert_bytewise-All :
      (a : Bytes) (members : List Bytes) → P a → All P members → All P (insert_bytewise a members)
  unfolding insert_bytewise
  insert_bytewise-All a [] pa _ = (pa, tt)
  insert_bytewise-All a (c ∷ members) pa (pc, ps) =
      elim (is_before c a)
        as (λ earlier. All P (if earlier then c ∷ insert_bytewise a members else a ∷ c ∷ members)) [
          | true ↦ (pc, insert_bytewise-All a members pa ps)
          | false ↦ (pa, (pc, ps))
        ]

  pub sort_bytewise-All : (members : List Bytes) → All P members → All P (sort_bytewise members)
  unfolding sort_bytewise
  sort_bytewise-All [] _ = tt
  sort_bytewise-All (a ∷ members) (pa, ps) =
      insert_bytewise-All a (sort_bytewise members) pa (sort_bytewise-All members ps)

length-insert_bytewise :
    (a : Bytes) (members : List Bytes) → length (insert_bytewise a members) ≡ suc (length members)
unfolding insert_bytewise
length-insert_bytewise a [] = refl
length-insert_bytewise a (c ∷ members) =
    let behind = length-insert_bytewise a members in ground arith

pub length-sort_bytewise : (members : List Bytes) → length (sort_bytewise members) ≡ length members
unfolding sort_bytewise
length-sort_bytewise [] = refl
length-sort_bytewise (a ∷ members) =
    let behind = length-sort_bytewise members in
    omega (arith, length-insert_bytewise a (sort_bytewise members))
