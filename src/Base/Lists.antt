-- ===== src/Base/Lists.antt =====
-- Lists measured by native numbers, quantifiers over lists, and their Boolean tests.
use Prim.Native.Nat.{ℕ, zero, suc, ◌<◌}
use mathlib.Core.Path.{◌≡◌, refl, subst, sym}
use mathlib.Core.Logic.{inl, inr}
use mathlib.Core.Bool.{Bool, true, false, ◌&&◌, ◌||◌}
use mathlib.Core.Option.{Option, none, some}
use mathlib.Core.List.{List, [], ◌∷◌, ◌++◌, Memᴰ}
use mathlib.Core.List.Memᴰ
use native.Mathlib.Omega.{arith}
use rmarace_bench.Base.Tests.{if◌then◌else◌, &&-eq-true, ||-eq-true}

module _ {ℓ} {A : Type ℓ} where
  abbrev pub length : List A → ℕ
  length [] = 0
  length (x ∷ xs) = suc (length xs)

  abbrev pub get_elem? : List A → ℕ → Option A
  get_elem? [] i = none
  get_elem? (x ∷ xs) zero = some x
  get_elem? (x ∷ xs) (suc i) = get_elem? xs i

  abbrev pub select : (A → Bool) → List A → List A
  select p [] = []
  select p (x ∷ xs) = let rest = select p xs in if p x then x ∷ rest else rest

  unfoldable pub all : (A → Bool) → List A → Bool
  all p [] = true
  all p (x ∷ xs) = p x && all p xs

  unfoldable pub any : (A → Bool) → List A → Bool
  any p [] = false
  any p (x ∷ xs) = p x || any p xs

  pub all_mem : (p : A → Bool) (xs : List A) → all p xs ≡ true → {a : A} → Memᴰ a xs → p a ≡ true
  unfolding all
  all_mem p [] h m = absurd (Memᴰ.not-nil m)
  all_mem p (x ∷ xs) h m = elim (Memᴰ.cases_cons m) [
    | inl e ↦ subst (λ y. p y ≡ true) (sym e) (&&-eq-true (p x) (all p xs) h).0
    | inr r ↦ all_mem p xs (&&-eq-true (p x) (all p xs) h).1 r
  ]

  pub any_mem : (p : A → Bool) (xs : List A) → any p xs ≡ true → (a : A) × Memᴰ a xs × (p a ≡ true)
  unfolding any
  any_mem p [] h = cc
  any_mem p (x ∷ xs) h = elim (||-eq-true (p x) (any p xs) h) [
    | inl e ↦ (x, Memᴰ.head refl, e)
    | inr r ↦ let (a, m, e) = any_mem p xs r in (a, Memᴰ.tail m, e)
  ]

module _ {ℓ κ} {A : Type ℓ} {B : Type κ} where
  abbrev pub concat_map : (A → List B) → List A → List B
  concat_map f [] = []
  concat_map f (x ∷ xs) = f x ++ concat_map f xs

module _ {ℓ κ} {A : Type ℓ} where
  abbrev pub All : (A → Type κ) → List A → Type κ
  All P [] = Unit
  All P (x ∷ xs) = P x × All P xs

  pub All-mem : (P : A → Type κ) (xs : List A) → All P xs → {a : A} → Memᴰ a xs → P a
  All-mem P [] h m = absurd (Memᴰ.not-nil m)
  All-mem P (x ∷ xs) h m = elim (Memᴰ.cases_cons m) [
    | inl e ↦ subst P (sym e) h.0
    | inr r ↦ All-mem P xs h.1 r
  ]

  -- What holds of the members of two lists holds of those of both together.
  pub mem_either :
      {P : A → Type κ} (xs : List A) {ys : List A}
      → ((a : A) → Memᴰ a xs → P a)
      → ((a : A) → Memᴰ a ys → P a)
      → (a : A) → Memᴰ a (xs ++ ys)
      → P a
  mem_either [] f g a m = g a m
  mem_either (x ∷ xs) f g a m = elim (Memᴰ.cases_cons m) [
    | inl e ↦ f a (Memᴰ.head e)
    | inr r ↦ mem_either xs (λ b n. f b (Memᴰ.tail n)) g a r
  ]

  pub All-of_all :
      (P : A → Type κ) (p : A → Bool)
      → ((a : A) → p a ≡ true → P a)
      → (xs : List A) → all p xs ≡ true
      → All P xs
  unfolding all
  All-of_all P p f [] h = tt
  All-of_all P p f (x ∷ xs) h =
      let (here, rest) = &&-eq-true (p x) (all p xs) h in (f x here, All-of_all P p f xs rest)

unfoldable pub all_below : ℕ → (ℕ → Bool) → Bool
all_below zero p = true
all_below (suc n) p = p n && all_below n p

pub all_below-lt : (n : ℕ) (p : ℕ → Bool) (x : ℕ) → all_below n p ≡ true → x < n → p x ≡ true
unfolding all_below
all_below-lt zero p x h lt = absurd (omega arith)
all_below-lt (suc n) p x h lt = ground (arith, all_below-lt n p x)
