-- ===== src/Prelude/Keys.antt =====
-- Comparable keys of Go maps, as an interface: a test and what it decides.
use mathlib.Core.Bool.{Bool, true, false, ◌||◌}
use mathlib.Core.List.{
  List, [], ◌∷◌, Mem, not-mem-nil, mem-cons_self, mem-cons_of_mem, eq-or-mem_of_mem-cons,
}
use mathlib.Core.Logic.Or
use mathlib.Core.Logic.{◌↔◌, inl, inr}
use mathlib.Core.Path.{◌≡◌, refl}
use native.Mathlib.Omega.{arith}
use usage_viewer.Prelude.Tests.{Bool-cases}
use usage_viewer.Prelude.Bytes.{Text, text_eq, text_eq_iff}

pub record Eq {ℓ} (A : Type ℓ) : Type ℓ where
  pub beq : A → A → Bool
  pub beq_iff : (a b : A) → (beq a b ≡ true) ↔ (a ≡ b)

instance abbrev pub text_key : Eq Text
text_key = record { beq = text_eq; beq_iff = text_eq_iff }

module _ {ℓ} {A : Type ℓ} ⦃e : Eq A⦄ where
  abbrev pub contains : List A → A → Bool
  contains [] a = false
  contains (x ∷ xs) a = e.beq x a || contains xs a

  pub beq_self : (a : A) → e.beq a a ≡ true
  beq_self a = (e.beq_iff a a).1 refl

  contains→Mem : (xs : List A) (a : A) → contains xs a ≡ true → Mem a xs
  contains→Mem [] a h = absurd (ground arith)
  contains→Mem (x ∷ xs) a h = elim (Bool-cases (e.beq x a)) [
    | inl p ↦ subst_head p
    | inr n ↦ mem-cons_of_mem x (contains→Mem xs a (ground arith))
  ]
    where
      subst_head : e.beq x a ≡ true → Mem a (x ∷ xs)
      subst_head p = let q : x ≡ a = (e.beq_iff x a).0 p in rw q mem-cons_self

  pub contains_absent : (xs : List A) (a : A) → ¬ Mem a xs → contains xs a ≡ false
  contains_absent xs a h = elim (Bool-cases (contains xs a)) [
    | inl p ↦ absurd (h (contains→Mem xs a p))
    | inr n ↦ n
  ]

  pub contains-false : (xs : List A) (a : A) → contains xs a ≡ false → ¬ Mem a xs
  contains-false [] a h m = not-mem-nil m
  contains-false (x ∷ xs) a h m =
      Or.elim (λ u v. absurd u) (eq-or-mem_of_mem-cons m) (λ p. ground (arith, beq_self x, p))
        (contains-false xs a (ground arith))
