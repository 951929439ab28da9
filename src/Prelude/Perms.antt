-- ===== src/Prelude/Perms.antt =====
-- Permutations counted by native numbers: duplicate-free lists of one length, one within the other.
use Prim.Native.Nat.{suc}
use mathlib.Core.List
use mathlib.Core.List.Nodup
use mathlib.Core.List.Perm
use mathlib.Core.List.Subperm
use mathlib.Core.List.{
  List, [], ◌∷◌, Mem, Mem-prop, Nodup, Perm, Subset, Nodup-cons, not-mem-nil, eq-or-mem_of_mem-cons,
  map,
}
use mathlib.Core.Logic.Or
use mathlib.Core.Nat.{le_of_eq}
use mathlib.Core.Path.{◌≡◌, refl, sym, ap, ◌∙◌}
use native.Mathlib.Bridge.{from_ℕ, to_ℕ, to_ℕ-from_ℕ}
use usage_viewer.Prelude.Lists.{length, All}

module _ {ℓ} {A : Type ℓ} where
  from_ℕ-length : (xs : List A) → from_ℕ (List.length xs) ≡ length xs
  from_ℕ-length [] = refl
  from_ℕ-length (x ∷ xs) = ap suc (from_ℕ-length xs)

  lengths_eq : (xs ys : List A) → length xs ≡ length ys → List.length xs ≡ List.length ys
  lengths_eq xs ys h =
      sym (to_ℕ-from_ℕ (List.length xs))
      ∙ ap to_ℕ (from_ℕ-length xs ∙ h ∙ sym (from_ℕ-length ys))
      ∙ to_ℕ-from_ℕ (List.length ys)

  pub length-perm : (xs ys : List A) → Perm xs ys → length xs ≡ length ys
  length-perm xs ys p = sym (from_ℕ-length xs) ∙ ap from_ℕ (Perm.length-eq p) ∙ from_ℕ-length ys

  pub perm_of_Nodup :
      (xs ys : List A) → Nodup xs → Subset xs ys → length xs ≡ length ys → Perm xs ys
  perm_of_Nodup xs ys d s h =
      Subperm.perm_of_length_le (Nodup.subperm d s) (le_of_eq (sym (lengths_eq xs ys h)))

module _ {ℓ κ} {A : Type ℓ} {B : Type κ} (f : A → B) where
  pub Nodup-of_map : (xs : List A) → Nodup (map f xs) → Nodup xs
  Nodup-of_map [] d = List.Nodup-nil
  Nodup-of_map (x ∷ xs) d =
      let (n, r) = Nodup-cons.0 d in
      Nodup-cons.1 (λ m. n (List.mem-map_of_mem f m), Nodup-of_map xs r)

module _ {ℓ κ} {A : Type ℓ} {P : A → Type κ} (prop : (a : A) → IsProp (P a)) where
  All-mem : (xs : List A) (a : A) → All P xs → Mem a xs → P a
  All-mem [] a h m = absurd (not-mem-nil m)
  All-mem (x ∷ xs) a h m =
      Or.elim (prop a) (eq-or-mem_of_mem-cons m) (λ e. rw e h.0) (All-mem xs a h.1)

module _ {ℓ κ} {A : Type ℓ} {P : A → Type κ} where
  pub All-of : (xs : List A) → ((a : A) → Mem a xs → P a) → All P xs
  All-of [] h = tt
  All-of (x ∷ xs) h = (h x List.mem-cons_self, All-of xs (λ a m. h a (List.mem-cons_of_mem x m)))
