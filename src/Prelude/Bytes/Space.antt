-- ===== src/Prelude/Bytes/Space.antt =====
-- `strings.TrimSpace`: the UTF-8 encodings of the runes of `unicode.IsSpace`, dropped at both
-- ends. On the right the bytes are read backwards.
use Prim.Native.Nat.{ℕ, zero, suc}
use mathlib.Core.Bool.{Bool, ◌&&◌, ◌||◌}
use mathlib.Core.List.{[], ◌∷◌, ◌++◌, reverse, reverse-append, reverse-reverse}
use mathlib.Core.Path.{◌≡◌, refl, sym, ap, ◌∙◌}
use native.Mathlib.Omega.{arith}
use usage_viewer.Prelude.Tests.{leb, ◌==◌, if◌then◌else◌}
use usage_viewer.Prelude.Bytes.Equality.{Text}

is_space1 : ℕ → Bool
is_space1 a = leb 9 a && leb a 13 || a == 32

-- U+0085 and U+00A0
is_space2 : ℕ → ℕ → Bool
is_space2 a b = a == 0xc2 && (b == 0x85 || b == 0xa0)

-- U+1680, U+2000 to U+200A, U+2028, U+2029, U+202F, U+205F and U+3000
is_space3 : ℕ → ℕ → ℕ → Bool
is_space3 a b c =
    a == 0xe1 && b == 0x9a && c == 0x80
    || a == 0xe2 && b == 0x80 && (leb 0x80 c && leb c 0x8a || c == 0xa8 || c == 0xa9 || c == 0xaf)
    || a == 0xe2 && b == 0x81 && c == 0x9f
    || a == 0xe3 && b == 0x80 && c == 0x80

module _ (one : ℕ → Bool) (two : ℕ → ℕ → Bool) (three : ℕ → ℕ → ℕ → Bool) where
  size3 : ℕ → ℕ → Text → ℕ
  size3 a b [] = 0
  size3 a b (c ∷ s) = if three a b c then 3 else 0

  size2 : ℕ → Text → ℕ
  unfolding size3
  size2 a [] = 0
  size2 a (b ∷ s) = if two a b then 2 else size3 a b s

  -- The bytes of the space at the head, 0 if there is none.
  space_size : Text → ℕ
  unfolding size2
  space_size [] = 0
  space_size (a ∷ s) = if one a then 1 else size2 a s

  -- Drops `k` bytes, and then spaces while there are any.
  drop_spaces : ℕ → Text → Text
  drop_spaces k [] = []
  drop_spaces (suc k) (a ∷ s) = drop_spaces k s
  drop_spaces zero (a ∷ s) = elim (space_size (a ∷ s)) [ zero ↦ a ∷ s | suc n ↦ drop_spaces n s ]

  drop_spaces_clean : (k : ℕ) (s : Text) → space_size (drop_spaces k s) ≡ 0
  unfolding drop_spaces
  drop_spaces_clean k [] = unfold space_size in refl
  drop_spaces_clean (suc k) (a ∷ s) = drop_spaces_clean k s
  drop_spaces_clean zero (a ∷ s) = split (λ m. drop_spaces_clean m s) (space_size (a ∷ s)) refl
    where
      split :
          ((m : ℕ) → space_size (drop_spaces m s) ≡ 0)
          → (n : ℕ) → space_size (a ∷ s) ≡ n
          → space_size (elim n [ zero ↦ a ∷ s | suc m ↦ drop_spaces m s ]) ≡ 0
      split ih zero e = e
      split ih (suc m) e = ih m

  drop_spaces_keeps : (s : Text) → space_size s ≡ 0 → drop_spaces 0 s ≡ s
  unfolding drop_spaces
  drop_spaces_keeps [] h = refl
  drop_spaces_keeps (a ∷ s) h = rw (h, drop_spaces)

  drop_spaces_suffix : (k : ℕ) (s : Text) → (p : Text) × (s ≡ p ++ drop_spaces k s)
  unfolding drop_spaces
  drop_spaces_suffix k [] = ([], refl)
  drop_spaces_suffix (suc k) (a ∷ s) = let (p, e) = drop_spaces_suffix k s in (a ∷ p, ap (◌∷◌ a) e)
  drop_spaces_suffix zero (a ∷ s) = split (λ m. drop_spaces_suffix m s) (space_size (a ∷ s))
    where
      split :
          ((m : ℕ) → (p : Text) × (s ≡ p ++ drop_spaces m s))
          → (n : ℕ) → (p : Text) × (a ∷ s ≡ p ++ elim n [ zero ↦ a ∷ s | suc m ↦ drop_spaces m s ])
      split ih zero = ([], refl)
      split ih (suc m) = let (p, e) = ih m in (a ∷ p, ap (◌∷◌ a) e)

  -- What follows a text does not hide a space at its head.
  space_size-append : (s t : Text) → space_size (s ++ t) ≡ 0 → space_size s ≡ 0
  unfolding space_size
  space_size-append [] t h = refl
  space_size-append (a ∷ []) t h = ground arith
  space_size-append (a ∷ b ∷ []) t h = ground arith
  space_size-append (a ∷ b ∷ c ∷ s) t h = h

left : Text → Text
unfolding drop_spaces space_size is_space1 is_space2 is_space3
left = drop_spaces is_space1 is_space2 is_space3 0

right : Text → Text
unfolding drop_spaces space_size is_space1 is_space2 is_space3
right = drop_spaces is_space1 (λ b a. is_space2 a b) (λ c b a. is_space3 a b c) 0

-- strings.TrimSpace
unfoldable pub trim_space : Text → Text
unfolding left right
trim_space s = reverse (right (reverse (left s)))

module _ (s : Text) where
  -- The trimmed text, followed by the spaces dropped on the right, is the text without those on
  -- the left.
  trim_space_prefix : (q : Text) × (left s ≡ trim_space s ++ q)
  unfolding trim_space
  trim_space_prefix =
      let (p, e) =
        drop_spaces_suffix is_space1 (λ b a. is_space2 a b) (λ c b a. is_space3 a b c) 0
          (reverse (left s)) in
      (reverse p, sym (reverse-reverse (left s)) ∙ ap reverse e ∙ reverse-append p _)

  left-trim_space : left (trim_space s) ≡ trim_space s
  unfolding left
  left-trim_space =
      let (q, e) = trim_space_prefix in
      drop_spaces_keeps is_space1 is_space2 is_space3 (trim_space s) (
        space_size-append is_space1 is_space2 is_space3 (trim_space s) q
          (rw (← e) (drop_spaces_clean is_space1 is_space2 is_space3 0 s)))

  right_idem : (t : Text) → right (right t) ≡ right t
  unfolding right
  right_idem t = drop_spaces_keeps _ _ _ _ (drop_spaces_clean _ _ _ 0 t)

  -- Trimming twice trims no more than trimming once.
  pub trim_space_idem : trim_space (trim_space s) ≡ trim_space s
  unfolding trim_space
  trim_space_idem =
      ap (λ t. reverse (right (reverse t))) left-trim_space
      ∙ ap (λ t. reverse (right t)) (reverse-reverse (right (reverse (left s))))
      ∙ ap reverse (right_idem (reverse (left s)))

pub trim_space-nil : trim_space [] ≡ []
unfolding trim_space
trim_space-nil = refl
