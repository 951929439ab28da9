-- ===== src/Search/Masking.antt =====
-- internal/search/mask.go: what a masked key shows and what it hides.
use usage_viewer.Prelude.{
  ◌+◌, ◌-◌, ◌≤◌, ◌≡◌, ◌≢◌, refl, ap, [], ◌∷◌, ◌++◌, Text, bytes, length, take, drop, length-append,
  length-take, length-drop, arith,
}
use mathlib.Core.List.{append_assoc}
use usage_viewer.Search.{mask_key}

take-append : (xs ys : Text) → take (length xs) (xs ++ ys) ≡ xs
take-append [] ys = refl
take-append (x ∷ xs) ys = ap (◌∷◌ x) (take-append xs ys)

drop-append : (xs ys : Text) → drop (length xs) (xs ++ ys) ≡ ys
drop-append [] ys = refl
drop-append (x ∷ xs) ys = drop-append xs ys

abbrev stars : Text
stars = bytes "***"

length-pos : (xs : Text) → xs ≢ [] → 1 ≤ length xs
length-pos [] h = absurd (h refl)
length-pos (x ∷ xs) h = omega arith

module _ (first middle last : Text) (f : length first ≡ 6) (l : length last ≡ 6) where
  key_length : length (first ++ middle ++ last) ≡ length middle + 12
  key_length = omega (arith, length-append (first ++ middle) last, length-append first middle)

  key_prefix : take 6 (first ++ middle ++ last) ≡ first
  key_prefix = rw (← f, append_assoc first middle last) (take-append first (middle ++ last))

  key_suffix : drop (length (first ++ middle ++ last) - 6) (first ++ middle ++ last) ≡ last
  key_suffix =
      let e : length (first ++ middle ++ last) - 6 ≡ length (first ++ middle) =
        omega (arith, key_length, length-append first middle) in
      rw e (drop-append (first ++ middle) last)

  -- A key of more than 12 bytes keeps its first six and its last six bytes round three stars, and
  -- nothing of what stands between them.
  mask_key-hides : middle ≢ [] → mask_key (first ++ middle ++ last) ≡ first ++ stars ++ last
  unfolding mask_key
  mask_key-hides m = ground (arith, key_length, key_prefix, key_suffix, length-pos middle m)

-- A key of at most 12 bytes is hidden whole, and no masked key is longer than 15 bytes.
mask_key-short :
    (key : Text) → (length key ≤ 12 → mask_key key ≡ stars) × (length (mask_key key) ≤ 15)
unfolding mask_key
mask_key-short key = (
  λ h. ground arith,
  ground (
    arith,
    length-append (take 6 key ++ stars) (drop (length key - 6) key),
    length-append (take 6 key) stars,
    length-take 6 key,
    length-drop (length key - 6) key,
  ),
)
