-- ===== src/Prelude/Bytes/Utf8.antt =====
-- `utf8.ValidString` and `utf8.RuneCountInString`: one step reads a whole rune, and a byte that
-- starts no valid encoding counts as one rune of width 1.
use Prim.Native.Nat.{ℕ, zero, suc, ◌+◌, ◌-◌, ◌*◌, ◌≤◌}
use mathlib.Core.Bool.{Bool, true, false, ◌&&◌}
use mathlib.Core.List.{[], ◌∷◌}
use mathlib.Core.Path.{◌≡◌, refl}
use native.Mathlib.Omega.{arith}
use usage_viewer.Prelude.Lists.{length}
use usage_viewer.Prelude.Tests.{leb, ltb, ◌==◌, if◌then◌else◌}
use usage_viewer.Prelude.Bytes.Equality.{Text}

abbrev between : ℕ → ℕ → ℕ → Bool
between lo hi b = leb lo b && leb b hi

-- The second bytes that may follow a first byte of a longer encoding.
follows : ℕ → ℕ → Bool
follows first b =
    if first == 0xe0
    then between 0xa0 0xbf b
    else if first == 0xed
    then between 0x80 0x9f b
    else if first == 0xf0
    then between 0x90 0xbf b
    else if first == 0xf4
    then between 0x80 0x8f b
    else between 0x80 0xbf b

-- How many bytes the first byte announces; 0 for one that starts no encoding.
announced : ℕ → ℕ
announced b =
    if ltb b 0x80
    then 1
    else if between 0xc2 0xdf b
    then 2
    else if between 0xe0 0xef b
    then 3
    else if between 0xf0 0xf4 b
    then 4
    else 0

continues : ℕ → Text → Bool
continues zero s = true
continues (suc n) [] = false
continues (suc n) (b ∷ s) = between 0x80 0xbf b && continues n s

-- A well-formed encoding of `n` bytes whose first byte has been read.
well_formed : ℕ → ℕ → Text → Bool
unfolding follows continues
well_formed zero first s = false
well_formed (suc zero) first s = true
well_formed (suc (suc n)) first [] = false
well_formed (suc (suc n)) first (b ∷ s) = follows first b && continues n s

starts_rune : ℕ → Text → Bool
unfolding announced well_formed
starts_rune b s = well_formed (announced b) b s

-- The bytes of the rune behind its first one.
tail_size : ℕ → Text → ℕ
unfolding starts_rune
tail_size b s = if starts_rune b s then announced b - 1 else 0

valid_from : ℕ → Text → Bool
valid_from k [] = true
valid_from (suc k) (b ∷ s) = valid_from k s
valid_from zero (b ∷ s) = starts_rune b s && valid_from (tail_size b s) s

runes_from : ℕ → Text → ℕ
runes_from k [] = 0
runes_from (suc k) (b ∷ s) = runes_from k s
runes_from zero (b ∷ s) = suc (runes_from (tail_size b s) s)

-- utf8.ValidString
unfoldable pub valid_utf8 : Text → Bool
unfolding valid_from tail_size
valid_utf8 s = valid_from 0 s

-- utf8.RuneCountInString
unfoldable pub rune_count : Text → ℕ
unfolding runes_from tail_size
rune_count s = runes_from 0 s

tail_size_le : (b : ℕ) (s : Text) → tail_size b s ≤ 3
unfolding tail_size
tail_size_le b s = ground arith

runes_from_bounds :
    (k : ℕ) (s : Text) → (length s ≤ k + 4 * runes_from k s) × (runes_from k s ≤ length s)
unfolding runes_from
runes_from_bounds zero [] = omega arith
runes_from_bounds (suc k) [] = omega arith
runes_from_bounds (suc k) (b ∷ s) = omega (arith, runes_from_bounds k s)
runes_from_bounds zero (b ∷ s) =
    omega (arith, tail_size_le b s, runes_from_bounds (tail_size b s) s)

-- A text holds at most four bytes for each rune, and no more runes than bytes.
pub rune_count_bounds : (s : Text) → (length s ≤ 4 * rune_count s) × (rune_count s ≤ length s)
unfolding rune_count
rune_count_bounds s = omega (arith, runes_from_bounds 0 s)

pub rune_count-nil : rune_count [] ≡ 0
unfolding rune_count
rune_count-nil = refl
