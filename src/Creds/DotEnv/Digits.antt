-- ===== src/Creds/DotEnv/Digits.antt =====
-- internal/creds: the digits that `%d` prints, read back by `strconv.Atoi`.
use usage_viewer.Prelude.{
  ℕ, zero, suc, ◌+◌, ◌*◌, ◌/◌, ◌%◌, ◌≤◌, ◌<◌, ◌≡◌, refl, inl, inr, [], ◌∷◌, some, Text, ltb, pos,
  negsuc, max_int64, Bool-cases, arith,
}
use usage_viewer.Creds.{read_digits, atoi}
use usage_viewer.Creds.DotEnv.{decimal, print_int}

power10 : ℕ → ℕ
power10 zero = 1
power10 (suc n) = 10 * power10 n

read_digits-cons :
    (m d : ℕ) (s : Text) → d < 10 → read_digits m ((48 + d) ∷ s) ≡ read_digits (m * 10 + d) s
unfolding read_digits
read_digits-cons m d s h = ground arith

-- With fuel for its digits a number is read back, in front of any text.
read_digits-decimal :
    (fuel n : ℕ) (acc : Text)
    → n < power10 fuel
    → read_digits 0 (decimal fuel n acc) ≡ read_digits n acc
unfolding decimal power10
read_digits-decimal zero n acc h = ground arith
read_digits-decimal (suc fuel) n acc h = elim (Bool-cases (ltb n 10)) [
  | inl e ↦ ground (arith, read_digits-cons 0 n acc)
  | inr e ↦ ground (
    arith,
    read_digits-decimal fuel (n / 10) ((48 + n % 10) ∷ acc),
    read_digits-cons (n / 10) (n % 10) acc,
  )
]

-- The text starts with a digit.
abbrev StartsWithDigit : Text → Type 0
StartsWithDigit t = (c : ℕ) × (s : Text) × (t ≡ c ∷ s) × (48 ≤ c) × (c < 58)

decimal-StartsWithDigit :
    (fuel n c : ℕ) (s : Text) → 48 ≤ c → c < 58 → StartsWithDigit (decimal fuel n (c ∷ s))
unfolding decimal
decimal-StartsWithDigit zero n c s h k = (c, s, refl, h, k)
decimal-StartsWithDigit (suc fuel) n c s h k = elim (Bool-cases (ltb n 10)) [
  | inl e ↦ (48 + n, c ∷ s, ground arith, ground arith, ground arith)
  | inr e ↦
      let (x, t, q, a, b) =
        decimal-StartsWithDigit fuel (n / 10) (48 + n % 10) (c ∷ s) (ground arith) (ground arith) in
      (x, t, ground arith, a, b)
]

printed-StartsWithDigit : (n : ℕ) → StartsWithDigit (decimal 20 n [])
unfolding decimal
printed-StartsWithDigit n = elim (Bool-cases (ltb n 10)) [
  | inl e ↦ (48 + n, [], ground arith, ground arith, ground arith)
  | inr e ↦
      let (x, t, q, a, b) =
        decimal-StartsWithDigit 19 (n / 10) (48 + n % 10) [] (ground arith) (ground arith) in
      (x, t, ground arith, a, b)
]

read_printed : (n : ℕ) → n ≤ max_int64 + 1 → read_digits 0 (decimal 20 n []) ≡ some n
unfolding power10 read_digits
read_printed n h = read_digits-decimal 20 n [] (ground arith)

-- Every integer of 64 bits is read back from the decimal text that `%d` writes: the twenty digits of
-- fuel are enough for it.
atoi-print_int :
    (n : ℕ)
    → n ≤ max_int64
    → (atoi (print_int (pos n)) ≡ some (pos n)) × (atoi (print_int (negsuc n)) ≡ some (negsuc n))
unfolding atoi print_int
atoi-print_int n h =
    let (c, s, q, a, b) = printed-StartsWithDigit n in
    let (d, t, r, x, y) = printed-StartsWithDigit (suc n) in
    (
      ground (arith, q, a, b, read_printed n (ground arith)),
      ground (arith, r, x, y, read_printed (suc n) (ground arith)),
    )
