-- ===== src/Postgres/Listing/Escaping.antt =====
-- internal/postgres/search.go: `escapeLikeText` against the meaning of LIKE patterns.
use usage_viewer.Prelude.{
  ℕ, ◌==◌, ◌≡◌, ◌↔◌, refl, sym, ap, ◌∙◌, inl, inr, Bool, true, false, ◌&&◌, ◌||◌, [], ◌∷◌, ◌++◌,
  Text, is_nil, arith, Bool-cases, if◌then◌else◌,
}
use usage_viewer.Postgres.Listing.{replace_all, escape_like_text}

-- LIKE, as PostgreSQL documents it, on the units of a text: `same` says which units are equal, which for
-- ILIKE forgets the case. In a pattern `%` stands for any text, `_` for one unit, and the escape
-- character `\` in front of a unit for this unit.
module _ (same : ℕ → ℕ → Bool) where
  abbrev unit_then : ℕ → (Text → Bool) → Text → Bool
  unit_then p rest [] = false
  unit_then p rest (c ∷ s) = same p c && rest s

  abbrev any_unit_then : (Text → Bool) → Text → Bool
  any_unit_then rest [] = false
  any_unit_then rest (c ∷ s) = rest s

  abbrev any_text_then : (Text → Bool) → Text → Bool
  any_text_then rest [] = rest []
  any_text_then rest (c ∷ s) = rest (c ∷ s) || any_text_then rest s

  -- Whether a text matches a pattern, behind an escape character or not.
  unfoldable pub like : Bool → Text → Text → Bool
  like true [] s = false
  like false [] s = is_nil s
  like true (p ∷ pattern) s = unit_then p (like false pattern) s
  like false (p ∷ pattern) s =
      if p == 92
      then like true pattern s
      else if p == 37
      then any_text_then (like false pattern) s
      else if p == 95
      then any_unit_then (like false pattern) s
      else unit_then p (like false pattern) s

  -- Units that are equal one by one.
  abbrev pub same_text : Text → Text → Bool
  same_text [] [] = true
  same_text [] (c ∷ s) = false
  same_text (p ∷ t) [] = false
  same_text (p ∷ t) (c ∷ s) = same p c && same_text t s

  -- A text that a search finds: some part of it equals the searched text.
  abbrev pub Finds : Text → Text → Type 0
  Finds t s =
      (before : Text) × (found : Text) × (after : Text) × (s ≡ before ++ (found ++ after))
      × (same_text t found ≡ true)

-- The pattern that the statements build: `'%' || $1 || '%'`.
abbrev pub contains_pattern : Text → Text
contains_pattern value = 37 ∷ (escape_like_text value ++ 37 ∷ [])

escape_unit : ℕ → Text → Text
escape_unit c rest = if c == 92 || c == 37 || c == 95 then 92 ∷ c ∷ rest else c ∷ rest

escape-cons : (c : ℕ) (t : Text) → escape_like_text (c ∷ t) ≡ escape_unit c (escape_like_text t)
unfolding escape_like_text replace_all escape_unit
escape-cons c t = ground arith

module _ (same : ℕ → ℕ → Bool) where
  literally : Text → (Text → Bool) → Text → Bool
  literally [] rest s = rest s
  literally (p ∷ t) rest s = unit_then same p (literally t rest) s

  like-escape_unit :
      (p : ℕ) (pattern s : Text)
      → like same false (escape_unit p pattern) s ≡ unit_then same p (like same false pattern) s
  unfolding like escape_unit
  like-escape_unit p pattern s = ground arith

  escape_unit-append : (p : ℕ) (a b : Text) → escape_unit p a ++ b ≡ escape_unit p (a ++ b)
  unfolding escape_unit
  escape_unit-append p a b = ground arith

  unit_then-ap :
      (p : ℕ) (f g : Text → Bool) (s : Text)
      → ((r : Text) → f r ≡ g r)
      → unit_then same p f s ≡ unit_then same p g s
  unit_then-ap p f g [] h = refl
  unit_then-ap p f g (c ∷ s) h = ap (λ b. same p c && b) (h s)

  like-escaped :
      (t pattern s : Text)
      → like same false (escape_like_text t ++ pattern) s ≡ literally t (like same false pattern) s
  unfolding literally escape_like_text replace_all
  like-escaped [] pattern s = refl
  like-escaped (p ∷ t) pattern s =
      rw (escape-cons p t, escape_unit-append p (escape_like_text t) pattern)
        (like-escape_unit p (escape_like_text t ++ pattern) s
          ∙ unit_then-ap p (like same false (escape_like_text t ++ pattern))
              (literally t (like same false pattern)) s (like-escaped t pattern))

  literally-append :
      (t : Text) (rest : Text → Bool) (found after : Text)
      → same_text same t found ≡ true
      → rest after ≡ true
      → literally t rest (found ++ after) ≡ true
  unfolding literally
  literally-append [] rest [] after m k = k
  literally-append [] rest (c ∷ found) after m k = absurd (ground arith)
  literally-append (p ∷ t) rest [] after m k = absurd (ground arith)
  literally-append (p ∷ t) rest (c ∷ found) after m k =
      ground (arith, literally-append t rest found after)

  literally_splits :
      (t : Text) (rest : Text → Bool) (s : Text)
      → literally t rest s ≡ true
      → (found : Text) × (after : Text) × (s ≡ found ++ after)
        × (same_text same t found ≡ true)
        × (rest after ≡ true)
  unfolding literally
  literally_splits [] rest s h = ([], s, refl, refl, h)
  literally_splits (p ∷ t) rest [] h = absurd (ground arith)
  literally_splits (p ∷ t) rest (c ∷ s) h =
      let (found, after, e, m, k) = literally_splits t rest s (ground arith) in
      (c ∷ found, after, ap (λ x. c ∷ x) e, ground arith, k)

  any_text_then-append :
      (rest : Text → Bool) (before after : Text)
      → rest after ≡ true
      → any_text_then same rest (before ++ after) ≡ true
  any_text_then-append rest [] [] k = k
  any_text_then-append rest [] (c ∷ s) k = ground arith
  any_text_then-append rest (c ∷ before) after k =
      ground (arith, any_text_then-append rest before after)

  any_text_then_splits :
      (rest : Text → Bool) (s : Text)
      → any_text_then same rest s ≡ true
      → (before : Text) × (after : Text) × (s ≡ before ++ after) × (rest after ≡ true)
  any_text_then_splits rest [] h = ([], [], refl, h)
  any_text_then_splits rest (c ∷ s) h = elim (Bool-cases (rest (c ∷ s))) [
    | inl k ↦ ([], c ∷ s, refl, k)
    | inr n ↦
        let (before, after, e, k) = any_text_then_splits rest s (ground arith) in
        (c ∷ before, after, ap (λ x. c ∷ x) e, k)
  ]

  any_end : (s : Text) → like same false (37 ∷ []) s ≡ true
  unfolding like
  any_end [] = refl
  any_end (c ∷ s) = any_end s

  contains_pattern-like :
      (t s : Text)
      → like same false (contains_pattern t) s
        ≡ any_text_then same (like same false (escape_like_text t ++ 37 ∷ [])) s
  unfolding like
  contains_pattern-like t s = refl

  -- The pattern `'%' || $1 || '%'` with an escaped text for `$1` matches exactly the texts in which the
  -- text itself occurs, whatever counts as equal units: no byte of a search text acts as a wildcard or as
  -- an escape character.
  pub escape_like_text-like :
      (t s : Text) → (like same false (contains_pattern t) s ≡ true) ↔ Finds same t s
  escape_like_text-like t s = (
    λ h.
        let (before, rest, e, k) =
          any_text_then_splits (like same false (escape_like_text t ++ 37 ∷ [])) s
            (sym (contains_pattern-like t s) ∙ h) in
        let (found, after, e', m, k') =
          literally_splits t (like same false (37 ∷ [])) rest
            (sym (like-escaped t (37 ∷ []) rest) ∙ k) in
        (before, found, after, e ∙ ap (λ x. before ++ x) e', m),
    λ (before, found, after, e, m).
        contains_pattern-like t s
        ∙ rw e (
            any_text_then-append (like same false (escape_like_text t ++ 37 ∷ [])) before
              (found ++ after)
              (like-escaped t (37 ∷ []) (found ++ after)
                ∙ literally-append t (like same false (37 ∷ [])) found after m (any_end after))),
  )
