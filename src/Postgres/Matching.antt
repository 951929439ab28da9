-- ===== src/Postgres/Matching.antt =====
-- internal/postgres/admission.go: the two loops that `exactRelationMatch` and `exactSchemaMatch`
-- share, over the items that a contract lists and those that the database shows.
pub mod Collect
pub mod Exact
use usage_viewer.Prelude.{
  Bool, true, false, not, ◌||◌, List, [], ◌∷◌, Option, none, some, length, ◌==◌, is_nil, Eq,
  contains, if◌then◌else◌,
}

module _ {K A : Type 0} ⦃e : Eq K⦄ (key : A → K) where
  -- A read of the map `expected`: the contract's item with that key, if there is one. The map is the
  -- list of its values, whose keys are theirs.
  unfoldable pub find : K → List A → Option A
  find k [] = none
  find k (a ∷ m) = if e.beq (key a) k then some a else find k m

  abbrev pub has : K → List A → Bool
  has k [] = false
  has k (a ∷ m) = e.beq (key a) k || has k m

  -- The loop over the contract: an item that is not well formed, or whose key is there already,
  -- ends it.
  unfoldable pub collect : (A → Bool) → List A → List A → Option (List A)
  collect well_formed [] expected = some expected
  collect well_formed (a ∷ rest) expected =
      if not (well_formed a) || has (key a) expected
      then none
      else collect well_formed rest (a ∷ expected)

  -- The loop over what was observed: an item of no key of the contract, of a key seen before, or
  -- that disagrees with the contract ends it.
  unfoldable pub scan :
      {B : Type 0} → (B → K) → (B → A → Bool) → List A → List B → List K → Option (List K)
  unfolding find
  scan okey agrees expected [] seen = some seen
  scan okey agrees expected (b ∷ rest) seen = elim (find (okey b) expected) [
    | none ↦ none
    | some want ↦
        if contains seen (okey b) || not (agrees b want)
        then none
        else scan okey agrees expected rest (okey b ∷ seen)
  ]

  -- Both loops with the tests round them: the contract is not empty, as many items are observed as
  -- it lists, and as many keys are seen as it has.
  unfoldable pub matches :
      {B : Type 0} → (A → Bool) → (B → K) → (B → A → Bool) → List A → List B → Bool
  matches well_formed okey agrees contract observed =
      if is_nil contract || not (length observed == length contract)
      then false
      else elim (collect well_formed contract []) [
        | none ↦ false
        | some expected ↦ elim (scan okey agrees expected observed []) [
          | none ↦ false
          | some seen ↦ length seen == length expected
        ]
      ]
