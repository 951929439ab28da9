-- ===== src/Concurrency/Counts.antt =====
-- internal/concurrency/concurrency.go: what Resolve answers for each key.
use usage_viewer.Prelude.{
  ℕ, suc, ◌==◌, ◌+◌, ◌*◌, ◌≤◌, ◌≡◌, refl, ap, inl, inr, ◌⊎◌, true, false, List, [], ◌∷◌, ◌++◌, none,
  some, bytes, ℤ, pos, negsuc, eqb_ℤ, eqb_ℤ→eq, ◌+ℤ◌, ◌-ℤ◌, wrap64, max_int64, arith, Bool-cases,
  if◌then◌else◌,
}
use usage_viewer.Creds.DotEnv.{print_int}
use usage_viewer.Concurrency.{
  Client, executed, nil_reply, broken, Counts, lookup, count_of, store_count, zeros, commands,
  add_counts, resolve_with, resolve, slot_key_prefix, live_slot_key_prefix, slot_ttl_seconds,
  live_lease_ttl_seconds,
}

-- How often an id is asked for.
abbrev pub occurrences : ℤ → List ℤ → ℕ
occurrences id [] = 0
occurrences id (i ∷ ids) = if eqb_ℤ i id then suc (occurrences id ids) else occurrences id ids

eqb_ℤ-refl : (a : ℤ) → eqb_ℤ a a ≡ true
eqb_ℤ-refl (pos n) = ground arith
eqb_ℤ-refl (negsuc n) = ground arith

eqb_ℤ-trans : (a b c : ℤ) → eqb_ℤ a b ≡ true → eqb_ℤ a c ≡ eqb_ℤ b c
eqb_ℤ-trans a b c h = ap (λ x. eqb_ℤ x c) (eqb_ℤ→eq a b h)

lookup-store_count :
    (j id value : ℤ) (counts : Counts)
    → lookup j (store_count id value counts) ≡ (if eqb_ℤ id j then some value else lookup j counts)
unfolding lookup store_count
lookup-store_count j id value [] = refl
lookup-store_count j id value ((k, v) ∷ counts) =
    ground (arith, eqb_ℤ-trans k id j, lookup-store_count j id value counts)

lookup-zeros :
    (j : ℤ) (ids : List ℤ) (counts : Counts)
    → lookup j (zeros ids counts)
      ≡ (if occurrences j ids == 0 then lookup j counts else some (pos 0))
unfolding zeros
lookup-zeros j [] counts = refl
lookup-zeros j (id ∷ ids) counts = ground (
  arith,
  lookup-zeros j ids (store_count id (pos 0) counts),
  lookup-store_count j id (pos 0) counts,
)

suc-times : (n t : ℕ) → suc n * t ≡ t + n * t
suc-times n t = omega arith

add_twice :
    (a b c : ℕ)
    → a + b + c ≤ max_int64
    → wrap64 (wrap64 (pos a +ℤ pos b) +ℤ pos c) ≡ pos (a + b + c)
add_twice a b c h = ground arith

-- One id of the pipeline: its two commands.
abbrev add_id : ℤ → ℤ → ℤ → Counts → Counts
add_id id a b counts =
    let once = store_count id (wrap64 (count_of id counts +ℤ a)) counts in
    store_count id (wrap64 (count_of id once +ℤ b)) once

add_id_same :
    (id : ℤ) (k a b : ℕ) (counts : Counts)
    → lookup id counts ≡ some (pos k)
    → k + a + b ≤ max_int64
    → lookup id (add_id id (pos a) (pos b) counts) ≡ some (pos (k + a + b))
unfolding count_of
add_id_same id k a b counts e h =
    let once = store_count id (wrap64 (count_of id counts +ℤ pos a)) counts in
    ground (
      arith,
      eqb_ℤ-refl id,
      add_twice k a b h,
      lookup-store_count id id (wrap64 (count_of id counts +ℤ pos a)) counts,
      lookup-store_count id id (wrap64 (count_of id once +ℤ pos b)) once,
    )

add_id_other :
    (j id a b : ℤ) (counts : Counts)
    → eqb_ℤ id j ≡ false
    → lookup j (add_id id a b counts) ≡ lookup j counts
add_id_other j id a b counts e =
    let once = store_count id (wrap64 (count_of id counts +ℤ a)) counts in
    ground (
      arith,
      lookup-store_count j id (wrap64 (count_of id counts +ℤ a)) counts,
      lookup-store_count j id (wrap64 (count_of id once +ℤ b)) once,
    )

abbrev slot_value : Client → ℤ → ℤ → ℤ
slot_value client now id =
    client.zcount (slot_key_prefix ++ print_int id) (print_int (wrap64 (now -ℤ slot_ttl_seconds)))
      (bytes "+inf")

abbrev live_value : Client → ℤ → ℤ → ℤ
live_value client now id =
    client.zcount (live_slot_key_prefix ++ print_int id)
      (print_int (wrap64 (now -ℤ live_lease_ttl_seconds))) (bytes "+inf")

-- What the two counters of an id hold that is not older than their cutoffs.
pub record Holds (client : Client) (now id : ℤ) (slots live : ℕ) : Type 0 where
  pub in_slots : slot_value client now id ≡ pos slots
  pub in_live : live_value client now id ≡ pos live

module _ (client : Client) (now j : ℤ) (slots live : ℕ) (held : Holds client now j slots live) where
  add_id_held :
      (id : ℤ) (k : ℕ) (counts : Counts)
      → id ≡ j
      → lookup j counts ≡ some (pos k)
      → k + slots + live ≤ max_int64
      → lookup j (add_id id (slot_value client now id) (live_value client now id) counts)
        ≡ some (pos (k + slots + live))
  add_id_held id k counts same e h =
      rw (same, held.in_slots, held.in_live) (add_id_same j k slots live counts e h)

  lookup-add_counts :
      (ids : List ℤ) (k : ℕ) (counts : Counts)
      → lookup j counts ≡ some (pos k)
      → k + occurrences j ids * (slots + live) ≤ max_int64
      → lookup j (add_counts (commands client now ids) counts)
        ≡ some (pos (k + occurrences j ids * (slots + live)))
  unfolding commands add_counts
  lookup-add_counts [] k counts e h = ground arith
  lookup-add_counts (id ∷ ids) k counts e h =
      let later = add_id id (slot_value client now id) (live_value client now id) counts in
      let times = suc-times (occurrences j ids) (slots + live) in
      elim (Bool-cases (eqb_ℤ id j)) [
        | inl same ↦ ground (
          arith,
          times,
          lookup-add_counts ids (k + slots + live) later,
          add_id_held id k counts (eqb_ℤ→eq id j same) e,
        )
        | inr other ↦ ground (
          arith,
          lookup-add_counts ids k later,
          add_id_other j id (slot_value client now id) (live_value client now id) counts other,
        )
      ]

-- How a resolver answers: the counters of Redis are not reached, or they are read at a time.
abbrev pub Reached : Client → ℤ → Type 0
Reached client now =
    (client.time ≡ some now) × ((client.execution ≡ executed) ⊎ (client.execution ≡ nil_reply))

-- When Redis answers, `Resolve` gives each id that it is asked for the number of the id's request slots
-- of the last 900 seconds and of its live leases of the last 60, n times that number for an id that is
-- asked for n times, as far as this fits an `int64`.
pub resolve-counts :
    (client : Client) (ids : List ℤ) (id now : ℤ) (slots live : ℕ)
    → Reached client now
    → Holds client now id slots live
    → 1 ≤ occurrences id ids
    → occurrences id ids * (slots + live) ≤ max_int64
    → lookup id (resolve (some client) ids) ≡ some (pos (occurrences id ids * (slots + live)))
unfolding resolve resolve_with
resolve-counts client (i ∷ ids) id now slots live reached held h b = ground (
  arith,
  reached,
  lookup-zeros id (i ∷ ids) [],
  lookup-add_counts client now id slots live held (i ∷ ids) 0 (zeros (i ∷ ids) []),
)
resolve-counts client [] id now slots live reached held h b = absurd (ground arith)

-- When the clock or the pipeline fails, the count of every id that is asked for is 0.
resolve_unreached :
    (client : Client) (ids : List ℤ) (id : ℤ)
    → 1 ≤ occurrences id ids
    → (client.time ≡ none) ⊎ (client.execution ≡ broken)
    → lookup id (resolve (some client) ids) ≡ some (pos 0)
unfolding resolve resolve_with
resolve_unreached client (i ∷ ids) id h failed = ground (arith, lookup-zeros id (i ∷ ids) [])
resolve_unreached client [] id h failed = absurd (ground arith)
