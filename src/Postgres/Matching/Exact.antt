-- ===== src/Postgres/Matching/Exact.antt =====
-- internal/postgres/admission.go: the loops accept exactly the permutations of a well-formed
-- contract.
use mathlib.Core.List
use mathlib.Core.List.Perm
use mathlib.Core.List.{
  Mem, Mem-prop, Nodup, Perm, Subset, Nodup-cons, not-mem-nil, mem-cons_self, mem-cons_of_mem,
  eq-or-mem_of_mem-cons, perm_middle, append-nil,
}
use mathlib.Core.Logic.Or
use usage_viewer.Prelude.{
  ◌+◌, ◌≡◌, ◌≢◌, ◌↔◌, refl, sym, ◌∙◌, Bool, true, false, List, [], ◌∷◌, map, inl, inr, some, length,
  length-map, All, All-of, Eq, contains, contains-false, contains_absent, length-perm,
  perm_of_Nodup, Nodup-of_map, arith, Option-cases,
}
use usage_viewer.Postgres.Matching.Collect.{find_sound, find_complete, collect_sound, collect_total}
use usage_viewer.Postgres.Matching.{find, collect, scan, matches}

module _ {K A B : Type 0} ⦃e : Eq K⦄ (key : A → K) (okey : B → K) (agrees : B → A → Bool)
    (view : B → A) (okey_view : (b : B) → okey b ≡ key (view b))
    (agrees_iff : (b : B) (a : A) → key a ≡ okey b → (agrees b a ≡ true) ↔ (view b ≡ a)) where
  fresh_rest :
      (k : K) (bs : List B) (seen : List K)
      → All (λ b. ¬ Mem (okey b) (k ∷ seen)) bs
      → (All (λ b. ¬ Mem (okey b) seen) bs) × (¬ Mem k (map okey bs))
  fresh_rest k [] seen h = (tt, not-mem-nil)
  fresh_rest k (b ∷ bs) seen h =
      let (f, n) = fresh_rest k bs seen h.1 in
      (
        (λ q. h.0 (mem-cons_of_mem k q), f),
        λ q. Or.elim (λ u v. absurd u) (eq-or-mem_of_mem-cons q) (λ p. h.0 (rw p mem-cons_self)) n,
      )

  fresh_more :
      (k : K) (bs : List B) (seen : List K)
      → All (λ b. ¬ Mem (okey b) seen) bs
      → ¬ Mem k (map okey bs)
      → All (λ b. ¬ Mem (okey b) (k ∷ seen)) bs
  fresh_more k [] seen f n = tt
  fresh_more k (b ∷ bs) seen f n = (
    λ q. Or.elim (λ u v. absurd u) (eq-or-mem_of_mem-cons q) (λ p. n (rw p mem-cons_self)) f.0,
    fresh_more k bs seen f.1 (λ q. n (mem-cons_of_mem (okey b) q)),
  )

  scan_sound :
      (m : List A) (bs : List B) (seen seen' : List K)
      → scan key okey agrees m bs seen ≡ some seen'
      → (All (λ b. Mem (view b) m) bs)
        × (All (λ b. ¬ Mem (okey b) seen) bs)
        × (Nodup (map okey bs))
        × (length seen' ≡ length bs + length seen)
  unfolding scan
  scan_sound m [] seen seen' h = (tt, tt, List.Nodup-nil, ground arith)
  scan_sound m (b ∷ bs) seen seen' h = elim (Option-cases (find key (okey b) m)) [
    | inl q ↦ absurd (ground arith)
    | inr (want, q) ↦
        let (i, k) = find_sound key (okey b) m want q in
        let g : agrees b want ≡ true = ground arith in
        let c : contains seen (okey b) ≡ false = ground arith in
        let (ms, fs, d, l) = scan_sound m bs (okey b ∷ seen) seen' (ground arith) in
        let (fs', n) = fresh_rest (okey b) bs seen fs in
        (
          (rw ((agrees_iff b want k).0 g) i, ms),
          (contains-false seen (okey b) c, fs'),
          Nodup-cons.1 (n, d),
          omega (arith, l),
        )
  ]

  scan_step :
      (m : List A) (b : B) (bs : List B) (seen : List K) (want : A)
      → find key (okey b) m ≡ some want
      → contains seen (okey b) ≡ false
      → agrees b want ≡ true
      → scan key okey agrees m (b ∷ bs) seen ≡ scan key okey agrees m bs (okey b ∷ seen)
  unfolding scan
  scan_step m b bs seen want h c g = rw (h, scan, c, g)

  scan_total :
      (m : List A) (bs : List B) (seen : List K)
      → All (λ b. find key (okey b) m ≡ some (view b)) bs
      → All (λ b. ¬ Mem (okey b) seen) bs
      → Nodup (map okey bs)
      → (seen' : List K) × (scan key okey agrees m bs seen ≡ some seen')
        × (length seen' ≡ length bs + length seen)
  unfolding scan
  scan_total m [] seen h f d = (seen, refl, omega arith)
  scan_total m (b ∷ bs) seen h f d =
      let (n, r) = Nodup-cons.0 d in
      let (seen', q, l) =
        scan_total m bs (okey b ∷ seen) h.1 (fresh_more (okey b) bs seen f.1 n) r in
      let c : contains seen (okey b) ≡ false = contains_absent seen (okey b) f.0 in
      let g : agrees b (view b) ≡ true = (agrees_iff b (view b) (sym (okey_view b))).1 refl in
      (seen', scan_step m b bs seen (view b) h.0 c g ∙ q, omega (arith, l))

  keys_of_view : (bs : List B) → map okey bs ≡ map key (map view bs)
  keys_of_view [] = refl
  keys_of_view (b ∷ bs) = cc (okey_view b, keys_of_view bs)

  view_mem : (m : List A) (bs : List B) → All (λ b. Mem (view b) m) bs → Subset (map view bs) m
  view_mem m [] h a q = absurd (not-mem-nil q)
  view_mem m (b ∷ bs) h a q =
      Or.elim (Mem-prop {a = a} {l = m}) (eq-or-mem_of_mem-cons q) (λ p. rw p h.0)
        (view_mem m bs h.1 a)

  no_key_seen : (bs : List B) → All (λ b. ¬ Mem (okey b) []) bs
  no_key_seen [] = tt
  no_key_seen (b ∷ bs) = (not-mem-nil, no_key_seen bs)

  module _ (well_formed : A → Bool) (contract : List A) (observed : List B) where
    -- What the tests accept: a contract that is not empty, well formed and without two items of one
    -- key, and what is observed are its items in some order.
    abbrev pub Matched : Type 0
    Matched =
        (contract ≢ [])
        × (All (λ a. well_formed a ≡ true) contract)
        × Nodup (map key contract)
        × Perm (map view observed) contract

    pub matches_sound : matches key well_formed okey agrees contract observed ≡ true → Matched
    unfolding matches
    matches_sound h = elim (Option-cases (collect key well_formed contract [])) [
      | inl q ↦ absurd (ground arith)
      | inr (expected, q) ↦ elim (Option-cases (scan key okey agrees expected observed [])) [
        | inl r ↦ absurd (ground arith)
        | inr (seen, r) ↦
            let (ws, p, d) = collect_sound key well_formed contract [] expected q List.Nodup-nil in
            let p' : Perm expected contract = rw append-nil at p in
            let (ms, fs, o, l) = scan_sound expected observed [] seen r in
            let n : contract ≢ [] = ground arith in
            let le : length observed ≡ length contract = ground arith in
            (
              n,
              ws,
              Perm.nodup (Perm.map key p') d,
              perm_of_Nodup (map view observed) contract
                  (Nodup-of_map key (map view observed) (rw (keys_of_view observed) at o))
                  (λ a m. Perm.subset p' a (view_mem expected observed ms a m))
                  (length-map view observed ∙ le),
            )
      ]
    ]

    pub matches_complete :
        IsSet A → Matched → matches key well_formed okey agrees contract observed ≡ true
    unfolding matches
    matches_complete s (n, w, d, p) =
        let (m, q) = collect_total key well_formed contract [] w (rw append-nil d) in
        let (ws, p0, dm) = collect_sound key well_formed contract [] m q List.Nodup-nil in
        let pm : Perm m contract = rw append-nil at p0 in
        let found : All (λ b. find key (okey b) m ≡ some (view b)) observed = All-of observed λ b i.
          rw (okey_view b) (
            find_complete key s m (view b) dm (
              Perm.subset (Perm.symm pm) (view b)
                (Perm.subset p (view b) (List.mem-map_of_mem view i)))) in
        let o : Nodup (map okey observed) =
          rw (keys_of_view observed) (Perm.nodup (Perm.map key (Perm.symm p)) d) in
        let (seen, r, l) = scan_total m observed [] found (no_key_seen observed) o in
        let lo : length (map view observed) ≡ length contract = length-perm _ _ p in
        let lm : length m ≡ length contract = length-perm _ _ pm in
        accept n (sym (length-map view observed) ∙ lo) q r
          (omega (arith, l, lm, lo, length-map view observed))
      where
        accept :
            {m : List A} {seen : List K}
            → contract ≢ []
            → length observed ≡ length contract
            → collect key well_formed contract [] ≡ some m
            → scan key okey agrees m observed [] ≡ some seen
            → length seen ≡ length m
            → matches key well_formed okey agrees contract observed ≡ true
        accept n lo q r l = ground arith
