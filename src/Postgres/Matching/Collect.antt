-- ===== src/Postgres/Matching/Collect.antt =====
-- internal/postgres/admission.go: the loop over the contract, and reads of what it has built.
use mathlib.Core.List
use mathlib.Core.List.Perm
use mathlib.Core.List.{
  Mem, Mem-prop, Nodup, Perm, Subset, Nodup-cons, not-mem-nil, mem-cons_self, mem-cons_of_mem,
  eq-or-mem_of_mem-cons, perm_middle, append-nil,
}
use mathlib.Core.Logic.Or
use usage_viewer.Prelude.{
  ◌≡◌, refl, sym, ap, ◌∙◌, Bool, true, false, List, [], ◌∷◌, ◌++◌, map, Option, inl, inr, some, All,
  Eq, beq_self, arith, Bool-cases,
}
use usage_viewer.Postgres.Matching.{find, has, collect}

module _ {K A : Type 0} ⦃e : Eq K⦄ (key : A → K) where
  pub find_sound : (k : K) (m : List A) (a : A) → find key k m ≡ some a → (Mem a m) × (key a ≡ k)
  unfolding find
  find_sound k [] a h = absurd (ground arith)
  find_sound k (x ∷ m) a h = elim (Bool-cases (e.beq (key x) k)) [
    | inl p ↦
        let q : x ≡ a = ground arith in
        (rw q mem-cons_self, ap key (sym q) ∙ (e.beq_iff (key x) k).0 p)
    | inr n ↦ let (m', k') = find_sound k m a (ground arith) in (mem-cons_of_mem x m', k')
  ]

  pub find_complete :
      IsSet A → (m : List A) (a : A) → Nodup (map key m) → Mem a m → find key (key a) m ≡ some a
  unfolding find
  find_complete s [] a d h = absurd (not-mem-nil h)
  find_complete s (x ∷ m) a d h =
      let (n, r) = Nodup-cons.0 d in
      elim (Bool-cases (e.beq (key x) (key a))) [
        | inl p ↦
            Or.elim (option_set s _ _) (eq-or-mem_of_mem-cons h) (λ q. ground (arith, q))
              (λ q. absurd (n (rw ((e.beq_iff (key x) (key a)).0 p) (List.mem-map_of_mem key q))))
        | inr f ↦
            Or.elim (option_set s _ _) (eq-or-mem_of_mem-cons h)
              (λ q. absurd (ground (arith, beq_self (key x), ap key q)))
              (λ q. ground (arith, find_complete s m a r q))
      ]
    where
      option_set : IsSet A → IsSet (Option A)
      option_set s = hlevel s

  has_absent : (k : K) (m : List A) → ¬ Mem k (map key m) → has key k m ≡ false
  has_absent k [] h = refl
  has_absent k (x ∷ m) h =
      let i : has key k m ≡ false = has_absent k m (λ q. h (mem-cons_of_mem (key x) q)) in
      elim (Bool-cases (e.beq (key x) k)) [
        | inl p ↦ absurd (h (rw (sym ((e.beq_iff (key x) k).0 p)) mem-cons_self))
        | inr n ↦ ground arith
      ]

  has-false : (k : K) (m : List A) → has key k m ≡ false → ¬ Mem k (map key m)
  has-false k [] h q = not-mem-nil q
  has-false k (x ∷ m) h q =
      Or.elim (λ u v. absurd u) (eq-or-mem_of_mem-cons q) (λ p. ground (arith, beq_self (key x), p))
        (has-false k m (ground arith))

  mem_map_right : (k : K) (xs m : List A) → Mem k (map key m) → Mem k (map key (xs ++ m))
  mem_map_right k [] m q = q
  mem_map_right k (x ∷ xs) m q = mem-cons_of_mem (key x) (mem_map_right k xs m q)

  module _ (well_formed : A → Bool) where
    pub collect_sound :
        (xs m m' : List A)
        → collect key well_formed xs m ≡ some m'
        → Nodup (map key m)
        → (All (λ a. well_formed a ≡ true) xs) × (Perm m' (xs ++ m)) × (Nodup (map key m'))
    unfolding collect
    collect_sound [] m m' h d =
        let q : m ≡ m' = ground arith in (tt, rw q (Perm.refl m'), rw (← q) d)
    collect_sound (a ∷ xs) m m' h d =
        let w : well_formed a ≡ true = ground arith in
        let f : has key (key a) m ≡ false = ground arith in
        let (ws, p, d') =
          collect_sound xs (a ∷ m) m' (ground arith) (Nodup-cons.1 (has-false (key a) m f, d)) in
        ((w, ws), Perm.trans p (perm_middle xs m), d')

    pub collect_total :
        (xs m : List A)
        → All (λ a. well_formed a ≡ true) xs
        → Nodup (map key (xs ++ m))
        → (m' : List A) × (collect key well_formed xs m ≡ some m')
    unfolding collect
    collect_total [] m h d = (m, refl)
    collect_total (a ∷ xs) m h d =
        let (n, r) = Nodup-cons.0 d in
        let w : well_formed a ≡ true = h.0 in
        let f : has key (key a) m ≡ false =
          has_absent (key a) m λ q. n (mem_map_right (key a) xs m q) in
        let (m', q) =
          collect_total xs (a ∷ m) h.1
            (Perm.nodup (Perm.map key (Perm.symm (perm_middle xs m))) d) in
        (m', rw (w, f) q)
