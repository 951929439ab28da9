-- ===== src/Config/Urls/Parameters.antt =====
-- internal/config/config.go: the parameters of a database URL, and where it connects to.
use usage_viewer.Prelude.{
  ◌==◌, ◌≡◌, ◌↔◌, refl, sym, ap, ◌∙◌, Bool, inl, inr, ◌⊎◌, true, false, List, [], ◌∷◌, ◌++◌, Option,
  none, some, Text, bytes, text_eq, text_eq_iff, text_eq→eq, text_eq_refl, trim_space, is_nil,
  all_of, All, text_key, Bool-cases, arith,
}
use usage_viewer.Config.{Library}
use usage_viewer.Config.Urls.{parameter_allowed, get_parameter, is_local, is_verified}

-- A parameter that is known, and given once, with a value.
pub record Allowed (parameter : Text × List Text) : Type 0 where
  pub value : Text
  pub once : parameter.1 ≡ value ∷ []
  pub filled : is_nil value ≡ false
  pub known :
      (parameter.0 ≡ bytes "sslmode")
      ⊎ (parameter.0 ≡ bytes "sslrootcert")
      ⊎ (parameter.0 ≡ bytes "sslcert")
      ⊎ (parameter.0 ≡ bytes "sslkey")

-- The first parameter with a name has a value.
pub record Given (key : Text) (parameters : List (Text × List Text)) (value : Text) : Type 0 where
  pub before : List (Text × List Text)
  pub others : List Text
  pub after : List (Text × List Text)
  pub among : parameters ≡ before ++ (key, value ∷ others) ∷ after
  pub first : All (λ (p : Text × List Text). text_eq p.0 key ≡ false) before

-- The URL asks for a connection that is verified in full, with a root certificate.
pub record Verified (parameters : List (Text × List Text)) : Type 0 where
  pub mode : Given (bytes "sslmode") parameters (bytes "verify-full")
  pub certificate : Text
  pub root : Given (bytes "sslrootcert") parameters certificate
  pub named : is_nil (trim_space certificate) ≡ false

-- The host is the path of a socket, or a loopback address.
abbrev pub Local : Library → Text → Type 0
Local lib host = ((rest : Text) × (host ≡ 47 ∷ rest)) ⊎ (lib.parse_ip host ≡ some true)

loopback_iff :
    (answer : Option Bool)
    → ((elim answer as (λ x. Bool) [ some loopback ↦ loopback | none ↦ false ]) ≡ true)
      ↔ (answer ≡ some true)
loopback_iff none = (λ h. absurd (ground arith), λ h. absurd (ground arith))
loopback_iff (some b) = (λ h. ap some h, λ h. ground arith)

pub Local-iff : (lib : Library) (host : Text) → (is_local lib host ≡ true) ↔ Local lib host
unfolding is_local
Local-iff lib [] = (
  λ h. inr ((loopback_iff (lib.parse_ip [])).0 h),
  λ l. elim l [
    | inl (rest, e) ↦ absurd (ground arith)
    | inr e ↦ (loopback_iff (lib.parse_ip [])).1 e
  ],
)
Local-iff lib (c ∷ s) = (
  λ h. elim (Bool-cases (c == 47)) [
    | inl q ↦ inl (s, ground arith)
    | inr q ↦ inr ((loopback_iff (lib.parse_ip (c ∷ s))).0 (ground arith))
  ],
  λ l. elim l [
    | inl (rest, e) ↦ ground arith
    | inr e ↦ ground (arith, (loopback_iff (lib.parse_ip (c ∷ s))).1 e)
  ],
)

Allowed-iff : (p : Text × List Text) → (parameter_allowed p ≡ true) ↔ Allowed p
Allowed-iff (key, []) = (λ h. absurd (ground arith), λ a. absurd (let e = a.once in ground arith))
Allowed-iff (key, value ∷ []) = (
  λ h. record {
    value = value;
    once = refl;
    filled = ground arith;
    known = elim (Bool-cases (text_eq (bytes "sslmode") key)) [
      | inl q ↦ inl (sym (text_eq→eq (bytes "sslmode") key q))
      | inr a ↦ elim (Bool-cases (text_eq (bytes "sslrootcert") key)) [
        | inl q ↦ inr (inl (sym (text_eq→eq (bytes "sslrootcert") key q)))
        | inr b ↦ elim (Bool-cases (text_eq (bytes "sslcert") key)) [
          | inl q ↦ inr (inr (inl (sym (text_eq→eq (bytes "sslcert") key q))))
          | inr c ↦ inr (inr (inr (sym (text_eq→eq (bytes "sslkey") key (ground arith)))))
        ]
      ]
    ];
  },
  λ a.
      let e = a.once in
      let filled : is_nil value ≡ false = ground (arith, a.filled) in
      elim a.known [
        | inl k ↦ ground (arith, filled, text_eq_iff (bytes "sslmode") key)
        | inr (inl k) ↦ ground (arith, filled, text_eq_iff (bytes "sslrootcert") key)
        | inr (inr (inl k)) ↦ ground (arith, filled, text_eq_iff (bytes "sslcert") key)
        | inr (inr (inr k)) ↦ ground (arith, filled, text_eq_iff (bytes "sslkey") key)
      ],
)
Allowed-iff (key, v ∷ w ∷ rest) =
    (λ h. absurd (ground arith), λ a. absurd (let e = a.once in ground arith))

pub all_Allowed_iff :
    (ps : List (Text × List Text)) → (all_of parameter_allowed ps ≡ true) ↔ All Allowed ps
all_Allowed_iff [] = (λ h. tt, λ h. refl)
all_Allowed_iff (p ∷ ps) = (
  λ h. ((Allowed-iff p).0 (ground arith), (all_Allowed_iff ps).0 (ground arith)),
  λ (a, rest). ground (arith, (Allowed-iff p).1 a, (all_Allowed_iff ps).1 rest),
)

get_parameter-among :
    (key value : Text) (before : List (Text × List Text)) (others : List Text)
    (after : List (Text × List Text))
    → All (λ (p : Text × List Text). text_eq p.0 key ≡ false) before
    → get_parameter key (before ++ (key, value ∷ others) ∷ after) ≡ value
unfolding get_parameter
get_parameter-among key value [] others after h = rw (text_eq_refl key) refl
get_parameter-among key value ((k, []) ∷ before) others after (h, rest) =
    ground (arith, h, get_parameter-among key value before others after rest)
get_parameter-among key value ((k, v ∷ vs) ∷ before) others after (h, rest) =
    ground (arith, h, get_parameter-among key value before others after rest)

get_parameter-Given :
    (key : Text) (ps : List (Text × List Text)) (value : Text)
    → Given key ps value
    → get_parameter key ps ≡ value
get_parameter-Given key ps value g =
    ap (get_parameter key) g.among ∙ get_parameter-among key value g.before g.others g.after g.first

Given-later :
    (key : Text) (p : Text × List Text) (ps : List (Text × List Text)) (value : Text)
    → text_eq p.0 key ≡ false
    → Given key ps value
    → Given key (p ∷ ps) value
Given-later key p ps value h g = record {
  before = p ∷ g.before;
  others = g.others;
  after = g.after;
  among = ap (λ l. p ∷ l) g.among;
  first = (h, g.first);
}

Given-get_parameter :
    (key value : Text) (ps : List (Text × List Text))
    → get_parameter key ps ≡ value
    → is_nil value ≡ false
    → Given key ps value
unfolding get_parameter
Given-get_parameter key value [] e h = let empty : [] ≡ value = e in absurd (ground (arith, empty))
Given-get_parameter key value ((k, []) ∷ ps) e h = elim (Bool-cases (text_eq k key)) [
  | inl q ↦ absurd (ground arith)
  | inr q ↦ Given-later key (k, []) ps value q (Given-get_parameter key value ps (ground arith) h)
]
Given-get_parameter key value ((k, v ∷ vs) ∷ ps) e h = elim (Bool-cases (text_eq k key)) [
  | inl q ↦
      let same : k ≡ key = text_eq→eq k key q in
      let given : v ≡ value = ground arith in
      record { before = []; others = vs; after = ps; among = ground arith; first = tt }
  | inr q ↦
      Given-later key (k, v ∷ vs) ps value q (Given-get_parameter key value ps (ground arith) h)
]

trimmed_not_nil : (t : Text) → is_nil (trim_space t) ≡ false → is_nil t ≡ false
unfolding trim_space
trimmed_not_nil [] h = absurd (ground arith)
trimmed_not_nil (c ∷ t) h = refl

pub Verified-iff : (ps : List (Text × List Text)) → (is_verified ps ≡ true) ↔ Verified ps
unfolding is_verified
Verified-iff ps =
    let mode = get_parameter (bytes "sslmode") ps in
    let root = get_parameter (bytes "sslrootcert") ps in
    (
      λ h.
          let full : mode ≡ bytes "verify-full" =
            text_eq→eq mode (bytes "verify-full") (ground arith) in
          let named : is_nil (trim_space root) ≡ false = ground arith in
          record {
            mode = Given-get_parameter (bytes "sslmode") (bytes "verify-full") ps full refl;
            certificate = root;
            root =
                Given-get_parameter (bytes "sslrootcert") root ps refl (trimmed_not_nil root named);
            named = named;
          },
      λ v.
          let full = get_parameter-Given (bytes "sslmode") ps (bytes "verify-full") v.mode in
          let cert = get_parameter-Given (bytes "sslrootcert") ps v.certificate v.root in
          rw (full, cert, v.named, text_eq_refl (bytes "verify-full")) refl,
    )
