-- ===== src/Config/Urls/Hosts.antt =====
-- internal/config/config.go: the host that a database URL names, a socket with an escaped path included.
use mathlib.Core.Path.{subst}
use usage_viewer.Prelude.{
  ◌==◌, ◌≡◌, ◌↔◌, refl, sym, ap, ◌∙◌, inl, inr, ◌⊎◌, Bool, true, false, not, ◌&&◌, ◌||◌, [], ◌∷◌,
  ◌++◌, none, some, Text, bytes, is_nil, all_of, ℕ, Bool-cases, Option-cases, arith, if◌then◌else◌,
}
use usage_viewer.Config.{ParsedUrl, Library}
use usage_viewer.Config.Urls.{
  parse_database_url_host, starts_with_slash, split_scheme, split_authority, split_host,
}

-- Whether a text begins with another one, and whether it occurs anywhere.
unfoldable pub is_prefix : Text → Text → Bool
is_prefix [] s = true
is_prefix (a ∷ t) [] = false
is_prefix (a ∷ t) (c ∷ s) = c == a && is_prefix t s

unfoldable pub occurs : Text → Text → Bool
unfolding is_prefix
occurs t [] = is_nil t
occurs t (c ∷ s) = is_prefix t (c ∷ s) || occurs t s

abbrev ends_authority : ℕ → Bool
ends_authority c = c == 47 || c == 63 || c == 35

abbrev begins_path : Text → Bool
begins_path [] = false
begins_path (c ∷ s) = ends_authority c

-- A URL that does not parse, whose host is the escaped path of a socket: the text before its first "://", the
-- authority behind it, up to a slash, a question mark or a number sign, with the host behind its last "@", and what
-- is parsed with 127.0.0.1 in the place of the host.
pub record Socket (lib : Library) (url : Text) (parsed : ParsedUrl) (host : Text) : Type 0 where
  pub start : Text
  pub user : Text
  pub escaped : Text
  pub behind : Text
  pub parts : url ≡ (start ++ bytes "://") ++ ((user ++ escaped) ++ behind)
  pub first_separator : occurs (bytes "://") (start ++ bytes ":/") ≡ false
  pub in_authority : all_of (λ c. not (ends_authority c)) (user ++ escaped) ≡ true
  pub behind_authority : begins_path behind ≡ true
  pub user_part : (user ≡ []) ⊎ ((name : Text) × (user ≡ name ++ bytes "@"))
  pub host_part : all_of (λ c. not (c == 64)) escaped ≡ true
  pub unescaped : lib.path_unescape escaped ≡ some host
  pub path : starts_with_slash host ≡ true
  pub replaced :
      lib.parse_url ((start ++ bytes "://") ++ user ++ bytes "127.0.0.1" ++ behind) ≡ some parsed

-- The host that a URL names: that of the parsed URL, or the path of a socket.
abbrev pub Names : Library → Text → ParsedUrl → Text → Type 0
Names lib url parsed host =
    ((lib.parse_url url ≡ some parsed) × (host ≡ parsed.hostname))
    ⊎ ((lib.parse_url url ≡ none) × Socket lib url parsed host)

-- The scheme of a text, split off at its first "://".
abbrev SchemeSplit : Text → Text → Text → Type 0
SchemeSplit s before behind =
    (start : Text) × (before ≡ start ++ bytes "://")
    × (s ≡ before ++ behind)
    × (occurs (bytes "://") (start ++ bytes ":/") ≡ false)

no_prefix :
    (a b c : ℕ) (u start rest : Text)
    → a == 58 && b == 47 && c == 47 ≡ false
    → b ∷ c ∷ u ≡ (start ++ bytes "://") ++ rest
    → is_prefix (bytes "://") (a ∷ (start ++ bytes ":/")) ≡ false
unfolding is_prefix
no_prefix a b c u [] rest q e = ground arith
no_prefix a b c u (x ∷ []) rest q e = ground arith
no_prefix a b c u (x ∷ y ∷ start) rest q e = ground arith

split_scheme-parts :
    (s before behind : Text) → split_scheme s ≡ some (before, behind) → SchemeSplit s before behind
unfolding split_scheme occurs is_prefix
split_scheme-parts [] before behind h = absurd (ground arith)
split_scheme-parts (a ∷ []) before behind h = absurd (ground arith)
split_scheme-parts (a ∷ b ∷ []) before behind h = absurd (ground arith)
split_scheme-parts (a ∷ b ∷ c ∷ u) before behind h =
    elim (Bool-cases (a == 58 && b == 47 && c == 47)) [
      | inl q ↦ ([], ground arith, ground arith, refl)
      | inr q ↦ elim (Option-cases (split_scheme (b ∷ c ∷ u))) [
        | inl n ↦ absurd (ground arith)
        | inr ((p, r), n) ↦
            let (start, e, f, o) = split_scheme-parts (b ∷ c ∷ u) p r n in
            (
              a ∷ start,
              ground (arith, e),
              ground (arith, f),
              ground (arith, o, no_prefix a b c u start r q (f ∙ ap (λ x. x ++ r) e)),
            )
      ]
    ]

split_scheme-first :
    (start rest : Text)
    → occurs (bytes "://") (start ++ bytes ":/") ≡ false
    → split_scheme ((start ++ bytes "://") ++ rest) ≡ some (start ++ bytes "://", rest)
unfolding split_scheme occurs is_prefix
split_scheme-first [] rest o = ground arith
split_scheme-first (a ∷ []) rest o = ground (arith, split_scheme-first [] rest refl)
split_scheme-first (a ∷ b ∷ []) rest o = ground (arith, split_scheme-first (b ∷ []) rest)
split_scheme-first (a ∷ b ∷ c ∷ s) rest o = ground (arith, split_scheme-first (b ∷ c ∷ s) rest)

split_authority-parts :
    (s authority behind : Text)
    → split_authority s ≡ some (authority, behind)
    → (s ≡ authority ++ behind)
      × (all_of (λ c. not (ends_authority c)) authority ≡ true)
      × (begins_path behind ≡ true)
unfolding split_authority
split_authority-parts [] authority behind h = absurd (ground arith)
split_authority-parts (c ∷ s) authority behind h = elim (Bool-cases (ends_authority c)) [
  | inl q ↦ (ground arith, ground arith, ground arith)
  | inr q ↦ elim (Option-cases (split_authority s)) [
    | inl n ↦ absurd (ground arith)
    | inr ((a, b), n) ↦
        let (e, f, g) = split_authority-parts s a b n in
        (ground (arith, e), ground (arith, f), ground (arith, g))
  ]
]

split_authority-first :
    (authority behind : Text)
    → all_of (λ c. not (ends_authority c)) authority ≡ true
    → begins_path behind ≡ true
    → split_authority (authority ++ behind) ≡ some (authority, behind)
unfolding split_authority
split_authority-first [] [] f g = absurd (ground arith)
split_authority-first [] (c ∷ behind) f g = ground arith
split_authority-first (c ∷ authority) behind f g =
    ground (arith, split_authority-first authority behind)

abbrev UserPart : Text → Type 0
UserPart user = (user ≡ []) ⊎ ((name : Text) × (user ≡ name ++ bytes "@"))

-- What `split_host` makes of a text.
abbrev HostSplit : Text → Text × Text → Type 0
HostSplit s (user, host) =
    (s ≡ user ++ host) × UserPart user × (all_of (λ c. not (c == 64)) host ≡ true)

host_step :
    (c : ℕ) (s user host : Text)
    → HostSplit s (user, host)
    → HostSplit (c ∷ s) (
        if is_nil user
        then (if c == 64 then (c ∷ [], host) else ([], c ∷ host))
        else (c ∷ user, host))
host_step c s [] host (e, u, f) = elim (Bool-cases (c == 64)) [
  | inl q ↦ rw q (ground (arith, e), inr ([], ground arith), f)
  | inr q ↦ rw q (ground (arith, e), inl refl, ground arith)
]
host_step c s (d ∷ user) host (e, u, f) = (
  ground (arith, e),
  elim u [ inl n ↦ absurd (ground arith) | inr (name, n) ↦ inr (c ∷ name, ap (λ x. c ∷ x) n) ],
  f,
)

split_host-parts : (s : Text) → HostSplit s (split_host s)
unfolding split_host
split_host-parts [] = (refl, inl refl, refl)
split_host-parts (c ∷ s) = host_step c s (split_host s).0 (split_host s).1 (split_host-parts s)

split_host-free :
    (host : Text) → all_of (λ c. not (c == 64)) host ≡ true → split_host host ≡ ([], host)
unfolding split_host
split_host-free [] f = refl
split_host-free (c ∷ host) f = ground (arith, split_host-free host)

split_host-last :
    (name host : Text)
    → all_of (λ c. not (c == 64)) host ≡ true
    → split_host ((name ++ bytes "@") ++ host) ≡ (name ++ bytes "@", host)
unfolding split_host
split_host-last [] host f = ground (arith, split_host-free host f)
split_host-last (c ∷ []) host f = ground (arith, split_host-last [] host f)
split_host-last (c ∷ d ∷ name) host f = ground (arith, split_host-last (d ∷ name) host f)

split_host-joined :
    (user host : Text)
    → UserPart user
    → all_of (λ c. not (c == 64)) host ≡ true
    → split_host (user ++ host) ≡ (user, host)
split_host-joined user host (inl n) f = rw n (split_host-free host f)
split_host-joined user host (inr (name, n)) f = rw n (split_host-last name host f)

-- What `parseDatabaseURL` makes of a URL that does not parse.
parsed-Socket :
    (lib : Library) (url : Text) (parsed : ParsedUrl) (host : Text)
    → lib.parse_url url ≡ none
    → parse_database_url_host lib url ≡ some (parsed, host)
    → Socket lib url parsed host
unfolding parse_database_url_host
parsed-Socket lib url parsed host d h = elim (Option-cases (split_scheme url)) [
  | inl n ↦ absurd (ground arith)
  | inr ((scheme, rest), n) ↦ elim (Option-cases (split_authority rest)) [
    | inl m ↦ absurd (ground arith)
    | inr ((authority, behind), m) ↦
        let (start, a, b, o) = split_scheme-parts url scheme rest n in
        let (e, f, g) = split_authority-parts rest authority behind m in
        let (x, y, z) = split_host-parts authority in
        let (user, escaped) = split_host authority in
        let replaced = scheme ++ user ++ bytes "127.0.0.1" ++ behind in
        elim (Option-cases (lib.path_unescape escaped)) [
          | inl k ↦ absurd (ground arith)
          | inr (decoded, k) ↦ elim (Bool-cases (starts_with_slash decoded)) [
            | inr q ↦ absurd (ground arith)
            | inl q ↦ elim (Option-cases (lib.parse_url replaced)) [
              | inl j ↦ absurd (ground arith)
              | inr (found, j) ↦
                  let same : decoded ≡ host = ground arith in
                  let read : found ≡ parsed = ground arith in
                  record {
                    start = start;
                    user = user;
                    escaped = escaped;
                    behind = behind;
                    parts =
                        b
                        ∙ ap (λ t. t ++ rest) a
                        ∙ ap (λ t. (start ++ bytes "://") ++ t) (e ∙ ap (λ t. t ++ behind) x);
                    first_separator = o;
                    in_authority = subst (λ t. all_of (λ c. not (ends_authority c)) t ≡ true) x f;
                    behind_authority = g;
                    user_part = y;
                    host_part = z;
                    unescaped = k ∙ ap some same;
                    path = ap starts_with_slash (sym same) ∙ q;
                    replaced =
                        ap (λ t. lib.parse_url (t ++ user ++ bytes "127.0.0.1" ++ behind)) (sym a)
                        ∙ j
                        ∙ ap some read;
                  }
            ]
          ]
        ]
  ]
]

-- `parseDatabaseURL` returns a parsed URL and its host exactly when the URL names them.
pub Names-iff :
    (lib : Library) (url : Text) (parsed : ParsedUrl) (host : Text)
    → (parse_database_url_host lib url ≡ some (parsed, host)) ↔ Names lib url parsed host
unfolding parse_database_url_host
Names-iff lib url parsed host = (
  λ h. elim (Option-cases (lib.parse_url url)) [
    | inr (direct, d) ↦ inl (ground (arith, d), ground (arith, d))
    | inl d ↦ inr (d, parsed-Socket lib url parsed host d h)
  ],
  λ l. elim l [
    | inl (e, n) ↦ ground (arith, e, n)
    | inr (d, s) ↦
        let authority = s.user ++ s.escaped in
        let n =
          ap split_scheme s.parts
          ∙ split_scheme-first s.start (authority ++ s.behind) s.first_separator in
        let m = split_authority-first authority s.behind s.in_authority s.behind_authority in
        let x = split_host-joined s.user s.escaped s.user_part s.host_part in
        ground (arith, d, n, m, x, s.unescaped, s.path, s.replaced)
  ],
)
