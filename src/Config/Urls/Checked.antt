-- ===== src/Config/Urls/Checked.antt =====
-- internal/config/config.go: which database URLs are accepted.
use usage_viewer.Prelude.{
  ◌≡◌, ◌↔◌, inl, inr, ◌⊎◌, true, false, ◌||◌, List, [], some, Text, bytes, text_eq, text_eq→eq,
  text_eq_refl, is_nil, All, Bool-cases, Option-cases, arith,
}
use usage_viewer.Config.{ParsedUrl, Library}
use usage_viewer.Config.Urls.{parse_database_url_host, is_local, validate_database_url}
use usage_viewer.Config.Urls.Parameters.{
  Allowed, Local, Verified, Local-iff, all_Allowed_iff, Verified-iff,
}
use usage_viewer.Config.Urls.Hosts.{Names, Names-iff}

-- What an accepted URL is.
pub record Checked (lib : Library) (url : Text) : Type 0 where
  pub parsed : ParsedUrl
  pub host : Text
  pub parameters : List (Text × List Text)
  pub names : Names lib url parsed host
  pub scheme : (parsed.scheme ≡ bytes "postgres") ⊎ (parsed.scheme ≡ bytes "postgresql")
  pub has_host : is_nil parsed.host ≡ false
  pub no_fragment : parsed.fragment ≡ []
  pub query : parsed.query ≡ some parameters
  pub allowed : All Allowed parameters
  pub has_name : is_nil host ≡ false
  pub local_or_verified : Local lib host ⊎ Verified parameters

nil_iff : (t : Text) → (is_nil t ≡ true) ↔ (t ≡ [])
nil_iff t = (λ h. ground arith, λ h. ground arith)

scheme_cases :
    (s : Text)
    → text_eq s (bytes "postgres") || text_eq s (bytes "postgresql") ≡ true
    → (s ≡ bytes "postgres") ⊎ (s ≡ bytes "postgresql")
scheme_cases s h = elim (Bool-cases (text_eq s (bytes "postgres"))) [
  | inl q ↦ inl (text_eq→eq s (bytes "postgres") q)
  | inr q ↦ inr (text_eq→eq s (bytes "postgresql") (ground arith))
]

scheme_known :
    (s : Text)
    → (s ≡ bytes "postgres") ⊎ (s ≡ bytes "postgresql")
    → text_eq s (bytes "postgres") || text_eq s (bytes "postgresql") ≡ true
scheme_known s (inl e) = rw e (ground (arith, text_eq_refl (bytes "postgres")))
scheme_known s (inr e) = rw e (ground (arith, text_eq_refl (bytes "postgresql")))

-- A database URL is accepted exactly when it parses, or has the escaped path of a socket for its host and parses
-- with another one, and then has a scheme of PostgreSQL, a host, no fragment and only the four allowed
-- parameters, each once and with a value, and either its host is a socket or a loopback address, or it asks for
-- a connection that is verified in full, with a root certificate.
pub validate_database_url_iff :
    (lib : Library) (url : Text) → (validate_database_url lib url ≡ true) ↔ Checked lib url
unfolding validate_database_url
validate_database_url_iff lib url = (
  λ h. elim (Option-cases (parse_database_url_host lib url)) [
    | inl n ↦ absurd (ground arith)
    | inr ((parsed, host), q) ↦ elim (Option-cases parsed.query) [
      | inl n ↦ absurd (ground arith)
      | inr (parameters, r) ↦ record {
        parsed = parsed;
        host = host;
        parameters = parameters;
        names = (Names-iff lib url parsed host).0 q;
        scheme = scheme_cases parsed.scheme (ground arith);
        has_host = ground arith;
        no_fragment = (nil_iff parsed.fragment).0 (ground arith);
        query = r;
        allowed = (all_Allowed_iff parameters).0 (ground arith);
        has_name = ground arith;
        local_or_verified = elim (Bool-cases (is_local lib host)) [
          | inl e ↦ inl ((Local-iff lib host).0 e)
          | inr e ↦ inr ((Verified-iff parameters).0 (ground arith))
        ];
      }
    ]
  ],
  λ c.
      let q = (Names-iff lib url c.parsed c.host).1 c.names in
      let k = scheme_known c.parsed.scheme c.scheme in
      let a = (all_Allowed_iff c.parameters).1 c.allowed in
      let f = (nil_iff c.parsed.fragment).1 c.no_fragment in
      elim c.local_or_verified [
        | inl l ↦
            ground (arith, q, k, a, f, c.has_host, c.query, c.has_name, (Local-iff lib c.host).1 l)
        | inr v ↦
            ground
              (arith, q, k, a, f, c.has_host, c.query, c.has_name, (Verified-iff c.parameters).1 v)
      ],
)
