-- ===== src/HttpApi/Messages/Guards.antt =====
-- internal/httpapi: what the shared guards of the JSON routes let through.
use usage_viewer.Prelude.{
  ◌≤◌, ◌≡◌, ◌↔◌, refl, inl, inr, ◌⊎◌, true, false, [], ◌∷◌, some, ok, Text, bytes, text_eq,
  text_eq_iff, text_eq_refl, text_eq→eq, trim_space, is_nil, length, all_of, Bool-cases,
  Option-cases, arith, if◌then◌else◌,
}
use usage_viewer.HttpApi.Messages.{
  HttpRequest, Platform, Url, Decoder, Labels, same_origin, max_bytes_reader, at_eof, decode_body,
  post_json, json_space, post, maximum_search_body_bytes,
}

-- The scheme that the origin must have: that of a proxy, or of the connection.
unfoldable pub expected_scheme : HttpRequest → Text
expected_scheme r =
    if is_nil r.forwarded_proto
    then (if r.tls then bytes "https" else bytes "http")
    else r.forwarded_proto

-- The origin is a bare scheme and host, and they are those of the request.
pub record OwnOrigin (p : Platform) (r : HttpRequest) (u : Url) : Type 0 where
  pub parsed : p.parse_url (trim_space r.origin) ≡ some u
  pub anonymous : u.has_user ≡ false
  pub no_query : u.raw_query ≡ []
  pub no_fragment : u.fragment ≡ []
  pub root : (u.path ≡ []) ⊎ (u.path ≡ bytes "/")
  pub scheme : p.equal_fold u.scheme (expected_scheme r) ≡ true
  pub host : p.equal_fold u.host r.host ≡ true

is_nil_iff : (t : Text) → (is_nil t ≡ true) ↔ (t ≡ [])
is_nil_iff [] = (λ h. refl, λ h. refl)
is_nil_iff (x ∷ t) = (λ h. absurd (ground arith), λ h. absurd (ground arith))

module _ (p : Platform) (r : HttpRequest) where
  own_origin :
      {u : Url}
      → is_nil (trim_space r.origin) ≡ false
      → p.parse_url (trim_space r.origin) ≡ some u
      → same_origin p r ≡ true
      → OwnOrigin p r u
  unfolding same_origin expected_scheme
  own_origin {u} e q h = record {
    parsed = q;
    anonymous = ground arith;
    no_query = (is_nil_iff u.raw_query).0 (ground arith);
    no_fragment = (is_nil_iff u.fragment).0 (ground arith);
    root = elim (Bool-cases (is_nil u.path)) [
      | inl n ↦ inl ((is_nil_iff u.path).0 n)
      | inr n ↦ inr (text_eq→eq u.path (bytes "/") (ground arith))
    ];
    scheme = ground arith;
    host = ground arith;
  }

  OwnOrigin-passes :
      {u : Url} → is_nil (trim_space r.origin) ≡ false → OwnOrigin p r u → same_origin p r ≡ true
  unfolding same_origin expected_scheme
  OwnOrigin-passes {u} e o = ground (
    arith,
    o.parsed,
    o.anonymous,
    o.no_query,
    o.no_fragment,
    o.root,
    o.scheme,
    o.host,
    (is_nil_iff u.raw_query).1 o.no_query,
    (is_nil_iff u.fragment).1 o.no_fragment,
    is_nil_iff u.path,
    text_eq_iff u.path (bytes "/"),
  )

-- A request passes the origin check exactly when it names no origin, or one that parses as a scheme and
-- host without user, query, fragment or path, equal but for case to the scheme it came over and
-- to its host.
pub same_origin_iff :
    (p : Platform) (r : HttpRequest)
    → (same_origin p r ≡ true) ↔ ((trim_space r.origin ≡ []) ⊎ ((u : Url) × OwnOrigin p r u))
unfolding same_origin expected_scheme
same_origin_iff p r = elim (Bool-cases (is_nil (trim_space r.origin))) [
  | inl e ↦ (λ h. inl ((is_nil_iff (trim_space r.origin)).0 e), λ h. ground arith)
  | inr e ↦ elim (Option-cases (p.parse_url (trim_space r.origin))) [
    | inl n ↦ (
      λ h. absurd (ground arith),
      λ h. elim h [
        | inl m ↦ absurd (ground (arith, is_nil_iff (trim_space r.origin)))
        | inr (v, o) ↦ OwnOrigin-passes p r e o
      ],
    )
    | inr (u, q) ↦ (
      λ h. inr (u, own_origin p r e q h),
      λ h. elim h [
        | inl n ↦ absurd (ground (arith, is_nil_iff (trim_space r.origin)))
        | inr (v, o) ↦ OwnOrigin-passes p r e o
      ],
    )
  ]
]

-- What a JSON route lets through to its service: a POST from an accepted origin, with the media type
-- of JSON, whose body of at most 1024 bytes is one value of the payload and white space.
pub record Accepted {P : Type 0} (p : Platform) (decode : Decoder P) (r : HttpRequest) (payload : P)
    : Type 0 where
  pub is_post : r.method ≡ post
  pub origin : same_origin p r ≡ true
  pub media : p.parse_media_type r.content_type ≡ some (bytes "application/json")
  pub bounded : length r.body ≤ maximum_search_body_bytes
  pub rest : Text
  pub decoded : decode (max_bytes_reader r.body) ≡ some (payload, rest)
  pub only_space : all_of json_space rest ≡ true

at_eof_ok :
    (body rest : Text)
    → at_eof (max_bytes_reader body) rest ≡ true
    → (length body ≤ maximum_search_body_bytes) × (all_of json_space rest ≡ true)
unfolding at_eof max_bytes_reader
at_eof_ok body rest h = (ground arith, ground arith)

at_eof_holds :
    (body rest : Text)
    → length body ≤ maximum_search_body_bytes
    → all_of json_space rest ≡ true
    → at_eof (max_bytes_reader body) rest ≡ true
unfolding at_eof max_bytes_reader
at_eof_holds body rest b o = ground arith

module _ {P : Type 0} (decode : Decoder P) (labels : Labels) (body : Text) where
  decode_body_ok :
      (payload : P)
      → decode_body decode labels body ≡ ok payload
      → (length body ≤ maximum_search_body_bytes)
        × (rest : Text) × (decode (max_bytes_reader body) ≡ some (payload, rest))
        × (all_of json_space rest ≡ true)
  unfolding decode_body
  decode_body_ok payload h = elim (Option-cases (decode (max_bytes_reader body))) [
    | inl n ↦ absurd (ground arith)
    | inr ((found, rest), q) ↦ elim (Bool-cases (at_eof (max_bytes_reader body) rest)) [
      | inl e ↦ let (b, o) = at_eof_ok body rest e in (b, rest, ground arith, o)
      | inr e ↦ absurd (ground arith)
    ]
  ]

  decode_body_decodes :
      {payload : P} {rest : Text}
      → length body ≤ maximum_search_body_bytes
      → decode (max_bytes_reader body) ≡ some (payload, rest)
      → all_of json_space rest ≡ true
      → decode_body decode labels body ≡ ok payload
  unfolding decode_body
  decode_body_decodes {rest = rest} b d o = ground (arith, at_eof_holds body rest b o)

module _ {P : Type 0} (p : Platform) (decode : Decoder P) (labels : Labels) (r : HttpRequest) where
  -- The guards of a JSON route yield a payload exactly for the requests that they are meant to
  -- accept: a POST, from an accepted origin, of JSON, in at most 1024 bytes, with nothing behind the value.
  pub post_json_accepts :
      (payload : P) → (post_json p decode labels r ≡ ok payload) ↔ Accepted p decode r payload
  unfolding post_json
  post_json_accepts payload = (
    λ h. elim (Bool-cases (text_eq r.method post)) [
      | inr m ↦ absurd (ground arith)
      | inl m ↦ elim (Option-cases (p.parse_media_type r.content_type)) [
        | inl n ↦ absurd (ground arith)
        | inr (media, q) ↦ elim (Bool-cases (text_eq media (bytes "application/json"))) [
          | inr n ↦ absurd (ground arith)
          | inl e ↦
              let (b, rest, d, o) = decode_body_ok decode labels r.body payload (ground arith) in
              record {
                is_post = text_eq→eq r.method post m;
                origin = ground arith;
                media = ground (arith, text_eq→eq media (bytes "application/json") e);
                bounded = b;
                rest = rest;
                decoded = d;
                only_space = o;
              }
        ]
      ]
    ],
    λ a. ground (
      arith,
      text_eq_iff r.method post,
      text_eq_refl (bytes "application/json"),
      decode_body_decodes decode labels r.body a.bounded a.decoded a.only_space,
    ),
  )
