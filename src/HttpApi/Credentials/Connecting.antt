-- ===== src/HttpApi/Credentials/Connecting.antt =====
-- internal/httpapi/credential.go: which credentials the form connects with, and what it does to pools.
use usage_viewer.Prelude.{
  ◌≡◌, ◌↔◌, refl, sym, ap, ◌∙◌, inl, inr, ◌⊎◌, true, false, List, [], ◌∷◌, ◌++◌, Option, none, some,
  ok, err, Text, bytes, All, Bool-cases, Option-cases, Result-cases, arith,
}
use usage_viewer.Creds.{Entry}
use usage_viewer.Creds.DotEnv.{connection_candidates, dsn}
use usage_viewer.Creds.Saving.{save}
use usage_viewer.HttpApi.Messages.{
  HttpRequest, Platform, Response, Content, write_json, write_error, set_header,
}
use usage_viewer.HttpApi.Credentials.{
  LightPool, light_error, light_nil, light_pool, Form, World, FormReply, try_connect, save_creds,
  connect_answer, saved_reply, last_error, try_each, connect_payload, serve_connect,
}

LightPool-cases : (x : LightPool) → (x ≡ light_error) ⊎ ((x ≡ light_nil) ⊎ (x ≡ light_pool))
LightPool-cases light_error = inl refl
LightPool-cases light_nil = inr (inl refl)
LightPool-cases light_pool = inr (inr refl)

-- A candidate connects: the light pool opens with its URL, and the light preflight passes.
abbrev pub Connects : World → Entry → Type 0
Connects world e =
    (world.open_light_pool (dsn e) ≡ light_pool) × (world.light_preflight_fails (dsn e) ≡ false)

-- Or it does not: there is an error, no pool, or a preflight that fails.
abbrev pub Misses : World → Entry → Type 0
Misses world e =
    (world.open_light_pool (dsn e) ≡ light_error)
    ⊎ ((world.open_light_pool (dsn e) ≡ light_nil)
        ⊎ ((world.open_light_pool (dsn e) ≡ light_pool)
            × (world.light_preflight_fails (dsn e) ≡ true)))

-- The first of the candidates that connects, behind those that do not.
pub record First (world : World) (candidates : List Entry) (e : Entry) : Type 0 where
  pub before : List Entry
  pub after : List Entry
  pub among : candidates ≡ before ++ e ∷ after
  pub fail : All (Misses world) before
  pub connects : Connects world e

-- What a reply shares with another one but for the events.
abbrev pub Same : FormReply → FormReply → Type 0
Same a b = (a.response ≡ b.response) × (a.form ≡ b.form)

module _ (world : World) where
  pub try_connect-Connects : (e : Entry) → Connects world e → (try_connect world e).0 ≡ true
  unfolding try_connect
  try_connect-Connects e (n, m) = ground arith

  pub try_connect-Misses : (e : Entry) → Misses world e → (try_connect world e).0 ≡ false
  unfolding try_connect
  try_connect-Misses e (inl n) = ground arith
  try_connect-Misses e (inr (inl n)) = ground arith
  try_connect-Misses e (inr (inr (n, m))) = ground arith

  Connects-cases : (e : Entry) → Connects world e ⊎ Misses world e
  Connects-cases e = elim (LightPool-cases (world.open_light_pool (dsn e))) [
    | inl n ↦ inr (inl n)
    | inr (inl n) ↦ inr (inr (inl n))
    | inr (inr n) ↦ elim (Bool-cases (world.light_preflight_fails (dsn e))) [
      | inl m ↦ inr (inr (inr (n, m)))
      | inr m ↦ inl (n, m)
    ]
  ]

module _ (world : World) (form : Form) where
  try_each-connects :
      (last : Option Text) (e : Entry) (rest : List Entry)
      → (try_connect world e).0 ≡ true
      → Same (try_each world form last (e ∷ rest)) (saved_reply world form e)
  unfolding try_each
  try_each-connects last e rest h = (ground arith, ground arith)

  try_each-fails :
      (last : Option Text) (e : Entry) (rest : List Entry)
      → (try_connect world e).0 ≡ false
      → Same (try_each world form last (e ∷ rest)) (try_each world form (some e.host) rest)
  unfolding try_each
  try_each-fails last e rest h = (ground arith, ground arith)

  try_each-First :
      (last : Option Text) (before : List Entry) (e : Entry) (after : List Entry)
      → All (Misses world) before
      → Connects world e
      → Same (try_each world form last (before ++ e ∷ after)) (saved_reply world form e)
  try_each-First last [] e after fail h =
      try_each-connects last e after (try_connect-Connects world e h)
  try_each-First last (c ∷ before) e after (f, fail) h =
      let step = try_each-fails last c (before ++ e ∷ after) (try_connect-Misses world c f) in
      let rest = try_each-First (some c.host) before e after fail h in
      (step.0 ∙ rest.0, step.1 ∙ rest.1)

  -- A reply that says that no candidate connects.
  abbrev pub Refused : FormReply → Type 0
  Refused reply =
      (message : Text) × (reply.response ≡ connect_answer false message) × (reply.form ≡ form)

  try_each-cases :
      (last : Option Text) (candidates : List Entry)
      → ((e : Entry) × First world candidates e) ⊎ Refused (try_each world form last candidates)
  unfolding try_each
  try_each-cases last [] = inr (bytes "Connection failed: " ++ last_error last, refl, refl)
  try_each-cases last (c ∷ rest) = elim (Connects-cases world c) [
    | inl h ↦ inl (c, record { before = []; after = rest; among = refl; fail = tt; connects = h })
    | inr h ↦ elim (try_each-cases (some c.host) rest) [
      | inl (e, f) ↦ inl (
        e,
        record {
          before = c ∷ f.before;
          after = f.after;
          among = ap (λ x. c ∷ x) f.among;
          fail = (h, f.fail);
          connects = f.connects;
        },
      )
      | inr (m, a, b) ↦
          let step = try_each-fails last c rest (try_connect-Misses world c h) in
          inr (m, step.0 ∙ a, step.1 ∙ b)
    ]
  ]

  pub First-Same :
      (candidates : List Entry) (e : Entry)
      → First world candidates e
      → Same (try_each world form none candidates) (saved_reply world form e)
  First-Same candidates e f =
      let same = try_each-First none f.before e f.after f.fail f.connects in
      (
        ap (λ x. (try_each world form none x).response) f.among ∙ same.0,
        ap (λ x. (try_each world form none x).form) f.among ∙ same.1,
      )

  saved_reply_iff :
      (e : Entry) (message : Text)
      → ((saved_reply world form e).response.content ≡ Content.connect_result true message) ↔ (
          ((save world.system world.disk form.data_dir e).0 ≡ none)
          × (message ≡ bytes "Connected and saved."))
  unfolding saved_reply save_creds write_json
  saved_reply_iff e message = elim (Option-cases (save world.system world.disk form.data_dir e).0) [
    | inl n ↦ (λ h. (n, ground arith), λ h. ground arith)
    | inr (cause, n) ↦ (λ h. absurd (ground arith), λ h. absurd (ground arith))
  ]

  connect_payload-refuses :
      (p : Platform) (r : HttpRequest) (response : Response) (message : Text)
      → connect_payload world p r ≡ err response
      → response.content ≡ Content.connect_result true message
      → ⊥
  unfolding connect_payload write_error write_json set_header
  connect_payload-refuses p r response message h c = ground arith

  failure_answer :
      (m message : Text)
      → (connect_answer false m).content ≡ Content.connect_result true message
      → ⊥
  unfolding write_json
  failure_answer m message h = ground arith

  pub serve_connect-payload :
      (p : Platform) (r : HttpRequest) (entry : Entry)
      → connect_payload world p r ≡ ok entry
      → serve_connect world p form r
        ≡ try_each world form none (connection_candidates world.system entry)
  unfolding serve_connect
  serve_connect-payload p r entry h = ground arith

  -- `serveConnect` reports success exactly when the request passes its checks, one of the candidates for
  -- its entry gets a light pool that passes the light preflight, while those before it get none or fail it,
  -- and this first one is saved without an error. The message is then always the same.
  pub serve_connect_iff :
      (p : Platform) (r : HttpRequest) (message : Text)
      → ((serve_connect world p form r).response.content ≡ Content.connect_result true message) ↔ (
          (entry : Entry) × (e : Entry) × (connect_payload world p r ≡ ok entry)
          × First world (connection_candidates world.system entry) e
          × ((save world.system world.disk form.data_dir e).0 ≡ none)
          × (message ≡ bytes "Connected and saved."))
  unfolding serve_connect
  serve_connect_iff p r message = (
    λ h. elim (Result-cases (connect_payload world p r)) [
      | inr (response, q) ↦ absurd (connect_payload-refuses p r response message q (ground arith))
      | inl (entry, q) ↦
          let cs = connection_candidates world.system entry in
          let tried = serve_connect-payload p r entry q in
          elim (try_each-cases none cs) [
            | inr (m, a, b) ↦ absurd (
                failure_answer m message (
                  sym (ap (λ (x : Response). x.content) a)
                  ∙ sym (ap (λ (x : FormReply). x.response.content) tried)
                  ∙ h))
            | inl (e, f) ↦
                let same = (First-Same cs e f).0 in
                let (s, m) = (saved_reply_iff e message).0 (
                  sym (ap (λ (x : Response). x.content) same)
                  ∙ sym (ap (λ (x : FormReply). x.response.content) tried)
                  ∙ h) in
                (entry, e, q, f, s, m)
          ]
    ],
    λ (entry, e, q, f, s, m).
        ap (λ (x : FormReply). x.response.content) (serve_connect-payload p r entry q)
        ∙ ap (λ (x : Response). x.content)
            (First-Same (connection_candidates world.system entry) e f).0
        ∙ (saved_reply_iff e message).1 (s, m),
  )
