-- ===== src/HttpApi/Router/Calls.antt =====
-- internal/httpapi: the calls of the services that each handler makes.
use mathlib.Core.Path.{subst}
use usage_viewer.Prelude.{
  Result, ◌≡◌, refl, ap, ◌∙◌, sym, inl, inr, true, false, List, [], ◌∷◌, Option, none, some, ok,
  Result-cases, Text, bytes, ℤ, pos, leb_ℤ, All, Bool-cases, Option-cases, arith,
}
use usage_viewer.Diagnostics.{GoError}
use usage_viewer.Search.{Query, Window, validate, validate_days, validate_limit, is_valid}
use usage_viewer.Search.Results.{Results, DailyUsagePoint, LeaderboardEntry, SelfResult}
use usage_viewer.Search.Queries.{validate-is_valid}
use usage_viewer.HttpApi.Sessions.{Store}
use usage_viewer.HttpApi.Messages.{HttpRequest, SearchPayload, DailyUsagePayload, post_json}
use usage_viewer.HttpApi.Messages.Guards.{Accepted, post_json_accepts}
use usage_viewer.HttpApi.Handlers.{
  Call, called_search, called_daily_usage, called_leaderboard, called_self_lookup, Moment,
  is_authenticated, page_refused, search_request, search_labels, daily_labels, leaderboard_labels,
  self_labels, run_search, run_daily_usage, run_leaderboard, serve_search, serve_daily_usage,
  serve_leaderboard,
}
use usage_viewer.HttpApi.Accounts.{
  self_lookup_days, run_self_lookup, attach_daily_usage, serve_self_lookup,
}
use usage_viewer.HttpApi.Router.{Server}

-- The request carries the token of a session that is valid at that time.
abbrev pub Authenticated : Moment → HttpRequest → Store → Type 0
Authenticated moment r store = (is_authenticated r moment.now store).0 ≡ true

-- The calls that a request may make: those of its route, with arguments that the validation of its
-- payload yields, and on the routes behind the login only with a session.
pub data Permitted (server : Server) (moment : Moment) (r : HttpRequest) (store : Store)
    : Call → Type 0 where
  search_permitted :
      {q : Query} {payload : SearchPayload}
      → r.path ≡ bytes "/api/search"
      → Authenticated moment r store
      → Accepted server.platform server.platform.decode_search r payload
      → page_refused payload ≡ false
      → validate (search_request payload) ≡ ok q
      → is_valid q ≡ true
      → Permitted server moment r store (called_search q)
  daily_usage_permitted :
      {days : ℤ} {payload : DailyUsagePayload}
      → r.path ≡ bytes "/api/key-usage"
      → Authenticated moment r store
      → Accepted server.platform server.platform.decode_daily_usage r payload
      → leb_ℤ payload.key_id (pos 0) ≡ false
      → validate_days payload.days ≡ ok days
      → Permitted server moment r store (called_daily_usage payload.key_id days)
  leaderboard_permitted :
      {limit requested : ℤ}
      → r.path ≡ bytes "/api/leaderboard"
      → Authenticated moment r store
      → Accepted server.platform server.platform.decode_leaderboard r requested
      → validate_limit requested ≡ ok limit
      → Permitted server moment r store (called_leaderboard limit)
  self_lookup_permitted :
      {credential : Text}
      → r.path ≡ bytes "/api/self-lookup"
      → Accepted server.platform server.platform.decode_self_lookup r credential
      → Permitted server moment r store (called_self_lookup credential)
  chart_permitted :
      {credential : Text} {lookup : Text → Result GoError (Option (SelfResult × ℤ))}
      {found : SelfResult} {id : ℤ}
      → r.path ≡ bytes "/api/self-lookup"
      → Accepted server.platform server.platform.decode_self_lookup r credential
      → server.services.self_lookup ≡ some lookup
      → lookup credential ≡ ok (some (found, id))
      → Permitted server moment r store (called_daily_usage id self_lookup_days)

pub same {ℓ} :
    {A : Type 0} (P : A → Type ℓ) {xs : List A} (ys : List A) → xs ≡ ys → All P ys → All P xs
same P ys e h = subst (All P) (sym e) h

module _ (P : Call → Type 0) (store : Store) where
  run_search-calls :
      (f : Option (Query → Option Results)) (q : Query)
      → P (called_search q)
      → All P (run_search f q store).calls
  unfolding run_search
  run_search-calls none q h = tt
  run_search-calls (some f) q h = elim (Option-cases (f q)) [
    | inl n ↦ same P (called_search q ∷ []) (ground arith) (h, tt)
    | inr (x, n) ↦ same P (called_search q ∷ []) (ground arith) (h, tt)
  ]

  run_daily_usage-calls :
      (f : Option (ℤ → ℤ → Option (List DailyUsagePoint))) (key days : ℤ)
      → P (called_daily_usage key days)
      → All P (run_daily_usage f key days store).calls
  unfolding run_daily_usage
  run_daily_usage-calls none key days h = tt
  run_daily_usage-calls (some f) key days h = elim (Option-cases (f key days)) [
    | inl n ↦ same P (called_daily_usage key days ∷ []) (ground arith) (h, tt)
    | inr (x, n) ↦ same P (called_daily_usage key days ∷ []) (ground arith) (h, tt)
  ]

  run_leaderboard-calls :
      (f : Option (ℤ → Option (List (Window × List LeaderboardEntry)))) (limit : ℤ)
      → P (called_leaderboard limit)
      → All P (run_leaderboard f limit store).calls
  unfolding run_leaderboard
  run_leaderboard-calls none limit h = tt
  run_leaderboard-calls (some f) limit h = elim (Option-cases (f limit)) [
    | inl n ↦ same P (called_leaderboard limit ∷ []) (ground arith) (h, tt)
    | inr (x, n) ↦ same P (called_leaderboard limit ∷ []) (ground arith) (h, tt)
  ]

  attach_daily_usage-calls :
      (g : Option (ℤ → ℤ → Option (List DailyUsagePoint))) (s : SelfResult) (id : ℤ)
      → P (called_daily_usage id self_lookup_days)
      → All P (attach_daily_usage g s id).1
  unfolding attach_daily_usage
  attach_daily_usage-calls none s id h = tt
  attach_daily_usage-calls (some g) s id h = elim (Option-cases (g id self_lookup_days)) [
    | inl n ↦ same P (called_daily_usage id self_lookup_days ∷ []) (ground arith) (h, tt)
    | inr (x, n) ↦ same P (called_daily_usage id self_lookup_days ∷ []) (ground arith) (h, tt)
  ]

  run_self_lookup-calls :
      (f : Option (Text → Result GoError (Option (SelfResult × ℤ))))
      (g : Option (ℤ → ℤ → Option (List DailyUsagePoint))) (credential : Text)
      → P (called_self_lookup credential)
      → ((lookup : Text → Result GoError (Option (SelfResult × ℤ))) (found : SelfResult) (id : ℤ)
          → f ≡ some lookup
          → lookup credential ≡ ok (some (found, id))
          → P (called_daily_usage id self_lookup_days))
      → All P (run_self_lookup f g credential store).calls
  unfolding run_self_lookup
  run_self_lookup-calls none g credential h k = tt
  run_self_lookup-calls (some f) g credential h k = elim (Result-cases (f credential)) [
    | inr (e, n) ↦ same P (called_self_lookup credential ∷ []) (ground arith) (h, tt)
    | inl (o, n) ↦ elim (Option-cases o) [
      | inl m ↦ same P (called_self_lookup credential ∷ []) (ground arith) (h, tt)
      | inr ((s, id), m) ↦
          same P (called_self_lookup credential ∷ (attach_daily_usage g s id).1) (ground arith)
            (h, attach_daily_usage-calls g s id (k f s id refl (n ∙ ap ok m)))
    ]
  ]

module _ (server : Server) (moment : Moment) (r : HttpRequest) (store : Store) (kept : Store) where
  abbrev pub Fine : List Call → Type 0
  Fine = All (Permitted server moment r store)

  pub none_made : {xs : List Call} → xs ≡ [] → Fine xs
  none_made e = same (Permitted server moment r store) [] e tt

  pub serve_search-calls :
      r.path ≡ bytes "/api/search"
      → Authenticated moment r store
      → Fine (serve_search server.platform server.services r kept).calls
  unfolding serve_search
  serve_search-calls path session =
      let p = server.platform in
      elim (Result-cases (post_json p p.decode_search search_labels r)) [
        | inr (e, q) ↦ none_made (ground arith)
        | inl (payload, q) ↦ elim (Bool-cases (page_refused payload)) [
          | inl n ↦ none_made (ground arith)
          | inr n ↦ elim (Result-cases (validate (search_request payload))) [
            | inr (e, v) ↦ none_made (ground arith)
            | inl (query, v) ↦
                same (Permitted server moment r store)
                  (run_search server.services.search query kept).calls (ground arith)
                  (run_search-calls (Permitted server moment r store) kept server.services.search
                    query
                    (search_permitted path session
                      ((post_json_accepts p p.decode_search search_labels r payload).0 q) n v
                      (validate-is_valid (search_request payload) query v).0))
          ]
        ]
      ]

  pub serve_daily_usage-calls :
      r.path ≡ bytes "/api/key-usage"
      → Authenticated moment r store
      → Fine (serve_daily_usage server.platform server.services r kept).calls
  unfolding serve_daily_usage
  serve_daily_usage-calls path session =
      let p = server.platform in
      elim (Result-cases (post_json p p.decode_daily_usage daily_labels r)) [
        | inr (e, q) ↦ none_made (ground arith)
        | inl (payload, q) ↦ elim (Bool-cases (leb_ℤ payload.key_id (pos 0))) [
          | inl n ↦ none_made (ground arith)
          | inr n ↦ elim (Result-cases (validate_days payload.days)) [
            | inr (e, v) ↦ none_made (ground arith)
            | inl (days, v) ↦
                same (Permitted server moment r store)
                  (run_daily_usage server.services.daily_usage payload.key_id days kept).calls
                  (ground arith)
                  (run_daily_usage-calls (Permitted server moment r store) kept
                    server.services.daily_usage payload.key_id days
                    (daily_usage_permitted path session
                      ((post_json_accepts p p.decode_daily_usage daily_labels r payload).0 q) n v))
          ]
        ]
      ]

  pub serve_leaderboard-calls :
      r.path ≡ bytes "/api/leaderboard"
      → Authenticated moment r store
      → Fine (serve_leaderboard server.platform server.services r kept).calls
  unfolding serve_leaderboard
  serve_leaderboard-calls path session =
      let p = server.platform in
      elim (Result-cases (post_json p p.decode_leaderboard leaderboard_labels r)) [
        | inr (e, q) ↦ none_made (ground arith)
        | inl (requested, q) ↦ elim (Result-cases (validate_limit requested)) [
          | inr (e, v) ↦ none_made (ground arith)
          | inl (limit, v) ↦
              same (Permitted server moment r store)
                (run_leaderboard server.services.leaderboard limit kept).calls (ground arith)
                (run_leaderboard-calls (Permitted server moment r store) kept
                  server.services.leaderboard limit
                  (leaderboard_permitted path session
                    ((post_json_accepts p p.decode_leaderboard leaderboard_labels r requested).0 q)
                    v))
        ]
      ]

  pub serve_self_lookup-calls :
      r.path ≡ bytes "/api/self-lookup"
      → Fine (serve_self_lookup server.platform server.services r kept).calls
  unfolding serve_self_lookup
  serve_self_lookup-calls path =
      let p = server.platform in
      elim (Result-cases (post_json p p.decode_self_lookup self_labels r)) [
        | inr (e, q) ↦ none_made (ground arith)
        | inl (credential, q) ↦
            let accepted =
              (post_json_accepts p p.decode_self_lookup self_labels r credential).0 q in
            same (Permitted server moment r store)
              (run_self_lookup server.services.self_lookup server.services.daily_usage credential
                kept).calls
              (ground arith)
              (run_self_lookup-calls (Permitted server moment r store) kept
                server.services.self_lookup server.services.daily_usage credential
                (self_lookup_permitted path accepted) (λ _ _ _. chart_permitted path accepted))
      ]
