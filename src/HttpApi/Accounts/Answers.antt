-- ===== src/HttpApi/Accounts/Answers.antt =====
-- internal/httpapi/selflookup.go: what the answers of the self-lookup tell.
use usage_viewer.Prelude.{
  Result, err, ◌≡◌, ◌↔◌, sym, Option-cases, Result-cases, ◌∙◌, ◌⊎◌, inl, inr, Option, none, some, ℤ,
  Text, arith,
}
use usage_viewer.Diagnostics.{GoError}
use usage_viewer.Search.Results.{SelfResult}
use usage_viewer.HttpApi.Sessions.{Store}
use usage_viewer.HttpApi.Messages.{HttpRequest, Platform, write_error, write_json}
use usage_viewer.HttpApi.Messages.Guards.{Accepted, post_json_accepts}
use usage_viewer.HttpApi.Handlers.{Services, self_labels, self_lookup_unavailable}
use usage_viewer.HttpApi.Accounts.{serve_self_lookup, run_self_lookup}

-- The lookup of a credential yields no answer: its service is absent, or returns an error, whichever it is.
abbrev pub LookupFails : Services → Text → Type 0
LookupFails services credential =
    (services.self_lookup ≡ none)
    ⊎ ((lookup : Text → Result GoError (Option (SelfResult × ℤ))) × (e : GoError)
        × (services.self_lookup ≡ some lookup)
        × (lookup credential ≡ err e))

failing_response :
    (p : Platform) (services : Services) (r : HttpRequest) (store : Store) (credential : Text)
    → Accepted p p.decode_self_lookup r credential
    → LookupFails services credential
    → (serve_self_lookup p services r store).response ≡ self_lookup_unavailable
unfolding serve_self_lookup run_self_lookup
failing_response p services r store credential a (inl n) =
    ground (arith, (post_json_accepts p p.decode_self_lookup self_labels r credential).1 a)
failing_response p services r store credential a (inr (f, e, n, m)) =
    ground (arith, (post_json_accepts p p.decode_self_lookup self_labels r credential).1 a)

failing_only :
    (p : Platform) (services : Services) (r : HttpRequest) (store : Store) (credential : Text)
    → Accepted p p.decode_self_lookup r credential
    → (serve_self_lookup p services r store).response ≡ self_lookup_unavailable
    → LookupFails services credential
unfolding serve_self_lookup run_self_lookup write_error write_json
failing_only p services r store credential a h =
    let accepted = (post_json_accepts p p.decode_self_lookup self_labels r credential).1 a in
    elim (Option-cases services.self_lookup) [
      | inl n ↦ inl n
      | inr (lookup, n) ↦ elim (Result-cases (lookup credential)) [
        | inr (e, m) ↦ inr (lookup, e, n, m)
        | inl (o, m) ↦ absurd (elim (Option-cases o) [
          | inl k ↦ ground (arith, accepted)
          | inr (x, k) ↦ ground (arith, accepted)
        ])
      ]
    ]

module _ (p : Platform) (services other : Services) (r s : HttpRequest) (store : Store) where
  -- Where an accepted self-lookup fails, another accepted one gets the same response exactly when it fails
  -- too. So failures are not told apart, whatever the errors are: that of a credential which is refused, one
  -- of the database, and an absent service; but they are told from a credential that nothing matches.
  pub self_lookup_failures :
      (credential guess : Text)
      → Accepted p p.decode_self_lookup r credential
      → Accepted p p.decode_self_lookup s guess
      → LookupFails services credential
      → ((serve_self_lookup p services r store).response
          ≡ (serve_self_lookup p other s store).response)
        ↔ LookupFails other guess
  self_lookup_failures credential guess a b f =
      let failed = failing_response p services r store credential a f in
      (
        λ h. failing_only p other s store guess b (sym h ∙ failed),
        λ g. failed ∙ sym (failing_response p other s store guess b g),
      )
