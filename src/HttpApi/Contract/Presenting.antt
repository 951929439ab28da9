-- ===== src/HttpApi/Contract/Presenting.antt =====
-- internal/httpapi: what the responses show of the services' answers.
use mathlib.Core.Path.{subst}
use usage_viewer.Prelude.{
  Result, Result-cases, ◌≡◌, refl, sym, ok, err, true, false, Bool, List, Option, none, some, Text,
  ℤ, pos, inl, inr, arith, Option-cases,
}
use usage_viewer.Diagnostics.{GoError}
use usage_viewer.Search.{
  Query, Window, validate_days, validate_limit, page_size, target_key, is_valid,
}
use usage_viewer.Search.Results.{Results, DailyUsagePoint, LeaderboardEntry, SelfResult}
use usage_viewer.Search.Reports.{validate_days_iff}
use usage_viewer.HttpApi.Sessions.{Store}
use usage_viewer.HttpApi.Messages.{
  HttpRequest, Platform, Decoder, Labels, Response, Content, post_json, decode_body, write_error,
  write_json, set_header,
}
use usage_viewer.HttpApi.Handlers.{Reply, run_search, run_daily_usage, run_leaderboard}
use usage_viewer.HttpApi.Accounts.{with_daily_usage, attach_daily_usage, run_self_lookup}
use usage_viewer.HttpApi.Contract.{
  Masked, ShownRankings, KeptRankings, KeptLookup, OverLeaderboard, OverSelfLookup,
}

-- What a response may show: of the reports, only ones for accepted parameters, with masked keys.
abbrev pub Presented : Content → Type 0
Presented (Content.key_results target keys page size total) =
    (target ≡ target_key)
    × (size ≡ pos page_size)
    × (q : Query) × (is_valid q ≡ true)
    × (page ≡ q.page)
Presented (Content.daily_usage items days) = validate_days days ≡ ok days
Presented (Content.leaderboard limit windows) =
    (validate_limit limit ≡ ok limit) × ShownRankings limit windows
Presented (Content.self_result r) = Masked r.key_masked
Presented Content.no_content = Unit
Presented (Content.plain t) = Unit
Presented (Content.raw_json t) = Unit
Presented (Content.error_envelope code message) = Unit
Presented (Content.flag name b) = Unit
Presented (Content.asset name) = Unit
Presented (Content.connect_result success message) = Unit
Presented (Content.creds_status status) = Unit

unfoldable pub is_report : Content → Bool
is_report (Content.key_results target keys page size total) = true
is_report (Content.daily_usage items days) = true
is_report (Content.leaderboard limit windows) = true
is_report (Content.self_result r) = true
is_report Content.no_content = false
is_report (Content.plain t) = false
is_report (Content.raw_json t) = false
is_report (Content.error_envelope code message) = false
is_report (Content.flag name b) = false
is_report (Content.asset name) = false
is_report (Content.connect_result success message) = false
is_report (Content.creds_status status) = false

pub quiet : (c : Content) → is_report c ≡ false → Presented c
unfolding is_report
quiet (Content.key_results target keys page size total) h = absurd (ground arith)
quiet (Content.daily_usage items days) h = absurd (ground arith)
quiet (Content.leaderboard limit windows) h = absurd (ground arith)
quiet (Content.self_result r) h = absurd (ground arith)
quiet Content.no_content h = tt
quiet (Content.plain t) h = tt
quiet (Content.raw_json t) h = tt
quiet (Content.error_envelope code message) h = tt
quiet (Content.flag name b) h = tt
quiet (Content.asset name) h = tt
quiet (Content.connect_result success message) h = tt
quiet (Content.creds_status status) h = tt

-- A reply that shows no report, or one that may be shown.
abbrev pub Fine : Reply → Type 0
Fine reply = Presented reply.response.content

pub shows : (reply : Reply) (c : Content) → reply.response.content ≡ c → Presented c → Fine reply
shows reply c e f = subst Presented (sym e) f

-- A reply that another one gives.
pub gives : (x y : Reply) → x ≡ y → Fine y → Fine x
gives x y e f = subst Fine (sym e) f

module _ {P : Type 0} (p : Platform) (decode : Decoder P) (labels : Labels) (r : HttpRequest)
    {e : Response} where
  pub quiet-post_json : post_json p decode labels r ≡ err e → Presented e.content
  unfolding post_json decode_body write_error write_json set_header is_report
  quiet-post_json h = quiet e.content (ground arith)

pub run_search-Fine :
    (service : Option (Query → Option Results)) (q : Query) (store : Store)
    → is_valid q ≡ true
    → Fine (run_search service q store)
unfolding run_search write_error write_json is_report
run_search-Fine none q store v = tt
run_search-Fine (some f) q store v = elim (Option-cases (f q)) [
  | inl n ↦ quiet _ (ground arith)
  | inr (results, a) ↦
      shows (run_search (some f) q store)
        (Content.key_results target_key results.keys q.page (pos page_size) results.total)
        (ground arith) (refl, refl, q, v, refl)
]

pub run_daily_usage-Fine :
    (service : Option (ℤ → ℤ → Option (List DailyUsagePoint))) (key days : ℤ) (store : Store)
    → validate_days days ≡ ok days
    → Fine (run_daily_usage service key days store)
unfolding run_daily_usage write_error write_json is_report
run_daily_usage-Fine none key days store v = tt
run_daily_usage-Fine (some f) key days store v = elim (Option-cases (f key days)) [
  | inl n ↦ quiet _ (ground arith)
  | inr (points, a) ↦
      shows (run_daily_usage (some f) key days store) (Content.daily_usage points days)
        (ground arith) v
]

pub run_leaderboard-Fine :
    (service : Option (ℤ → Option (List (Window × List LeaderboardEntry)))) (limit : ℤ)
    (store : Store)
    → OverLeaderboard service
    → validate_limit limit ≡ ok limit
    → Fine (run_leaderboard service limit store)
unfolding run_leaderboard write_error write_json is_report
run_leaderboard-Fine none limit store kept v = tt
run_leaderboard-Fine (some f) limit store kept v = elim (Option-cases (f limit)) [
  | inl n ↦ quiet _ (ground arith)
  | inr (windows, a) ↦
      let (l, w, s) = subst (KeptRankings limit) a (kept limit) in
      let same : l ≡ limit = ground (arith, w, v) in
      shows (run_leaderboard (some f) limit store) (Content.leaderboard limit windows)
        (ground arith) (v, subst (λ x. ShownRankings x windows) same s)
]

with_daily_usage-Masked :
    (points : List DailyUsagePoint) (r : SelfResult)
    → Masked r.key_masked
    → Masked (with_daily_usage points r).key_masked
unfolding with_daily_usage
with_daily_usage-Masked points r m = m

attach_daily_usage-Masked :
    (usage : Option (ℤ → ℤ → Option (List DailyUsagePoint))) (r : SelfResult) (id : ℤ)
    → (attach_daily_usage usage r id).0.key_masked ≡ r.key_masked
unfolding attach_daily_usage with_daily_usage
attach_daily_usage-Masked none r id = refl
attach_daily_usage-Masked (some f) r id = ground arith

pub run_self_lookup-Fine :
    (service : Option (Text → Result GoError (Option (SelfResult × ℤ))))
    (usage : Option (ℤ → ℤ → Option (List DailyUsagePoint))) (credential : Text) (store : Store)
    → OverSelfLookup service
    → Fine (run_self_lookup service usage credential store)
unfolding run_self_lookup write_error write_json is_report
run_self_lookup-Fine none usage credential store kept = tt
run_self_lookup-Fine (some f) usage credential store kept = elim (Result-cases (f credential)) [
  | inr (e, a) ↦ quiet _ (ground arith)
  | inl (none, a) ↦ quiet _ (ground arith)
  | inl (some (result, id), a) ↦
      let (value, v, m) = subst (KeptLookup credential) a (kept credential) in
      shows (run_self_lookup (some f) usage credential store)
        (Content.self_result (attach_daily_usage usage result id).0) (ground arith)
        (subst Masked (sym (attach_daily_usage-Masked usage result id)) m)
]

pub validate_days_same : (days d : ℤ) → validate_days days ≡ ok d → validate_days d ≡ ok d
validate_days_same days d h =
    let e = ((validate_days_iff days d).0 h).0 in subst (λ x. validate_days x ≡ ok d) (sym e) h

pub validate_limit_same : (limit l : ℤ) → validate_limit limit ≡ ok l → validate_limit l ≡ ok l
unfolding validate_limit
validate_limit_same limit l h = ground arith
