-- ===== src/HttpApi/Credentials/Storing.antt =====
-- internal/httpapi/credential.go: what the form leaves behind: the pools, the store file and the
-- configuration.
pub mod Entries
use mathlib.Core.Path.{subst}
use usage_viewer.Prelude.{
  ◌≡◌, refl, sym, ap, ◌∙◌, inl, inr, Bool, true, false, ◌&&◌, List, [], ◌∷◌, ◌++◌, Option, none,
  some, ok, Text, bytes, text_eq, text_eq_refl, All, Bool-cases, Option-cases, Result-cases, arith,
  if◌then◌else◌, is_nil,
}
use usage_viewer.Creds.{Entry, System, load_saved, or_default, incomplete}
use usage_viewer.Creds.DotEnv.{connection_candidates, dsn, at_host, is_service_name}
use usage_viewer.Creds.Saving.{save, Written, Storable, IsUtf8, after_writing, load_saved-save}
use usage_viewer.HttpApi.Messages.{HttpRequest, Platform, Stream, Response, Content}
use usage_viewer.HttpApi.Router.{redirect}
use usage_viewer.HttpApi.Credentials.{
  Form, World, FormEvent, pool_opened, pool_checked, pool_closed, wrote, FormReply, try_connect,
  wrote_all, save_creds, saved_reply, try_each, connect_payload, connect_entry, connect_reader,
  serve_connect, quiet_reply,
}
use usage_viewer.HttpApi.Credentials.Serving.{
  route_form, serve_form, serve_creds_status, serve_credential_asset,
}
use usage_viewer.HttpApi.Credentials.Connecting.{
  Connects, Misses, try_connect-Connects, try_connect-Misses, First-Same, serve_connect-payload,
  serve_connect_iff,
}
use usage_viewer.HttpApi.Credentials.Storing.Entries.{
  connect_payload-Storable, connect_payload-IsUtf8, connection_candidates-Storable,
  connection_candidates-IsUtf8,
}

-- Whether every pool that is opened is checked and closed at once, before anything else happens.
unfoldable pub settled : List FormEvent → Bool
settled [] = true
settled (wrote path content ∷ rest) = settled rest
settled (pool_opened a ∷ pool_checked b ∷ pool_closed c ∷ rest) =
    text_eq a b && text_eq a c && settled rest
settled (_ ∷ rest) = false

-- The files that the events write.
unfoldable pub written_by : List FormEvent → Written
written_by [] = []
written_by (wrote path content ∷ rest) = (path, content) ∷ written_by rest
written_by (pool_opened a ∷ rest) = written_by rest
written_by (pool_checked a ∷ rest) = written_by rest
written_by (pool_closed a ∷ rest) = written_by rest

module _ (world : World) where
  settled-try_connect :
      (e : Entry) (rest : List FormEvent)
      → settled rest ≡ true
      → settled ((try_connect world e).1 ++ rest) ≡ true
  unfolding try_connect settled
  settled-try_connect e rest h = ground (arith, text_eq_refl (dsn e))

  written_by-try_connect :
      (e : Entry) (rest : List FormEvent)
      → written_by ((try_connect world e).1 ++ rest) ≡ written_by rest
  unfolding try_connect written_by
  written_by-try_connect e rest = ground arith

  written_by-wrote_all : (w : Written) → written_by (wrote_all w) ≡ w
  unfolding written_by
  written_by-wrote_all [] = refl
  written_by-wrote_all ((p, c) ∷ w) = ap (λ x. (p, c) ∷ x) (written_by-wrote_all w)

  settled-wrote_all : (w : Written) → settled (wrote_all w) ≡ true
  unfolding settled
  settled-wrote_all [] = refl
  settled-wrote_all ((p, c) ∷ w) = settled-wrote_all w

  module _ (form : Form) where
    settled-saved_reply : (e : Entry) → settled (saved_reply world form e).events ≡ true
    unfolding saved_reply save_creds
    settled-saved_reply e = settled-wrote_all (save world.system world.disk form.data_dir e).1

    settled-try_each :
        (last : Option Text) (cs : List Entry) → settled (try_each world form last cs).events ≡ true
    unfolding try_each settled
    settled-try_each last [] = refl
    settled-try_each last (c ∷ cs) = elim (Bool-cases (try_connect world c).0) [
      | inl h ↦
          ground
            (arith, settled-try_connect c (saved_reply world form c).events (settled-saved_reply c))
      | inr h ↦ ground (
        arith,
        settled-try_connect c (try_each world form (some c.host) cs).events
            (settled-try_each (some c.host) cs),
      )
    ]

    settled-serve_connect :
        (p : Platform) (r : HttpRequest) → settled (serve_connect world p form r).events ≡ true
    unfolding serve_connect settled
    settled-serve_connect p r = elim (Result-cases (connect_payload world p r)) [
      | inr (e, q) ↦ ground arith
      | inl (entry, q) ↦
          let cs = connection_candidates world.system entry in
          ground (arith, settled-try_each none cs)
    ]

    settled-serve_creds_status :
        (r : HttpRequest) → settled (serve_creds_status world form r).events ≡ true
    unfolding serve_creds_status settled
    settled-serve_creds_status r = ground arith

    settled-serve_credential_asset :
        (r : HttpRequest) → settled (serve_credential_asset form r).events ≡ true
    unfolding serve_credential_asset settled
    settled-serve_credential_asset r = ground arith

    settled-quiet_reply : (response : Response) → settled (quiet_reply form response).events ≡ true
    unfolding settled
    settled-quiet_reply response = refl

    -- Whatever a request of the form does, each pool that it opens is checked and closed before anything
    -- else happens, so none stays open.
    pub serve_form-settled :
        (p : Platform) (r : HttpRequest) → settled (serve_form world p form r).events ≡ true
    unfolding serve_form route_form
    serve_form-settled p r = elim (Option-cases (p.mux_redirect r)) [
      | inr (l, n) ↦ ground (arith, settled-quiet_reply (redirect 301 l))
      | inl n ↦ ground (
        arith,
        settled-serve_connect p r,
        settled-serve_creds_status r,
        settled-serve_credential_asset r,
      )
    ]

    written_by-First :
        (last : Option Text) (before : List Entry) (e : Entry) (after : List Entry)
        → All (Misses world) before
        → Connects world e
        → written_by (try_each world form last (before ++ e ∷ after)).events
          ≡ (save world.system world.disk form.data_dir e).1
    unfolding try_each saved_reply save_creds
    written_by-First last [] e after fail h = ground (
      arith,
      try_connect-Connects world e h,
      written_by-try_connect e (saved_reply world form e).events,
      written_by-wrote_all (save world.system world.disk form.data_dir e).1,
    )
    written_by-First last (c ∷ before) e after (f, fail) h = ground (
      arith,
      try_connect-Misses world c f,
      written_by-try_connect c (try_each world form (some c.host) (before ++ e ∷ after)).events,
      written_by-First (some c.host) before e after fail h,
    )

All-middle :
    (P : Entry → Type 0) (before : List Entry) (e : Entry) (after : List Entry)
    → All P (before ++ e ∷ after)
    → P e
All-middle P [] e after (p, all) = p
All-middle P (c ∷ before) e after (p, all) = All-middle P before e after all

saved_reply-url :
    (world : World) (form : Form) (e : Entry) → (saved_reply world form e).form.database_url ≡ dsn e
unfolding saved_reply save_creds
saved_reply-url world form e = refl

-- After a successful connect, the configuration names the entry that connected, and the store file holds it:
-- `LoadSaved` returns this very entry, where the JSON decoder of the form gives texts of valid UTF-8, and that of
-- the store file reads back what `json.Marshal` has written for a complete entry of such texts.
pub serve_connect-stores :
    (world : World) (form : Form) (p : Platform) (r : HttpRequest) (message : Text)
    → ((s : Stream) (payload : Entry) (rest : Text)
        → world.decode_connect s ≡ some (payload, rest)
        → IsUtf8 payload)
    → ((e : Entry) (content : Text)
        → Storable e
        → IsUtf8 e
        → world.disk.marshal e ≡ ok content
        → world.system.decode_json content ≡ some e)
    → (serve_connect world p form r).response.content ≡ Content.connect_result true message
    → let reply = serve_connect world p form r in
      (e : Entry) × ((try_connect world e).0 ≡ true)
      × (reply.form.database_url ≡ dsn e)
      × (load_saved (after_writing (written_by reply.events) world.system) form.data_dir ≡ some e)
serve_connect-stores world form p r message decoded reads h =
    let (entry, e, q, f, s, m) = (serve_connect_iff world form p r message).0 h in
    let cs = connection_candidates world.system entry in
    let tried = serve_connect-payload world form p r entry q in
    let files : written_by (serve_connect world p form r).events
        ≡ (save world.system world.disk form.data_dir e).1 =
      ap (λ (x : FormReply). written_by x.events) tried
      ∙ ap (λ x. written_by (try_each world form none x).events) f.among
      ∙ written_by-First world form none f.before e f.after f.fail f.connects in
    let storable = All-middle Storable f.before e f.after (
      subst (All Storable) f.among (
        connection_candidates-Storable world.system entry
          (connect_payload-Storable world p r entry q))) in
    let utf8 = All-middle IsUtf8 f.before e f.after (
      subst (All IsUtf8) f.among (
        connection_candidates-IsUtf8 world.system entry
          (connect_payload-IsUtf8 world p r entry decoded q))) in
    (
      e,
      try_connect-Connects world e f.connects,
      ap (λ (x : FormReply). x.form.database_url) tried
          ∙ ap (λ (x : Form). x.database_url) (First-Same world form cs e f).1
          ∙ saved_reply-url world form e,
      ap (λ x. load_saved (after_writing x world.system) form.data_dir) files
          ∙ load_saved-save world.system world.disk form.data_dir e storable
              (λ content. reads e content storable utf8) s,
    )
