-- ===== src/HttpApi/Credentials/Storing/Entries.antt =====
-- internal/httpapi/credential.go: the entries that the form connects with can be stored.
use mathlib.Core.Path.{subst}
use usage_viewer.Prelude.{
  ◌≡◌, refl, sym, inl, inr, true, false, [], ◌∷◌, some, ok, Text, bytes, valid_utf8, All,
  Option-cases, arith, if◌then◌else◌, is_nil,
}
use usage_viewer.Creds.{Entry, System, or_default, incomplete}
use usage_viewer.Creds.DotEnv.{connection_candidates, at_host, is_service_name}
use usage_viewer.Creds.Saving.{Storable, IsUtf8}
use usage_viewer.HttpApi.Messages.{HttpRequest, Platform, Stream}
use usage_viewer.HttpApi.Credentials.{World, connect_payload, connect_entry, connect_reader}

connect_entry-Storable : (e : Entry) → incomplete e ≡ false → Storable (connect_entry e)
unfolding connect_entry or_default
connect_entry-Storable e h = record {
  complete = h;
  port_positive = ground arith;
  port_bounded = ground arith;
  ssl_mode = ground arith;
}

connect_payload-entry :
    (world : World) (p : Platform) (r : HttpRequest) (entry : Entry)
    → connect_payload world p r ≡ ok entry
    → (payload : Entry) × (rest : Text) × (world.decode_connect (connect_reader r.body)
        ≡ some (payload, rest))
      × (incomplete payload ≡ false)
      × (entry ≡ connect_entry payload)
unfolding connect_payload
connect_payload-entry world p r entry h =
    elim (Option-cases (world.decode_connect (connect_reader r.body))) [
      | inl n ↦ absurd (ground arith)
      | inr ((payload, rest), d) ↦ (payload, rest, d, ground arith, ground arith)
    ]

pub connect_payload-Storable :
    (world : World) (p : Platform) (r : HttpRequest) (entry : Entry)
    → connect_payload world p r ≡ ok entry
    → Storable entry
connect_payload-Storable world p r entry h =
    let (payload, rest, d, c, e) = connect_payload-entry world p r entry h in
    subst Storable (sym e) (connect_entry-Storable payload c)

at_host-Storable :
    (host : Text) (e : Entry) → is_nil host ≡ false → Storable e → Storable (at_host host e)
unfolding at_host
at_host-Storable host e h s = record {
  complete = ground (arith, s.complete);
  port_positive = s.port_positive;
  port_bounded = s.port_bounded;
  ssl_mode = s.ssl_mode;
}

connection_candidates-All :
    (P : Entry → Type 0) (sys : System) (e : Entry)
    → P e
    → P (at_host (bytes "127.0.0.1") e)
    → P (at_host (bytes "localhost") e)
    → All P (connection_candidates sys e)
unfolding connection_candidates
connection_candidates-All P sys e p q r =
    elim (is_service_name sys e.host)
      as (λ b. All P (
        e
        ∷ (if b then at_host (bytes "127.0.0.1") e ∷ at_host (bytes "localhost") e ∷ [] else []))) [
          | true ↦ (p, (q, (r, tt)))
          | false ↦ (p, tt)
        ]

pub connection_candidates-Storable :
    (sys : System) (e : Entry) → Storable e → All Storable (connection_candidates sys e)
connection_candidates-Storable sys e s =
    connection_candidates-All Storable sys e s (at_host-Storable (bytes "127.0.0.1") e refl s)
      (at_host-Storable (bytes "localhost") e refl s)

or_default-utf8 :
    (fallback t : Text)
    → valid_utf8 fallback ≡ true
    → valid_utf8 t ≡ true
    → valid_utf8 (or_default fallback t) ≡ true
unfolding or_default
or_default-utf8 fallback t h k =
    elim (is_nil t) as (λ b. valid_utf8 (if b then fallback else t) ≡ true) [ true ↦ h | false ↦ k ]

-- The texts of the entry are those of the payload, or constants.
connect_entry-IsUtf8 : (payload : Entry) → IsUtf8 payload → IsUtf8 (connect_entry payload)
unfolding connect_entry valid_utf8
connect_entry-IsUtf8 payload (h, u, p, d, s) =
    (h, u, p, d, or_default-utf8 (bytes "disable") payload.ssl_mode refl s)

at_host-IsUtf8 :
    (host : Text) (e : Entry) → valid_utf8 host ≡ true → IsUtf8 e → IsUtf8 (at_host host e)
unfolding at_host
at_host-IsUtf8 host e h (x, u, p, d, s) = (h, u, p, d, s)

pub connection_candidates-IsUtf8 :
    (sys : System) (e : Entry) → IsUtf8 e → All IsUtf8 (connection_candidates sys e)
unfolding valid_utf8
connection_candidates-IsUtf8 sys e u =
    connection_candidates-All IsUtf8 sys e u (at_host-IsUtf8 (bytes "127.0.0.1") e refl u)
      (at_host-IsUtf8 (bytes "localhost") e refl u)

pub connect_payload-IsUtf8 :
    (world : World) (p : Platform) (r : HttpRequest) (entry : Entry)
    → ((s : Stream) (payload : Entry) (rest : Text)
        → world.decode_connect s ≡ some (payload, rest)
        → IsUtf8 payload)
    → connect_payload world p r ≡ ok entry
    → IsUtf8 entry
connect_payload-IsUtf8 world p r entry decoded h =
    let (payload, rest, d, c, e) = connect_payload-entry world p r entry h in
    subst IsUtf8 (sym e) (connect_entry-IsUtf8 payload (decoded _ payload rest d))
