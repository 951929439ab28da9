-- ===== src/Creds/Saving.antt =====
-- internal/creds/store.go: the saving of credentials, and what is loaded afterwards.
use usage_viewer.Prelude.{
  ◌≡◌, true, false, ◌&&◌, List, [], ◌∷◌, ◌++◌, Option, none, some, Result, ok, err, Text, bytes,
  text_eq, text_eq_refl, valid_utf8, pos, ltb_ℤ, leb_ℤ, is_nil, arith, Option-cases, Result-cases,
  inl, inr, ap, ◌∙◌, if◌then◌else◌,
}
use usage_viewer.Creds.{
  Entry, System, store_file_path, load_saved, incomplete, with_port, or_default,
}

-- What the saving takes from outside: `os.MkdirAll`, `json.Marshal` and `os.WriteFile`, with the texts
-- of their errors.
pub record Disk : Type 0 where
  pub mkdir_all : Text → Option Text
  pub marshal : Entry → Result Text Text
  pub write_file : Text → Text → Option Text

-- A file that was written, with its content.
abbrev pub Written : Type 0
Written = List (Text × Text)

-- Save: the text of its error, if there is one, and what it has written.
unfoldable pub save : System → Disk → Text → Entry → Option Text × Written
save sys disk dir e = elim (disk.mkdir_all dir) [
  | some cause ↦ (some (bytes "create data directory: " ++ cause), [])
  | none ↦ elim (disk.marshal e) [
    | err cause ↦ (some (bytes "marshal credentials: " ++ cause), [])
    | ok content ↦ elim (disk.write_file (store_file_path sys dir) content) [
      | some cause ↦ (some (bytes "write credentials file: " ++ cause), [])
      | none ↦ (none, (store_file_path sys dir, content) ∷ [])
    ]
  ]
]

-- The system as it is once files are written.
abbrev pub after_writing : Written → System → System
after_writing [] sys = sys
after_writing ((path, content) ∷ rest) sys = record {
  lookup_env = sys.lookup_env;
  read_file = λ p. if text_eq p path then some content else (after_writing rest sys).read_file p;
  join = sys.join;
  parse_url = sys.parse_url;
  is_ip = sys.is_ip;
  to_lower = sys.to_lower;
  decode_yaml = sys.decode_yaml;
  decode_json = sys.decode_json;
}

-- Credentials that name a host, a user, a database and an SSL mode, with a port from 1 to 65535.
pub record Storable (e : Entry) : Type 0 where
  pub complete : incomplete e ≡ false
  pub port_positive : ltb_ℤ (pos 0) e.port ≡ true
  pub port_bounded : leb_ℤ e.port (pos 65535) ≡ true
  pub ssl_mode : is_nil e.ssl_mode ≡ false

-- Texts that JSON can carry: `json.Marshal` replaces what is not valid UTF-8.
abbrev pub IsUtf8 : Entry → Type 0
IsUtf8 e =
    (valid_utf8 e.host ≡ true)
    × (valid_utf8 e.user ≡ true)
    × (valid_utf8 e.password ≡ true)
    × (valid_utf8 e.db_name ≡ true)
    × (valid_utf8 e.ssl_mode ≡ true)

with_port_keeps :
    (e : Entry) → Storable e → with_port (ltb_ℤ (pos 0) e.port && leb_ℤ e.port (pos 65535)) e ≡ e
unfolding or_default
with_port_keeps e s = ground (arith, s.port_positive, s.port_bounded, s.ssl_mode)

module _ (sys : System) (disk : Disk) (dir : Text) (e : Entry) where
  save-written :
      (save sys disk dir e).0 ≡ none
      → (content : Text) × (disk.marshal e ≡ ok content)
        × ((save sys disk dir e).1 ≡ (store_file_path sys dir, content) ∷ [])
  unfolding save
  save-written h = elim (Option-cases (disk.mkdir_all dir)) [
    | inr (cause, m) ↦ absurd (ground arith)
    | inl m ↦ elim (Result-cases (disk.marshal e)) [
      | inr (cause, j) ↦ absurd (ground arith)
      | inl (content, j) ↦ (content, j, ground arith)
    ]
  ]

  load_saved-written :
      (content : Text)
      → Storable e
      → sys.decode_json content ≡ some e
      → load_saved (after_writing ((store_file_path sys dir, content) ∷ []) sys) dir ≡ some e
  unfolding load_saved
  load_saved-written content s d =
      ground (arith, text_eq_refl (store_file_path sys dir), d, s.complete, with_port_keeps e s)

  -- Complete credentials that `Save` has stored without an error are what `LoadSaved` then returns, where
  -- the decoder reads back what `json.Marshal` has written for them.
  pub load_saved-save :
      Storable e
      → ((content : Text) → disk.marshal e ≡ ok content → sys.decode_json content ≡ some e)
      → (save sys disk dir e).0 ≡ none
      → load_saved (after_writing (save sys disk dir e).1 sys) dir ≡ some e
  load_saved-save s decodes h =
      let (content, j, w) = save-written h in
      ap (λ x. load_saved (after_writing x sys) dir) w
      ∙ load_saved-written content s (decodes content j)
