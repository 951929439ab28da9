-- ===== src/Web.antt =====
-- internal/web/assets.go: the embedded files and their content types. The bytes of a file are its name
-- here: what matters is which file is served.
use usage_viewer.Prelude.{
  List, [], ◌∷◌, Option, none, some, Text, bytes, text_eq, contains, text_key, if◌then◌else◌,
}

abbrev pub html_names : List Text
html_names =
    bytes "index.html"
    ∷ bytes "credentials.html"
    ∷ bytes "leaderboard.html"
    ∷ bytes "login.html"
    ∷ bytes "self.html"
    ∷ []

abbrev pub css_names : List Text
css_names = bytes "app.css" ∷ bytes "credentials.css" ∷ []

abbrev pub script_names : List Text
script_names =
    bytes "app.js"
    ∷ bytes "credentials.js"
    ∷ bytes "leaderboard.js"
    ∷ bytes "login.js"
    ∷ bytes "nav.js"
    ∷ bytes "self.js"
    ∷ bytes "theme-init.js"
    ∷ bytes "theme.js"
    ∷ []

-- The switch of `Read`, `none` for ErrAssetNotFound.
unfoldable pub asset_content_type : Text → Option Text
asset_content_type name =
    if contains html_names name
    then some (bytes "text/html; charset=utf-8")
    else if contains css_names name
    then some (bytes "text/css; charset=utf-8")
    else if contains script_names name
    then some (bytes "text/javascript; charset=utf-8")
    else if text_eq name (bytes "favicon.svg")
    then some (bytes "image/svg+xml; charset=utf-8")
    else none
