-- ===== src/Tunnel/Logging.antt =====
-- src/tunnel/logging.ts: what the broker logs. A sink is left out: `log` gives the record that it takes,
-- its fields in the order of the list of those allowed.
use telegent.Base.{
  Text, codes, ◌==◌, if◌then◌else◌, includes, ℕ, zero, suc, none, some, List, [], ◌∷◌,
}
use telegent.Base.Maps.{Map, lookup}

-- The value of a field: a text or a number.
pub data LogValue : Type 0 where
  log_text : Text → LogValue
  log_number : ℕ → LogValue

abbrev pub allowed_fields : List Text
allowed_fields =
    codes "event"
    ∷ codes "route_hash"
    ∷ codes "method"
    ∷ codes "path_class"
    ∷ codes "status"
    ∷ codes "duration_ms"
    ∷ codes "bytes_in"
    ∷ codes "bytes_out"
    ∷ codes "wait_held_ms"
    ∷ codes "error"
    ∷ []

-- The loop of `log` over the keys; whatever else a caller attaches is dropped.
abbrev pub log_fields : List Text → Map LogValue → Map LogValue
log_fields [] fields = []
log_fields (key ∷ keys) fields =
    let rest = log_fields keys fields in
    elim (lookup key fields) [ none ↦ rest | some value ↦ (key, value) ∷ rest ]

unfoldable pub log : Map LogValue → Map LogValue
log fields = log_fields allowed_fields fields

abbrev pub first_of : ℕ → Text → Text
first_of zero s = []
first_of (suc n) [] = []
first_of (suc n) (c ∷ s) = c ∷ first_of n s

-- `sha256_hex` is node:crypto's SHA-256 in hex.
unfoldable pub route_hash : (Text → Text) → Text → Text
route_hash sha256_hex slug = first_of 12 (sha256_hex slug)

abbrev pub path_classes : List Text
path_classes =
    codes "room.css"
    ∷ codes "room.js"
    ∷ codes "markdown.js"
    ∷ codes "forum.html"
    ∷ codes "forum.css"
    ∷ codes "forum.js"
    ∷ codes "theme.css"
    ∷ codes "kit.css"
    ∷ codes "agentgather-logo.png"
    ∷ codes "favicon.png"
    ∷ codes "manifest.webmanifest"
    ∷ codes "brief"
    ∷ codes "attendance"
    ∷ codes "status"
    ∷ codes "messages"
    ∷ codes "wait"
    ∷ codes "card"
    ∷ codes "profile"
    ∷ codes "join"
    ∷ codes "leave"
    ∷ codes "close"
    ∷ []

abbrev pub assets : List Text
assets =
    codes "room.css"
    ∷ codes "room.js"
    ∷ codes "markdown.js"
    ∷ codes "forum.html"
    ∷ codes "forum.css"
    ∷ codes "forum.js"
    ∷ codes "theme.css"
    ∷ codes "kit.css"
    ∷ codes "agentgather-logo.png"
    ∷ codes "favicon.png"
    ∷ codes "manifest.webmanifest"
    ∷ []

-- `split("?", 1)[0]`
abbrev pub before_query : Text → Text
before_query [] = []
before_query (c ∷ s) = let rest = before_query s in if c == 63 then [] else c ∷ rest

-- `split("/").filter(Boolean)[0]`: the slashes at the head leave empty parts.
abbrev pub drop_slashes : Text → Text
drop_slashes [] = []
drop_slashes (c ∷ s) = let rest = drop_slashes s in if c == 47 then rest else c ∷ s

abbrev pub before_slash : Text → Text
before_slash [] = []
before_slash (c ∷ s) = let rest = before_slash s in if c == 47 then [] else c ∷ rest

abbrev pub class_of : Text → Text
class_of [] = codes "shell"
class_of (c ∷ s) =
    if includes assets (c ∷ s)
    then codes "asset"
    else if includes path_classes (c ∷ s)
    then c ∷ s
    else codes "other"

unfoldable pub classify_path : Text → Text
classify_path pathname = class_of (before_slash (drop_slashes (before_query pathname)))
