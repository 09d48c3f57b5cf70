-- ===== src/Tunnel/Headers.antt =====
-- src/tunnel/protocol.ts: the headers that the tunnel's logs may see. A header map is its entries in
-- their order, and `toLowerCase` of the language is the argument `lower`.
use telegent.Base.{Text, codes, if◌then◌else◌, includes, List, [], ◌∷◌}

abbrev pub sensitive_headers : List Text
sensitive_headers =
    codes "authorization" ∷ codes "cookie" ∷ codes "set-cookie" ∷ codes "proxy-authorization" ∷ []

unfoldable pub redact_headers : (Text → Text) → List (Text × Text) → List (Text × Text)
redact_headers lower [] = []
redact_headers lower ((name, value) ∷ headers) =
    let rest = redact_headers lower headers in
    if includes sensitive_headers (lower name) then rest else (name, value) ∷ rest
