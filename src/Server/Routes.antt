-- ===== src/Server/Routes.antt =====
-- src/server/http.ts: the table of `handleRequest`.
use telegent.Base.{
  Text, codes, text_eq, if◌then◌else◌, Result, ok, err, ◌>>◌, Option, List, [], ◌∷◌,
}
use telegent.Server.Errors.{HttpError, http_error, not_found}
use telegent.Server.Guards.{enforce_exposure, enforce_same_origin, is_write_method}
use telegent.Server.Room.{ServerApi, RoomOptions, ◌then◌}

-- A static file of the browser or of the protocol with its content type, or an endpoint.
pub data Route : Type 0 where
  browser_asset protocol_asset binary_asset : Text → Text → Route
  to_brief to_new_brief to_attendance to_profile to_new_profile to_card to_join to_messages : Route
  to_new_message to_wait to_leave to_close to_status to_boardroom : Route
  to_forum_posts to_forum_post to_new_forum_post to_new_forum_comment : Route

abbrev pub html : Text
html = codes "text/html; charset=utf-8"

abbrev pub css : Text
css = codes "text/css; charset=utf-8"

abbrev pub javascript : Text
javascript = codes "text/javascript; charset=utf-8"

abbrev pub get_routes : List (Text × Route)
get_routes =
    (codes "/", browser_asset (codes "room.html") html)
    ∷ (codes "/room.css", browser_asset (codes "room.css") css)
    ∷ (codes "/theme.css", browser_asset (codes "theme.css") css)
    ∷ (codes "/kit.css", browser_asset (codes "kit.css") css)
    ∷ (codes "/room.js", browser_asset (codes "room.js") javascript)
    ∷ (codes "/channel-rail.css", browser_asset (codes "channel-rail.css") css)
    ∷ (codes "/channel-rail.js", browser_asset (codes "channel-rail.js") javascript)
    ∷ (codes "/markdown.js", browser_asset (codes "markdown.js") javascript)
    ∷ (codes "/forum.html", browser_asset (codes "forum.html") html)
    ∷ (codes "/forum.css", browser_asset (codes "forum.css") css)
    ∷ (codes "/forum.js", browser_asset (codes "forum.js") javascript)
    ∷ (codes "/forum/posts", to_forum_posts)
    ∷ (codes "/forum/post", to_forum_post)
    ∷ (codes "/mentions.js", protocol_asset (codes "mentions.js") javascript)
    ∷ (codes "/validation.js", protocol_asset (codes "validation.js") javascript)
    ∷ (
      codes "/manifest.webmanifest",
      browser_asset (codes "manifest.webmanifest")
          (codes "application/manifest+json; charset=utf-8"),
    )
    ∷ (
      codes "/agentgather-logo.png",
      binary_asset (codes "agentgather-logo.png") (codes "image/png"),
    )
    ∷ (codes "/favicon.png", binary_asset (codes "agentgather-logo.png") (codes "image/png"))
    ∷ (codes "/brief", to_brief)
    ∷ (codes "/profile", to_profile)
    ∷ (codes "/card", to_card)
    ∷ (codes "/messages", to_messages)
    ∷ (codes "/wait", to_wait)
    ∷ (codes "/status", to_status)
    ∷ (codes "/boardroom", to_boardroom)
    ∷ []

abbrev pub post_routes : List (Text × Route)
post_routes =
    (codes "/forum/posts", to_new_forum_post)
    ∷ (codes "/forum/comment", to_new_forum_comment)
    ∷ (codes "/brief", to_new_brief)
    ∷ (codes "/attendance", to_attendance)
    ∷ (codes "/profile", to_new_profile)
    ∷ (codes "/join", to_join)
    ∷ (codes "/messages", to_new_message)
    ∷ (codes "/leave", to_leave)
    ∷ (codes "/close", to_close)
    ∷ []

abbrev pub route_named : Text → List (Text × Route) → Result HttpError Route
route_named path [] = err (http_error 404 not_found)
route_named path ((name, r) ∷ routes) = if text_eq path name then ok r else route_named path routes

-- What a request presents to the tests that come before the table.
pub record RequestHead : Type 0 where
  pub method : Text
  pub path : Text
  pub host : Option Text
  pub origin : Option Text
  pub referer : Option Text

abbrev pub route : Text → Text → Result HttpError Route
route method path =
    if text_eq method (codes "GET")
    then route_named path get_routes
    else if text_eq method (codes "POST")
    then route_named path post_routes
    else err (http_error 404 not_found)

-- `handleRequest` up to the handler that it calls.
unfoldable pub handle_request : ServerApi → RoomOptions → RequestHead → Result HttpError Route
handle_request api o head =
    enforce_exposure o.allow_insecure_remote head.host
    >> (if is_write_method head.method
        then enforce_same_origin api.origin_of o.base_url head.origin head.referer
        else ok tt)
    >> route head.method head.path
