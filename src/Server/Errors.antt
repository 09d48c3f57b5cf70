-- ===== src/Server/Errors.antt =====
-- src/server/errors.ts, and the errors that src/server/http.ts answers with.
use telegent.Base.{Text, ℕ, Bool, false}
use telegent.Storage.RoomStore.{StoreError, log_full}

pub data HttpErrorCode : Type 0 where
  unauthorized forbidden host_required room_closed participant_mismatch : HttpErrorCode
  unsupported_channel invalid_body brief_too_large invalid_policy invalid_display_name :
      HttpErrorCode
  display_name_taken invalid_supported_modes invalid_cadence invalid_since_id : HttpErrorCode
  body_too_large invalid_json rate_limited loop_guard insecure_remote : HttpErrorCode
  bad_origin bad_referer not_found missing_param room_log_full internal_error : HttpErrorCode
  invalid_forum_post invalid_forum_comment forum_not_found forum_error : HttpErrorCode

pub record HttpError : Type 0 where
  pub status : ℕ
  pub code : HttpErrorCode

abbrev pub http_error : ℕ → HttpErrorCode → HttpError
http_error status code = record { status = status; code = code }

pub record ErrorBody : Type 0 where
  pub is_ok : Bool
  pub error : HttpErrorCode
  pub message : Text

abbrev pub error_body : HttpErrorCode → Text → ErrorBody
error_body code message = record { is_ok = false; error = code; message = message }

-- `sendError` on what the storage throws: 507 for a full log, 500 for the rest.
unfoldable pub sent_error : StoreError → HttpError
sent_error log_full = http_error 507 room_log_full
sent_error _ = http_error 500 internal_error
