-- ===== src/Platform/Accounts.antt =====
-- src/platform/accounts.ts: the owner's account. `is_timestamp` stands for the test that a text is the
-- ISO text of the time that it parses to, and `lower` for `toLowerCase`.
use telegent.Base.{
  Text, codes, text_eq, leb, ◌==◌, if◌then◌else◌, or_else, Result, ok, err, ◌>>=◌, ◌>>◌, guard,
  length, any, all, includes, ℕ, Bool, true, false, not, ◌&&◌, ◌||◌, Option, none, some, List, [],
  ◌∷◌,
}
use telegent.Protocol.Validation.{is_space, trim}

-- What `JSON.parse` gives; the fields of an object are those of `Object.keys`, in their order.
mutual
  pub data Json : Type 0 where
    json_null : Json
    json_boolean : Bool → Json
    json_number : ℕ → Json
    json_text : Text → Json
    json_array : JsonItems → Json
    json_object : JsonFields → Json

  pub data JsonItems : Type 0 where
    no_items : JsonItems
    item : Json → JsonItems → JsonItems

  pub data JsonFields : Type 0 where
    no_fields : JsonFields
    field : Text → Json → JsonFields → JsonFields

pub record PlatformExternalIdentity : Type 0 where
  pub provider : Text
  pub subject : Text

pub record PlatformAccount : Type 0 where
  pub user_id : Text
  pub display_name : Text
  pub email : Option Text
  pub external_identity : Option PlatformExternalIdentity
  pub created_at : Text
  pub updated_at : Text

pub record DevOwnerIdentityConfig : Type 0 where
  pub user_id : Option Text
  pub display_name : Option Text
  pub email : Option Text
  pub external_identity : Option PlatformExternalIdentity

pub record PlatformOwnerQuery : Type 0 where
  pub account : Option Json
  pub dev_owner : Option DevOwnerIdentityConfig
  pub owner_user_id : Option Text

pub data AccountError : Type 0 where
  not_an_object not_a_string forbidden_field unsupported_field invalid_user_id
        invalid_display_name :
      AccountError
  invalid_email invalid_timestamp invalid_provider invalid_subject identity_incomplete :
      AccountError

abbrev pub account_keys : List Text
account_keys =
    codes "user_id"
    ∷ codes "display_name"
    ∷ codes "email"
    ∷ codes "external_identity"
    ∷ codes "created_at"
    ∷ codes "updated_at"
    ∷ []

abbrev pub external_identity_keys : List Text
external_identity_keys = codes "provider" ∷ codes "subject" ∷ []

abbrev pub forbidden_keys : List Text
forbidden_keys =
    codes "message"
    ∷ codes "messages"
    ∷ codes "text"
    ∷ codes "body"
    ∷ codes "brief"
    ∷ codes "brief_body"
    ∷ codes "content"
    ∷ codes "token"
    ∷ codes "tokens"
    ∷ codes "token_hash"
    ∷ codes "bearer"
    ∷ codes "authorization"
    ∷ codes "invite_url"
    ∷ codes "card_url"
    ∷ codes "request_body"
    ∷ codes "response_body"
    ∷ []

abbrev pub is_digit : ℕ → Bool
is_digit c = leb 48 c && leb c 57

abbrev pub is_lower_letter : ℕ → Bool
is_lower_letter c = leb 97 c && leb c 122

abbrev pub is_letter : ℕ → Bool
is_letter c = is_lower_letter c || (leb 65 c && leb c 90)

-- `.`, `_` and `-`
abbrev pub is_mark : ℕ → Bool
is_mark c = c == 46 || c == 95 || c == 45

-- `/^[first][rest]{0,n}$/`
abbrev pub is_name : (ℕ → Bool) → (ℕ → Bool) → ℕ → Text → Bool
is_name first rest n [] = false
is_name first rest n (c ∷ s) = first c && all rest s && leb (length s) n

unfoldable pub safe_user_id : Text → Bool
safe_user_id s =
    is_name (λ c. is_letter c || is_digit c) (λ c. is_letter c || is_digit c || is_mark c) 127 s

unfoldable pub safe_provider : Text → Bool
safe_provider s =
    is_name (λ c. is_lower_letter c || is_digit c)
      (λ c. is_lower_letter c || is_digit c || is_mark c) 63 s

-- `:`, `@` and `/` too.
unfoldable pub safe_subject : Text → Bool
safe_subject s =
    is_name (λ c. is_letter c || is_digit c)
      (λ c. is_letter c || is_digit c || is_mark c || c == 58 || c == 64 || c == 47) 199 s

abbrev pub has_prefix : Text → Text → Bool
has_prefix [] s = true
has_prefix (a ∷ t) [] = false
has_prefix (a ∷ t) (b ∷ s) = a == b && has_prefix t s

-- `/tgl_/.test(s)`
abbrev pub names_token : Text → Bool
names_token [] = false
names_token (c ∷ s) = has_prefix (codes "tgl_") (c ∷ s) || names_token s

abbrev pub max_display_name_length : ℕ
max_display_name_length = 100

abbrev pub max_email_length : ℕ
max_email_length = 320

-- `record[key]`
abbrev pub get : Text → JsonFields → Option Json
get key no_fields = none
get key (field k v fs) = if text_eq k key then some v else get key fs

abbrev pub as_string : Option Json → Result AccountError Text
as_string (some (json_text s)) = ok s
as_string _ = err not_a_string

abbrev pub as_record : Option Json → Result AccountError JsonFields
as_record (some (json_object fs)) = ok fs
as_record _ = err not_an_object

unfoldable pub assert_no_forbidden_keys :
    (Text → Text) → JsonFields → Result AccountError (Unit {0})
assert_no_forbidden_keys lower no_fields = ok tt
assert_no_forbidden_keys lower (field k v fs) =
    guard (not (includes forbidden_keys (lower k))) forbidden_field
    >> assert_no_forbidden_keys lower fs

abbrev pub assert_only : List Text → JsonFields → Result AccountError (Unit {0})
assert_only keys no_fields = ok tt
assert_only keys (field k v fs) = guard (includes keys k) unsupported_field >> assert_only keys fs

unfoldable pub as_user_id : Option Json → Result AccountError Text
unfolding safe_user_id
as_user_id value =
    as_string value >>= λ s. guard (safe_user_id s && not (names_token s)) invalid_user_id >> ok s

abbrev pub display_name_of : Text → Result AccountError Text
display_name_of name =
    guard (not (leb (length name) 0) && leb (length name) max_display_name_length)
      invalid_display_name
    >> ok name

unfoldable pub as_display_name : Option Json → Result AccountError Text
as_display_name value = as_string value >>= λ s. display_name_of (trim s)

abbrev pub email_of : Text → Result AccountError (Option Text)
email_of email =
    guard
      (not (leb (length email) 0)
        && leb (length email) max_email_length
        && not (any is_space email)
        && any (λ c. c == 64) email)
      invalid_email
    >> ok (some email)

unfoldable pub as_nullable_email : Option Json → Result AccountError (Option Text)
as_nullable_email (some json_null) = ok none
as_nullable_email value = as_string value >>= λ s. email_of (trim s)

unfoldable pub as_timestamp : (Text → Bool) → Option Json → Result AccountError Text
as_timestamp is_timestamp value =
    as_string value >>= λ s. guard (is_timestamp s) invalid_timestamp >> ok s

abbrev pub identity_of : Text → Text → Result AccountError (Option PlatformExternalIdentity)
identity_of provider subject =
    guard (safe_provider provider) invalid_provider
    >> guard (safe_subject subject && not (names_token subject)) invalid_subject
    >> ok (some (record { provider = provider; subject = subject }))

unfoldable pub as_nullable_external_identity :
    (Text → Text) → Option Json → Result AccountError (Option PlatformExternalIdentity)
unfolding assert_no_forbidden_keys
as_nullable_external_identity lower (some json_null) = ok none
as_nullable_external_identity lower value = as_record value >>= λ fs.
    assert_no_forbidden_keys lower fs
    >> assert_only external_identity_keys fs
    >> as_string (get (codes "provider") fs)
    >>= λ provider. as_string (get (codes "subject") fs) >>= λ subject. identity_of provider subject

unfoldable pub sanitize_account :
    (Text → Text) → (Text → Bool) → Json → Result AccountError PlatformAccount
unfolding assert_no_forbidden_keys as_timestamp as_user_id as_display_name as_nullable_email
    as_nullable_external_identity
sanitize_account lower is_timestamp input = as_record (some input) >>= λ fs.
    assert_no_forbidden_keys lower fs
    >> assert_only account_keys fs
    >> as_timestamp is_timestamp (get (codes "created_at") fs)
    >>= λ created_at. as_timestamp is_timestamp (get (codes "updated_at") fs) >>= λ updated_at.
        as_user_id (get (codes "user_id") fs) >>= λ user_id.
        as_display_name (get (codes "display_name") fs) >>= λ display_name.
        as_nullable_email (get (codes "email") fs) >>= λ email.
        as_nullable_external_identity lower (get (codes "external_identity") fs) >>= λ identity.
        ok (record {
          user_id = user_id;
          display_name = display_name;
          email = email;
          external_identity = identity;
          created_at = created_at;
          updated_at = updated_at;
        })

abbrev pub nullable_json : Option Text → Json
nullable_json none = json_null
nullable_json (some s) = json_text s

abbrev pub identity_json : Option PlatformExternalIdentity → Json
identity_json none = json_null
identity_json (some i) = json_object (
    field (codes "provider") (json_text i.provider)
      (field (codes "subject") (json_text i.subject) no_fields))

-- `now` is the ISO text of the time.
unfoldable pub create_dev_owner_account :
    (Text → Text) → Text → DevOwnerIdentityConfig → Result AccountError PlatformAccount
unfolding as_user_id as_display_name as_nullable_email as_nullable_external_identity
create_dev_owner_account lower now config =
    as_user_id (some (json_text (or_else config.user_id (codes "local-owner")))) >>= λ user_id.
    as_display_name (some (json_text (or_else config.display_name (codes "Local Owner"))))
    >>= λ display_name. as_nullable_email (some (nullable_json config.email)) >>= λ email.
        as_nullable_external_identity lower (some (identity_json config.external_identity))
        >>= λ identity. ok (record {
          user_id = user_id;
          display_name = display_name;
          email = email;
          external_identity = identity;
          created_at = now;
          updated_at = now;
        })

-- The variables of `DEV_OWNER_ENV`.
pub record DevOwnerEnv : Type 0 where
  pub user_id : Option Text
  pub display_name : Option Text
  pub email : Option Text
  pub provider : Option Text
  pub subject : Option Text

abbrev pub identity_from :
    Option Text → Option Text → Result AccountError (Option PlatformExternalIdentity)
identity_from none none = ok none
identity_from (some provider) (some subject) =
    ok (some (record { provider = provider; subject = subject }))
identity_from _ _ = err identity_incomplete

abbrev pub some_email : Option Text → Option Text
some_email (some []) = none
some_email email = email

unfoldable pub dev_owner_identity_from_env :
    DevOwnerEnv → Result AccountError DevOwnerIdentityConfig
dev_owner_identity_from_env env = identity_from env.provider env.subject >>= λ identity.
    ok (record {
      user_id = env.user_id;
      display_name = env.display_name;
      email = some_email env.email;
      external_identity = identity;
    })

abbrev pub some_account {ℓ} :
    {E : Type ℓ} → Result E PlatformAccount → Result E (Option PlatformAccount)
some_account (ok a) = ok (some a)
some_account (err e) = err e

abbrev pub owner_named :
    (Text → Text) → Text → Option Text → Result AccountError (Option PlatformAccount)
owner_named lower now none = ok none
owner_named lower now (some owner) = some_account (
    create_dev_owner_account lower now (record {
      user_id = some owner;
      display_name = some owner;
      email = none;
      external_identity = none;
    }))

unfoldable pub resolve_owner_account :
    (Text → Text)
    → (Text → Bool)
    → Text
    → PlatformOwnerQuery
    → Result AccountError (Option PlatformAccount)
unfolding sanitize_account create_dev_owner_account
resolve_owner_account lower is_timestamp now q = elim q.account [
  | some account ↦ some_account (sanitize_account lower is_timestamp account)
  | none ↦ elim q.dev_owner [
    | some config ↦ some_account (create_dev_owner_account lower now config)
    | none ↦ owner_named lower now q.owner_user_id
  ]
]
