-- ===== src/Protocol/Messages.antt =====
-- src/protocol/messages.ts: the checks on what a client sends, and the message built from it. The
-- fields of the unknown record are given by the tests that the source puts them to.
use telegent.Base.{
  Text, codes, text_eq, leb, ◌==◌, if◌then◌else◌, or_else, Result, ok, err, ◌>>=◌, length, all, ℕ,
  Bool, not, ◌||◌, Option, none, some, List, [], ◌∷◌,
}
use telegent.Protocol.Types.{MessageType, Message, ClientMessageInput}
use telegent.Protocol.Validation.{is_word_char, is_space}

abbrev pub max_message_text_length : ℕ
max_message_text_length = 24000

abbrev pub max_client_message_id_length : ℕ
max_client_message_id_length = 128

-- `Number.MAX_SAFE_INTEGER`
abbrev pub max_safe_integer : ℕ
max_safe_integer = 9007199254740991

-- A field of the record: absent, a string, a number that is a natural number, or anything else.
pub data Field : Type 0 where
  absent other : Field
  string : Text → Field
  number : ℕ → Field

pub record RawMessage : Type 0 where
  pub text : Field
  pub type : Field
  pub reply_to : Field
  pub client_msg_id : Field

pub data MessageError : Type 0 where
  not_an_object text_required text_too_long invalid_reply_to invalid_client_msg_id : MessageError

-- The types a client may send: all but `system`.
abbrev pub client_types : List (Text × MessageType)
client_types =
    (codes "message", MessageType.message)
    ∷ (codes "question", MessageType.question)
    ∷ (codes "reply", MessageType.reply)
    ∷ (codes "status", MessageType.status)
    ∷ (codes "request_review", MessageType.request_review)
    ∷ (codes "request_debug", MessageType.request_debug)
    ∷ (codes "handoff", MessageType.handoff)
    ∷ []

abbrev pub type_named : Text → List (Text × MessageType) → Option MessageType
type_named s [] = none
type_named s ((name, t) ∷ types) = if text_eq s name then some t else type_named s types

-- Any other value is taken for no type at all.
unfoldable pub parse_client_message_type : Field → Option MessageType
parse_client_message_type (string s) = type_named s client_types
parse_client_message_type _ = none

unfoldable pub parse_positive_message_id : Field → Result MessageError ℕ
parse_positive_message_id (number n) =
    if not (leb n max_safe_integer) || leb n 0 then err invalid_reply_to else ok n
parse_positive_message_id _ = err invalid_reply_to

-- `[A-Za-z0-9._:-]`
abbrev pub is_client_id_char : ℕ → Bool
is_client_id_char c = is_word_char c || c == b'.' || c == b':' || c == b'-'

unfoldable pub parse_client_message_id : Field → Result MessageError Text
parse_client_message_id (string s) =
    if length s == 0
      || not (leb (length s) max_client_message_id_length)
      || not (all is_client_id_char s)
    then err invalid_client_msg_id
    else ok s
parse_client_message_id _ = err invalid_client_msg_id

-- An absent field is left absent, and a field that is there must parse.
abbrev pub optional {ℓ} :
    {A : Type ℓ} → (Field → Result MessageError A) → Field → Result MessageError (Option A)
optional parse absent = ok none
optional parse f = parse f >>= λ a. ok (some a)

abbrev pub required_text : Field → Result MessageError Text
required_text (string s) =
    if all is_space s
    then err text_required
    else if not (leb (length s) max_message_text_length)
    then err text_too_long
    else ok s
required_text _ = err text_required

unfoldable pub client_message_input_from_record :
    Option RawMessage → Result MessageError ClientMessageInput
client_message_input_from_record none = err not_an_object
client_message_input_from_record (some source) = required_text source.text >>= λ text.
    optional parse_positive_message_id source.reply_to >>= λ reply_to.
    optional parse_client_message_id source.client_msg_id >>= λ client_msg_id. ok (record {
      text = text;
      type = parse_client_message_type source.type;
      reply_to = reply_to;
      client_msg_id = client_msg_id;
    })

pub record BuildMessageOptions : Type 0 where
  pub id : ℕ
  pub room : Text
  pub from : Text
  pub now : ℕ
  pub mentions : List Text
  pub type : Option MessageType

unfoldable pub build_message : ClientMessageInput → BuildMessageOptions → Message
build_message input options = record {
  id = options.id;
  room = options.room;
  ts = options.now;
  from = options.from;
  type = or_else options.type (or_else input.type MessageType.message);
  text = input.text;
  reply_to = input.reply_to;
  client_msg_id = input.client_msg_id;
  mentions = options.mentions;
}

-- None where the source throws.
unfoldable pub parse_positive_integer : Field → Option ℕ
parse_positive_integer (number n) = if leb n max_safe_integer then some n else none
parse_positive_integer _ = none
