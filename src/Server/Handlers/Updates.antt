-- ===== src/Server/Handlers/Updates.antt =====
-- What stands in the list of participants after a handler has written one back.
use telegent.Base.{
  Text, text_eq, text_eq_refl, if◌then◌else◌, Bool-cases, Result, ok, err, find, ℕ, ◌≡◌, refl, sym,
  ap, ◌∙◌, inl, inr, true, Option, none, some, List, [], ◌∷◌,
}
use telegent.Protocol.Types.{Participant}
use telegent.Protocol.Messages.{Field}
use telegent.Protocol.Validation.{is_safe_slug}
use telegent.Storage.RoomStore.{upsert_participant, put_participant}
use telegent.Server.Bodies.{
  AttentionBody, display_name_body, free_name, with_negotiated_attention,
  parse_attention_declaration, negotiated, declare, Declaration,
}
use telegent.Protocol.Attention.{
  AttentionError, NegotiatedAttention, negotiate_participant_attention,
}
use telegent.Server.Guards.{parse_since_id}
use telegent.Server.Room.{ServerApi, RoomServer, ◌then◌, answer, require, stored, touch_participant}
use telegent.Server.Errors.{HttpError}
use telegent.Server.Room.Steps.{then-Passed}
use telegent.Server.Handlers.{
  Reply, profile_reply, profiled, post_profile, get_messages, read_after,
}

-- The participant that stands under an alias.
abbrev pub recorded : Text → RoomServer → Option Participant
recorded alias s = find (λ q. text_eq q.alias alias) s.files.participants

find-put_participant :
    (p : Participant) (qs : List Participant)
    → find (λ q. text_eq q.alias p.alias) (put_participant p qs) ≡ some p
unfolding put_participant
find-put_participant p [] = rw (text_eq_refl p.alias) refl
find-put_participant p (q ∷ qs) = elim (Bool-cases (text_eq q.alias p.alias)) [
  | inl same ↦ rw same (rw (text_eq_refl p.alias) refl)
  | inr other ↦ rw other (rw other (find-put_participant p qs))
]

recorded-stored :
    (p : Participant) (s : RoomServer)
    → is_safe_slug p.alias ≡ true
    → (stored (upsert_participant p) s).0 ≡ ok tt
      × (recorded p.alias (stored (upsert_participant p) s).1 ≡ some p)
unfolding upsert_participant
recorded-stored p s safe = rw safe (refl, find-put_participant p s.files.participants)

recorded-profiled :
    (u q : Participant) (s : RoomServer)
    → is_safe_slug u.alias ≡ true
    → (((stored (upsert_participant u)) then λ _. answer (profile_reply u)) s).0
      ≡ ok (profile_reply q)
    → recorded u.alias (((stored (upsert_participant u)) then λ _. answer (profile_reply u)) s).1
      ≡ some q
recorded-profiled u q s safe e =
    let (done, t, same, whole) =
      then-Passed (stored (upsert_participant u)) (λ _. answer (profile_reply u)) s
        (profile_reply q) e in
    let written : u ≡ q =
      let reply : ◌≡◌ {A = Result HttpError Reply} (ok (profile_reply u)) (ok (profile_reply q)) =
        ap (λ (x : Result HttpError Reply × RoomServer). x.0) (sym whole) ∙ e in
      cc in
    ap (λ (x : Result HttpError Reply × RoomServer). recorded u.alias x.1) whole
    ∙ (ap (λ (x : Result HttpError (Unit {0}) × RoomServer). recorded u.alias x.1) (sym same)
        ∙ ((recorded-stored u s safe).1 ∙ ap (λ x. some x) written))

alias-negotiated :
    (p : Participant) (r : Result AttentionError NegotiatedAttention)
    → (negotiated p r).alias ≡ p.alias
alias-negotiated p (ok n) = refl
alias-negotiated p (err e) = refl

alias-profiled :
    (now : ℕ) (name : Text) (d : Declaration) (p : Participant)
    → (profiled now name d p).alias ≡ p.alias
unfolding with_negotiated_attention
alias-profiled now name d p =
    let q = record (declare d p) { display_name = some name; last_seen_at = now } in
    alias-negotiated q (negotiate_participant_attention q)

recorded-profiled_as :
    (alias : Text) (u q : Participant) (s : RoomServer)
    → u.alias ≡ alias
    → is_safe_slug alias ≡ true
    → (((stored (upsert_participant u)) then λ _. answer (profile_reply u)) s).0
      ≡ ok (profile_reply q)
    → recorded alias (((stored (upsert_participant u)) then λ _. answer (profile_reply u)) s).1
      ≡ some q
recorded-profiled_as alias u q s same safe e =
    ap (λ a. recorded a (((stored (upsert_participant u)) then λ _. answer (profile_reply u)) s).1)
      (sym same)
    ∙ recorded-profiled u q s (ap is_safe_slug same ∙ safe) e

-- A profile that was accepted is what the room records.
recorded-post_profile :
    (api : ServerApi) (now : ℕ) (p q : Participant) (name : Field) (body : AttentionBody)
    (s : RoomServer)
    → is_safe_slug p.alias ≡ true
    → (post_profile api now p name body s).0 ≡ ok (profile_reply q)
    → recorded p.alias (post_profile api now p name body s).1 ≡ some q
unfolding post_profile
recorded-post_profile api now p q name body s safe e =
    let (n, t, named, one) =
      then-Passed (require (display_name_body name)) _ s (profile_reply q) e in
    let e' = ap (λ (x : Result HttpError Reply × RoomServer). x.0) (sym one) ∙ e in
    let (_, u, free, two) =
      then-Passed (require (free_name api p n s.files)) _ t (profile_reply q) e' in
    let e'' = ap (λ (x : Result HttpError Reply × RoomServer). x.0) (sym two) ∙ e' in
    let (d, v, declared, three) =
      then-Passed (require (parse_attention_declaration body)) _ u (profile_reply q) e'' in
    let last = ap (λ (x : Result HttpError Reply × RoomServer). x.0) (sym three) ∙ e'' in
    ap (λ (x : Result HttpError Reply × RoomServer). recorded p.alias x.1) (one ∙ (two ∙ three))
    ∙ recorded-profiled_as p.alias (profiled now n d p) q v (alias-profiled now n d p) safe last

recorded-read :
    (alias : Text) (r : Result HttpError ℕ) (s : RoomServer)
    → recorded alias (((require r) then λ since. read_after since) s).1 ≡ recorded alias s
recorded-read alias (err e) s = refl
recorded-read alias (ok since) s = refl

recorded-get_messages :
    (api : ServerApi) (now : ℕ) (p : Participant) (since : Option Text) (s : RoomServer)
    → is_safe_slug p.alias ≡ true
    → recorded p.alias (get_messages api now p none since s).1
      ≡ some (record p { last_seen_at = now })
unfolding get_messages touch_participant upsert_participant
recorded-get_messages api now p since s safe =
    let there = find-put_participant (record p { last_seen_at = now }) s.files.participants in
    rw safe (recorded-read p.alias (parse_since_id api.to_number since) _ ∙ there)

-- Two requests of one participant that were both admitted before either wrote: the profile that the
-- first has set, and was answered with, is replaced by what the second was admitted with, when the
-- second only reads messages.
pub profile_reverted :
    (api : ServerApi) (now later : ℕ) (p q : Participant) (name : Field) (body : AttentionBody)
    (since : Option Text) (s : RoomServer)
    → is_safe_slug p.alias ≡ true
    → (post_profile api now p name body s).0 ≡ ok (profile_reply q)
    → let t = (post_profile api now p name body s).1 in
      (recorded p.alias t ≡ some q)
      × (recorded p.alias (get_messages api later p none since t).1
          ≡ some (record p { last_seen_at = later }))
profile_reverted api now later p q name body since s safe e = (
  recorded-post_profile api now p q name body s safe e,
  recorded-get_messages api later p since (post_profile api now p name body s).1 safe,
)
