-- ===== src/Storage/BoardroomStore/Cursors.antt =====
-- A cursor that was written is read back.
use telegent.Base.{
  Text, text_eq, text_eq→eq, leb, if◌then◌else◌, Bool-cases, or_else, Result, ok, ◌>>◌, ℕ, ◌≡◌,
  refl, sym, ap, ◌∙◌, inl, inr, true, ◌&&◌, Option, none, some, [],
}
use telegent.Base.Maps.{lookup, insert, lookup_in, lookup_in-insert}
use telegent.Protocol.Messages.{max_safe_integer}
use telegent.Protocol.Validation.{is_safe_slug}
use telegent.Storage.BoardroomStore.{
  BoardroomFiles, BoardroomStoreError, ChannelReadCursor, read_channel_cursor, write_channel_cursor,
  fallback_cursor, check_slug,
}

abbrev found :
    Text → Text → BoardroomFiles → Option ChannelReadCursor → Result BoardroomStoreError ℕ
found channel participant f (some c) = ok c.since_id
found channel participant f none = fallback_cursor channel participant f.room

read_found :
    (channel participant : Text) (f : BoardroomFiles) (o : Option ChannelReadCursor)
    → lookup_in channel participant f.channel_cursors ≡ o
    → read_channel_cursor channel participant f
      ≡ (check_slug channel >> check_slug participant >> found channel participant f o)
unfolding read_channel_cursor
read_found channel participant f none e = rw e refl
read_found channel participant f (some c) e = rw e refl

abbrev stored : Text → Text → ℕ → ℕ → ChannelReadCursor
stored channel participant since now = record {
  participant_id = participant;
  channel_id = channel;
  since_id = since;
  updated_at = now;
}

abbrev put : Text → Text → ChannelReadCursor → BoardroomFiles → BoardroomFiles
put channel participant c f = record f {
  channel_cursors =
      insert channel (insert participant c (or_else (lookup channel f.channel_cursors) []))
        f.channel_cursors;
}

read-put :
    (channel participant channel' participant' : Text) (c : ChannelReadCursor) (f : BoardroomFiles)
    → is_safe_slug channel ≡ true
    → is_safe_slug participant ≡ true
    → read_channel_cursor channel' participant' (put channel participant c f) ≡ (
        if text_eq channel channel' && text_eq participant participant'
        then ok c.since_id
        else read_channel_cursor channel' participant' f)
read-put channel participant channel' participant' c f h k =
    let there : _ =
      lookup_in-insert channel participant channel' participant' c f.channel_cursors in
    let before : _ = sym (
      read_found channel' participant' f (lookup_in channel' participant' f.channel_cursors)
        refl) in
    elim (Bool-cases (text_eq channel channel')) [
      | inr other ↦ rw other (
          read_found channel' participant' (put channel participant c f) _ (there ∙ rw other refl)
          ∙ before)
      | inl same ↦ elim (Bool-cases (text_eq participant participant')) [
        | inr other ↦
            rw (same, other)
              (read_found channel' participant' (put channel participant c f) _
                  (there ∙ rw same (rw other refl))
                ∙ before)
        | inl as_well ↦
            let safe : is_safe_slug channel' ≡ true =
              ap is_safe_slug (sym (text_eq→eq channel channel' same)) ∙ h in
            let safe' : is_safe_slug participant' ≡ true =
              ap is_safe_slug (sym (text_eq→eq participant participant' as_well)) ∙ k in
            rw same (
              rw as_well (
                read_found channel' participant' (put channel participant c f) (some c)
                  (there ∙ rw same (rw as_well refl))
                ∙ rw safe (rw safe' refl)))
      ]
    ]

-- After an accepted write the written position is read back for its participant and channel, and each
-- other position as before.
pub read-write_channel_cursor :
    (channel participant channel' participant' : Text) (since now : ℕ) (f : BoardroomFiles)
    (c : ChannelReadCursor)
    → (write_channel_cursor channel participant since now f).0 ≡ ok c
    → read_channel_cursor channel' participant'
        (write_channel_cursor channel participant since now f).1
      ≡ (if text_eq channel channel' && text_eq participant participant'
          then ok since
          else read_channel_cursor channel' participant' f)
unfolding write_channel_cursor
read-write_channel_cursor channel participant channel' participant' since now f c e =
    elim (Bool-cases (is_safe_slug channel)) [
      | inr bad ↦ let refused : _ = rw bad at e in cc
      | inl h ↦ elim (Bool-cases (is_safe_slug participant)) [
        | inr bad ↦ let refused : _ = rw bad at (rw h at e) in cc
        | inl k ↦ elim (Bool-cases (leb since max_safe_integer)) [
          | inr big ↦ let refused : _ = rw big at (rw k at (rw h at e)) in cc
          | inl small ↦ rw h (
              rw k (
                rw small (
                  read-put channel participant channel' participant'
                    (stored channel participant since now) f h k)))
        ]
      ]
    ]
