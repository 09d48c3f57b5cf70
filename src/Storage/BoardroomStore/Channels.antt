-- ===== src/Storage/BoardroomStore/Channels.antt =====
-- What is read back of a boardroom and its cursors.
use telegent.Base.{
  Text, codes, text_eq, text_eq→eq, text_eq_iff, Bool-cases, Result, ok, err, ◌>>◌, occurs, All,
  includes, ℕ, ◌≤◌, ◌≡◌, refl, ap, ◌∙◌, inl, inr, true, false, Option, none, some, List, [], ◌∷◌,
  map, arith,
}
use telegent.Protocol.Boardroom.{
  Boardroom, Channel, some_channel, derive_default_boardroom, BoardroomError, check_channels,
  assert_valid_channel, assert_valid_boardroom,
}
use telegent.Protocol.Validation.{is_safe_slug}
use telegent.Storage.BoardroomStore.{
  BoardroomFiles, BoardroomStoreError, read_boardroom, persist_boardroom, write_boardroom,
  create_boardroom, add_channel, outcome, new_boardroom, free_channel, checked, check_slug,
  with_channel,
}

-- The calls that write a boardroom.
pub data Change : Type 0 where
  writes : Boardroom → Change
  creates : Option Text → Option (List Channel) → ℕ → Change
  adds : Channel → ℕ → Change

abbrev pub change : Text → Change → BoardroomFiles → BoardroomFiles
change room_id (writes b) f = (write_boardroom room_id b f).1
change room_id (creates name channels now) f = (create_boardroom room_id name channels now f).1
change room_id (adds channel now) f = (add_channel room_id channel now f).1

unfoldable pub change_all : Text → List Change → BoardroomFiles → BoardroomFiles
change_all room_id [] f = f
change_all room_id (c ∷ cs) f = change_all room_id cs (change room_id c f)

unfoldable pub IsValid : BoardroomFiles → Type 0
IsValid f = assert_valid_boardroom (read_boardroom f) ≡ ok tt

persisted-IsValid :
    (p : Boardroom) (f : BoardroomFiles) (r : Result BoardroomError (Unit {0}))
    → assert_valid_boardroom p ≡ r
    → IsValid f
    → IsValid (checked (outcome r) f (ok p, record f { boardroom = some p })).1
unfolding IsValid read_boardroom assert_valid_boardroom
persisted-IsValid p f (ok _) e h = e
persisted-IsValid p f (err _) e h = h

persist_boardroom-IsValid :
    (b : Boardroom) (f : BoardroomFiles) → IsValid f → IsValid (persist_boardroom b f).1
unfolding persist_boardroom
persist_boardroom-IsValid b f h =
    let p = record b { legacy = false } in persisted-IsValid p f (assert_valid_boardroom p) refl h

checked-IsValid :
    (c : Result BoardroomStoreError (Unit {0})) (f : BoardroomFiles)
    (done : Result BoardroomStoreError Boardroom × BoardroomFiles)
    → IsValid f
    → IsValid done.1
    → IsValid (checked c f done).1
checked-IsValid (err e) f done h k = h
checked-IsValid (ok _) f done h k = k

change-IsValid :
    (room_id : Text) (c : Change) (f : BoardroomFiles) → IsValid f → IsValid (change room_id c f)
unfolding write_boardroom create_boardroom add_channel
change-IsValid room_id (writes b) f h =
    checked-IsValid (check_slug room_id) f (persist_boardroom (record b { id = room_id }) f) h
      (persist_boardroom-IsValid (record b { id = room_id }) f h)
change-IsValid room_id (creates name channels now) f h =
    let b = new_boardroom room_id name channels now in
    checked-IsValid (check_slug room_id) f (persist_boardroom b f) h
      (persist_boardroom-IsValid b f h)
change-IsValid room_id (adds channel now) f h =
    let b = with_channel channel now (read_boardroom f) in
    checked-IsValid (check_slug room_id >> free_channel channel (read_boardroom f)) f
      (persist_boardroom b f) h (persist_boardroom-IsValid b f h)

change_all-IsValid :
    (room_id : Text) (cs : List Change) (f : BoardroomFiles)
    → IsValid f
    → IsValid (change_all room_id cs f)
unfolding change_all
change_all-IsValid room_id [] f h = h
change_all-IsValid room_id (c ∷ cs) f h =
    change_all-IsValid room_id cs _ (change-IsValid room_id c f h)

-- A list of channels that passes the check, after the ids of `seen`.
abbrev Separate : List Text → List Channel → Type 0
Separate seen cs =
    (id : Text)
    → (occurs id (map (λ c. c.id) cs) ≤ 1)
      × (includes seen id ≡ true → occurs id (map (λ c. c.id) cs) ≡ 0)

check_channels-Separate :
    (seen : List Text) (cs : List Channel)
    → check_channels seen cs ≡ ok tt
    → All (λ c. is_safe_slug c.id ≡ true) cs × Separate seen cs
unfolding check_channels assert_valid_channel
check_channels-Separate seen [] e = (tt, λ id. (omega arith, λ _. refl))
check_channels-Separate seen (c ∷ cs) e = elim (Bool-cases (is_safe_slug c.id)) [
  | inr bad ↦ let refused : _ = rw bad at e in cc
  | inl safe ↦ elim (Bool-cases (includes seen c.id)) [
    | inl twice ↦ let refused : _ = rw twice at (rw safe at e) in cc
    | inr new ↦
        let h : _ = check_channels-Separate (c.id ∷ seen) cs (rw new at (rw safe at e)) in
        (
          (safe, h.0),
          λ id. (
            ground (arith, h.1 id, text_eq_iff c.id id, text_eq_iff id c.id),
            λ there. elim (Bool-cases (text_eq c.id id)) [
              | inl same ↦
                  let again : includes seen c.id ≡ true =
                    ap (includes seen) (text_eq→eq c.id id same) ∙ there in
                  cc
              | inr other ↦
                  let later : occurs id (map (λ k. k.id) cs) ≡ 0 = (h.1 id).1 (rw other there) in
                  rw other (omega (arith, later))
            ],
          ),
        )
  ]
]

-- A boardroom that passes the check has a channel, channels with safe ids only, and no id twice.
abbrev pub Whole : List Channel → Type 0
Whole cs =
    (some_channel cs ≡ true)
    × All (λ c. is_safe_slug c.id ≡ true) cs
    × ((id : Text) → occurs id (map (λ c. c.id) cs) ≤ 1)

assert_valid_boardroom-Whole : (b : Boardroom) → assert_valid_boardroom b ≡ ok tt → Whole b.channels
unfolding assert_valid_boardroom
assert_valid_boardroom-Whole b e = elim (Bool-cases (is_safe_slug b.id)) [
  | inr bad ↦ let refused : _ = rw bad at e in cc
  | inl safe ↦ elim (Bool-cases (some_channel b.channels)) [
    | inr empty ↦ let refused : _ = rw empty at (rw safe at e) in cc
    | inl there ↦
        let h : _ = check_channels-Separate [] b.channels (rw there at (rw safe at e)) in
        (there, h.0, λ id. (h.1 id).0)
  ]
]

general_safe : is_safe_slug (codes "general") ≡ true
unfolding is_safe_slug
general_safe = refl

derived-IsValid :
    (f : BoardroomFiles) → f.boardroom ≡ none → is_safe_slug f.room.state.id ≡ true → IsValid f
unfolding IsValid assert_valid_boardroom check_channels assert_valid_channel read_boardroom
    derive_default_boardroom
derived-IsValid f legacy safe = rw legacy (rw safe (rw general_safe refl))

-- However the boardroom of a room without one is written, created and added to, and whichever of these
-- calls fail, what is read of it has a channel, channels with safe ids only, and no id twice.
pub change_all-Whole :
    (room_id : Text) (cs : List Change) (f : BoardroomFiles)
    → f.boardroom ≡ none
    → is_safe_slug f.room.state.id ≡ true
    → Whole (read_boardroom (change_all room_id cs f)).channels
unfolding IsValid
change_all-Whole room_id cs f legacy safe =
    assert_valid_boardroom-Whole (read_boardroom (change_all room_id cs f))
      (change_all-IsValid room_id cs f (derived-IsValid f legacy safe))
