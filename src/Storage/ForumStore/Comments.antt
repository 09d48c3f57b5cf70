-- ===== src/Storage/ForumStore/Comments.antt =====
-- The numbers of the comments of a post, over every sequence of calls.
use telegent.Base.{
  Text, >>-passed, codes, text_eq, Bool-cases, Result, ok, err, ◌>>=◌, ◌>>◌, length, all, ℕ, zero,
  suc, ◌+◌, ◌≡◌, refl, sym, ap, subst, ◌∙◌, inl, inr, ◌&&◌, Option, none, some, List, [], ◌∷◌, ◌++◌,
  arith,
}
use telegent.Base.Maps.{lookup, lookup_in-insert}
use telegent.Base.Decimal.{decimal, decimal_inj}
use telegent.Protocol.Forum.{
  parse_forum_status, ForumPost, ForumComment, ForumError, assert_valid_forum_post,
  assert_valid_forum_comment,
}
use telegent.Storage.ForumStore.{
  ForumFiles, ForumPostThread, ForumStoreError, CreateForumPostInput, Stored, with_checked, valid,
  found, write_new, put_thread, thread_at, create_forum_post, checked_post, check_slug,
  add_forum_comment, checked_comment, new_comment, append_comment, check_comments, set_status,
  set_forum_post_status,
}

-- The ids of the comments are `c1`, `c2` and so on.
abbrev pub IsNumberedFrom : ℕ → List ForumComment → Type 0
IsNumberedFrom n [] = Unit {0}
IsNumberedFrom n (c ∷ cs) = (c.id ≡ codes "c" ++ decimal n) × IsNumberedFrom (n + 1) cs

abbrev pub AllNumbered : ForumFiles → Type 0
AllNumbered f =
    (channel post : Text) (t : ForumPostThread)
    → thread_at channel post f ≡ some t
    → IsNumberedFrom 1 t.comments

IsNumberedFrom-append :
    (n : ℕ) (cs : List ForumComment) (c : ForumComment)
    → IsNumberedFrom n cs
    → c.id ≡ codes "c" ++ decimal (n + length cs)
    → IsNumberedFrom n (cs ++ c ∷ [])
IsNumberedFrom-append n [] c h e = (e ∙ ap (λ k. codes "c" ++ decimal k) (omega arith), tt)
IsNumberedFrom-append n (d ∷ cs) c h e = (
  h.0,
  IsNumberedFrom-append (n + 1) cs c h.1 (e ∙ ap (λ k. codes "c" ++ decimal k) (omega arith)),
)

put_thread-AllNumbered :
    (channel post : Text) (t : ForumPostThread) (f : ForumFiles)
    → IsNumberedFrom 1 t.comments
    → AllNumbered f
    → AllNumbered (put_thread channel post t f)
unfolding put_thread
put_thread-AllNumbered channel post t f h all channel' post' t' e =
    let there : _ = sym (lookup_in-insert channel post channel' post' t f.threads) ∙ e in
    elim (Bool-cases (text_eq channel channel' && text_eq post post')) [
      | inl same ↦
          let now : t ≡ t' = let k : _ = rw same at there in cc in
          subst (λ (u : ForumPostThread). IsNumberedFrom 1 u.comments) now h
      | inr other ↦ all channel' post' t' (rw other at there)
    ]

with_checked-AllNumbered {ℓ κ} :
    {A : Type ℓ} {B : Type κ} (c : Result ForumStoreError A) (f : ForumFiles) (op : A → Stored B)
    → AllNumbered f
    → ((a : A) → c ≡ ok a → AllNumbered (op a).1)
    → AllNumbered (with_checked c f op).1
with_checked-AllNumbered (err e) f op h next = h
with_checked-AllNumbered (ok a) f op h next = next a refl

write_new-AllNumbered :
    (channel id : Text) (post : ForumPost) (f : ForumFiles) (o : Option ForumPostThread)
    → AllNumbered f
    → AllNumbered (write_new channel id post f o).1
unfolding write_new
write_new-AllNumbered channel id post f none h = put_thread-AllNumbered channel id _ f tt h
write_new-AllNumbered channel id post f (some t) h = h

-- What was found is there.
found-thread_at : (o : Option ForumPostThread) (t : ForumPostThread) → found o ≡ ok t → o ≡ some t
found-thread_at none t e = cc
found-thread_at (some u) t e = cc

create_forum_post-AllNumbered :
    (lower : Text → Text) (channel fresh : Text) (input : CreateForumPostInput) (now : ℕ)
    (f : ForumFiles)
    → AllNumbered f
    → AllNumbered (create_forum_post lower channel fresh input now f).1
unfolding create_forum_post
create_forum_post-AllNumbered lower channel fresh input now f h =
    with_checked-AllNumbered (checked_post lower channel fresh input now f) f
      (λ post. write_new channel post.id post f (thread_at channel post.id f)) h
      λ post _. write_new-AllNumbered channel post.id post f (thread_at channel post.id f) h

pub valid-passed {ℓ} : {A : Type ℓ} (r : Result ForumError A) (a : A) → valid r ≡ ok a → r ≡ ok a
valid-passed (ok b) a e = cc
valid-passed (err x) a e = cc

checked_comment-same :
    (lower : Text → Text) (c d : ForumComment) (t : ForumPostThread)
    → valid (checked_comment lower c t) ≡ ok d
    → d ≡ c
checked_comment-same lower c d t e =
    let passed : _ =
      >>-passed
        (assert_valid_forum_post lower t.post
          >> check_comments t.comments
          >> assert_valid_forum_comment c)
        (ok c) d (valid-passed (checked_comment lower c t) d e) in
    cc

append_comment-AllNumbered :
    (channel post : Text) (t : ForumPostThread) (c : ForumComment) (f : ForumFiles)
    → c.id ≡ codes "c" ++ decimal (length t.comments + 1)
    → IsNumberedFrom 1 t.comments
    → AllNumbered f
    → AllNumbered (append_comment channel post t c f).1
unfolding append_comment
append_comment-AllNumbered channel post t c f e h all =
    put_thread-AllNumbered channel post _ f
      (IsNumberedFrom-append 1 t.comments c h (e ∙ ap (λ k. codes "c" ++ decimal k) (omega arith)))
      all

add_forum_comment-AllNumbered :
    (lower : Text → Text) (channel post author body : Text) (now : ℕ) (f : ForumFiles)
    → AllNumbered f
    → AllNumbered (add_forum_comment lower channel post author body now f).1
unfolding add_forum_comment
add_forum_comment-AllNumbered lower channel post author body now f h =
    with_checked-AllNumbered _ f _ h λ t e1.
      with_checked-AllNumbered
        (valid
          (checked_comment lower (new_comment channel post author body now (length t.comments)) t))
        f (λ comment. append_comment channel post t comment f) h
        λ comment e2.
          let same : _ = checked_comment-same lower _ comment t e2 in
          let there : _ =
            found-thread_at _ t (>>-passed _ (found (thread_at channel post f)) t e1).1 in
          append_comment-AllNumbered channel post t comment f (ap (λ (c : ForumComment). c.id) same)
            (h channel post t there) h

set_status-AllNumbered :
    (lower : Text → Text) (channel post status : Text) (now : ℕ) (f : ForumFiles)
    (t : ForumPostThread)
    → IsNumberedFrom 1 t.comments
    → AllNumbered f
    → AllNumbered (set_status lower channel post status now f t).1
unfolding set_status
set_status-AllNumbered lower channel post status now f t h all =
    let updated = record t.post { status = status; updated_at = now } in
    with_checked-AllNumbered {A = Unit {0}} {B = ForumPost}
      (valid (assert_valid_forum_post lower t.post >> assert_valid_forum_post lower updated)) f
      (λ _. (ok updated, put_thread channel post (record t { post = updated }) f)) all
      λ _ _. put_thread-AllNumbered channel post (record t { post = updated }) f h all

set_forum_post_status-AllNumbered :
    (lower : Text → Text) (channel post status : Text) (now : ℕ) (f : ForumFiles)
    → AllNumbered f
    → AllNumbered (set_forum_post_status lower channel post status now f).1
unfolding set_forum_post_status
set_forum_post_status-AllNumbered lower channel post status now f h =
    let checks =
      check_slug channel >> check_slug post >> (valid (parse_forum_status status) >>= λ _. ok tt) in
    with_checked-AllNumbered (checks >> found (thread_at channel post f)) f
      (λ t. set_status lower channel post status now f t) h
      λ t e.
        let there : _ =
          found-thread_at _ t (>>-passed checks (found (thread_at channel post f)) t e).1 in
        set_status-AllNumbered lower channel post status now f t (h channel post t there) h

-- The calls that write posts and comments.
pub data Change : Type 0 where
  creates : Text → Text → CreateForumPostInput → ℕ → Change
  comments : Text → Text → Text → Text → ℕ → Change
  sets_status : Text → Text → Text → ℕ → Change

abbrev pub change : (Text → Text) → Change → ForumFiles → ForumFiles
change lower (creates channel fresh input now) f =
    (create_forum_post lower channel fresh input now f).1
change lower (comments channel post author body now) f =
    (add_forum_comment lower channel post author body now f).1
change lower (sets_status channel post status now) f =
    (set_forum_post_status lower channel post status now f).1

unfoldable pub change_all : (Text → Text) → List Change → ForumFiles → ForumFiles
change_all lower [] f = f
change_all lower (c ∷ cs) f = change_all lower cs (change lower c f)

change-AllNumbered :
    (lower : Text → Text) (c : Change) (f : ForumFiles)
    → AllNumbered f
    → AllNumbered (change lower c f)
change-AllNumbered lower (creates channel fresh input now) f h =
    create_forum_post-AllNumbered lower channel fresh input now f h
change-AllNumbered lower (comments channel post author body now) f h =
    add_forum_comment-AllNumbered lower channel post author body now f h
change-AllNumbered lower (sets_status channel post status now) f h =
    set_forum_post_status-AllNumbered lower channel post status now f h

change_all-AllNumbered :
    (lower : Text → Text) (cs : List Change) (f : ForumFiles)
    → AllNumbered f
    → AllNumbered (change_all lower cs f)
unfolding change_all
change_all-AllNumbered lower [] f h = h
change_all-AllNumbered lower (c ∷ cs) f h =
    change_all-AllNumbered lower cs (change lower c f) (change-AllNumbered lower c f h)

abbrev pub comment_at : List ForumComment → ℕ → Option ForumComment
comment_at [] k = none
comment_at (c ∷ cs) zero = some c
comment_at (c ∷ cs) (suc k) = comment_at cs k

-- The k-th comment after `n` has the number of its place.
numbered_at :
    (n k : ℕ) (cs : List ForumComment) (c : ForumComment)
    → IsNumberedFrom n cs
    → comment_at cs k ≡ some c
    → c.id ≡ codes "c" ++ decimal (n + k)
numbered_at n k [] c h e = cc
numbered_at n zero (d ∷ cs) c h e =
    let same : d ≡ c = cc in
    ap (λ (x : ForumComment). x.id) (sym same)
    ∙ (h.0 ∙ ap (λ i. codes "c" ++ decimal i) (omega arith))
numbered_at n (suc k) (d ∷ cs) c h e =
    numbered_at (n + 1) k cs c h.1 e ∙ ap (λ i. codes "c" ++ decimal i) (omega arith)

-- Whatever is created, commented and set in whatever order, and whichever of these calls fail: the
-- comments of a post are numbered in their order from `c1`, and no two of them share their id.
pub change_all-numbers :
    (lower : Text → Text) (cs : List Change) (f : ForumFiles) (channel post : Text)
    (t : ForumPostThread) (i j : ℕ) (c d : ForumComment)
    → f.threads ≡ []
    → thread_at channel post (change_all lower cs f) ≡ some t
    → comment_at t.comments i ≡ some c
    → comment_at t.comments j ≡ some d
    → (c.id ≡ codes "c" ++ decimal (i + 1)) × (c.id ≡ d.id → i ≡ j)
unfolding lookup
change_all-numbers lower cs f channel post t i j c d empty there at_i at_j =
    let nothing : AllNumbered f = λ k p u e. let none_there : _ = rw empty at e in cc in
    let h : _ = change_all-AllNumbered lower cs f nothing channel post t there in
    let ci : _ = numbered_at 1 i t.comments c h at_i in
    let dj : _ = numbered_at 1 j t.comments d h at_j in
    (
      ci ∙ ap (λ k. codes "c" ++ decimal k) (omega arith),
      λ same.
          let ids : ◌≡◌ {A = Text} (codes "c" ++ decimal (1 + i)) (codes "c" ++ decimal (1 + j)) =
            sym ci ∙ (same ∙ dj) in
          let numbers : 1 + i ≡ 1 + j = decimal_inj (1 + i) (1 + j) (cc) in omega (arith, numbers),
    )
