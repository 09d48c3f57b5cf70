-- ===== src/Storage/ForumStore/Posts.antt =====
-- A post that was created is read back.
use telegent.Base.{
  >>-passed, >>=-passed, Text, codes, text_eq_refl, or_else, Result, ok, err, ◌>>◌, ℕ, ◌≡◌, refl,
  subst, ◌∙◌, Option, none, some, [], ◌++◌,
}
use telegent.Base.Maps.{lookup, lookup_in, insert, lookup_in-insert}
use telegent.Protocol.Forum.{
  ForumPost, assert_valid_forum_post, assert_forum_title, assert_forum_body, normalize_forum_tags,
}
use telegent.Storage.ForumStore.{
  ForumFiles, ForumPostThread, ForumStoreError, CreateForumPostInput, with_checked, valid,
  write_new, put_thread, thread_at, create_forum_post, checked_post, check_slug,
  assert_forum_channel, new_post, read_forum_post,
}

-- What the checks of a new post have shown.
abbrev Checked : (Text → Text) → Text → ForumFiles → ForumPost → Type 0
Checked lower channel f p =
    (check_slug channel ≡ ok tt)
    × (check_slug p.id ≡ ok tt)
    × (assert_forum_channel channel f ≡ ok tt)
    × (valid (assert_valid_forum_post lower p) ≡ ok tt)

checked_post-Checked :
    (lower : Text → Text) (channel fresh : Text) (input : CreateForumPostInput) (now : ℕ)
    (f : ForumFiles) (p : ForumPost)
    → checked_post lower channel fresh input now f ≡ ok p
    → Checked lower channel f p
unfolding checked_post
checked_post-Checked lower channel fresh input now f p e =
    let id = or_else input.id (codes "post-" ++ fresh) in
    let c1 = check_slug channel in
    let c2 = c1 >> check_slug input.author in
    let c3 = c2 >> valid (assert_forum_title input.title) in
    let c4 = c3 >> valid (assert_forum_body input.body) in
    let c5 = c4 >> assert_forum_channel channel f in
    let c6 = c5 >> check_slug id in
    let (tags, e7, e8) =
      >>=-passed (c6 >> valid (normalize_forum_tags lower (or_else input.tags []))) _ p e in
    let q = new_post channel id input tags now in
    let e9 : _ = >>-passed (valid (assert_valid_forum_post lower q)) (ok q) p e8 in
    let same : q ≡ p = cc in
    let e6 : _ =
      >>-passed c6 (valid (normalize_forum_tags lower (or_else input.tags []))) tags e7 in
    let e5 : _ = >>-passed c5 (check_slug id) tt e6.0 in
    let e4 : _ = >>-passed c4 (assert_forum_channel channel f) tt e5.0 in
    let e3 : _ = >>-passed c3 (valid (assert_forum_body input.body)) tt e4.0 in
    let e2 : _ = >>-passed c2 (valid (assert_forum_title input.title)) tt e3.0 in
    let e1 : _ = >>-passed c1 (check_slug input.author) tt e2.0 in
    subst (λ (r : ForumPost). Checked lower channel f r) same (e1.0, e5.1, e4.1, e9.0)

-- The written thread passes the checks of reading.
read-put_thread :
    (lower : Text → Text) (channel : Text) (p : ForumPost) (f : ForumFiles)
    → Checked lower channel f p
    → read_forum_post lower channel p.id
        (put_thread channel p.id (record { post = p; comments = [] }) f)
      ≡ ok (record { post = p; comments = [] })
unfolding read_forum_post put_thread assert_forum_channel
read-put_thread lower channel p f h =
    let there : lookup_in channel p.id (
          insert channel
            (insert p.id (record { post = p; comments = [] })
              (or_else (lookup channel f.threads) []))
            f.threads)
        ≡ some (record { post = p; comments = [] }) =
      lookup_in-insert channel p.id channel p.id _ f.threads
      ∙ rw (text_eq_refl channel) (rw (text_eq_refl p.id) refl) in
    rw (h.0) (rw (h.1) (rw (h.2) (rw there (rw (h.3) refl))))

created :
    (lower : Text → Text) (channel : Text) (q p : ForumPost) (f : ForumFiles)
    (o : Option ForumPostThread)
    → Checked lower channel f q
    → (write_new channel q.id q f o).0 ≡ ok p
    → read_forum_post lower channel p.id (write_new channel q.id q f o).1
      ≡ ok (record { post = p; comments = [] })
unfolding write_new
created lower channel q p f (some t) h e = cc
created lower channel q p f none h e =
    let same : q ≡ p = cc in
    subst
      (λ (r : ForumPost).
        read_forum_post lower channel r.id
          (put_thread channel q.id (record { post = q; comments = [] }) f)
        ≡ ok (record { post = r; comments = [] }))
      same (read-put_thread lower channel q f h)

-- A post whose creation succeeded is read back whole and without comments.
pub read-create_forum_post :
    (lower : Text → Text) (channel fresh : Text) (input : CreateForumPostInput) (now : ℕ)
    (f : ForumFiles) (p : ForumPost)
    → (create_forum_post lower channel fresh input now f).0 ≡ ok p
    → read_forum_post lower channel p.id (create_forum_post lower channel fresh input now f).1
      ≡ ok (record { post = p; comments = [] })
unfolding create_forum_post
read-create_forum_post lower channel fresh input now f p e =
    by_checks (checked_post lower channel fresh input now f) refl e
  where
    by_checks :
        (r : Result ForumStoreError ForumPost)
        → checked_post lower channel fresh input now f ≡ r
        → (with_checked r f λ q. write_new channel q.id q f (thread_at channel q.id f)).0 ≡ ok p
        → read_forum_post lower channel p.id
            (with_checked r f λ q. write_new channel q.id q f (thread_at channel q.id f)).1
          ≡ ok (record { post = p; comments = [] })
    by_checks (err x) same e = cc
    by_checks (ok q) same e =
        created lower channel q p f (thread_at channel q.id f)
          (checked_post-Checked lower channel fresh input now f q same) e
