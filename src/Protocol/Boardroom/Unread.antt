-- ===== src/Protocol/Boardroom/Unread.antt =====
-- src/protocol/boardroom.ts: what the summary of unread messages counts.
use telegent.Base.{ltb, length, filter, All, ℕ, ◌+◌, ◌≤◌, ◌≡◌, refl, List, [], ◌∷◌, arith}
use telegent.Protocol.Boardroom.{UnreadSummary, count_unread, unread_from, summarize_unread}

unread_from-bounds :
    (last_read : ℕ) (s : UnreadSummary) (ids : List ℕ)
    → ((unread_from last_read s ids).unread
        ≡ s.unread + length (filter (λ id. ltb last_read id) ids))
      × (s.latest_id ≤ (unread_from last_read s ids).latest_id)
      × All (λ id. id ≤ (unread_from last_read s ids).latest_id) ids
unfolding unread_from
unread_from-bounds last_read s [] = (omega arith, omega arith, tt)
unread_from-bounds last_read s (id ∷ ids) =
    let rest : _ = unread_from-bounds last_read (count_unread last_read s id) ids in
    (ground (arith, rest.0), ground (arith, rest.1), (ground (arith, rest.1), rest.2))

filter-none :
    (n : ℕ) (ids : List ℕ) → All (λ id. id ≤ n) ids → length (filter (λ id. ltb n id) ids) ≡ 0
filter-none n [] h = refl
filter-none n (id ∷ ids) h = ground (arith, filter-none n ids h.1, h.0)

-- The summary counts the ids above the last one read; none of the ids, nor the last one read, is above
-- its latest id; and who has read up to that id has nothing unread.
pub summarize_unread-All :
    (ids : List ℕ) (last_read : ℕ)
    → let s = summarize_unread ids last_read in
      (s.unread ≡ length (filter (λ id. ltb last_read id) ids))
      × (last_read ≤ s.latest_id)
      × All (λ id. id ≤ s.latest_id) ids
      × ((summarize_unread ids s.latest_id).unread ≡ 0)
unfolding summarize_unread
summarize_unread-All ids last_read =
    let new : UnreadSummary = record { unread = 0; latest_id = last_read } in
    let read = unread_from-bounds last_read new ids in
    let latest = (unread_from last_read new ids).latest_id in
    let again = unread_from-bounds latest (record { unread = 0; latest_id = latest }) ids in
    (omega (arith, read.0), read.1, read.2, omega (arith, again.0, filter-none latest ids read.2))
