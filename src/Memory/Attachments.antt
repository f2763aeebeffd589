-- ===== src/Memory/Attachments.antt =====
-- context/memory_repository.py: `_bind_ready_attachments`, in the message's transaction.
use hommey.Memory.Rows.{
  Attachment, Db, MemoryError, MessageRecord, changed_attachments, refused_attachment,
}
use hommey.Prelude.{
  Bool, List, Result, String, [], all, any, elem, err, if◌then◌else◌, keep, ltb, map, none, not, ok,
  some, true, update_where, ℕ, ◌&&◌, ◌++◌, ◌==◌, ◌||◌, ◌∷◌, String_eq, ℕ_eq,
}

-- list(dict.fromkeys(value for value in attachment_ids if value))
abbrev pub distinct_from : List String → List String → List String
distinct_from seen [] = []
distinct_from seen (x ∷ xs) =
    let rest = distinct_from seen xs in
    let more = distinct_from (x ∷ seen) xs in if x == "" || elem x seen then rest else x ∷ more

abbrev pub subset : List String → List String → Bool
subset xs ys = all (λ x. elem x ys) xs

-- set(xs) == set(ys)
abbrev pub same_set : List String → List String → Bool
same_set xs ys = subset xs ys && subset ys xs

abbrev pub is_bindable : ℕ → String → List String → Attachment → Bool
is_bindable now user_id ids a =
    a.user_id == user_id
    && a.is_ready
    && elem a.id ids
    && elim a.expires_at [ none ↦ true | some t ↦ ltb now t ]

abbrev pub is_link : String → List String → String × String → Bool
is_link message_id ids l = l.0 == message_id && elem l.1 ids

-- INSERT … ON CONFLICT DO NOTHING, of each id
abbrev pub linked : String → List String → List (String × String) → List (String × String)
linked message_id [] ls = ls
linked message_id (i ∷ is) ls =
    linked message_id is
      (if any (is_link message_id (i ∷ [])) ls then ls else ls ++ (message_id, i) ∷ [])

abbrev pub is_users_attachment : String → List String → Attachment → Bool
is_users_attachment user_id ids a = a.user_id == user_id && elem a.id ids

abbrev pub bound_to : MessageRecord → Attachment → Attachment
bound_to r a = record a { session_id = some r.session_id; request_id = some r.request_id }

-- The distinct ids, without empty ones.
abbrev pub bind_ids : ℕ → MessageRecord → List String → Db → Result MemoryError Db
bind_ids now r [] db = ok db
bind_ids now r (i ∷ is) db =
    let ids = i ∷ is in
    let found = map (λ a. a.id) (keep (is_bindable now r.user_id ids) db.attachments) in
    let bound = map (λ l. l.1) (keep (is_link r.message_id ids) db.links) in
    if not (same_set found ids)
    then err refused_attachment
    else if not r.inserted && not (same_set bound ids)
    then err changed_attachments
    else ok (record db {
      links = linked r.message_id ids db.links;
      attachments = update_where (is_users_attachment r.user_id ids) (bound_to r) db.attachments;
    })

unfoldable pub bind_ready_attachments : ℕ → MessageRecord → List String → Db → Result MemoryError Db
bind_ready_attachments now r attachment_ids db = bind_ids now r (distinct_from [] attachment_ids) db
