-- ===== src/Memory/Recorded.antt =====
-- context/memory_service.py: `get_recorded_response` after an assistant's message.
use mathlib.Core.List.{reverse, reverse-append}
use hommey.Memory.Rows.{Db, MessageRecord, MessageRow, from_row}
use hommey.Memory.Messages.{Draft, append_message, new_message}
use hommey.Memory.Reading.{is_selected}
use hommey.Memory.Order.{InOrder, IsOrdered}
use hommey.Memory.Newest.{get_messages_lem, of_session}
use hommey.Memory.Outcomes.{append-outcome}
use hommey.Memory.Retry.{keep-snoc}
use hommey.Memory.Numbering.{inserted-IsOrdered}
use hommey.Memory.Service.{first_response, get_recorded_response}
use hommey.ShortTerm.Lists.{from_end}
use hommey.Prelude.{
  List, String, [], ap, arith, drop, drop-append, eq_iff, eq_refl, false, inl, inr, keep, length,
  length-append, ok, refl, some, subst, sym, true, ℕ, ◌++◌, ◌+◌, ◌-◌, ◌==◌, ◌∙◌, ◌∷◌, ◌≡◌, ◌≤◌,
  String_eq, ℕ_eq,
}

-- The last two end in the last one.
last_two :
    (m : MessageRow) (ms : List MessageRow)
    → (ns : List MessageRow) × (from_end 2 (ms ++ m ∷ []) ≡ ns ++ m ∷ [])
unfolding from_end
last_two m ms =
    let short : length (ms ++ m ∷ []) - 2 ≤ length ms = omega (arith, length-append ms (m ∷ [])) in
    (drop (length (ms ++ m ∷ []) - 2) ms, drop-append (length (ms ++ m ∷ []) - 2) ms (m ∷ []) short)

first-response :
    (m : MessageRow) (ms : List MessageRow)
    → (m.role == "assistant") ≡ true
    → (m.content == "") ≡ false
    → first_response (reverse (ms ++ m ∷ [])) ≡ some m.content
first-response m ms r c = rw (reverse-append ms (m ∷ []), r, c) refl

-- In tables whose messages are in order, when an assistant's message is inserted, its request has a
-- recorded response: the message's text as it was redacted, unless that is empty.
pub append-get_recorded_response :
    (redact : String → String) (days now : ℕ) (d : Draft) (r : MessageRecord) (db after : Db)
    → IsOrdered now db.sessions db.messages
    → append_message redact days now d db ≡ ok (r, after)
    → r.inserted ≡ true
    → d.role ≡ "assistant"
    → (redact d.content == "") ≡ false
    → get_recorded_response d.user_id d.session_id d.request_id after ≡ some (redact d.content)
unfolding get_recorded_response from_row
append-get_recorded_response redact days now d r db after h e i role full =
    elim (append-outcome redact days now d db r after e) [
      | inr k ↦ absurd (ground (arith, i, ap (λ t. t.inserted) k.row))
      | inl k ↦
          let f = of_session d.session_id (some d.request_id) in
          let m = new_message redact days now (k.session.last_sequence + 1) d in
          let ordered : InOrder (db.messages ++ m ∷ []) =
            (inserted-IsOrdered redact days now d k.session db.sessions db.messages k.is_open
              k.is_new h).order in
          let picked : is_selected d.user_id f m ≡ true =
            ground (arith, eq_refl d.user_id, eq_refl d.session_id, eq_refl d.request_id) in
          let (ns, last) = last_two m (keep (is_selected d.user_id f) db.messages) in
          ap (λ t. first_response (reverse t))
            (get_messages_lem d.user_id d.session_id (some 2) (some d.request_id) after
                (subst InOrder (sym k.tables.messages) ordered)
              ∙ (ap (λ t. from_end 2 (keep (is_selected d.user_id f) t)) k.tables.messages
                  ∙ (ap (from_end 2) (keep-snoc (is_selected d.user_id f) m db.messages picked)
                      ∙ last)))
          ∙ first-response m ns (ground (arith, (eq_iff d.role "assistant").1 role)) full
    ]
