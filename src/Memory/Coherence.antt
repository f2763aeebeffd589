-- ===== src/Memory/Coherence.antt =====
-- context/memory_service.py: a session's cache beside its rows, over any run of events. Transactions
-- run one after another, and a write to the cache comes before the next event.
use hommey.Memory.Rows.{Db, MemoryError, MessageRecord, MessageRow, from_row}
use hommey.Memory.Messages.{Draft, append_message, new_message}
use hommey.Memory.Order.{later-IsOrdered}
use hommey.Memory.Appending.{AreOrdered, append-AreOrdered, rows_of}
use hommey.Memory.Reach.{Call, run_call}
use hommey.Memory.Effects.{Effect, of_user, said_ours, version, is_ours, said, version-incremented}
use hommey.Memory.Calls.{IsElsewhere, append-Effect}
use hommey.Memory.Answers.{IsSuffix, told, from_end-map, suffix-from_end, suffix-snoc}
use hommey.Memory.Service.{get_recent_context, cached_message, passed_on}
use hommey.Memory.Service
use hommey.Memory.Messages
use hommey.ShortTerm.{Cache, add_message}
use hommey.ShortTerm
use hommey.Memory.Reading.{get_message_version}
use hommey.Memory.Outcomes.{IsInserted, append-outcome}
use hommey.ShortTerm.Lists.{from_end}
use hommey.Prelude.{
  Bool, Bool-cases, List, Option, Result, Result-cases, String, [], ap, arith, count, eq_refl, err,
  inl, inr, map, map-append, ok, refl, subst, sym, true, ℕ, ◌&&◌, ◌*◌, ◌++◌, ◌+◌, ◌∙◌, ◌∷◌, ◌≡◌,
  ◌≤◌,
}

-- What happens: the service's own calls, which find the cache up or not; another call on the
-- repository, of any user; and the loss of the cache's keys, whose times to live end apart.
pub data Event : Type 0 where
  says : Bool → Draft → Event
  asks : Bool → Bool → Option ℕ → Event
  calls : Call → Event
  loses_list loses_version loses_both : Event

module _ (isoformat : ℕ → String) (metadata_of : String → String → Option ℕ → String)
    (redact : String → String) (days max_turns : ℕ) (user sid : String) where
  abbrev pub after_says :
      Db × Cache → Result MemoryError (MessageRecord × (Db × Cache)) → Db × Cache
  after_says w (ok r) = r.1
  after_says w (err e) = w

  abbrev pub run_event : ℕ → Event → Db × Cache → Db × Cache
  run_event now (says up d) w =
      after_says w
        (Service.append_message isoformat metadata_of redact days max_turns user sid now up d w)
  run_event now (asks reads writes n) w = (
    w.0,
    (Service.get_recent_context isoformat metadata_of redact days max_turns user sid reads writes n
        w).1,
  )
  run_event now (calls c) w = (run_call redact days now c w.0, w.1)
  run_event now loses_list w = (w.0, record w.1 { messages = [] })
  run_event now loses_version w = (w.0, record w.1 { message_version = 0 })
  run_event now loses_both w = (w.0, record { messages = []; message_version = 0 })

  abbrev pub run_events : ℕ → List (ℕ × Event) → Db × Cache → ℕ × (Db × Cache)
  run_events now [] w = (now, w)
  run_events now (e ∷ es) w = run_events (now + e.0) es (run_event (now + e.0) e.1 w)

  -- A text that the service redacts stays as it is when the repository redacts it again, and no
  -- other call deletes the session's messages.
  abbrev pub IsUsual : Event → Type 0
  IsUsual (says up d) = redact (redact d.content) ≡ redact d.content
  IsUsual (calls c) = IsElsewhere user sid c
  IsUsual _ = Unit

  -- A cache whose version is the database's holds the last messages.
  pub record IsCoherent (now : ℕ) (db : Db) (c : Cache) : Type 0 where
    pub ordered : AreOrdered now db
    pub counted : count (of_user user sid) db.messages ≤ version user sid db
    pub within : c.message_version ≤ version user sid db
    pub suffix :
        c.message_version ≡ version user sid db
        → IsSuffix (map told c.messages) (said_ours user sid db.messages)

  pub Effect-IsCoherent :
      (now : ℕ) (db after : Db) (c : Cache)
      → Effect user sid db after
      → AreOrdered now after
      → IsCoherent now db c
      → IsCoherent now after c
  Effect-IsCoherent now db after c f o h = record {
    ordered = o;
    counted = omega (arith, f.counted, h.counted);
    within = omega (arith, f.not_less, h.within);
    suffix = λ e.
        let same : version user sid after ≡ version user sid db =
          omega (arith, f.not_less, h.within, e) in
        subst (IsSuffix (map told c.messages)) (sym (f.same same)) (h.suffix (e ∙ same));
  }

  pub later-IsCoherent :
      (now after : ℕ) (db : Db) (c : Cache)
      → now ≤ after
      → IsCoherent now db c
      → IsCoherent after db c
  later-IsCoherent now after db c k h = record {
    ordered = later-IsOrdered now after db.sessions db.messages k h.ordered;
    counted = h.counted;
    within = h.within;
    suffix = h.suffix;
  }

  said_ours-new :
      (m : MessageRow) (ms : List MessageRow)
      → is_ours user sid m ≡ true
      → said_ours user sid (ms ++ m ∷ []) ≡ said_ours user sid ms ++ said m ∷ []
  said_ours-new m [] h = rw h refl
  said_ours-new m (n ∷ ms) h = elim (Bool-cases (is_ours user sid n)) [
    | inl b ↦ rw b (ap (λ t. said n ∷ t) (said_ours-new m ms h))
    | inr b ↦ rw b (said_ours-new m ms h)
  ]

  abbrev pub sent : Draft → Draft
  sent d = passed_on isoformat metadata_of redact days max_turns user sid d

  -- The message that the database has and the one that the cache adds.
  added-suffix :
      (now : ℕ) (d : Draft) (r : MessageRecord) (db after : Db) (c : Cache)
      → (k : IsInserted redact days now (sent d) db r after)
      → redact (redact d.content) ≡ redact d.content
      → IsSuffix (map told c.messages) (said_ours user sid db.messages)
      → IsSuffix
          (map told (
            from_end (max_turns * 2) (
              c.messages
              ++ cached_message isoformat metadata_of redact days max_turns user sid now d r ∷ [])))
          (said_ours user sid after.messages)
  added-suffix now d r db after c k stable h =
      let msg = cached_message isoformat metadata_of redact days max_turns user sid now d r in
      let m = new_message redact days now (k.session.last_sequence + 1) (sent d) in
      let ours : is_ours user sid m ≡ true = ground (arith, eq_refl user, eq_refl sid) in
      let same : said m ≡ told msg = ap (λ t. (d.role, t)) stable in
      let db_side : said_ours user sid after.messages
          ≡ said_ours user sid db.messages ++ told msg ∷ [] =
        ap (said_ours user sid) k.tables.messages
        ∙ (said_ours-new m db.messages ours
            ∙ ap (λ t. said_ours user sid db.messages ++ t ∷ []) same) in
      let cache_side = from_end-map told (max_turns * 2) (c.messages ++ msg ∷ []) in
      rw (cache_side, map-append told c.messages (msg ∷ []), db_side)
        (suffix-from_end (max_turns * 2) _ _ (suffix-snoc (told msg) _ _ h))

  added-IsCoherent :
      (now : ℕ) (d : Draft) (r : MessageRecord) (db after : Db) (c : Cache)
      → (k : IsInserted redact days now (sent d) db r after)
      → redact (redact d.content) ≡ redact d.content
      → Effect user sid db after
      → AreOrdered now after
      → IsCoherent now db c
      → IsCoherent now after (
          ShortTerm.add_message max_turns
            (cached_message isoformat metadata_of redact days max_turns user sid now d r)
            c)
  unfolding ShortTerm.add_message
  added-IsCoherent now d r db after c k stable f o h =
      let v : version user sid after ≡ version user sid db + 1 =
        ap (get_message_version user) k.tables.versions
        ∙ (version-incremented user user db.versions ∙ rw (eq_refl user) refl) in
      record {
        ordered = o;
        counted = omega (arith, f.counted, h.counted);
        within = omega (arith, v, h.within);
        suffix = λ e. added-suffix now d r db after c k stable (h.suffix (omega (arith, v, e)));
      }

  pub says-IsCoherent :
      (now : ℕ) (up : Bool) (d : Draft) (w : Db × Cache)
      → redact (redact d.content) ≡ redact d.content
      → IsCoherent now w.0 w.1
      → let t = run_event now (says up d) w in IsCoherent now t.0 t.1
  unfolding Service.append_message from_row
  says-IsCoherent now up d (db, c) stable h =
      elim (Result-cases (Messages.append_message redact days now (sent d) db)) [
        | inl (x, e) ↦ rw (run_event, after_says, e) h
        | inr ((r, after), e) ↦
            let f : Effect user sid db after =
              subst (λ m. Effect user sid db (rows_of db m)) e
                (append-Effect user sid redact days now (sent d) db) in
            let o : AreOrdered now after =
              subst (λ m. AreOrdered now (rows_of db m)) e
                (append-AreOrdered redact days now (sent d) db h.ordered) in
            elim (Bool-cases (r.inserted && up)) [
              | inr b ↦ rw (run_event, after_says, e, b) (Effect-IsCoherent now db after c f o h)
              | inl b ↦ elim (append-outcome redact days now (sent d) db r after e) [
                | inl k ↦
                    rw (run_event, after_says, e, b)
                      (added-IsCoherent now d r db after c k stable f o h)
                | inr k ↦ absurd (ground (arith, b, ap (λ t. t.inserted) k.row))
              ]
            ]
      ]
