-- ===== src/Memory/Events.antt =====
-- context/memory_service.py: `get_recent_context` after any run of events.
use hommey.Memory.Rows.{Db}
use hommey.Memory.Reading.{get_messages}
use hommey.Memory.Newest.{get_messages_lem, of_session}
use hommey.Memory.Reach.{call-AreOrdered}
use hommey.Memory.Effects.{said}
use hommey.Memory.Calls.{call-Effect}
use hommey.Memory.Answers.{IsSuffix, ending, told}
use hommey.Memory.Service.{get_recent_context, turns_of}
use hommey.Memory.Coherence.{
  Effect-IsCoherent, Event, IsCoherent, IsUsual, asks, calls, later-IsCoherent, loses_both,
  loses_list, loses_version, run_event, run_events, says, says-IsCoherent,
}
use hommey.Memory.Recent.{asks-IsCoherent, recent-told}
use hommey.ShortTerm.{Cache}
use hommey.Memory.Service
use hommey.Prelude.{
  All, Bool, List, Option, String, [], ap, arith, drop-all, length, map, none, sym, ℕ, ◌*◌, ◌+◌,
  ◌∙◌, ◌∷◌, ◌≡◌,
}

module _ (isoformat : ℕ → String) (metadata_of : String → String → Option ℕ → String)
    (redact : String → String) (days max_turns : ℕ) (user sid : String) where
  abbrev Coherent : ℕ → Db × Cache → Type 0
  Coherent now w = IsCoherent isoformat metadata_of redact days max_turns user sid now w.0 w.1

  abbrev Usual : Event → Type 0
  Usual e = IsUsual isoformat metadata_of redact days max_turns user sid e

  abbrev events : ℕ → List (ℕ × Event) → Db × Cache → ℕ × (Db × Cache)
  events now es w = run_events isoformat metadata_of redact days max_turns user sid now es w

  -- Without its list, a cache holds no messages.
  emptied-suffix : (S : List (String × String)) → IsSuffix [] S
  emptied-suffix S = (length S, sym (drop-all (length S) S (omega arith)))

  event-IsCoherent :
      (now : ℕ) (e : Event) (w : Db × Cache)
      → Usual e
      → Coherent now w
      → Coherent now (run_event isoformat metadata_of redact days max_turns user sid now e w)
  event-IsCoherent now (says up d) w u h =
      says-IsCoherent isoformat metadata_of redact days max_turns user sid now up d w u h
  event-IsCoherent now (asks reads writes n) w u h =
      asks-IsCoherent isoformat metadata_of redact days max_turns user sid now reads writes n w.0
        w.1 h
  event-IsCoherent now (calls c) w u h =
      Effect-IsCoherent isoformat metadata_of redact days max_turns user sid now w.0 _ w.1
        (call-Effect user sid redact days now c w.0 u)
        (call-AreOrdered redact days now c w.0 h.ordered) h
  event-IsCoherent now loses_list w u h = record {
    ordered = h.ordered;
    counted = h.counted;
    within = h.within;
    suffix = λ _. emptied-suffix _;
  }
  event-IsCoherent now loses_version w u h = record {
    ordered = h.ordered;
    counted = h.counted;
    within = omega arith;
    suffix = λ e. h.suffix (omega (arith, e, h.within));
  }
  event-IsCoherent now loses_both w u h = record {
    ordered = h.ordered;
    counted = h.counted;
    within = omega arith;
    suffix = λ _. emptied-suffix _;
  }

  events-IsCoherent :
      (es : List (ℕ × Event)) (now : ℕ) (w : Db × Cache)
      → All (λ e. Usual e.1) es
      → Coherent now w
      → Coherent (events now es w).0 (events now es w).1
  events-IsCoherent [] now w u h = h
  events-IsCoherent (e ∷ es) now w u h = events-IsCoherent es (now + e.0) _ u.1 (
      event-IsCoherent (now + e.0) e.1 w u.0 (
        later-IsCoherent isoformat metadata_of redact days max_turns user sid now (now + e.0) w.0
          w.1 (omega arith) h))

  -- After any run of appended messages, questions, other calls of the repository and losses of the
  -- cache's keys, from tables and a cache that agree, `get_recent_context` gives the roles and the
  -- texts of the last messages that the database has of the session, twice as many as turns are
  -- asked for: whether it answers from the cache or not, whichever writes to the cache failed, and
  -- whatever else the user's sessions did. In the run, no other call deletes the session's messages,
  -- and each text that the service appends is one that a second redaction leaves as the first left it.
  pub get_recent_context-told :
      (es : List (ℕ × Event)) (now : ℕ) (w : Db × Cache) (reads writes : Bool) (n : Option ℕ)
      → All (λ e. Usual e.1) es
      → Coherent now w
      → let after = (events now es w).1 in
        map told
          (Service.get_recent_context isoformat metadata_of redact days max_turns user sid reads
            writes n after).0
        ≡ ending
            (turns_of isoformat metadata_of redact days max_turns user sid n * 2)
            (map said (get_messages user none (of_session sid none) after.0))
  get_recent_context-told es now w reads writes n u h =
      let after = (events now es w).1 in
      let k = events-IsCoherent es now w u h in
      recent-told isoformat metadata_of redact days max_turns user sid _ reads writes n after.0
        after.1 k
      ∙ sym (
          ap
            (λ t.
              ending (turns_of isoformat metadata_of redact days max_turns user sid n * 2)
                (map said t))
            (get_messages_lem user sid none none after.0 k.ordered.order))
