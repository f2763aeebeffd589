-- ===== src/Memory/Recent.antt =====
-- context/memory_service.py: `get_recent_context` beside the database.
use hommey.Memory.Rows.{Db, MessageRow}
use hommey.Memory.Reading.{get_messages}
use hommey.Memory.Appending.{AreOrdered}
use hommey.Memory.Newest.{get_messages_lem, of_session}
use hommey.Memory.Effects.{is_ours, of_user, said, said_ours, version}
use hommey.Memory.Answers.{
  from_end-map, suffix-from_end, told, ending, from_end-ending, suffix-ending, ours-count_of,
}
use hommey.Memory.Service.{cache_row, fresh_rows, get_recent_context, is_usable, turns_of, count_of}
use hommey.Memory.Coherence.{IsCoherent}
use hommey.Memory.Service
use hommey.ShortTerm.{Cache, Message, kept, replace_messages}
use hommey.ShortTerm
use hommey.ShortTerm.Lists.{from_end}
use hommey.Memory.Sessions.{get_session, is_owned}
use hommey.Prelude.{
  Bool, Bool-cases, List, Option, String, [], ap, arith, count, drop, drop-all, false, find_by, inl,
  inr, keep, length, length-drop, length-map, ltb, map, min, none, refl, some, sym, true, ℕ, ◌&&◌,
  ◌*◌, ◌-◌, ◌==◌, ◌∙◌, ◌∷◌, ◌≡◌, ◌≤◌, String_eq, ℕ_eq,
}

map-map :
    {A B C : Type 0} (g : B → C) (f : A → B) (xs : List A)
    → map g (map f xs) ≡ map (λ x. g (f x)) xs
map-map g f [] = refl
map-map g f (x ∷ xs) = ap (λ t. g (f x) ∷ t) (map-map g f xs)

module _ (isoformat : ℕ → String) (metadata_of : String → String → Option ℕ → String)
    (redact : String → String) (days max_turns : ℕ) (user sid : String) where
  abbrev rows : Db → List ShortTerm.Message
  rows db = fresh_rows isoformat metadata_of redact days max_turns user sid db

  told-cache_row :
      (ms : List MessageRow) → map told (map (cache_row isoformat metadata_of) ms) ≡ map said ms
  unfolding cache_row
  told-cache_row ms = map-map told (cache_row isoformat metadata_of) ms

  -- The rows that the database gives are the session's last messages.
  told-rows :
      (now : ℕ) (db : Db)
      → AreOrdered now db
      → map told (rows db) ≡ from_end (max_turns * 2) (said_ours user sid db.messages)
  unfolding fresh_rows
  told-rows now db h =
      told-cache_row (get_messages user (some (max_turns * 2)) (of_session sid none) db)
      ∙ (ap (map said) (get_messages_lem user sid (some (max_turns * 2)) none db h.order)
          ∙ from_end-map said (max_turns * 2) (keep (is_ours user sid) db.messages))

  ours-of_user :
      (ms : List MessageRow) → length (said_ours user sid ms) ≤ count (of_user user sid) ms
  ours-of_user [] = omega arith
  ours-of_user (m ∷ ms) = elim (Bool-cases (is_ours user sid m)) [
    | inl b ↦
        let u : of_user user sid m ≡ true = ground (arith, b) in
        rw (b, u) (omega (arith, ours-of_user ms))
    | inr b ↦ rw b (omega (arith, ours-of_user ms))
  ]

  length-from_end : (n : ℕ) (xs : List (String × String)) → length (from_end n xs) ≤ length xs
  unfolding from_end
  length-from_end n xs = elim (Bool-cases (n == 0)) [
    | inl b ↦ rw b (omega arith)
    | inr b ↦ rw b (omega (arith, length-drop (length xs - n) xs))
  ]

  -- The cache that is filled from the database.
  warm-IsCoherent :
      (now : ℕ) (db : Db) (c : Cache)
      → IsCoherent isoformat metadata_of redact days max_turns user sid now db c
      → IsCoherent isoformat metadata_of redact days max_turns user sid now db
          (ShortTerm.replace_messages max_turns (rows db) (version user sid db) c)
  unfolding ShortTerm.replace_messages
  warm-IsCoherent now db c h =
      let S = said_ours user sid db.messages in
      let kept = from_end (max_turns * 2) (rows db) in
      let e : map told kept ≡ from_end (max_turns * 2) (from_end (max_turns * 2) S) =
        from_end-map told (max_turns * 2) (rows db)
        ∙ ap (from_end (max_turns * 2)) (told-rows now db h.ordered) in
      let short : length kept ≤ length S = omega (
        arith,
        length-map told kept,
        ap length e,
        length-from_end (max_turns * 2) (from_end (max_turns * 2) S),
        length-from_end (max_turns * 2) S,
      ) in
      record {
        ordered = h.ordered;
        counted = h.counted;
        within = omega (arith, short, ours-of_user db.messages, h.counted);
        suffix = λ _.
            rw e
              (suffix-from_end (max_turns * 2) _ S (suffix-from_end (max_turns * 2) S S (0, refl)));
      }

  abbrev pub recent : Bool → Bool → Option ℕ → Db × Cache → List ShortTerm.Message × Cache
  recent reads writes n w =
      Service.get_recent_context isoformat metadata_of redact days max_turns user sid reads writes n
        w

  abbrev turns : Option ℕ → ℕ
  turns n = turns_of isoformat metadata_of redact days max_turns user sid n

  pub asks-IsCoherent :
      (now : ℕ) (reads writes : Bool) (n : Option ℕ) (db : Db) (c : Cache)
      → IsCoherent isoformat metadata_of redact days max_turns user sid now db c
      → IsCoherent isoformat metadata_of redact days max_turns user sid now db
          (recent reads writes n (db, c)).1
  unfolding Service.get_recent_context
  asks-IsCoherent now reads writes n db c h = elim (Bool-cases (turns n * 2 == 0)) [
    | inl b ↦ rw (recent, b) h
    | inr b ↦
        elim (Bool-cases
          (reads && is_usable isoformat metadata_of redact days max_turns user sid db c)) [
            | inl k ↦ rw (recent, b, k) h
            | inr k ↦ elim (Bool-cases writes) [
              | inl j ↦ rw (recent, b, k, j) (warm-IsCoherent now db c h)
              | inr j ↦ rw (recent, b, k, j) h
            ]
          ]
  ]

  -- The last messages of a suffix that is long enough.
  last-told :
      (n k : ℕ) (ms : List ShortTerm.Message) (S : List (String × String))
      → (n == 0) ≡ false
      → n ≤ max_turns * 2
      → map told ms ≡ drop k S
      → min (length S) (max_turns * 2) ≤ length (drop k S)
      → map told (from_end n (from_end (max_turns * 2) ms)) ≡ ending n S
  last-told n k ms S z le e long =
      let zz : (max_turns * 2 == 0) ≡ false = ground (arith, z, le) in
      from_end-map told n (from_end (max_turns * 2) ms)
      ∙ (ap (from_end n) (from_end-map told (max_turns * 2) ms)
          ∙ (ap (λ t. from_end n (from_end (max_turns * 2) t)) e
              ∙ (ap (from_end n) (from_end-ending (max_turns * 2) (drop k S) zz)
                  ∙ (from_end-ending n (ending (max_turns * 2) (drop k S)) z
                      ∙ suffix-ending n (max_turns * 2) k S le long))))

  turns-bound : (n : Option ℕ) → turns n * 2 ≤ max_turns * 2
  turns-bound none = omega arith
  turns-bound (some n) = omega arith

  full-limit :
      (c : Cache)
      → ShortTerm.get_recent_context max_turns (some max_turns) c
        ≡ from_end (max_turns * 2) c.messages
  unfolding ShortTerm.get_recent_context
  full-limit c = elim (Bool-cases (ltb max_turns max_turns)) [
    | inl b ↦ rw b refl
    | inr b ↦ rw b refl
  ]

  usable-told :
      (now : ℕ) (n : ℕ) (db : Db) (c : Cache)
      → (n == 0) ≡ false
      → n ≤ max_turns * 2
      → is_usable isoformat metadata_of redact days max_turns user sid db c ≡ true
      → IsCoherent isoformat metadata_of redact days max_turns user sid now db c
      → map told (from_end n (ShortTerm.get_recent_context max_turns (some max_turns) c))
        ≡ ending n (said_ours user sid db.messages)
  unfolding get_session
  usable-told now n db c z le u h =
      let S = said_ours user sid db.messages in
      let v : c.message_version ≡ version user sid db = ground (arith, u) in
      let (k, e) = h.suffix v in
      let rows_long : min (count_of (find_by (is_owned user sid) db.sessions)) (max_turns * 2)
          ≤ length c.messages =
        ground (arith, u) in
      let long : min (length S) (max_turns * 2) ≤ length (drop k S) = omega (
        arith,
        rows_long,
        ours-count_of now user sid db h.ordered,
        length-map said (keep (is_ours user sid) db.messages),
        length-map told c.messages,
        ap length e,
      ) in
      ap (λ t. map told (from_end n t)) (full-limit c) ∙ last-told n k c.messages S z le e long

  fresh-told :
      (now : ℕ) (n : ℕ) (db : Db)
      → (n == 0) ≡ false
      → n ≤ max_turns * 2
      → AreOrdered now db
      → map told (from_end n (rows db)) ≡ ending n (said_ours user sid db.messages)
  fresh-told now n db z le h =
      let S = said_ours user sid db.messages in
      let zz : (max_turns * 2 == 0) ≡ false = ground (arith, z, le) in
      from_end-map told n (rows db)
      ∙ (ap (from_end n) (told-rows now db h ∙ from_end-ending (max_turns * 2) S zz)
          ∙ (from_end-ending n (ending (max_turns * 2) S) z
              ∙ suffix-ending n (max_turns * 2) 0 S le (omega arith)))

  pub recent-told :
      (now : ℕ) (reads writes : Bool) (n : Option ℕ) (db : Db) (c : Cache)
      → IsCoherent isoformat metadata_of redact days max_turns user sid now db c
      → map told (recent reads writes n (db, c)).0
        ≡ ending (turns n * 2) (said_ours user sid db.messages)
  unfolding Service.get_recent_context ShortTerm.get_recent_context
  recent-told now reads writes n db c h =
      let S = said_ours user sid db.messages in
      elim (Bool-cases (turns n * 2 == 0)) [
        | inl b ↦
            let z : turns n * 2 ≡ 0 = ground (arith, b) in
            rw (recent, b) (sym (drop-all _ S (omega (arith, z))))
        | inr b ↦
            elim (Bool-cases
              (reads && is_usable isoformat metadata_of redact days max_turns user sid db c)) [
                | inl k ↦
                    rw (recent, b, k)
                      (ap (map told) (
                          sym (
                            from_end-ending (turns n * 2)
                              (ShortTerm.get_recent_context max_turns (some max_turns) c) b))
                        ∙ usable-told now (turns n * 2) db c b (turns-bound n) (ground (arith, k))
                            h)
                | inr k ↦
                    rw (recent, b, k)
                      (ap (map told) (sym (from_end-ending (turns n * 2) (rows db) b))
                        ∙ fresh-told now (turns n * 2) db b (turns-bound n) h.ordered)
              ]
      ]
