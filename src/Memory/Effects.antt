-- ===== src/Memory/Effects.antt =====
-- context/memory_repository.py: what a transaction does to the history of one session.
use hommey.Memory.Rows.{Counter, Db, MessageRow}
use hommey.Memory.Messages.{filled_in, incremented}
use hommey.Memory.Reading.{get_message_version, is_selected}
use hommey.Memory.Newest.{of_session}
use hommey.Prelude.{
  All-trivial, Bool, Bool-cases, List, Option, String, [], ap, arith, count, count-append,
  count-keep, count-update_where, eq_iff, false, if◌then◌else◌, inl, inr, keep, map, none, refl,
  sym, true, update_where, ℕ, ◌++◌, ◌+◌, ◌==◌, ◌∙◌, ◌∷◌, ◌≡◌, ◌≤◌, String_eq, ℕ_eq,
}

abbrev pub said : MessageRow → String × String
said m = (m.role, m.content)

pub version-incremented :
    (user u : String) (cs : List Counter)
    → get_message_version user (incremented u cs)
      ≡ (if u == user then get_message_version user cs + 1 else get_message_version user cs)
unfolding get_message_version
version-incremented user u [] = elim (Bool-cases (u == user)) [
  | inl b ↦ rw b refl
  | inr b ↦ rw b refl
]
version-incremented user u (c ∷ cs) = elim (Bool-cases (c.user_id == u)) [
  | inl b ↦
      let e : c.user_id ≡ u = (eq_iff c.user_id u).0 b in
      elim (Bool-cases (u == user)) [
        | inl k ↦ rw (b, k, ap (λ t. t == user) e ∙ k) refl
        | inr k ↦ rw (b, k, ap (λ t. t == user) e ∙ k) refl
      ]
  | inr b ↦ elim (Bool-cases (c.user_id == user)) [
    | inl k ↦
        let apart : (u == user) ≡ false = elim (Bool-cases (u == user)) [
          | inl j ↦ absurd (
              ground (
                arith,
                b,
                (eq_iff c.user_id u).1 ((eq_iff c.user_id user).0 k ∙ sym ((eq_iff u user).0 j)),
              ))
          | inr j ↦ j
        ] in
        rw (b, k, apart) refl
    | inr k ↦ rw (b, k) (version-incremented user u cs)
  ]
]

module _ (user sid : String) where
  abbrev pub is_ours : MessageRow → Bool
  is_ours m = is_selected user (of_session sid none) m

  abbrev pub said_ours : List MessageRow → List (String × String)
  said_ours ms = map said (keep is_ours ms)

  abbrev pub version : Db → ℕ
  version db = get_message_version user db.versions

  abbrev pub of_user : MessageRow → Bool
  of_user m = m.user_id == user

  -- The history changes only with the version, which counts every new message of the user.
  pub record Effect (db after : Db) : Type 0 where
    pub not_less : version db ≤ version after
    pub same : version after ≡ version db → said_ours after.messages ≡ said_ours db.messages
    pub counted :
        count of_user after.messages + version db ≤ count of_user db.messages + version after

  pub kept-Effect :
      (db after : Db)
      → after.messages ≡ db.messages
      → after.versions ≡ db.versions
      → Effect db after
  kept-Effect db after m v =
      let n : version after ≡ version db = ap (get_message_version user) v in
      let c : count of_user after.messages ≡ count of_user db.messages = ap (count of_user) m in
      record {
        not_less = omega (arith, n);
        same = λ _. ap said_ours m;
        counted = omega (arith, n, c);
      }

  said_ours-filled :
      (p : MessageRow → Bool) (a b : Option String) (ms : List MessageRow)
      → said_ours (update_where p (filled_in a b) ms) ≡ said_ours ms
  said_ours-filled p a b [] = refl
  said_ours-filled p a b (m ∷ ms) = elim (Bool-cases (p m)) [
    | inl e ↦ elim (Bool-cases (is_ours m)) [
      | inl o ↦ rw (e, o) (ap (λ t. said m ∷ t) (said_ours-filled p a b ms))
      | inr o ↦ rw (e, o) (said_ours-filled p a b ms)
    ]
    | inr e ↦ elim (Bool-cases (is_ours m)) [
      | inl o ↦ rw (e, o) (ap (λ t. said m ∷ t) (said_ours-filled p a b ms))
      | inr o ↦ rw (e, o) (said_ours-filled p a b ms)
    ]
  ]

  pub filled-Effect :
      (p : MessageRow → Bool) (a b : Option String) (db after : Db)
      → after.messages ≡ update_where p (filled_in a b) db.messages
      → after.versions ≡ db.versions
      → Effect db after
  filled-Effect p a b db after m v =
      let n : version after ≡ version db = ap (get_message_version user) v in
      let c : count of_user after.messages ≤ count of_user db.messages = rw m (
        count-update_where of_user p (filled_in a b) db.messages (λ x _ _ e. e)
          (All-trivial db.messages)) in
      record {
        not_less = omega (arith, n);
        same = λ _. ap said_ours m ∙ said_ours-filled p a b db.messages;
        counted = omega (arith, n, c);
      }

  keep-ours :
      (p : MessageRow → Bool) (ms : List MessageRow)
      → ((m : MessageRow) → is_ours m ≡ true → p m ≡ true)
      → keep is_ours (keep p ms) ≡ keep is_ours ms
  keep-ours p [] k = refl
  keep-ours p (m ∷ ms) k = elim (Bool-cases (is_ours m)) [
    | inl o ↦ rw (k m o, o) (ap (λ t. m ∷ t) (keep-ours p ms k))
    | inr o ↦ elim (Bool-cases (p m)) [
      | inl e ↦ rw (e, o) (keep-ours p ms k)
      | inr e ↦ rw (e, o) (keep-ours p ms k)
    ]
  ]

  pub removed-Effect :
      (p : MessageRow → Bool) (db after : Db)
      → ((m : MessageRow) → is_ours m ≡ true → p m ≡ true)
      → after.messages ≡ keep p db.messages
      → after.versions ≡ db.versions
      → Effect db after
  removed-Effect p db after k m v =
      let n : version after ≡ version db = ap (get_message_version user) v in
      let c : count of_user after.messages ≤ count of_user db.messages =
        rw m (count-keep of_user p db.messages) in
      record {
        not_less = omega (arith, n);
        same = λ _. ap said_ours m ∙ ap (map said) (keep-ours p db.messages k);
        counted = omega (arith, n, c);
      }

  said_ours-other :
      (m : MessageRow) (ms : List MessageRow)
      → of_user m ≡ false
      → said_ours (ms ++ m ∷ []) ≡ said_ours ms
  said_ours-other m [] h = rw h refl
  said_ours-other m (n ∷ ms) h = elim (Bool-cases (is_ours n)) [
    | inl b ↦ rw b (ap (λ t. said n ∷ t) (said_ours-other m ms h))
    | inr b ↦ rw b (said_ours-other m ms h)
  ]

  pub inserted-Effect :
      (m : MessageRow) (db after : Db)
      → after.messages ≡ db.messages ++ m ∷ []
      → after.versions ≡ incremented m.user_id db.versions
      → Effect db after
  inserted-Effect m db after e v =
      let n : version after ≡ (if of_user m then version db + 1 else version db) =
        ap (get_message_version user) v ∙ version-incremented user m.user_id db.versions in
      let c : count of_user after.messages
          ≡ count of_user db.messages + (if of_user m then 1 else 0) =
        ap (count of_user) e ∙ count-append of_user db.messages m in
      elim (Bool-cases (of_user m)) [
        | inl b ↦
            let k : version after ≡ version db + 1 = rw b at n in
            let j : count of_user after.messages ≡ count of_user db.messages + 1 = rw b at c in
            record {
              not_less = omega (arith, k);
              same = λ q. absurd (omega (arith, k, q));
              counted = omega (arith, k, j);
            }
        | inr b ↦
            let k : version after ≡ version db = rw b at n in
            let j : count of_user after.messages ≡ count of_user db.messages + 0 = rw b at c in
            record {
              not_less = omega (arith, k);
              same = λ _. ap said_ours e ∙ said_ours-other m db.messages b;
              counted = omega (arith, k, j);
            }
      ]
