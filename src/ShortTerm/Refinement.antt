-- ===== src/ShortTerm/Refinement.antt =====
-- The two backends of context/short_term_memory.py show the same messages.
use hommey.ShortTerm.{
  Cache, Json, Message, add_message, first_time, last_time, limited, parsed, redis_add_message,
  time_of, clear, redis_clear, redis_replace_messages, replace_messages, filled, get_recent_context,
  get_statistics, limit_of, push_all, redis_get_recent_context, redis_get_statistics,
}
use hommey.ShortTerm.Lists.{ListServer, from_end, head_of, last_of}
use hommey.Prelude.{
  All, Bool, Bool-cases, List, Option, String, [], ap, append-nil, append_assoc, arith, drop,
  eq_refl, false, if◌then◌else◌, inl, inr, length, map, none, refl, some, subst, suc, sym, true,
  zero, ℕ, ◌*◌, ◌++◌, ◌-◌, ◌==◌, ◌∙◌, ◌∷◌, ◌≡◌, ◌≤◌, String_eq, ℕ_eq,
}

unfoldable pub dumped : {V : Type 0} → Json V → List Message → List V
dumped j ms = map (λ m. j.dumps m) ms

parsed-dumped : {V : Type 0} (j : Json V) (ms : List Message) → parsed j.loads (dumped j ms) ≡ ms
unfolding dumped
parsed-dumped j [] = refl
parsed-dumped j (m ∷ ms) = rw (j.loads_dumps m) (ap (λ t. m ∷ t) (parsed-dumped j ms))

length-dumped : {V : Type 0} (j : Json V) (ms : List Message) → length (dumped j ms) ≡ length ms
unfolding dumped
length-dumped j [] = refl
length-dumped j (m ∷ ms) = ap suc (length-dumped j ms)

dumped-drop :
    {V : Type 0} (j : Json V) (n : ℕ) (ms : List Message)
    → drop n (dumped j ms) ≡ dumped j (drop n ms)
unfolding dumped
dumped-drop j zero ms = refl
dumped-drop j (suc n) [] = refl
dumped-drop j (suc n) (m ∷ ms) = dumped-drop j n ms

dumped-from_end :
    {V : Type 0} (j : Json V) (n : ℕ) (ms : List Message)
    → from_end n (dumped j ms) ≡ dumped j (from_end n ms)
unfolding from_end
dumped-from_end j n ms = elim (Bool-cases (n == 0)) [
  | inl b ↦ rw b refl
  | inr b ↦ rw (b, length-dumped j ms) (dumped-drop j (length ms - n) ms)
]

dumped-append :
    {V : Type 0} (j : Json V) (ms : List Message) (m : Message)
    → dumped j (ms ++ m ∷ []) ≡ dumped j ms ++ j.dumps m ∷ []
unfolding dumped
dumped-append j [] m = refl
dumped-append j (n ∷ ms) m = ap (λ t. j.dumps n ∷ t) (dumped-append j ms m)

dumped-limited :
    {V : Type 0} (j : Json V) (n : Option ℕ) (ms : List Message)
    → limited n (dumped j ms) ≡ dumped j (limited n ms)
dumped-limited j none ms = refl
dumped-limited j (some n) ms = dumped-from_end j n ms

head-dumped :
    {V : Type 0} (j : Json V) (ms : List Message)
    → time_of j (head_of (dumped j ms)) ≡ some (first_time ms)
unfolding dumped
head-dumped j [] = refl
head-dumped j (m ∷ ms) = rw (j.loads_dumps m) refl

last-dumped :
    {V : Type 0} (j : Json V) (ms : List Message)
    → time_of j (last_of (dumped j ms)) ≡ some (last_time ms)
unfolding dumped
last-dumped j [] = refl
last-dumped j (m ∷ []) = rw (j.loads_dumps m) refl
last-dumped j (m ∷ n ∷ ms) = last-dumped j (n ∷ ms)

-- What a session does with its memory.
pub data Op : Type 0 where
  adds : Message → Op
  clears : Op
  replaces : List Message → ℕ → Op

abbrev pub on_cache : ℕ → Op → Cache → Cache
on_cache max_turns (adds m) c = add_message max_turns m c
on_cache max_turns clears c = clear max_turns c
on_cache max_turns (replaces ms version) c = replace_messages max_turns ms version c

-- The version that is given with the messages counts these at least.
abbrev pub IsCounted : ℕ → Op → Type 0
IsCounted max_turns (replaces ms version) = length (from_end (max_turns * 2) ms) ≤ version
IsCounted max_turns _ = Unit

if-same {ℓ} : {A : Type ℓ} (k : String) (x y : A) → (if k == k then x else y) ≡ x
if-same k x y = let same : (k == k) ≡ true = ground (arith, eq_refl k) in rw same refl

if-both {ℓ} : {A : Type ℓ} (b : Bool) {x y z : A} → x ≡ z → y ≡ z → (if b then x else y) ≡ z
if-both true p q = p
if-both false p q = q

abbrev pub all_cache : ℕ → List Op → Cache → Cache
all_cache max_turns [] c = c
all_cache max_turns (o ∷ os) c = all_cache max_turns os (on_cache max_turns o c)

module _ {V : Type 0} (R : ListServer V) (j : Json V) (max_turns : ℕ) (key version_key : String)
    (ttl : ℕ) where
  abbrev pub on_redis : Op → R.State → R.State
  on_redis (adds m) s = redis_add_message R j max_turns key version_key ttl m s
  on_redis clears s = redis_clear R j max_turns key version_key ttl s
  on_redis (replaces ms version) s =
      redis_replace_messages R j max_turns key version_key ttl ms version s

  -- The list of the session holds the messages.
  abbrev pub Holds : R.State → List Message → Type 0
  Holds s ms = R.items key s ≡ dumped j ms

  add-Holds :
      (m : Message) (s : R.State) (ms : List Message)
      → Holds s ms
      → Holds
          (redis_add_message R j max_turns key version_key ttl m s)
          (from_end (max_turns * 2) (ms ++ m ∷ []))
  unfolding redis_add_message
  add-Holds m s ms h =
      R.items_expire version_key key ttl _
      ∙ (R.items_expire key key ttl _
          ∙ (R.items_incr version_key key _
              ∙ (R.items_ltrim key key (max_turns * 2) _
                  ∙ (if-same key _ _
                      ∙ ap (from_end (max_turns * 2)) (
                          R.items_rpush key key (j.dumps m) s
                          ∙ (if-same key _ _
                              ∙ (ap (λ xs. xs ++ j.dumps m ∷ []) h ∙ sym (dumped-append j ms m))))
                      ∙ dumped-from_end j (max_turns * 2) (ms ++ m ∷ [])))))

  deleted-Holds : (s : R.State) → Holds (R.delete version_key (R.delete key s)) []
  unfolding dumped
  deleted-Holds s =
      R.items_delete version_key key _
      ∙ if-both (version_key == key) refl (R.items_delete key key s ∙ if-same key _ _)

  push_all-Holds :
      (new ms : List Message) (s : R.State)
      → Holds s ms
      → Holds (push_all R j max_turns key version_key ttl new s) (ms ++ new)
  push_all-Holds [] ms s h = rw append-nil h
  push_all-Holds (m ∷ new) ms s h =
      subst (Holds (push_all R j max_turns key version_key ttl (m ∷ new) s))
        (append_assoc ms (m ∷ []) new)
        (push_all-Holds new (ms ++ m ∷ []) (R.rpush key (j.dumps m) s) (
          R.items_rpush key key (j.dumps m) s
          ∙ (if-same key _ _ ∙ (ap (λ xs. xs ++ j.dumps m ∷ []) h ∙ sym (dumped-append j ms m)))))

  filled-Holds :
      (ms : List Message) (s : R.State)
      → Holds s []
      → Holds (filled R j max_turns key version_key ttl ms s) ms
  filled-Holds [] s h = h
  filled-Holds (m ∷ ms) s h = R.items_expire key key ttl _ ∙ push_all-Holds (m ∷ ms) [] s h

  step-Holds :
      (o : Op) (s : R.State) (c : Cache)
      → Holds s c.messages
      → Holds (on_redis o s) (on_cache max_turns o c).messages
  unfolding add_message clear replace_messages redis_clear redis_replace_messages
  step-Holds (adds m) s c h = add-Holds m s c.messages h
  step-Holds clears s c h = deleted-Holds s
  step-Holds (replaces ms version) s c h =
      R.items_expire version_key key ttl _
      ∙ (R.items_set_number version_key key version _
          ∙ filled-Holds (from_end (max_turns * 2) ms) _ (deleted-Holds s))

  step-version :
      (o : Op) (s : R.State) (c : Cache)
      → IsCounted max_turns o
      → R.number version_key s ≡ c.message_version
      → R.number version_key (on_redis o s) ≡ (on_cache max_turns o c).message_version
  unfolding add_message clear replace_messages redis_add_message redis_clear redis_replace_messages
  step-version (adds m) s c p h =
      R.number_expire version_key version_key ttl _
      ∙ (R.number_expire key version_key ttl _
          ∙ (R.number_incr version_key version_key _
              ∙ (if-same version_key _ _
                  ∙ ap suc (
                      R.number_ltrim key version_key (max_turns * 2) _
                      ∙ (R.number_rpush key version_key (j.dumps m) s ∙ h))
                  ∙ omega arith)))
  step-version clears s c p h = R.number_delete version_key version_key _ ∙ if-same version_key _ _
  step-version (replaces ms version) s c p h =
      R.number_expire version_key version_key ttl _
      ∙ (R.number_set_number version_key version_key version _
          ∙ (if-same version_key _ _ ∙ omega (arith, p)))

  abbrev pub all_redis : List Op → R.State → R.State
  all_redis [] s = s
  all_redis (o ∷ os) s = all_redis os (on_redis o s)

  -- What the two backends show after the same calls, from the same messages.
  run-Holds :
      (os : List Op) (s : R.State) (c : Cache)
      → Holds s c.messages
      → Holds (all_redis os s) (all_cache max_turns os c).messages
  run-Holds [] s c h = h
  run-Holds (o ∷ os) s c h =
      run-Holds os (on_redis o s) (on_cache max_turns o c) (step-Holds o s c h)

  run-version :
      (os : List Op) (s : R.State) (c : Cache)
      → All (IsCounted max_turns) os
      → R.number version_key s ≡ c.message_version
      → R.number version_key (all_redis os s) ≡ (all_cache max_turns os c).message_version
  run-version [] s c p h = h
  run-version (o ∷ os) s c p h =
      run-version os (on_redis o s) (on_cache max_turns o c) p.1 (step-version o s c p.0 h)

  -- Whatever messages are added, cleared and replaced, the Redis backend shows the same recent
  -- context as the memory backend, for any number of turns asked for, if they start with the same
  -- messages.
  pub redis_context :
      (os : List Op) (s : R.State) (c : Cache) (n_turns : Option ℕ)
      → Holds s c.messages
      → redis_get_recent_context R j max_turns key version_key ttl n_turns (all_redis os s)
        ≡ get_recent_context max_turns n_turns (all_cache max_turns os c)
  unfolding redis_get_recent_context get_recent_context
  redis_context os s c n_turns h =
      ap (λ xs. parsed j.loads (limited (limit_of max_turns n_turns) xs)) (run-Holds os s c h)
      ∙ (ap (parsed j.loads) (dumped-limited j (limit_of max_turns n_turns) _) ∙ parsed-dumped j _)

  -- If besides each replacement brings a version that is at least the number of messages that it
  -- leaves, the statistics of the two backends agree too: the numbers of messages, the versions and
  -- the times of the oldest and the newest message.
  pub redis_statistics :
      (os : List Op) (s : R.State) (c : Cache)
      → Holds s c.messages
      → R.number version_key s ≡ c.message_version
      → All (IsCounted max_turns) os
      → redis_get_statistics R j max_turns key version_key ttl (all_redis os s)
        ≡ some (get_statistics max_turns (all_cache max_turns os c))
  unfolding redis_get_statistics get_statistics
  redis_statistics os s c h v p =
      let e = run-Holds os s c h in
      let ms = (all_cache max_turns os c).messages in
      let oldest = ap (λ xs. time_of j (head_of xs)) e ∙ head-dumped j ms in
      let newest = ap (λ xs. time_of j (last_of xs)) e ∙ last-dumped j ms in
      let size = ap length e ∙ length-dumped j ms in
      rw (oldest, newest, size, run-version os s c p v, redis_get_statistics) refl
