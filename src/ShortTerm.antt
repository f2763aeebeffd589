-- ===== src/ShortTerm.antt =====
-- context/short_term_memory.py: the last turns of a session, in the process or in Redis. Lists are
-- the commands of Redis that it calls, Refinement is what the two backends have in common.
pub mod Lists
mod Refinement
mod Tests
use hommey.ShortTerm.Lists.{ListServer, from_end, head_of, last_of}
use hommey.Prelude.{
  List, Option, String, [], if◌then◌else◌, length, ltb, max, none, some, ℕ, ◌*◌, ◌++◌, ◌+◌, ◌∷◌,
  ◌≡◌,
}

pub record Message : Type 0 where
  pub role : String
  pub content : String
  pub timestamp : String
  pub metadata : String

-- The memory backend: `messages` and `message_version`.
pub record Cache : Type 0 where
  pub messages : List Message
  pub message_version : ℕ

pub record Statistics : Type 0 where
  pub total_messages : ℕ
  pub message_version : ℕ
  pub max_turns : ℕ
  pub oldest_message_time : Option String
  pub newest_message_time : Option String

abbrev pub first_time : List Message → Option String
first_time [] = none
first_time (m ∷ ms) = some m.timestamp

abbrev pub last_time : List Message → Option String
last_time [] = none
last_time (m ∷ []) = some m.timestamp
last_time (m ∷ n ∷ ms) = last_time (n ∷ ms)

-- The number of turns that is asked for; none is for all messages.
abbrev pub limit_of : ℕ → Option ℕ → Option ℕ
limit_of max_turns none = none
limit_of max_turns (some n) = some ((if ltb max_turns n then max_turns else n) * 2)

abbrev pub limited {ℓ} : {A : Type ℓ} → Option ℕ → List A → List A
limited none xs = xs
limited (some n) xs = from_end n xs

-- The methods on the memory backend.
module _ (max_turns : ℕ) where
  unfoldable pub add_message : Message → Cache → Cache
  unfolding from_end
  add_message m c = record {
    messages = from_end (max_turns * 2) (c.messages ++ m ∷ []);
    message_version = c.message_version + 1;
  }

  unfoldable pub clear : Cache → Cache
  clear c = record { messages = []; message_version = 0 }

  unfoldable pub replace_messages : List Message → ℕ → Cache → Cache
  unfolding from_end
  replace_messages ms version c =
      let bounded = from_end (max_turns * 2) ms in
      record { messages = bounded; message_version = max version (length bounded) }

  unfoldable pub get_recent_context : Option ℕ → Cache → List Message
  unfolding from_end
  get_recent_context n_turns c = limited (limit_of max_turns n_turns) c.messages

  unfoldable pub get_statistics : Cache → Statistics
  get_statistics c = record {
    total_messages = length c.messages;
    message_version = c.message_version;
    max_turns = max_turns;
    oldest_message_time = first_time c.messages;
    newest_message_time = last_time c.messages;
  }

-- `json.dumps` of a message, and `json.loads`: `V` are the texts, and `none` is an invalid record.
pub record Json (V : Type 0) : Type 0 where
  pub dumps : Message → V
  pub loads : V → Option Message
  pub loads_dumps : (m : Message) → loads (dumps m) ≡ some m

-- The valid records, in order.
abbrev pub parsed : {V : Type 0} → (V → Option Message) → List V → List Message
parsed loads [] = []
parsed loads (raw ∷ raws) =
    let rest = parsed loads raws in elim (loads raw) [ none ↦ rest | some m ↦ m ∷ rest ]

-- The time of a record that LINDEX gives, if any; an invalid one raises.
abbrev pub time_of : {V : Type 0} → Json V → Option V → Option (Option String)
time_of j none = some none
time_of j (some raw) = elim (j.loads raw) [ none ↦ none | some m ↦ some (some m.timestamp) ]

-- The methods on the Redis backend: the two keys of a session, and the time to live.
module _ {V : Type 0} (R : ListServer V) (j : Json V) (max_turns : ℕ)
    (redis_key redis_version_key : String) (ttl : ℕ) where
  abbrev pub kept : R.State → R.State
  kept s = R.expire redis_version_key ttl (R.expire redis_key ttl s)

  unfoldable pub redis_add_message : Message → R.State → R.State
  redis_add_message m s = kept (
      R.incr redis_version_key
        (R.ltrim redis_key (max_turns * 2) (R.rpush redis_key (j.dumps m) s)))

  unfoldable pub redis_clear : R.State → R.State
  redis_clear s = R.delete redis_version_key (R.delete redis_key s)

  -- RPUSH of several values pushes them in their order.
  abbrev pub push_all : List Message → R.State → R.State
  push_all [] s = s
  push_all (m ∷ ms) s = push_all ms (R.rpush redis_key (j.dumps m) s)

  abbrev pub filled : List Message → R.State → R.State
  filled [] s = s
  filled (m ∷ ms) s = R.expire redis_key ttl (push_all (m ∷ ms) s)

  unfoldable pub redis_replace_messages : List Message → ℕ → R.State → R.State
  unfolding from_end
  redis_replace_messages ms version s =
      let deleted = R.delete redis_version_key (R.delete redis_key s) in
      R.expire redis_version_key ttl
        (R.set_number redis_version_key version (filled (from_end (max_turns * 2) ms) deleted))

  -- LRANGE key 0 -1, or key -limit -1
  unfoldable pub redis_get_recent_context : Option ℕ → R.State → List Message
  unfolding from_end
  redis_get_recent_context n_turns s =
      parsed j.loads (limited (limit_of max_turns n_turns) (R.items redis_key s))

  -- LINDEX key 0 and LINDEX key -1; `none` is the error of an invalid record
  unfoldable pub redis_get_statistics : R.State → Option Statistics
  redis_get_statistics s = elim (time_of j (head_of (R.items redis_key s))) [
    | none ↦ none
    | some oldest ↦ elim (time_of j (last_of (R.items redis_key s))) [
      | none ↦ none
      | some newest ↦ some (record {
        total_messages = length (R.items redis_key s);
        message_version = R.number redis_version_key s;
        max_turns = max_turns;
        oldest_message_time = oldest;
        newest_message_time = newest;
      })
    ]
  ]
