-- ===== src/ShortTerm/Tests.antt =====
-- The backends of context/short_term_memory.py on a small server.
use hommey.ShortTerm.{
  Cache, Json, Message, add_message, get_recent_context, redis_get_recent_context, replace_messages,
}
use hommey.ShortTerm.Lists.{ListServer, from_end}
use hommey.ShortTerm.Refinement.{Op, adds, all_cache, all_redis, dumped, redis_context, replaces}
use hommey.Prelude.{
  List, String, [], if◌then◌else◌, none, refl, some, suc, ℕ, ◌++◌, ◌==◌, ◌∷◌, ◌≡◌, String_eq, ℕ_eq,
}

-- Lists and counters in tables; nothing expires.
record Tables : Type 0 where
  lists : String → List Message
  numbers : String → ℕ

abbrev at {ℓ} : {A : Type ℓ} → String → (A → A) → (String → A) → String → A
at k f g l = if k == l then f (g l) else g l

abbrev server : ListServer Message
server = record {
  State = Tables;
  items = λ k s. s.lists k;
  number = λ k s. s.numbers k;
  rpush = λ k v s. record s { lists = at k (λ xs. xs ++ v ∷ []) s.lists };
  ltrim = λ k n s. record s { lists = at k (from_end n) s.lists };
  incr = λ k s. record s { numbers = at k suc s.numbers };
  delete = λ k s. record { lists = at k (λ _. []) s.lists; numbers = at k (λ _. 0) s.numbers };
  set_number = λ k n s. record s { numbers = at k (λ _. n) s.numbers };
  expire = λ k n s. s;
  items_rpush = λ k l v s. refl;
  items_ltrim = λ k l n s. refl;
  items_incr = λ k l s. refl;
  items_delete = λ k l s. refl;
  items_set_number = λ k l n s. refl;
  items_expire = λ k l n s. refl;
  number_rpush = λ k l v s. refl;
  number_ltrim = λ k l n s. refl;
  number_incr = λ k l s. refl;
  number_delete = λ k l s. refl;
  number_set_number = λ k l n s. refl;
  number_expire = λ k l n s. refl;
}

abbrev plain : Json Message
plain = record { dumps = λ m. m; loads = λ m. some m; loads_dumps = λ m. refl }

abbrev says : String → Message
says text = record { role = "user"; content = text; timestamp = text; metadata = "{}" }

abbrev calls : List Op
calls =
    adds (says "a")
    ∷ adds (says "b")
    ∷ adds (says "c")
    ∷ replaces (says "d" ∷ says "e" ∷ []) 4
    ∷ adds (says "f")
    ∷ []

abbrev no_tables : Tables
no_tables = record { lists = λ _. []; numbers = λ _. 0 }

abbrev no_messages : Cache
no_messages = record { messages = []; message_version = 0 }

-- One turn is two messages.
window_run : get_recent_context 1 none (all_cache 1 calls no_messages) ≡ says "e" ∷ says "f" ∷ []
unfolding get_recent_context add_message replace_messages
window_run = refl

redis_context_example :
    redis_get_recent_context server plain 1 "k" "k:version" 60
      (some 5)
      (all_redis server plain 1 "k" "k:version" 60 calls no_tables)
    ≡ get_recent_context 1 (some 5) (all_cache 1 calls no_messages)
unfolding dumped
redis_context_example =
    redis_context server plain 1 "k" "k:version" 60 calls no_tables no_messages (some 5) refl
