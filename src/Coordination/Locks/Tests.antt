-- ===== src/Coordination/Locks/Tests.antt =====
-- Locks of utils/redis_coordination.py at work, and the theorems about them.
use hommey.Coordination.Store.{Store, server}
use hommey.Coordination.Locks.{ActivityLock, Lock, acquire_activity, activity_lock}
use hommey.Coordination.Locks.Sessions.{exclusive_waits}
use hommey.Prelude.{
  Option, String, [], arith, eq_iff, false, insert, lookup, none, refl, some, true, ◌≡◌,
}

abbrev empty : Store
empty = record { clock = 9000; texts = (λ k. none); scores = (λ k. []) }

abbrev taken : Store
taken = record empty { texts = (λ k. some "a") }

abbrev lock_of : String → Lock
lock_of token = record { key = "trip"; token = token; ttl_ms = 45000 }

tokens_differ : ¬ (Path String "a" "b")
tokens_differ = λ e. ground (arith, e, eq_iff "a" "b")

abbrev activity : Option String → String → ActivityLock
activity session token = activity_lock "history" (λ id. "session") "activity" session token 45000

abbrev clearing : Store
clearing = (acquire_activity server (activity none "c") empty).1

clearing_run : acquire_activity server (activity none "c") empty ≡ (true, clearing)
unfolding acquire_activity lookup
clearing_run = refl

abbrev chatting : Store
chatting = (acquire_activity server (activity (some "s1") "a") empty).1

chatting_run : acquire_activity server (activity (some "s1") "a") empty ≡ (true, chatting)
unfolding acquire_activity lookup insert
chatting_run = refl

chatting_time : chatting.clock ≡ 9000
unfolding acquire_activity lookup insert
chatting_time = refl

exclusive_waits_example : (acquire_activity server (activity none "c") chatting).0 ≡ false
exclusive_waits_example =
    exclusive_waits server (activity (some "s1") "a") (activity none "c") empty chatting chatting
      (omega arith) refl chatting_run refl (omega (arith, chatting_time)) refl refl
