-- ===== src/Evaluation/Tests.antt =====
-- Tests of evaluation/, and the theorems about it on a small database.
use hommey.Evaluation.Metadata.{
  TurnEvaluationFacts, TurnEvaluationMetadata, completed, extract_facts, full, live,
}
use hommey.Evaluation.Patterns.{definite_amount, find_all, identity_number, secret_assignment}
use hommey.Evaluation.Rules.{evidence_rules, run_rules}
use hommey.Evaluation.Rows.{Db, Message, Run, RunStatus, is_final}
use hommey.Evaluation.Queue.{
  Evaluator, claim_pending, claimed_ids, complete, create_subject_and_run, ended, new_run,
  recover_expired_leases,
}
use hommey.Evaluation.Worker.{Services, Worker, run_once, worker}
use hommey.Evaluation.Reconciler.{missing_turn_subjects, reconcile}
use hommey.Evaluation.Verdicts.{decide-run_rules, has_failed, is_ungrounded, leaks}
use hommey.Evaluation.Leases.{IsConsistent}
use hommey.Evaluation.Reach.{Reach-final, Reach-runs, claims, creates, here, next, recovers}
use hommey.Evaluation.Settling.{IsIdle, run_once-IsIdle}
use hommey.Evaluation.Capture.{create-again, reconcile-none_missing}
use hommey.Verdict.{decide, with_judge, Verdict}
use hommey.Text.{codes, Text_eq}
use hommey.Prelude.{
  All, In, String, [], arith, elem, eq_iff, false, if◌then◌else◌, inl, keep, ltb, map, none, refl,
  some, true, ℕ, ◌||◌, ◌∷◌, ◌≡◌, String_eq, ℕ_eq,
}

twelve_yuan : definite_amount (codes "每天 12.5 元") ≡ true
unfolding definite_amount
twelve_yuan = refl

no_unit : definite_amount (codes "版本 2.5 已发布") ≡ false
unfolding definite_amount
no_unit = refl

finds_secret :
    find_all secret_assignment none 0 (codes "my Api-Key: abc, ok") ≡ codes "Api-Key: abc," ∷ []
unfolding find_all secret_assignment
finds_secret = refl

finds_identity :
    find_all identity_number none 0 (codes "id 11010519491231002X.")
    ≡ codes "11010519491231002X" ∷ []
unfolding find_all identity_number
finds_identity = refl

abbrev asked : TurnEvaluationMetadata
asked = record {
  schema_version = "eval.turn.input.1";
  subject = record {
    request_id = "q1";
    session_id = "s1";
    run_id = "";
    turn_id = "t1";
    occurred_at = 5;
  };
  conversation = record {
    user_message = codes "住宿标准是多少？";
    assistant_message = codes "每晚 450 元。";
    previous_messages = [];
  };
  routing = record { intents = "policy" ∷ []; selected_skills = "ask-question" ∷ [] };
  execution = record {
    terminal_state = completed;
    paused = false;
    interrupted = false;
    tasks = [];
    agent_results =
        record {
          agent_name = some "policy";
          status = some "success";
          missing_info = [];
          present_fields = [];
        }
        ∷ [];
    timings = [];
    error_codes = [];
  };
  answer = record { answer_document = none; presentation_document = none; sources = [] };
  evidence = record { retrieval_trace_ids = []; items = [] };
  versions = record {
    git_revision = "";
    production_model = "qwen";
    intent_prompt_version = "";
    composer_prompt_version = "";
    skill_versions = [];
    rag_index_version = "";
  };
  capture_mode = live;
  evaluation_context_quality = full;
  metadata_truncated = false;
  truncated_fields = [];
}

abbrev facts : TurnEvaluationFacts
facts = extract_facts asked

facts_run : (facts.successful_agents ≡ "policy" ∷ []) × (facts.metadata_completeness ≡ 5)
unfolding extract_facts
facts_run = (refl, refl)

-- An amount without a source is critical.
ungrounded_run : map (λ r. r.code) (evidence_rules asked facts) ≡ "SHOULD_RETURN_UNKNOWN" ∷ []
unfolding evidence_rules extract_facts
ungrounded_run = refl

decide-run_rules_example : (decide (run_rules (λ _. true) asked facts) none false).verdict ≡ (
    if is_ungrounded asked facts || leaks asked
    then Verdict.critical_fail
    else if has_failed (λ _. true) asked facts
    then Verdict.fail
    else if ltb facts.metadata_completeness 4 || asked.metadata_truncated
    then Verdict.unscored
    else (with_judge (run_rules (λ _. true) asked facts) none false).0)
decide-run_rules_example = decide-run_rules (λ _. true) asked facts none false

abbrev evaluator : Evaluator
evaluator = record {
  evaluator_version = "v1";
  judge_model = "";
  judge_prompt_version = "p1";
  rubric_version = "r1";
}

abbrev answer_message : Message
answer_message = record {
  user_id = "u1";
  request_id = "q1";
  session_id = "s1";
  turn_id = some "t1";
  role = "assistant";
  content = codes "每晚 450 元。";
  sequence_no = 2;
  is_deleted = false;
  answer_document = none;
  presentation_document = none;
  created_at = 5;
}

abbrev empty : Db
empty = record { subjects = []; runs = []; messages = answer_message ∷ [] }

empty-IsConsistent : IsConsistent 3 empty
empty-IsConsistent = record { sound = tt; unique = λ id. omega arith }

abbrev one_pending : Db
one_pending = (create_subject_and_run 10 "sub1" "run1" "hash" asked evaluator empty).1

abbrev one_running : Db
one_running = (claim_pending 12 "w1" 2 90 one_pending).1

claims_one : map (λ (r : Run). r.lease_owner) one_running.runs ≡ some "w1" ∷ []
unfolding create_subject_and_run claim_pending
claims_one = refl

-- The lease of `w1` ran out at 102.
lost_write :
    (complete 104 "run1" "w1"
      (decide [] none false)
      none
      none
      (recover_expired_leases 103 3 one_running).1).0
    ≡ false
unfolding create_subject_and_run claim_pending recover_expired_leases complete
lost_write = refl

Reach-runs_example : IsConsistent 3 (recover_expired_leases 103 3 one_running).1
unfolding create_subject_and_run
Reach-runs_example =
    Reach-runs (omega arith)
      (next
        (next (next here (creates 10 "sub1" "run1" "hash" asked evaluator refl))
          (claims 12 "w1" 2 90))
        (recovers 103))
      empty-IsConsistent

abbrev skipped_run : Run
skipped_run = ended 4 RunStatus.skipped "SKIP_CHITCHAT" (new_run 3 "run1" "sub1" evaluator)

abbrev one_skipped : Db
one_skipped = record { subjects = []; runs = skipped_run ∷ []; messages = [] }

one_skipped-IsConsistent : IsConsistent 3 one_skipped
one_skipped-IsConsistent = record {
  sound = (ground arith, tt);
  unique = λ id. ground (arith, eq_iff "run1" id);
}

Reach-final_example : In skipped_run (claim_pending 12 "w1" 2 90 one_skipped).1.runs
Reach-final_example =
    Reach-final {max_attempts = 3} skipped_run (omega arith) (next here (claims 12 "w1" 2 90))
      one_skipped-IsConsistent refl (inl refl)

abbrev services : Services
services = record { stable_sample = λ _. 0; validates = λ _. true; call_judge = λ _ _. none }

abbrev the_worker : Worker
the_worker = worker "w1" true 2 90 0 none

abbrev at_once : String → ℕ × ℕ
at_once id = (20, 7)

run_once-IsIdle_example :
    IsIdle the_worker.worker_id (run_once services the_worker 3 12 at_once one_pending).1
    × All
        (λ r. is_final r.status ≡ true)
        (keep
          (λ r.
            elem r.evaluation_id
              (claimed_ids the_worker.concurrency (recover_expired_leases 12 3 one_pending).1.runs))
          (run_once services the_worker 3 12 at_once one_pending).1.runs)
unfolding create_subject_and_run
run_once-IsIdle_example = run_once-IsIdle services the_worker 3 12 at_once one_pending (refl, tt)

create-again_example :
    create_subject_and_run 11 "sub2" "run2" "hash2" asked evaluator one_pending
    ≡ create_subject_and_run 10 "sub1" "run1" "hash" asked evaluator empty
create-again_example =
    create-again 10 11 "sub1" "run1" "hash" "sub2" "run2" "hash2" asked asked evaluator evaluator
      empty refl refl

abbrev fresh_ids : String → String × String × String
fresh_ids request_id = ("sub1", "run1", "hash")

reconcile-none_missing_example :
    missing_turn_subjects 100 (reconcile fresh_ids asked.versions 30 evaluator 100 empty).1 ≡ []
reconcile-none_missing_example =
    reconcile-none_missing fresh_ids asked.versions 30 evaluator 100 empty (omega arith) 100
