-- ===== src/Captcha/Examples.antt =====
-- A directory with one challenge, on which the theorems about the mailbox are tried.
use argus_web_intelligence.Prelude.{
  ℕ, String, Bool, true, [], ◌∷◌, none, some, ◌≡◌, ◌≢◌, ◌⊎◌, refl, arith, eq_iff, String_eq, ◌==◌,
}
use argus_web_intelligence.Prelude.Text.{strip}
use argus_web_intelligence.Prelude.Action.{ok, err}
use argus_web_intelligence.Sql.{find, insert_or_replace, upsert}
use argus_web_intelligence.Captcha.{
  applying, expired, Challenge, Mailbox, get, write, timed_out, state_error, challenge_not_found,
}
use argus_web_intelligence.Captcha.Calls.{
  Creation, create, new_challenge, put_screenshot, submit_answer, answer_with, is_pending,
  assert_collection,
}
use argus_web_intelligence.Captcha.Waiting.{Poll, wait_for_answer, poll_answer, is_answered}
use argus_web_intelligence.Captcha.Consistency.{AllConsistent}
use argus_web_intelligence.Captcha.History.{
  Reaches, unchanged, then_call, creates, submits_answer, call, Reaches-AllConsistent,
  Reaches-poll_answer,
}
use argus_web_intelligence.Captcha.Delivery.{
  Reads, wait_for_answer_delivers, wait_for_answer_times_out,
}
use argus_web_intelligence.Captcha.Isolation.{assert_collection_cases, without, owner}

-- The identifiers of this directory.
abbrev known : String → Bool
known id = id == "id-1"

abbrev text_challenge : Creation
text_challenge = record {
  url = "https://example.org";
  screenshot = 1 ∷ 2 ∷ [];
  kind = "text";
  prompt = "letters";
  input_selector = none;
  collection_id = some " c-1 ";
  analysis_id = none;
  source_id = none;
}

abbrev first : Challenge
first = new_challenge "id-1" 5 text_challenge

abbrev no_files : Mailbox
no_files = record { challenges = []; screenshots = [] }

abbrev one_file : Mailbox
one_file = record {
  challenges = record { name = "id-1.json"; payload = some first } ∷ [];
  screenshots = [];
}

first-Reads : Reads known "id-1" one_file first
unfolding get find
first-Reads = refl

first-pending : is_pending first.status ≡ true
unfolding new_challenge is_pending
first-pending = refl

not_blank : strip " 7x " ≢ ""
unfolding strip
not_blank = ground (arith, eq_iff "7x" "")

abbrev idle : ℕ → Poll
idle now = record { now = now; between = λ m. m }

abbrev answering : Poll
answering = record { now = 20; between = λ m. (submit_answer known "id-1" 25 " 7x " m).1 }

wait_for_answer_delivers_example :
    ((wait_for_answer known "id-1" (idle 10 ∷ answering ∷ idle 30 ∷ []) 99 one_file).0
      ≡ ok (strip " 7x "))
    × Reads known "id-1"
        (wait_for_answer known "id-1" (idle 10 ∷ answering ∷ idle 30 ∷ []) 99 one_file).1
        (record first { answer = none; status = applying; updated_at = 30 })
unfolding new_challenge
wait_for_answer_delivers_example =
    wait_for_answer_delivers known "id-1" (idle 10 ∷ []) [] answering (idle 30) 99 25 " 7x "
      one_file first first-Reads first-pending refl not_blank (refl, tt) refl

wait_for_answer_times_out_example :
    ((wait_for_answer known "id-1" (idle 10 ∷ []) 99 one_file).0 ≡ err timed_out)
    × Reads known "id-1" (wait_for_answer known "id-1" (idle 10 ∷ []) 99 one_file).1 (record first {
      answer = none;
      interaction = none;
      status = expired;
      error = some "manual CAPTCHA input timed out";
      updated_at = 99;
    })
    × (submit_answer known "id-1" 120 " 7x "
          (wait_for_answer known "id-1" (idle 10 ∷ []) 99 one_file).1
        ≡ (err state_error, (wait_for_answer known "id-1" (idle 10 ∷ []) 99 one_file).1))
wait_for_answer_times_out_example =
    wait_for_answer_times_out known "id-1" (idle 10 ∷ []) 99 120 " 7x " one_file first first-Reads
      first-pending (refl, tt) not_blank

assert_collection_cases_example :
    (owner first ≢ ""
      → owner first ≡ strip "c-1"
      → assert_collection known "id-1" "c-1" one_file ≡ (ok first, one_file))
    × ((owner first ≡ "") ⊎ (owner first ≢ strip "c-1")
        → (assert_collection known "id-1" "c-1" one_file ≡ (err challenge_not_found, one_file))
          × ((assert_collection known "id-1" "c-1" (without "id-1" one_file)).0
              ≡ err challenge_not_found))
assert_collection_cases_example =
    assert_collection_cases known "id-1" "c-1" one_file first first-Reads

abbrev answered_file : Mailbox
answered_file =
    call known (submits_answer "id-1" 7 "yes")
      (call known (creates "id-1" 5 text_challenge) no_files)

answered_file-Reaches : Reaches known no_files answered_file
answered_file-Reaches =
    then_call (then_call unchanged (creates "id-1" 5 text_challenge))
      (submits_answer "id-1" 7 "yes")

Reaches-AllConsistent_example : AllConsistent answered_file
Reaches-AllConsistent_example =
    Reaches-AllConsistent known no_files answered_file tt answered_file-Reaches

Reaches-poll_answer_example :
    (t : String) × (t ≢ "") × ((poll_answer known "id-1" 9 answered_file).0 ≡ ok (some t))
unfolding call create put_screenshot submit_answer new_challenge get write find upsert
    insert_or_replace strip is_pending is_answered answer_with
Reaches-poll_answer_example =
    Reaches-poll_answer known no_files answered_file "id-1" 9 (answer_with "yes" 7 first) tt
      answered_file-Reaches refl refl
