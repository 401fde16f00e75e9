-- ===== src/Captcha/History.antt =====
-- human_interaction.py: the calls of the API and of the worker, in any order, keep the files
-- consistent.
use argus_web_intelligence.Prelude.{
  ℕ, String, Bool, true, List, Option, some, String_eq, ◌≡◌, ◌≢◌, arith, eq_iff, inl, inr, subst,
}
use argus_web_intelligence.Prelude.Action.{ok}
use argus_web_intelligence.Contracts.{Coordinate}
use argus_web_intelligence.Captcha.{Challenge, ChallengeFile_key, Mailbox, get, write}
use argus_web_intelligence.Captcha.Calls.{
  Creation, create, submit_answer, mark_interactive_required, submit_interaction,
  update_interactive_screenshot, mark_completed, mark_failed,
}
use argus_web_intelligence.Captcha.Waiting.{poll_answer, poll_interaction, is_answered}
use argus_web_intelligence.Captcha.Consistency.{IsConsistent, AllConsistent, answered-Holds, ending}
use argus_web_intelligence.Captcha.Preservation.{
  get_cases, create-AllConsistent, submit_answer-AllConsistent,
  mark_interactive_required-AllConsistent, submit_interaction-AllConsistent,
  update_interactive_screenshot-AllConsistent, poll_answer-AllConsistent,
  poll_interaction-AllConsistent, mark_completed-AllConsistent, mark_failed-AllConsistent,
}

-- What the API and the worker call, with the time of the call.
pub data Call : Type 0 where
  creates : String → ℕ → Creation → Call
  submits_answer : String → ℕ → String → Call
  submits_interaction : String → ℕ → String → Option Coordinate → Option Coordinate → Call
  requires_interaction : String → ℕ → Option String → Call
  updates_screenshot : String → ℕ → List ℕ → Call
  polls_answer : String → ℕ → Call
  polls_interaction : String → ℕ → Call
  marks_completed : String → ℕ → Call
  marks_failed : String → ℕ → String → Bool → Call

unfoldable pub call : (String → Bool) → Call → Mailbox → Mailbox
call is_uuid (creates id now k) m = (create is_uuid id now k m).1
call is_uuid (submits_answer id now text) m = (submit_answer is_uuid id now text m).1
call is_uuid (submits_interaction id now action x y) m =
    (submit_interaction is_uuid id now action x y m).1
call is_uuid (requires_interaction id now error) m =
    (mark_interactive_required is_uuid id now error m).1
call is_uuid (updates_screenshot id now content) m =
    (update_interactive_screenshot is_uuid id now content m).1
call is_uuid (polls_answer id now) m = (poll_answer is_uuid id now m).1
call is_uuid (polls_interaction id now) m = (poll_interaction is_uuid id now m).1
call is_uuid (marks_completed id now) m = (mark_completed is_uuid id now m).1
call is_uuid (marks_failed id now error late) m =
    (mark_failed is_uuid id now error (ending late) m).1

-- A directory that the calls reach from another.
pub data Reaches (is_uuid : String → Bool) : Mailbox → Mailbox → Type 0 where
  unchanged : {m : Mailbox} → Reaches is_uuid m m
  then_call :
      {m n : Mailbox} → Reaches is_uuid m n → (c : Call) → Reaches is_uuid m (call is_uuid c n)

call-AllConsistent :
    (is_uuid : String → Bool) (c : Call) (m : Mailbox)
    → AllConsistent m
    → AllConsistent (call is_uuid c m)
unfolding call
call-AllConsistent u (creates id now k) m h = create-AllConsistent u id now k m h
call-AllConsistent u (submits_answer id now text) m h =
    submit_answer-AllConsistent u id now text m h
call-AllConsistent u (submits_interaction id now a x y) m h =
    submit_interaction-AllConsistent u id now a x y m h
call-AllConsistent u (requires_interaction id now e) m h =
    mark_interactive_required-AllConsistent u id now e m h
call-AllConsistent u (updates_screenshot id now s) m h =
    update_interactive_screenshot-AllConsistent u id now s m h
call-AllConsistent u (polls_answer id now) m h = poll_answer-AllConsistent u id now m h
call-AllConsistent u (polls_interaction id now) m h = poll_interaction-AllConsistent u id now m h
call-AllConsistent u (marks_completed id now) m h = mark_completed-AllConsistent u id now m h
call-AllConsistent u (marks_failed id now e late) m h =
    mark_failed-AllConsistent u id now e late m h

-- In every directory that calls reach from a consistent one, in whatever order the API and the
-- worker make them, a challenge's file holds an answer, which is not empty, just while its status
-- is `answered`, and an interaction just while one is queued.
pub Reaches-AllConsistent :
    (is_uuid : String → Bool) (m n : Mailbox)
    → AllConsistent m
    → Reaches is_uuid m n
    → AllConsistent n
Reaches-AllConsistent u m n h unchanged = h
Reaches-AllConsistent u m n h (then_call {n = k} r c) =
    call-AllConsistent u c k (Reaches-AllConsistent u m k h r)

-- In a directory that calls reach from a consistent one, the worker's next turn on an answered
-- challenge returns a text, which is not empty, and raises nothing.
pub Reaches-poll_answer :
    (is_uuid : String → Bool) (m n : Mailbox) (id : String) (now : ℕ) (c : Challenge)
    → AllConsistent m
    → Reaches is_uuid m n
    → get is_uuid id n ≡ (ok c, n)
    → is_answered c.status ≡ true
    → (t : String) × (t ≢ "") × ((poll_answer is_uuid id now n).0 ≡ ok (some t))
unfolding poll_answer write
Reaches-poll_answer u m n id now c h r reads now_answered =
    elim (get_cases u id n (Reaches-AllConsistent u m n h r)) [
      | inl (e, g) ↦ absurd (ground (arith, g, reads))
      | inr (d, g, valid, k) ↦
          let same : d ≡ c = ground (arith, g, reads) in
          let k' = subst IsConsistent same k in
          let ((t, e, full), _) =
            answered-Holds c.status c.kind c.answer c.interaction now_answered k' in
          (t, full, ground (arith, reads, valid, now_answered, e, eq_iff t ""))
    ]
