-- ===== src/Captcha/Waiting.antt =====
-- human_interaction.py: the lists of open challenges, and the loops in which the worker waits for
-- what a person sends.
use argus_web_intelligence.Prelude.{
  ℕ, String, Bool, true, false, List, [], ◌∷◌, Option, none, some, String_eq, ◌==◌, if◌then◌else◌,
  map, keep,
}
use argus_web_intelligence.Prelude.Text.{strip}
use argus_web_intelligence.Prelude.Order.{order_by}
use argus_web_intelligence.Prelude.Collation.{code_point_le}
use argus_web_intelligence.Prelude.Action.{Result, ok, err, pure, raise, ◌>>=◌, ◌>>◌}
use argus_web_intelligence.Sql.{find}
use argus_web_intelligence.Captcha.{
  Status, Interaction, Challenge, ChallengeFile, ScreenshotFile_key, Mailbox, CaptchaError, Broker,
  PublicChallenge, public, is_visible, get, write, answered, applying, interactive_required,
  interaction_queued, interaction_applying, completed, failed, expired, challenge_not_found,
  state_error, timed_out,
}
use argus_web_intelligence.Captcha.Calls.{mark_failed}

-- The files in the order of their names; a damaged one is passed over.
readable : List ChallengeFile → List Challenge
readable [] = []
readable (f ∷ fs) = elim f.payload [ none ↦ readable fs | some c ↦ c ∷ readable fs ]

unfoldable pub open_challenges : Mailbox → List Challenge
unfolding readable
open_challenges m =
    keep (λ c. is_visible c.status)
      (readable (order_by (λ f g. code_point_le f.name g.name) m.challenges))

-- FileCaptchaBroker.list_pending
unfoldable pub list_pending : Broker (List PublicChallenge)
list_pending m = (ok (map public (open_challenges m)), m)

-- `str(item.get("collection_id") or "").strip() == expected`
unfoldable pub is_of : String → PublicChallenge → Bool
unfolding strip
is_of collection_id c =
    strip (elim c.collection_id [ none ↦ "" | some s ↦ s ]) == strip collection_id

-- FileCaptchaBroker.list_pending_for_collection
unfoldable pub list_pending_for_collection : String → Broker (List PublicChallenge)
list_pending_for_collection collection_id m =
    (ok (keep (is_of collection_id) (map public (open_challenges m))), m)

unfoldable pub is_answered : Status → Bool
is_answered answered = true
is_answered _ = false

-- A challenge in one of these states takes no answer as text any more.
unfoldable pub ends_text : Status → Bool
ends_text failed = true
ends_text expired = true
ends_text completed = true
ends_text interactive_required = true
ends_text _ = false

unfoldable pub is_queued : Status → Bool
is_queued interaction_queued = true
is_queued _ = false

unfoldable pub ends_interaction : Status → Bool
ends_interaction failed = true
ends_interaction expired = true
ends_interaction completed = true
ends_interaction _ = false

unfoldable pub start_applying : ℕ → Challenge → Challenge
start_applying now c = record c { answer = none; status = applying; updated_at = now }

unfoldable pub start_interaction : ℕ → Challenge → Challenge
start_interaction now c = record c {
  interaction = none;
  status = interaction_applying;
  updated_at = now;
}

-- One turn of a waiting loop: the time at which it reads the challenge, and what the API does in
-- the pause that follows.
pub record Poll : Type 0 where
  pub now : ℕ
  pub between : Mailbox → Mailbox

-- The end of a turn: a value is returned, an error raised, and else the loop goes on.
unfoldable pub next_turn :
    {A : Type 0}
    → Result CaptchaError (Option A) × Mailbox
    → Result CaptchaError A × Mailbox
    → Result CaptchaError A × Mailbox
next_turn (ok none, m) rest = rest
next_turn (ok (some a), m) rest = (ok a, m)
next_turn (err e, m) rest = (err e, m)

module _ (is_uuid : String → Bool) where
  -- FileCaptchaBroker.screenshot_path, as the content of the file
  unfoldable pub screenshot_path : String → Broker (List ℕ)
  unfolding find
  screenshot_path id = get is_uuid id >>= λ (c : Challenge). λ m.
      if c.screenshot_file == ""
      then (err challenge_not_found, m)
      else (elim (find c.screenshot_file m.screenshots) [
        | none ↦ (err challenge_not_found, m)
        | some f ↦ (ok f.content, m)
      ])

  take_answer : String → ℕ → Challenge → Option String → Broker (Option String)
  take_answer id now c none = raise state_error
  take_answer id now c (some a) =
      if a == ""
      then raise state_error
      else (write is_uuid id (start_applying now c) >> pure (some a))

  -- One turn of wait_for_answer
  unfoldable pub poll_answer : String → ℕ → Broker (Option String)
  unfolding take_answer
  poll_answer id now = get is_uuid id >>= λ (c : Challenge).
      if is_answered c.status
      then take_answer id now c c.answer
      else if ends_text c.status
      then raise state_error
      else pure none

  -- FileCaptchaBroker.wait_for_answer, over the turns before the deadline
  unfoldable pub wait_for_answer : String → List Poll → ℕ → Broker String
  wait_for_answer id [] deadline =
      mark_failed is_uuid id deadline "manual CAPTCHA input timed out" expired >> raise timed_out
  wait_for_answer id (p ∷ ps) deadline = λ m.
      let turn = poll_answer id p.now m in
      next_turn turn (wait_for_answer id ps deadline (p.between turn.1))

  take_interaction : String → ℕ → Challenge → Option Interaction → Broker (Option Interaction)
  take_interaction id now c none = raise state_error
  take_interaction id now c (some i) = write is_uuid id (start_interaction now c) >> pure (some i)

  -- One turn of wait_for_interaction
  unfoldable pub poll_interaction : String → ℕ → Broker (Option Interaction)
  unfolding take_interaction
  poll_interaction id now = get is_uuid id >>= λ (c : Challenge).
      if is_queued c.status
      then take_interaction id now c c.interaction
      else if ends_interaction c.status
      then raise state_error
      else pure none

  -- FileCaptchaBroker.wait_for_interaction, over the turns before the deadline
  unfoldable pub wait_for_interaction : String → List Poll → ℕ → Broker Interaction
  wait_for_interaction id [] deadline =
      mark_failed is_uuid id deadline "interactive CAPTCHA input timed out" expired
      >> raise timed_out
  wait_for_interaction id (p ∷ ps) deadline = λ m.
      let turn = poll_interaction id p.now m in
      next_turn turn (wait_for_interaction id ps deadline (p.between turn.1))
