-- ===== src/Captcha/Calls.antt =====
-- human_interaction.py: the calls that read a challenge, change it, and write it back.
use argus_web_intelligence.Prelude.{
  ℕ, ◌+◌, String, Bool, true, false, ◌&&◌, ◌||◌, not, List, Option, none, some, String_eq, Nat_eq,
  ◌==◌, if◌then◌else◌, leb,
}
use argus_web_intelligence.Prelude.Text.{strip, clip, casefold_is}
use argus_web_intelligence.Prelude.Action.{Result, ok, err, pure, raise, ◌>>=◌, ◌>>◌}
use argus_web_intelligence.Sql.{insert_or_replace}
use argus_web_intelligence.Contracts.{Coordinate, pos, negsuc}
use argus_web_intelligence.Captcha.{
  Status, Interaction, Challenge, ChallengeFile_key, ScreenshotFile, ScreenshotFile_key,
  CaptchaError, Broker, PublicChallenge, public, clean, get, write, pending, answered,
  interactive_required, interaction_queued, completed, click, refresh, challenge_not_found,
  state_error, value_error,
}
use Prim.Native.String.{◌++◌ as append}

unfoldable pub is_pending : Status → Bool
is_pending pending = true
is_pending _ = false

unfoldable pub is_interactive_required : Status → Bool
is_interactive_required interactive_required = true
is_interactive_required _ = false

-- A coordinate is a number of 10⁻⁷: `0.0 <= x <= 1.0`.
unfoldable pub is_normalized : Coordinate → Bool
is_normalized (pos n) = leb n 10_000_000
is_normalized (negsuc n) = false

click_at : Option Coordinate → Option Coordinate → Result CaptchaError Interaction
unfolding is_normalized
click_at none y = err value_error
click_at (some x) none = err value_error
click_at (some x) (some y) =
    if is_normalized x && is_normalized y then ok (click x y) else err value_error

-- The checks of submit_interaction on what the person sent.
unfoldable pub read_interaction :
    String → Option Coordinate → Option Coordinate → Result CaptchaError Interaction
unfolding strip casefold_is click_at
read_interaction action x_ratio y_ratio =
    let action' = strip action in
    if casefold_is action' "click"
    then click_at x_ratio y_ratio
    else if casefold_is action' "refresh"
    then ok refresh
    else err value_error

-- The payload that create writes.
pub record Creation : Type 0 where
  pub url : String
  pub screenshot : List ℕ
  pub kind : String
  pub prompt : String
  pub input_selector : Option String
  pub collection_id : Option String
  pub analysis_id : Option String
  pub source_id : Option String

unfoldable pub new_challenge : String → ℕ → Creation → Challenge
unfolding clean
new_challenge id now k = record {
  challenge_id = id;
  collection_id = clean k.collection_id;
  analysis_id = clean k.analysis_id;
  source_id = clean k.source_id;
  url = k.url;
  kind = k.kind;
  prompt = k.prompt;
  status = pending;
  created_at = now;
  updated_at = now;
  input_selector = k.input_selector;
  screenshot_file = append id ".png";
  answer = none;
  interaction = none;
  interaction_count = 0;
  error = none;
}

unfoldable pub answer_with : String → ℕ → Challenge → Challenge
answer_with answer now c = record c { answer = some answer; status = answered; updated_at = now }

unfoldable pub queue_with : Interaction → ℕ → Challenge → Challenge
queue_with interaction now c = record c {
  interaction = some interaction;
  interaction_count = c.interaction_count + 1;
  status = interaction_queued;
  error = none;
  updated_at = now;
}

unfoldable pub require_interaction : Option String → ℕ → Challenge → Challenge
unfolding clip
require_interaction error now c = record c {
  answer = none;
  interaction = none;
  status = interactive_required;
  error = elim error [ none ↦ none | some e ↦ if e == "" then none else some (clip 500 e) ];
  updated_at = now;
}

unfoldable pub show_again : ℕ → Challenge → Challenge
show_again now c = record c {
  interaction = none;
  status = interactive_required;
  error = none;
  updated_at = now;
}

unfoldable pub complete : ℕ → Challenge → Challenge
complete now c = record c {
  answer = none;
  interaction = none;
  status = completed;
  updated_at = now;
}

unfoldable pub fail_with : String → Status → ℕ → Challenge → Challenge
unfolding clip
fail_with error status now c = record c {
  answer = none;
  interaction = none;
  status = status;
  error = some (clip 500 error);
  updated_at = now;
}

module _ (is_uuid : String → Bool) where
  -- _atomic_bytes of the file that _screenshot_path names
  unfoldable pub put_screenshot : String → List ℕ → Broker (Unit {0})
  unfolding insert_or_replace
  put_screenshot id content m =
      let new : ScreenshotFile = record { name = append id ".png"; content = content } in
      if is_uuid id
      then (ok tt, record m { screenshots = insert_or_replace new m.screenshots })
      else (err challenge_not_found, m)

  -- FileCaptchaBroker.create, for the identifier that uuid4 gave
  unfoldable pub create : String → ℕ → Creation → Broker PublicChallenge
  unfolding get write
  create id now k = do
    put_screenshot id k.screenshot
    write is_uuid id (new_challenge id now k)
    pure (public (new_challenge id now k))

  -- FileCaptchaBroker.assert_collection
  unfoldable pub assert_collection : String → String → Broker Challenge
  unfolding strip
  assert_collection id collection_id = get is_uuid id >>= λ (c : Challenge). λ m.
      let actual = strip (elim c.collection_id [ none ↦ "" | some s ↦ s ]) in
      if actual == "" || not (actual == strip collection_id)
      then (err challenge_not_found, m)
      else (ok c, m)

  -- FileCaptchaBroker.submit_answer
  unfoldable pub submit_answer : String → ℕ → String → Broker PublicChallenge
  unfolding strip
  submit_answer id now text m =
      let answer = strip text in
      if answer == ""
      then (err value_error, m)
      else (get is_uuid id >>= λ (c : Challenge).
            if not (c.kind == "text") || not (is_pending c.status)
            then raise state_error
            else (write is_uuid id (answer_with answer now c)
                >> pure (public (answer_with answer now c))))
          m

  -- FileCaptchaBroker.mark_interactive_required
  unfoldable pub mark_interactive_required : String → ℕ → Option String → Broker (Unit {0})
  mark_interactive_required id now error = get is_uuid id >>= λ (c : Challenge).
      if not (c.kind == "interactive")
      then raise state_error
      else write is_uuid id (require_interaction error now c)

  unfoldable pub queue_interaction :
      String → ℕ → Challenge → Result CaptchaError Interaction → Broker PublicChallenge
  queue_interaction id now c (err e) = raise e
  queue_interaction id now c (ok i) =
      write is_uuid id (queue_with i now c) >> pure (public (queue_with i now c))

  -- FileCaptchaBroker.submit_interaction
  unfoldable pub submit_interaction :
      String → ℕ → String → Option Coordinate → Option Coordinate → Broker PublicChallenge
  unfolding queue_interaction
  submit_interaction id now action x_ratio y_ratio = get is_uuid id >>= λ (c : Challenge).
      if not (c.kind == "interactive") || not (is_interactive_required c.status)
      then raise state_error
      else queue_interaction id now c (read_interaction action x_ratio y_ratio)

  -- FileCaptchaBroker.update_interactive_screenshot
  unfoldable pub update_interactive_screenshot : String → ℕ → List ℕ → Broker (Unit {0})
  update_interactive_screenshot id now screenshot = get is_uuid id >>= λ (c : Challenge).
      if not (c.kind == "interactive")
      then raise state_error
      else (put_screenshot id screenshot >> write is_uuid id (show_again now c))

  -- FileCaptchaBroker.mark_completed
  unfoldable pub mark_completed : String → ℕ → Broker (Unit {0})
  mark_completed id now = get is_uuid id >>= λ (c : Challenge). write is_uuid id (complete now c)

  -- FileCaptchaBroker.mark_failed
  unfoldable pub mark_failed : String → ℕ → String → Status → Broker (Unit {0})
  mark_failed id now error status =
      get is_uuid id >>= λ (c : Challenge). write is_uuid id (fail_with error status now c)
