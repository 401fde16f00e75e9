-- ===== src/Captcha.antt =====
-- human_interaction.py: the mailbox through which the worker that keeps a browser open and the API
-- exchange a CAPTCHA, its screenshot and the answer of a person. The state is the directory: a
-- file per challenge and one per screenshot, each replaced as a whole. `is_uuid` is the test of
-- `_validate_id`, a time is an argument.
pub mod Calls
pub mod Waiting
pub mod Consistency
pub mod Preservation
pub mod History
pub mod Delivery
pub mod Isolation
mod Examples
use argus_web_intelligence.Prelude.{
  ℕ, suc, String, Bool, true, false, ◌&&◌, ◌||◌, not, List, [], ◌∷◌, Option, none, some, String_eq,
  Nat_eq, ◌==◌, if◌then◌else◌, leb,
}
use argus_web_intelligence.Prelude.Text.{strip, clip, casefold_is}
use argus_web_intelligence.Prelude.Order.{order_by}
use argus_web_intelligence.Prelude.Collation.{code_point_le}
use argus_web_intelligence.Prelude.Action.{
  Action, Result, ok, err, pure, raise, ◌>>=◌, ◌>>◌, continue,
}
use argus_web_intelligence.Sql.{PrimaryKey, find, insert_or_replace}
use argus_web_intelligence.Contracts.{Coordinate, pos, negsuc}
use Prim.Native.String.{◌++◌ as append}

pub data Status : Type 0 where
  pending answered applying : Status
  interactive_required interaction_queued interaction_applying : Status
  completed failed expired : Status

-- FileCaptchaBroker.visible_statuses
unfoldable pub is_visible : Status → Bool
is_visible completed = false
is_visible failed = false
is_visible expired = false
is_visible _ = true

-- The dictionary that submit_interaction stores.
pub data Interaction : Type 0 where
  click : Coordinate → Coordinate → Interaction
  refresh : Interaction

-- The payload of a challenge's file.
pub record Challenge : Type 0 where
  pub challenge_id : String
  pub collection_id : Option String
  pub analysis_id : Option String
  pub source_id : Option String
  pub url : String
  pub kind : String
  pub prompt : String
  pub status : Status
  pub created_at : ℕ
  pub updated_at : ℕ
  pub input_selector : Option String
  pub screenshot_file : String
  pub answer : Option String
  pub interaction : Option Interaction
  pub interaction_count : ℕ
  pub error : Option String

-- A file that other programs may have damaged: `none` is a text that is no JSON.
pub record ChallengeFile : Type 0 where
  pub name : String
  pub payload : Option Challenge

pub record ScreenshotFile : Type 0 where
  pub name : String
  pub content : List ℕ

instance abbrev pub ChallengeFile_key : PrimaryKey ChallengeFile
ChallengeFile_key = record { key_of = λ f. f.name }

instance abbrev pub ScreenshotFile_key : PrimaryKey ScreenshotFile
ScreenshotFile_key = record { key_of = λ f. f.name }

pub record Mailbox : Type 0 where
  pub challenges : List ChallengeFile
  pub screenshots : List ScreenshotFile

pub data CaptchaError : Type 0 where
  challenge_not_found : CaptchaError
  state_error : CaptchaError
  value_error : CaptchaError
  timed_out : CaptchaError

abbrev pub Broker : Type 0 → Type 0
Broker A = Action Mailbox CaptchaError A

-- What `public` shows of a challenge: neither the answer nor a selector nor a path.
pub record PublicChallenge : Type 0 where
  pub challenge_id : String
  pub collection_id : Option String
  pub analysis_id : Option String
  pub source_id : Option String
  pub url : String
  pub kind : String
  pub prompt : String
  pub status : Status
  pub created_at : ℕ
  pub updated_at : ℕ
  pub has_screenshot : Bool
  pub manual_input_supported : Bool
  pub interactive_required : Bool
  pub interactive_input_supported : Bool
  pub interaction_count : ℕ
  pub error : Option String

-- FileCaptchaBroker.public
unfoldable pub public : Challenge → PublicChallenge
unfolding is_visible
public c = record {
  challenge_id = c.challenge_id;
  collection_id = c.collection_id;
  analysis_id = c.analysis_id;
  source_id = c.source_id;
  url = c.url;
  kind = c.kind;
  prompt = c.prompt;
  status = c.status;
  created_at = c.created_at;
  updated_at = c.updated_at;
  has_screenshot = not (c.screenshot_file == "");
  manual_input_supported = c.kind == "text";
  interactive_required = c.kind == "interactive" && is_visible c.status;
  interactive_input_supported = c.kind == "interactive";
  interaction_count = c.interaction_count;
  error = c.error;
}

-- `str(x or "").strip() or None`
unfoldable pub clean : Option String → Option String
unfolding strip
clean none = none
clean (some s) = let t = strip s in if t == "" then none else some t

file_payload : String → Option ChallengeFile → Broker Challenge
file_payload id none m = (err challenge_not_found, m)
file_payload id (some f) m = elim f.payload [ none ↦ (err state_error, m) | some c ↦ (ok c, m) ]

module _ (is_uuid : String → Bool) where
  -- FileCaptchaBroker.get, with `_state_path` and `_validate_id`
  unfoldable pub get : String → Broker Challenge
  unfolding file_payload
  get id m =
      if is_uuid id
      then file_payload id (find (append id ".json") m.challenges) m
      else (err challenge_not_found, m)

  -- FileCaptchaBroker._write
  unfoldable pub write : String → Challenge → Broker (Unit {0})
  unfolding insert_or_replace
  write id c m =
      let new : ChallengeFile = record { name = append id ".json"; payload = some c } in
      if is_uuid id
      then (ok tt, record m { challenges = insert_or_replace new m.challenges })
      else (err challenge_not_found, m)
