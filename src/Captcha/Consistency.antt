-- ===== src/Captcha/Consistency.antt =====
-- human_interaction.py: what the fields of a challenge's file say about each other, whatever the API
-- and the worker call, in any order.
use argus_web_intelligence.Prelude.{
  ℕ, String, Bool, true, false, Option, none, some, String_eq, if◌then◌else◌, ◌≡◌, ◌≢◌, refl, arith,
  eq_iff, All,
}
use argus_web_intelligence.Captcha
use argus_web_intelligence.Captcha.{
  Status, Interaction, Challenge, ChallengeFile, ChallengeFile_key, Mailbox, get, write, answered,
  interaction_queued, failed, expired,
}
use argus_web_intelligence.Captcha.Calls.{
  Creation, new_challenge, answer_with, queue_with, require_interaction, show_again, complete,
  fail_with, is_pending, is_interactive_required,
}
use argus_web_intelligence.Captcha.Waiting.{
  start_applying, start_interaction, is_answered, is_queued,
}

-- The file holds an answer, which is not empty, just while the status is `answered`, and then the
-- challenge takes text; it holds an interaction just while one is queued.
pub Holds : Status → String → Option String → Option Interaction → Type 0
Holds answered kind a i = ((t : String) × (a ≡ some t) × (t ≢ "")) × (i ≡ none) × (kind ≡ "text")
Holds interaction_queued kind a i = (a ≡ none) × ((x : Interaction) × (i ≡ some x))
Holds _ kind a i = (a ≡ none) × (i ≡ none)

abbrev pub IsConsistent : Challenge → Type 0
IsConsistent c = Holds c.status c.kind c.answer c.interaction

unfoldable pub FileIsConsistent : ChallengeFile → Type 0
FileIsConsistent f = (c : Challenge) → f.payload ≡ some c → IsConsistent c

abbrev pub AllConsistent : Mailbox → Type 0
AllConsistent m = All FileIsConsistent m.challenges

pending-Holds :
    (s : Status) (kind : String) (a : Option String) (i : Option Interaction)
    → is_pending s ≡ true
    → Holds s kind a i
    → (a ≡ none) × (i ≡ none)
unfolding is_pending Holds
pending-Holds Captcha.pending kind a i e h = h
pending-Holds Captcha.answered kind a i e h = cc
pending-Holds Captcha.applying kind a i e h = cc
pending-Holds Captcha.interactive_required kind a i e h = cc
pending-Holds Captcha.interaction_queued kind a i e h = cc
pending-Holds Captcha.interaction_applying kind a i e h = cc
pending-Holds Captcha.completed kind a i e h = cc
pending-Holds Captcha.failed kind a i e h = cc
pending-Holds Captcha.expired kind a i e h = cc

required-Holds :
    (s : Status) (kind : String) (a : Option String) (i : Option Interaction)
    → is_interactive_required s ≡ true
    → Holds s kind a i
    → (a ≡ none) × (i ≡ none)
unfolding is_interactive_required Holds
required-Holds Captcha.interactive_required kind a i e h = h
required-Holds Captcha.pending kind a i e h = cc
required-Holds Captcha.answered kind a i e h = cc
required-Holds Captcha.applying kind a i e h = cc
required-Holds Captcha.interaction_queued kind a i e h = cc
required-Holds Captcha.interaction_applying kind a i e h = cc
required-Holds Captcha.completed kind a i e h = cc
required-Holds Captcha.failed kind a i e h = cc
required-Holds Captcha.expired kind a i e h = cc

-- A challenge for the browser holds no text.
interactive-Holds :
    (s : Status) (kind : String) (a : Option String) (i : Option Interaction)
    → kind ≡ "interactive"
    → Holds s kind a i
    → a ≡ none
unfolding Holds
interactive-Holds Captcha.answered kind a i e h =
    absurd (ground (arith, h.2, e, eq_iff "text" "interactive"))
interactive-Holds Captcha.pending kind a i e h = h.0
interactive-Holds Captcha.applying kind a i e h = h.0
interactive-Holds Captcha.interactive_required kind a i e h = h.0
interactive-Holds Captcha.interaction_queued kind a i e h = h.0
interactive-Holds Captcha.interaction_applying kind a i e h = h.0
interactive-Holds Captcha.completed kind a i e h = h.0
interactive-Holds Captcha.failed kind a i e h = h.0
interactive-Holds Captcha.expired kind a i e h = h.0

pub answered-Holds :
    (s : Status) (kind : String) (a : Option String) (i : Option Interaction)
    → is_answered s ≡ true
    → Holds s kind a i
    → ((t : String) × (a ≡ some t) × (t ≢ "")) × (i ≡ none)
unfolding is_answered Holds
answered-Holds Captcha.answered kind a i e h = (h.0, h.1)
answered-Holds Captcha.pending kind a i e h = cc
answered-Holds Captcha.applying kind a i e h = cc
answered-Holds Captcha.interactive_required kind a i e h = cc
answered-Holds Captcha.interaction_queued kind a i e h = cc
answered-Holds Captcha.interaction_applying kind a i e h = cc
answered-Holds Captcha.completed kind a i e h = cc
answered-Holds Captcha.failed kind a i e h = cc
answered-Holds Captcha.expired kind a i e h = cc

pub queued-Holds :
    (s : Status) (kind : String) (a : Option String) (i : Option Interaction)
    → is_queued s ≡ true
    → Holds s kind a i
    → (a ≡ none) × ((x : Interaction) × (i ≡ some x))
unfolding is_queued Holds
queued-Holds Captcha.interaction_queued kind a i e h = h
queued-Holds Captcha.pending kind a i e h = cc
queued-Holds Captcha.answered kind a i e h = cc
queued-Holds Captcha.applying kind a i e h = cc
queued-Holds Captcha.interactive_required kind a i e h = cc
queued-Holds Captcha.interaction_applying kind a i e h = cc
queued-Holds Captcha.completed kind a i e h = cc
queued-Holds Captcha.failed kind a i e h = cc
queued-Holds Captcha.expired kind a i e h = cc

pub answer_with-IsConsistent :
    (answer : String) (now : ℕ) (c : Challenge)
    → IsConsistent c
    → c.kind ≡ "text"
    → is_pending c.status ≡ true
    → answer ≢ ""
    → IsConsistent (answer_with answer now c)
unfolding answer_with Holds
answer_with-IsConsistent answer now c h text free full =
    ((answer, refl, full), (pending-Holds c.status c.kind c.answer c.interaction free h).1, text)

pub queue_with-IsConsistent :
    (i : Interaction) (now : ℕ) (c : Challenge)
    → IsConsistent c
    → is_interactive_required c.status ≡ true
    → IsConsistent (queue_with i now c)
unfolding queue_with Holds
queue_with-IsConsistent i now c h free =
    ((required-Holds c.status c.kind c.answer c.interaction free h).0, (i, refl))

pub show_again-IsConsistent :
    (now : ℕ) (c : Challenge)
    → IsConsistent c
    → c.kind ≡ "interactive"
    → IsConsistent (show_again now c)
unfolding show_again Holds
show_again-IsConsistent now c h interactive =
    (interactive-Holds c.status c.kind c.answer c.interaction interactive h, refl)

pub start_applying-IsConsistent :
    (now : ℕ) (c : Challenge)
    → IsConsistent c
    → is_answered c.status ≡ true
    → IsConsistent (start_applying now c)
unfolding start_applying Holds
start_applying-IsConsistent now c h now_answered =
    (refl, (answered-Holds c.status c.kind c.answer c.interaction now_answered h).1)

pub start_interaction-IsConsistent :
    (now : ℕ) (c : Challenge)
    → IsConsistent c
    → is_queued c.status ≡ true
    → IsConsistent (start_interaction now c)
unfolding start_interaction Holds
start_interaction-IsConsistent now c h queued =
    ((queued-Holds c.status c.kind c.answer c.interaction queued h).0, refl)

-- These start afresh.
pub new_challenge-IsConsistent :
    (id : String) (now : ℕ) (k : Creation) → IsConsistent (new_challenge id now k)
unfolding new_challenge Holds
new_challenge-IsConsistent id now k = (refl, refl)

pub require_interaction-IsConsistent :
    (error : Option String) (now : ℕ) (c : Challenge)
    → IsConsistent (require_interaction error now c)
unfolding require_interaction Holds
require_interaction-IsConsistent error now c = (refl, refl)

pub complete-IsConsistent : (now : ℕ) (c : Challenge) → IsConsistent (complete now c)
unfolding complete Holds
complete-IsConsistent now c = (refl, refl)

-- The states with which the code marks a failure.
unfoldable pub ending : Bool → Status
ending timed_out = if timed_out then expired else failed

pub fail_with-IsConsistent :
    (error : String) (timed_out : Bool) (now : ℕ) (c : Challenge)
    → IsConsistent (fail_with error (ending timed_out) now c)
unfolding fail_with Holds ending
fail_with-IsConsistent error true now c = (refl, refl)
fail_with-IsConsistent error false now c = (refl, refl)
