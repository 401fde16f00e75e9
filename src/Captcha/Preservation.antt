-- ===== src/Captcha/Preservation.antt =====
-- human_interaction.py: each call keeps the files of the directory consistent.
use argus_web_intelligence.Prelude.{
  ℕ, String, Bool, true, false, not, List, Option, String_eq, ◌==◌, ◌≡◌, ◌≢◌, arith, eq_iff,
  Option-cases, Bool-cases, inl, inr, ◌⊎◌, subst, ◌||◌,
}
use argus_web_intelligence.Prelude.Text.{strip}
use argus_web_intelligence.Prelude.Action.{Result, ok, err, ◌>>=◌, ◌>>◌, pure}
use argus_web_intelligence.Contracts.{Coordinate}
use argus_web_intelligence.Sql.{find}
use argus_web_intelligence.Sql.Laws.{All-insert_or_replace, All-find}
use mathlib.Core.Option.{some-injective}
use Prim.Native.String.{◌++◌ as append}
use argus_web_intelligence.Captcha
use argus_web_intelligence.Captcha.{
  Status, Interaction, Challenge, ChallengeFile, ChallengeFile_key, Mailbox, Broker, CaptchaError,
  get, write, failed, expired,
}
use argus_web_intelligence.Captcha.Calls.{
  Creation, create, submit_answer, mark_interactive_required, submit_interaction,
  update_interactive_screenshot, mark_completed, mark_failed, queue_with, put_screenshot,
  is_pending, is_interactive_required, read_interaction, queue_interaction,
}
use argus_web_intelligence.Captcha.Waiting.{
  poll_answer, poll_interaction, start_applying, start_interaction, is_answered, is_queued,
  ends_text, ends_interaction,
}
use argus_web_intelligence.Captcha.Consistency.{
  IsConsistent, FileIsConsistent, AllConsistent, answered-Holds, queued-Holds, ending,
  answer_with-IsConsistent, queue_with-IsConsistent, show_again-IsConsistent,
  start_applying-IsConsistent, start_interaction-IsConsistent, new_challenge-IsConsistent,
  require_interaction-IsConsistent, complete-IsConsistent, fail_with-IsConsistent,
}

not_empty : (t : String) → t ≢ "" → (t == "") ≡ false
not_empty t h = ground (arith, eq_iff t "")

module _ (is_uuid : String → Bool) where
  -- What reading a challenge may give, in a consistent directory.
  pub get_cases :
      (id : String) (m : Mailbox)
      → AllConsistent m
      → ((e : Captcha.CaptchaError) × (get is_uuid id m ≡ (err e, m)))
        ⊎ ((c : Challenge) × (get is_uuid id m ≡ (ok c, m)) × (is_uuid id ≡ true) × IsConsistent c)
  unfolding get FileIsConsistent
  get_cases id m h = elim (Bool-cases (is_uuid id)) [
    | inr bad ↦ inl (Captcha.challenge_not_found, ground (arith, bad))
    | inl good ↦ elim (Option-cases (find (append id ".json") m.challenges)) [
      | inl e ↦ inl (Captcha.challenge_not_found, ground (arith, good, e))
      | inr (f, e) ↦ elim (Option-cases f.payload) [
        | inl d ↦ inl (Captcha.state_error, ground (arith, good, e, d))
        | inr (c, p) ↦ inr (
          c,
          ground (arith, good, e, p),
          good,
          All-find FileIsConsistent (append id ".json") m.challenges f h e c p,
        )
      ]
    ]
  ]

  pub write-AllConsistent :
      (id : String) (c : Challenge) (m : Mailbox)
      → IsConsistent c
      → AllConsistent m
      → AllConsistent (write is_uuid id c m).1
  unfolding write FileIsConsistent
  write-AllConsistent id c m k h = elim (Bool-cases (is_uuid id)) [
    | inr bad ↦ rw bad h
    | inl good ↦ rw good (
        All-insert_or_replace FileIsConsistent _ m.challenges
          (λ d e. subst IsConsistent (some-injective c d e) k) h)
  ]

  -- A call that reads a challenge first keeps the directory consistent if the rest of it does.
  get-AllConsistent :
      {A : Type 0} (id : String) (m : Mailbox) (rest : Challenge → Broker A)
      → AllConsistent m
      → ((c : Challenge) → IsConsistent c → AllConsistent (rest c m).1)
      → AllConsistent ((get is_uuid id >>= rest) m).1
  get-AllConsistent id m rest h keeps = elim (get_cases id m h) [
    | inl (e, g) ↦ rw g h
    | inr (c, g, _, k) ↦ rw g (keeps c k)
  ]

  -- The same for what writes and then answers.
  write_then-AllConsistent :
      {A : Type 0} (id : String) (c : Challenge) (a : A) (m : Mailbox)
      → IsConsistent c
      → AllConsistent m
      → AllConsistent ((write is_uuid id c >> pure a) m).1
  unfolding write
  write_then-AllConsistent id c a m k h = ground (arith, write-AllConsistent id c m k h)

  pub submit_answer-AllConsistent :
      (id : String) (now : ℕ) (text : String) (m : Mailbox)
      → AllConsistent m
      → AllConsistent (submit_answer is_uuid id now text m).1
  unfolding submit_answer
  submit_answer-AllConsistent id now text m h = elim (Bool-cases (strip text == "")) [
    | inl blank ↦ rw blank h
    | inr full ↦ rw full (
        get-AllConsistent id m _ h (λ c k.
          elim (Bool-cases (not (c.kind == "text") || not (is_pending c.status))) [
            | inl refused ↦ rw refused h
            | inr free ↦ rw free (
                write_then-AllConsistent id _ _ m
                  (answer_with-IsConsistent (strip text) now c k
                    (ground (arith, eq_iff c.kind "text")) (ground arith)
                    (ground (arith, full, eq_iff (strip text) "")))
                  h)
          ]))
  ]

  pub mark_interactive_required-AllConsistent :
      (id : String) (now : ℕ) (error : Option String) (m : Mailbox)
      → AllConsistent m
      → AllConsistent (mark_interactive_required is_uuid id now error m).1
  unfolding mark_interactive_required
  mark_interactive_required-AllConsistent id now error m h = get-AllConsistent id m _ h (λ c k.
      elim (Bool-cases (not (c.kind == "interactive"))) [
        | inl refused ↦ rw refused h
        | inr free ↦
            rw free (write-AllConsistent id _ m (require_interaction-IsConsistent error now c) h)
      ])

  queue_interaction-AllConsistent :
      (id : String) (now : ℕ) (c : Challenge) (r : Result CaptchaError Interaction) (m : Mailbox)
      → ((i : Interaction) → IsConsistent (queue_with i now c))
      → AllConsistent m
      → AllConsistent (queue_interaction is_uuid id now c r m).1
  unfolding queue_interaction
  queue_interaction-AllConsistent id now c (err e) m k h = h
  queue_interaction-AllConsistent id now c (ok i) m k h = write_then-AllConsistent id _ _ m (k i) h

  pub submit_interaction-AllConsistent :
      (id : String) (now : ℕ) (action : String) (x y : Option Coordinate) (m : Mailbox)
      → AllConsistent m
      → AllConsistent (submit_interaction is_uuid id now action x y m).1
  unfolding submit_interaction
  submit_interaction-AllConsistent id now action x y m h = get-AllConsistent id m _ h (λ c k.
      elim (Bool-cases (not (c.kind == "interactive") || not (is_interactive_required c.status))) [
        | inl refused ↦ rw refused h
        | inr free ↦ rw free (
            queue_interaction-AllConsistent id now c (read_interaction action x y) m
              (λ i. queue_with-IsConsistent i now c k (ground arith)) h)
      ])

  pub update_interactive_screenshot-AllConsistent :
      (id : String) (now : ℕ) (screenshot : List ℕ) (m : Mailbox)
      → AllConsistent m
      → AllConsistent (update_interactive_screenshot is_uuid id now screenshot m).1
  unfolding update_interactive_screenshot put_screenshot
  update_interactive_screenshot-AllConsistent id now screenshot m h =
      elim (Bool-cases (is_uuid id)) [
        | inr bad ↦ get-AllConsistent id m _ h (λ c k.
            elim (Bool-cases (not (c.kind == "interactive"))) [
              | inl refused ↦ rw refused h
              | inr free ↦ rw (free, bad) h
            ])
        | inl good ↦ get-AllConsistent id m _ h (λ c k.
            elim (Bool-cases (not (c.kind == "interactive"))) [
              | inl refused ↦ rw refused h
              | inr free ↦
                  rw (free, good)
                    (write-AllConsistent id _ _
                      (show_again-IsConsistent now c k
                        (ground (arith, eq_iff c.kind "interactive")))
                      h)
            ])
      ]

  pub create-AllConsistent :
      (id : String) (now : ℕ) (k : Creation) (m : Mailbox)
      → AllConsistent m
      → AllConsistent (create is_uuid id now k m).1
  unfolding create put_screenshot
  create-AllConsistent id now k m h = elim (Bool-cases (is_uuid id)) [
    | inr bad ↦ rw bad h
    | inl good ↦ rw good (write_then-AllConsistent id _ _ _ (new_challenge-IsConsistent id now k) h)
  ]

  pub poll_answer-AllConsistent :
      (id : String) (now : ℕ) (m : Mailbox)
      → AllConsistent m
      → AllConsistent (poll_answer is_uuid id now m).1
  unfolding poll_answer start_applying
  poll_answer-AllConsistent id now m h = get-AllConsistent id m _ h (λ c k.
      elim (Bool-cases (is_answered c.status)) [
        | inl now_answered ↦
            let ((t, e, full), _) =
              answered-Holds c.status c.kind c.answer c.interaction now_answered k in
            rw (now_answered, e, not_empty t full)
              (write_then-AllConsistent id _ _ m (start_applying-IsConsistent now c k now_answered)
                h)
        | inr waiting ↦ rw waiting (elim (Bool-cases (ends_text c.status)) [
          | inl over ↦ rw over h
          | inr early ↦ rw early h
        ])
      ])

  pub poll_interaction-AllConsistent :
      (id : String) (now : ℕ) (m : Mailbox)
      → AllConsistent m
      → AllConsistent (poll_interaction is_uuid id now m).1
  unfolding poll_interaction start_interaction
  poll_interaction-AllConsistent id now m h = get-AllConsistent id m _ h (λ c k.
      elim (Bool-cases (is_queued c.status)) [
        | inl queued ↦
            let (_, (i, e)) = queued-Holds c.status c.kind c.answer c.interaction queued k in
            rw (queued, e)
              (write_then-AllConsistent id _ _ m (start_interaction-IsConsistent now c k queued) h)
        | inr waiting ↦ rw waiting (elim (Bool-cases (ends_interaction c.status)) [
          | inl over ↦ rw over h
          | inr early ↦ rw early h
        ])
      ])

  pub mark_completed-AllConsistent :
      (id : String) (now : ℕ) (m : Mailbox)
      → AllConsistent m
      → AllConsistent (mark_completed is_uuid id now m).1
  unfolding mark_completed
  mark_completed-AllConsistent id now m h =
      get-AllConsistent id m _ h (λ c k. write-AllConsistent id _ m (complete-IsConsistent now c) h)

  pub mark_failed-AllConsistent :
      (id : String) (now : ℕ) (error : String) (late : Bool) (m : Mailbox)
      → AllConsistent m
      → AllConsistent (mark_failed is_uuid id now error (ending late) m).1
  unfolding mark_failed
  mark_failed-AllConsistent id now error late m h =
      get-AllConsistent id m _ h
        (λ c k. write-AllConsistent id _ m (fail_with-IsConsistent error late now c) h)
