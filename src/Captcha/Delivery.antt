-- ===== src/Captcha/Delivery.antt =====
-- human_interaction.py: the answer of a person reaches the worker that waits for it, once.
use argus_web_intelligence.Prelude.{
  ℕ, String, Bool, true, false, List, [], ◌∷◌, ◌++◌, none, some, String_eq, ◌≡◌, ◌≢◌, refl, arith,
  eq_iff, All, ◌∙◌,
}
use argus_web_intelligence.Prelude.Text.{strip, clip}
use argus_web_intelligence.Prelude.Action.{ok, err}
use argus_web_intelligence.Sql.Laws.{find-insert_or_replace_self}
use argus_web_intelligence.Captcha
use argus_web_intelligence.Captcha.{
  Status, Challenge, ChallengeFile, ChallengeFile_key, Mailbox, get, write, pending, applying,
  expired, state_error, timed_out,
}
use argus_web_intelligence.Captcha.Calls.{
  submit_answer, answer_with, is_pending, mark_failed, fail_with,
}
use argus_web_intelligence.Captcha.Waiting.{
  Poll, poll_answer, wait_for_answer, next_turn, start_applying, is_answered, ends_text,
}
use Prim.Native.String.{◌++◌ as append}

pending-waits : (s : Status) → is_pending s ≡ true → (is_answered s ≡ false) × (ends_text s ≡ false)
unfolding is_pending is_answered ends_text
pending-waits Captcha.pending e = (refl, refl)
pending-waits Captcha.answered e = cc
pending-waits Captcha.applying e = cc
pending-waits Captcha.interactive_required e = cc
pending-waits Captcha.interaction_queued e = cc
pending-waits Captcha.interaction_applying e = cc
pending-waits Captcha.completed e = cc
pending-waits Captcha.failed e = cc
pending-waits Captcha.expired e = cc

module _ (is_uuid : String → Bool) (id : String) where
  -- A challenge that is there and readable.
  abbrev pub Reads : Mailbox → Challenge → Type 0
  Reads m c = get is_uuid id m ≡ (ok c, m)

  Reads-valid : (m : Mailbox) (c : Challenge) → Reads m c → is_uuid id ≡ true
  unfolding get
  Reads-valid m c r = ground arith

  -- What is written is read.
  pub Reads-write :
      (m : Mailbox) (c : Challenge) → is_uuid id ≡ true → Reads (write is_uuid id c m).1 c
  unfolding get write
  Reads-write m c valid =
      let new : ChallengeFile = record { name = append id ".json"; payload = some c } in
      ground (arith, valid, find-insert_or_replace_self new m.challenges)

  -- A turn on a challenge that waits for its answer changes nothing.
  poll_answer-pending :
      (now : ℕ) (m : Mailbox) (c : Challenge)
      → Reads m c
      → is_pending c.status ≡ true
      → poll_answer is_uuid id now m ≡ (ok none, m)
  unfolding poll_answer
  poll_answer-pending now m c r e = let (a, b) = pending-waits c.status e in ground (arith, r, a, b)

  -- The turns at which nothing happens to the directory.
  abbrev pub Quiet : Mailbox → Poll → Type 0
  Quiet m p = p.between m ≡ m

  wait_for_answer-Quiet :
      (ps qs : List Poll) (deadline : ℕ) (m : Mailbox) (c : Challenge)
      → Reads m c
      → is_pending c.status ≡ true
      → All (Quiet m) ps
      → wait_for_answer is_uuid id (ps ++ qs) deadline m ≡ wait_for_answer is_uuid id qs deadline m
  unfolding wait_for_answer next_turn
  wait_for_answer-Quiet [] qs deadline m c r e quiet = refl
  wait_for_answer-Quiet (p ∷ ps) qs deadline m c r e (q, quiet) =
      rw (poll_answer-pending p.now m c r e, q) (wait_for_answer-Quiet ps qs deadline m c r e quiet)

  submit_answer-free :
      (sent : ℕ) (text : String) (m : Mailbox) (c : Challenge)
      → Reads m c
      → is_pending c.status ≡ true
      → c.kind ≡ "text"
      → strip text ≢ ""
      → (submit_answer is_uuid id sent text m).1
        ≡ (write is_uuid id (answer_with (strip text) sent c) m).1
  unfolding submit_answer write
  submit_answer-free sent text m c r e kind full =
      ground (arith, r, Reads-valid m c r, eq_iff (strip text) "", eq_iff c.kind "text")

  poll_answer-answered :
      (now : ℕ) (text : String) (m : Mailbox) (c : Challenge)
      → Reads m c
      → is_answered c.status ≡ true
      → c.answer ≡ some text
      → text ≢ ""
      → poll_answer is_uuid id now m
        ≡ (ok (some text), (write is_uuid id (start_applying now c) m).1)
  unfolding poll_answer write start_applying
  poll_answer-answered now text m c r e a full =
      ground (arith, r, Reads-valid m c r, eq_iff text "")

  -- While the worker waits for the text of a pending challenge, with any number of turns at which
  -- nothing happens, and a person then sends an answer that is not blank, the next turn returns the
  -- answer, stripped; the file then holds it no more and says that it is being applied.
  pub wait_for_answer_delivers :
      (ps qs : List Poll) (p q : Poll) (deadline sent : ℕ) (text : String) (m : Mailbox)
      (c : Challenge)
      → Reads m c
      → is_pending c.status ≡ true
      → c.kind ≡ "text"
      → strip text ≢ ""
      → All (Quiet m) ps
      → p.between m ≡ (submit_answer is_uuid id sent text m).1
      → ((wait_for_answer is_uuid id (ps ++ p ∷ q ∷ qs) deadline m).0 ≡ ok (strip text))
        × Reads
            (wait_for_answer is_uuid id (ps ++ p ∷ q ∷ qs) deadline m).1
            (record c { answer = none; status = applying; updated_at = q.now })
  unfolding wait_for_answer next_turn is_answered answer_with start_applying
  wait_for_answer_delivers ps qs p q deadline sent text m c r e kind full quiet sends =
      let answered = (write is_uuid id (answer_with (strip text) sent c) m).1 in
      let valid = Reads-valid m c r in
      rw
        (
          wait_for_answer-Quiet ps (p ∷ q ∷ qs) deadline m c r e quiet,
          poll_answer-pending p.now m c r e,
          sends ∙ submit_answer-free sent text m c r e kind full,
          poll_answer-answered q.now (strip text) answered (answer_with (strip text) sent c)
              (Reads-write m (answer_with (strip text) sent c) valid) refl refl full,
        )
        (refl, Reads-write answered (start_applying q.now (answer_with (strip text) sent c)) valid)

  expired-refuses :
      (late : ℕ) (text : String) (m : Mailbox) (c : Challenge)
      → Reads m c
      → is_pending c.status ≡ false
      → strip text ≢ ""
      → submit_answer is_uuid id late text m ≡ (err state_error, m)
  unfolding submit_answer
  expired-refuses late text m c r e full = ground (arith, r, e, eq_iff (strip text) "")

  mark_failed_lem :
      (now : ℕ) (error : String) (status : Status) (m : Mailbox) (c : Challenge)
      → Reads m c
      → mark_failed is_uuid id now error status m
        ≡ write is_uuid id (fail_with error status now c) m
  unfolding mark_failed
  mark_failed_lem now error status m c r = ground (arith, r)

  abbrev too_late : ℕ → Challenge → Challenge
  too_late deadline c = fail_with "manual CAPTCHA input timed out" expired deadline c

  wait_for_answer-idle :
      (ps : List Poll) (deadline : ℕ) (m : Mailbox) (c : Challenge)
      → Reads m c
      → is_pending c.status ≡ true
      → All (Quiet m) ps
      → wait_for_answer is_uuid id ps deadline m
        ≡ (err timed_out, (write is_uuid id (too_late deadline c) m).1)
  unfolding wait_for_answer next_turn write
  wait_for_answer-idle [] deadline m c r e quiet = ground (
    arith,
    mark_failed_lem deadline "manual CAPTCHA input timed out" expired m c r,
    Reads-valid m c r,
  )
  wait_for_answer-idle (p ∷ ps) deadline m c r e (q, quiet) =
      rw (poll_answer-pending p.now m c r e, q) (wait_for_answer-idle ps deadline m c r e quiet)

  -- If nothing happens to a pending challenge before the deadline, the worker gets a time-out, the
  -- challenge has expired, and an answer that is not blank and comes later is refused and changes
  -- nothing.
  pub wait_for_answer_times_out :
      (ps : List Poll) (deadline late : ℕ) (text : String) (m : Mailbox) (c : Challenge)
      → Reads m c
      → is_pending c.status ≡ true
      → All (Quiet m) ps
      → strip text ≢ ""
      → ((wait_for_answer is_uuid id ps deadline m).0 ≡ err timed_out)
        × Reads (wait_for_answer is_uuid id ps deadline m).1 (record c {
          answer = none;
          interaction = none;
          status = expired;
          error = some "manual CAPTCHA input timed out";
          updated_at = deadline;
        })
        × (submit_answer is_uuid id late text (wait_for_answer is_uuid id ps deadline m).1
            ≡ (err state_error, (wait_for_answer is_uuid id ps deadline m).1))
  unfolding fail_with is_pending clip
  wait_for_answer_times_out ps deadline late text m c r e quiet full =
      let valid = Reads-valid m c r in
      rw (wait_for_answer-idle ps deadline m c r e quiet) (
        refl,
        Reads-write m (too_late deadline c) valid,
        expired-refuses late text (write is_uuid id (too_late deadline c) m).1 (too_late deadline c)
            (Reads-write m (too_late deadline c) valid) refl full,
      )
