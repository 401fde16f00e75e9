-- ===== src/Orchestrator/Process/Ends.antt =====
-- The loop over the tasks comes to an end.
use argus_web_intelligence.Prelude.{
  ℕ, zero, suc, ◌+◌, ◌≤◌, ltb, true, false, List, [], ◌∷◌, ◌≡◌, refl, ap, sym, subst, ◌⊎◌, inl, inr,
  arith, Bool-cases,
}
use argus_web_intelligence.Prelude.Action.{Result, ok, err, continue, pure}
use argus_web_intelligence.Orchestrator.{SourceTask, Repository, Progress}
use argus_web_intelligence.Orchestrator.Turn.{Turn, Settings, conclude}
use argus_web_intelligence.Orchestrator.Process.{
  Step, next, deadline, stopped, turn, Loop, left, returned, out_of_turns, loop, process,
}
use argus_web_intelligence.Orchestrator.Process.Turns.{Carried, Goes, turn-Goes}

-- The first turns of an endless sequence of them.
abbrev pub first : {A : Type 0} → ℕ → (ℕ → A) → List A
first zero f = []
first (suc n) f = f 0 ∷ first n (λ i. f (suc i))

-- A turn takes a task from the queue for good, or it counts a page.
Moves : List SourceTask → Progress → Progress → Type 0
Moves pending p q =
    (q.collection.request ≡ p.collection.request)
    × (((q.pending ≡ pending) × (q.processed ≡ p.processed)) ⊎ (q.processed ≡ suc p.processed))

concluded-Moves :
    (task : SourceTask) (pending : List SourceTask) (p q : Progress) (a b : ℕ) (c : _)
    → Carried (record p { pending = pending }) q
    → Moves pending p (conclude task a b c q)
unfolding Moves conclude
concluded-Moves task pending p q a b c f = (f.same_request, inr (ap suc f.same_processed))

module _ {S E : Type 0} (repository : Repository S E) (settings : Settings) (started_at : ℕ) where
  abbrev pub HasEnded : Result E Loop × S → Type 0
  HasEnded (ok out_of_turns, s) = ⊥
  HasEnded (ok (left b p), s) = Unit {0}
  HasEnded (ok returned, s) = Unit {0}
  HasEnded (err e, s) = Unit {0}

  Terminates : (ℕ → Turn E) → List SourceTask → Progress → S → Type 0
  Terminates turns queue p s =
      (n : ℕ) × HasEnded (loop repository settings started_at (first n turns) queue p s)

  after_turn :
      (turns : ℕ → Turn E) (pending : List SourceTask) (p : Progress) (r : Result E Step) (u : S)
      → Goes (Moves pending p) (λ q. Unit {0}) (r, u)
      → ((q : Progress) → Moves pending p q → Terminates turns q.pending q u)
      → (n : ℕ) × HasEnded (
          continue r
            (λ step. elim step [
              | next q ↦ loop repository settings started_at (first n turns) q.pending q
              | deadline q ↦ pure (left true q)
              | stopped ↦ pure returned
            ])
            u)
  unfolding Terminates
  after_turn turns pending p (ok (next q)) u g rest = rest q g
  after_turn turns pending p (ok (deadline q)) u g rest = (0, tt)
  after_turn turns pending p (ok stopped) u g rest = (0, tt)
  after_turn turns pending p (err e) u g rest = (0, tt)

  loop_ends :
      (budget : ℕ) (queue : List SourceTask) (turns : ℕ → Turn E) (p : Progress) (s : S)
      → p.collection.request.constraints.max_pages ≤ p.processed + budget
      → Terminates turns queue p s
  unfolding Terminates loop Moves
  loop_ends budget [] turns p s h = (0, tt)
  loop_ends zero (task ∷ pending) turns p s h =
      let over : ltb p.processed p.collection.request.constraints.max_pages ≡ false =
        ground (arith, h) in
      (0, rw over tt)
  loop_ends (suc budget) (task ∷ pending) turns p s h =
      elim (Bool-cases (ltb p.processed p.collection.request.constraints.max_pages)) [
        | inr l ↦ (0, rw l tt)
        | inl l ↦
            let (r, u) = turn repository settings started_at (turns 0) task pending p s in
            let (n, ended) =
              after_turn (λ i. turns (suc i)) pending p r u
                (turn-Goes (Moves pending p) (λ q. Unit {0}) repository settings started_at
                  (turns 0) task pending p (λ ts. tt) (λ _. (refl, inl (refl, refl)))
                  (λ a b c q k f. concluded-Moves task pending p q a b c f) s)
                (λ q m.
                  let same = ap (λ d. d.constraints.max_pages) m.0 in
                  elim m.1 [
                    | inl (tail, as_many) ↦
                        subst (λ z. Terminates (λ i. turns (suc i)) z q u) (sym tail)
                          (loop_ends (suc budget) pending (λ i. turns (suc i)) q u
                            (omega (arith, h, same, as_many)))
                    | inr more ↦
                        loop_ends budget q.pending (λ i. turns (suc i)) q u
                          (omega (arith, h, same, more))
                  ]) in
            (suc n, rw l ended)
      ]

  -- Whatever the turns bring, and however many tasks they add, the loop ends after some number of
  -- them.
  pub process_ends :
      (turns : ℕ → Turn E) (p : Progress) (s : S)
      → (n : ℕ) × HasEnded (process repository settings started_at (first n turns) p s)
  unfolding process Terminates
  process_ends turns p s =
      loop_ends p.collection.request.constraints.max_pages p.pending turns p s (omega arith)
