-- ===== src/Orchestrator/Breaker/Opening.antt =====
-- When the circuit of a source opens, and what it takes from the queue.
use argus_web_intelligence.Prelude.{
  ℕ, suc, ◌+◌, ◌≤◌, leb, keep, String, Bool, true, false, ◌&&◌, ◌||◌, not, List, [], ◌∷◌, String_eq,
  ◌==◌, ap, subst, ◌∙◌, ◌≡◌, ◌↔◌, refl, if◌then◌else◌, arith, Bool-cases, inl, inr, eq_iff,
}
use argus_web_intelligence.Contracts.{SourceCoverage}
use argus_web_intelligence.Contracts.Values.{
  Json, get_member, set_member, text, get_in, set_in, members,
}
use argus_web_intelligence.Contracts.Values.Laws.{get_member-set_member, get_member-set_member_ne}
use argus_web_intelligence.Orchestrator.{SourceTask}
use argus_web_intelligence.Orchestrator.Breaker.{
  apply_breaker, count_block, circuit_code, circuit_key, retained, is_same_circuit, state_of,
  entry_of, number_in, or_empty, written, version, entry, breakers,
}

-- How often a checkpoint says that a circuit has been blocked.
unfoldable pub blocks : String → Json → ℕ
unfolding number_in entry_of state_of
blocks key checkpoint = number_in "count" (entry_of key (state_of checkpoint))

count-entry :
    (s h c : String) (n : ℕ) (o : Bool) (r : ℕ) → number_in "count" (entry s h c n o r) ≡ n
unfolding number_in entry get_member set_member get_in set_in members
count-entry s h c n o r = refl

-- The state of the breakers in a checkpoint that has been written.
entry_of-same : (key : String) (v d : Json) → entry_of key (set_member key v d) ≡ v
unfolding entry_of or_empty
entry_of-same key v d = ap or_empty (get_member-set_member key v d)

entry_of-other :
    (key other : String) (v d : Json)
    → (other == key) ≡ false
    → entry_of key (set_member other v d) ≡ entry_of key d
unfolding entry_of
entry_of-other key other v d e = ap or_empty (get_member-set_member_ne key other v d e)

blocks-written :
    (k key : String) (e d : Json)
    → blocks k (written key e d) ≡ (if key == k then number_in "count" e else blocks k d)
unfolding blocks state_of written
blocks-written k key e d = elim (Bool-cases (key == k)) [
  | inl h ↦
      let same = (eq_iff key k).0 h in
      rw
        (
          h,
          entry_of-same breakers (set_member key e (state_of d))
              (set_member "source_block_circuit_breaker_version" (text version) d),
        )
        (ap (number_in "count") (
          subst (λ z. entry_of z (set_member key e (state_of d)) ≡ e) same
            (entry_of-same key e (state_of d))))
  | inr h ↦
      rw
        (
          h,
          entry_of-same breakers (set_member key e (state_of d))
              (set_member "source_block_circuit_breaker_version" (text version) d),
          entry_of-other k key e (state_of d) h,
        )
        refl
]

counted : (n : ℕ) → n + 1 ≡ suc n
counted n = omega arith

module _ (host_of : String → String) where
  -- The circuit that a block of a task counts for.
  unfoldable pub circuit_of : SourceTask → SourceCoverage → String
  circuit_of task coverage = circuit_key task.source_id (host_of task.url) (circuit_code coverage)

  -- A block without a host or a code counts for no circuit.
  unfoldable pub is_counted : SourceTask → SourceCoverage → Bool
  is_counted task coverage = not (host_of task.url == "" || circuit_code coverage == "")

  blocks-count_block :
      (k : String) (task : SourceTask) (code : String) (checkpoint : Json)
      (pending : List SourceTask)
      → blocks k (count_block host_of task code checkpoint pending).checkpoint ≡ (
          if circuit_key task.source_id (host_of task.url) code == k
          then suc (blocks k checkpoint)
          else blocks k checkpoint)
  unfolding count_block blocks
  blocks-count_block k task code checkpoint pending =
      let key = circuit_key task.source_id (host_of task.url) code in
      rw (blocks-written k key _ checkpoint) (elim (Bool-cases (key == k)) [
        | inl h ↦ rw h (
            count-entry _ _ _ _ _ _
            ∙ counted (blocks key checkpoint)
            ∙ ap (λ z. suc (blocks z checkpoint)) ((eq_iff key k).0 h))
        | inr h ↦ rw h refl
      ])

  opened-count_block :
      (task : SourceTask) (code : String) (checkpoint : Json) (pending : List SourceTask)
      → ((count_block host_of task code checkpoint pending).opened
          ≡ leb 3 (suc (blocks (circuit_key task.source_id (host_of task.url) code) checkpoint)))
        × ((count_block host_of task code checkpoint pending).pending ≡ (
            if leb 3 (suc (blocks (circuit_key task.source_id (host_of task.url) code) checkpoint))
            then keep
                (λ c. not (c.source_id == task.source_id && host_of c.url == host_of task.url))
                pending
            else pending))
  unfolding count_block blocks retained is_same_circuit
  opened-count_block task code checkpoint pending =
      let n =
        number_in "count"
          (entry_of (circuit_key task.source_id (host_of task.url) code) (state_of checkpoint)) in
      (
        ap (λ m. leb 3 m) (counted n),
        ap (λ m. if leb 3 m then retained host_of task pending else pending) (counted n),
      )

  -- A blocked result adds one to its own circuit, and nothing to any other.
  blocks-apply_breaker :
      (k : String) (task : SourceTask) (coverage : SourceCoverage) (checkpoint : Json)
      (pending : List SourceTask)
      → blocks k (apply_breaker host_of task coverage checkpoint pending).checkpoint ≡ (
          if is_counted task coverage && circuit_of task coverage == k
          then suc (blocks k checkpoint)
          else blocks k checkpoint)
  unfolding apply_breaker is_counted circuit_of
  blocks-apply_breaker k task coverage checkpoint pending =
      elim (Bool-cases (host_of task.url == "" || circuit_code coverage == "")) [
        | inl h ↦ rw h refl
        | inr h ↦ rw h (blocks-count_block k task (circuit_code coverage) checkpoint pending)
      ]

  -- The checkpoint after blocked results, each with the queue that it met.
  abbrev pub after_blocks : List (SourceTask × SourceCoverage × List SourceTask) → Json → Json
  after_blocks [] checkpoint = checkpoint
  after_blocks ((task, coverage, pending) ∷ more) checkpoint =
      after_blocks more (apply_breaker host_of task coverage checkpoint pending).checkpoint

  -- How many blocked results count for a circuit.
  abbrev pub occurrences : String → List (SourceTask × SourceCoverage × List SourceTask) → ℕ
  occurrences k [] = 0
  occurrences k ((task, coverage, pending) ∷ more) =
      let n = occurrences k more in
      if is_counted task coverage && circuit_of task coverage == k then suc n else n

  blocks-after_blocks :
      (k : String) (results : List (SourceTask × SourceCoverage × List SourceTask))
      (checkpoint : Json)
      → blocks k (after_blocks results checkpoint) ≡ occurrences k results + blocks k checkpoint
  blocks-after_blocks k [] checkpoint = omega arith
  blocks-after_blocks k ((task, coverage, pending) ∷ more) checkpoint =
      let ih =
        blocks-after_blocks k more
          (apply_breaker host_of task coverage checkpoint pending).checkpoint in
      let one = blocks-apply_breaker k task coverage checkpoint pending in ground (arith, ih, one)

  -- After any blocked results, from a checkpoint that knows of none, the circuit of a further one,
  -- whose host is known, is open just when the results so far that count for it, and this one, are three at least; what is
  -- queued for another source or another host then stays queued, in its order, and nothing else
  -- does; while the circuit is closed the queue is as it was.
  pub apply_breaker_lem :
      (results : List (SourceTask × SourceCoverage × List SourceTask)) (checkpoint : Json)
      (task : SourceTask) (coverage : SourceCoverage) (pending : List SourceTask)
      → is_counted task coverage ≡ true
      → blocks (circuit_of task coverage) checkpoint ≡ 0
      → (((apply_breaker host_of task coverage (after_blocks results checkpoint) pending).opened
            ≡ true)
          ↔ (3 ≤ suc (occurrences (circuit_of task coverage) results)))
        × ((apply_breaker host_of task coverage (after_blocks results checkpoint) pending).pending
            ≡ (if leb 3 (suc (occurrences (circuit_of task coverage) results))
                then keep
                    (λ c. not (c.source_id == task.source_id && host_of c.url == host_of task.url))
                    pending
                else pending))
  unfolding apply_breaker is_counted circuit_of retained is_same_circuit
  apply_breaker_lem results checkpoint task coverage pending h z =
      let d = after_blocks results checkpoint in
      let n = blocks-after_blocks (circuit_of task coverage) results checkpoint in
      let total : blocks (circuit_of task coverage) d
          ≡ occurrences (circuit_of task coverage) results =
        omega (arith, n, z) in
      elim (Bool-cases (host_of task.url == "" || circuit_code coverage == "")) [
        | inl e ↦ ground (arith, h, e)
        | inr e ↦
            let (o, q) = opened-count_block task (circuit_code coverage) d pending in
            let o' = o ∙ ap (λ m. leb 3 (suc m)) total in
            let q' =
              q
              ∙ ap (λ m. if leb 3 (suc m) then retained host_of task pending else pending) total in
            rw e (opens o', q')
      ]
    where
      opens : {b : Bool} {m : ℕ} → b ≡ leb 3 m → (b ≡ true) ↔ (3 ≤ m)
      opens h = ground (arith, h)
