-- ===== src/Captcha/Isolation.antt =====
-- human_interaction.py: a consumer that asks for one collection learns nothing of the challenges of
-- another.
use argus_web_intelligence.Prelude.{
  String, Bool, List, [], ◌∷◌, none, some, String_eq, ◌==◌, ◌≡◌, ◌≢◌, ◌⊎◌, inl, inr, refl, arith,
  eq_iff,
}
use argus_web_intelligence.Prelude.Text.{strip}
use argus_web_intelligence.Prelude.Action.{ok, err}
use argus_web_intelligence.Sql.{find, delete_where}
use argus_web_intelligence.Captcha.{
  Challenge, ChallengeFile, ChallengeFile_key, Mailbox, get, challenge_not_found,
}
use argus_web_intelligence.Captcha.Calls.{assert_collection}
use Prim.Native.String.{◌++◌ as append}

-- The collection that a challenge names, as the checks read it.
abbrev pub owner : Challenge → String
owner c = strip (elim c.collection_id [ none ↦ "" | some s ↦ s ])

-- The directory without the file of a challenge.
unfoldable pub without : String → Mailbox → Mailbox
without id m = record m {
  challenges = delete_where (λ (f : ChallengeFile). f.name == append id ".json") m.challenges;
}

find-gone :
    (name : String) (rows : List ChallengeFile)
    → find name (delete_where (λ (f : ChallengeFile). f.name == name) rows) ≡ none
unfolding find delete_where
find-gone name [] = refl
find-gone name (f ∷ fs) = ground (arith, find-gone name fs)

module _ (is_uuid : String → Bool) (id : String) where
  get-without :
      (m : Mailbox) → get is_uuid id (without id m) ≡ (err challenge_not_found, without id m)
  unfolding get without
  get-without m = ground (arith, find-gone (append id ".json") m.challenges)

  -- A challenge is handed out under the collection that it names only. For any other, and if it
  -- names none, whatever is asked for, the answer is the one that is given when there is no such
  -- challenge.
  pub assert_collection_cases :
      (collection_id : String) (m : Mailbox) (c : Challenge)
      → get is_uuid id m ≡ (ok c, m)
      → (owner c ≢ ""
          → owner c ≡ strip collection_id
          → assert_collection is_uuid id collection_id m ≡ (ok c, m))
        × ((owner c ≡ "") ⊎ (owner c ≢ strip collection_id)
            → (assert_collection is_uuid id collection_id m ≡ (err challenge_not_found, m))
              × ((assert_collection is_uuid id collection_id (without id m)).0
                  ≡ err challenge_not_found))
  unfolding assert_collection
  assert_collection_cases collection_id m c r = (
    λ named same. ground (arith, r, eq_iff (owner c) "", eq_iff (owner c) (strip collection_id)),
    λ other. (
      elim other [
        | inl nobody ↦ ground (arith, r, nobody, eq_iff (owner c) "")
        | inr foreign ↦
            ground (arith, r, eq_iff (owner c) "", eq_iff (owner c) (strip collection_id))
      ],
      ground (arith, get-without m),
    ),
  )
