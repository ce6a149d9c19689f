-- ===== src/Hub/Review/Tests.antt =====
-- Reviews of two publishers whose ids are the same.
use owlclaw_core.Common.Result.{ok}
use owlclaw_core.Common.{Bool-cases, inl, inr, ◌≡◌, refl, none, some, [], ◌∷◌, List}
use owlclaw_core.Common.Dict.{lookup, insert}
use owlclaw_core.Common.Eq.{string_eq, ◌==◌}
use owlclaw_core.Common.Text.{strip, is_blank}
use owlclaw_core.Hub.Review.{
  ReviewRecord, pending, approved, review_file, ReviewSystem, init, review_path, Call, submits,
  approves, rejects, run,
}
use owlclaw_core.Hub.Review.Changes.{IsConsistent}
use owlclaw_core.Hub.Review.Decisions.{run_keeps_decision}

abbrev calls : List Call
calls = submits none "b" "1" "a" 5 ∷ approves "a-b-1" "eve" "fine" 6 ∷ []

abbrev approved_review : ReviewRecord
approved_review = record {
  review_id = "a-b-1";
  skill_name = "b";
  version = "1";
  publisher = "a";
  status = approved;
  comments = "fine by eve";
  reviewed_at = 6;
}

abbrev reviewed : ReviewSystem
reviewed = record init { files = ("a-b-1.json", review_file approved_review) ∷ [] }

an_approval : (run calls init).files ≡ reviewed.files
unfolding run strip is_blank lookup insert review_path init
an_approval = refl

-- another publisher, whose names make the same id, replaces a review that was approved
a_takeover :
    (run
      (submits none "b-c" "1" "a" 5
        ∷ approves "a-b-c-1" "eve" "fine" 6
        ∷ submits none "c" "1" "a-b" 7
        ∷ [])
      init).files
    ≡ (
      "a-b-c-1.json",
      review_file (record {
        review_id = "a-b-c-1";
        skill_name = "c";
        version = "1";
        publisher = "a-b";
        status = pending;
        comments = "automated validation passed";
        reviewed_at = 7;
      }),
    )
      ∷ []
unfolding run strip is_blank lookup insert review_path init
a_takeover = refl

review_path_of_it : review_path "a-b-1" ".json" ≡ ok "a-b-1.json"
unfolding review_path strip
review_path_of_it = refl

consistent : IsConsistent reviewed
unfolding lookup
consistent p r found = elim (Bool-cases (p == "a-b-1.json")) [
  | inl same ↦
      let is = rw same at found in
      cc (is, (string_eq.same_iff p "a-b-1.json").0 same, review_path_of_it)
  | inr other ↦ cc (rw other at found)
]

run_keeps_decision_example :
    lookup "a-b-1.json" (run (rejects "a-b-1" "bob" "no" 9 ∷ []) reviewed).files
    ≡ some (review_file approved_review)
unfolding lookup
run_keeps_decision_example =
    run_keeps_decision (rejects "a-b-1" "bob" "no" 9 ∷ []) reviewed "a-b-1.json" approved_review
      consistent refl (λ h. cc) (((λ h. h), (λ h. h)), tt)
