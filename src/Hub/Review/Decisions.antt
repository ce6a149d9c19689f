-- ===== src/Hub/Review/Decisions.antt =====
-- A review stays in its file, and a decision stays.
use owlclaw_core.Common.{◌≡◌, ◌≢◌, sym, ◌∙◌, inl, inr, some, String, List, [], ◌∷◌, Bool-cases, All}
use mathlib.Core.Path.{subst}
use owlclaw_core.Common.Dict.{lookup, insert, lookup-insert, lookup-insert_other}
use owlclaw_core.Common.Eq.{string_eq, ◌==◌}
use owlclaw_core.Common.Result.{ok}
use owlclaw_core.Hub.Review.{
  pending, ReviewRecord, review_file, appeals_file, ReviewSystem, review_path, Call, step, run,
}
use owlclaw_core.Hub.Review.Changes.{
  IsConsistent, Submits, AppealsTo, Change, unchanged, submitted, decided, appealed, step-Change,
}

insert-IsConsistent :
    (p : String) (r : ReviewRecord) (s s' : ReviewSystem)
    → review_path r.review_id ".json" ≡ ok p
    → s'.files ≡ insert p (review_file r) s.files
    → IsConsistent s
    → IsConsistent s'
insert-IsConsistent p r s s' path files h q x found = elim (Bool-cases (q == p)) [
  | inl same ↦
      let is = rw (files, lookup-insert q p (review_file r) s.files, same) at found in
      cc (path, is, (string_eq.same_iff q p).0 same)
  | inr other ↦ h q x (rw (files, lookup-insert q p (review_file r) s.files, other) at found)
]

Change-IsConsistent :
    (c : Call) (s s' : ReviewSystem) → Change s s' c → IsConsistent s → IsConsistent s'
Change-IsConsistent c s s' (unchanged _ same) h q x found = h q x (rw same at found)
Change-IsConsistent c s s' (submitted _ p r path files by) h q x found =
    insert-IsConsistent p r s s' path files h q x found
Change-IsConsistent c s s' (decided _ p before r was open_still path files) h q x found =
    insert-IsConsistent p r s s' path files h q x found
Change-IsConsistent c s s' (appealed _ p items files by) h q x found = elim (Bool-cases (q == p)) [
  | inl same ↦ cc (rw (files, lookup-insert q p (appeals_file items) s.files, same) at found)
  | inr other ↦ h q x (rw (files, lookup-insert q p (appeals_file items) s.files, other) at found)
]

-- the calls that neither submit the review in the file `p` again nor write appeals over it
abbrev pub Spares : String → Call → Type 0
Spares p c = ¬ Submits p c × ¬ AppealsTo p c

stays_after :
    (c : Call) (s s' : ReviewSystem) (p : String) (r : ReviewRecord)
    → Change s s' c
    → Spares p c
    → lookup p s.files ≡ some (review_file r)
    → r.status ≢ pending
    → lookup p s'.files ≡ some (review_file r)
stays_after c s s' p r (unchanged _ same) spares found decided_so = rw same found
stays_after c s s' p r (submitted _ q x path files by) (spares, _) found decided_so = rw files (
    lookup-insert_other p q (review_file x) s.files
      (λ same. spares (subst (λ i. Submits i c) (sym same) by))
    ∙ found)
stays_after c s s' p r (decided _ q before x was open_still path files) spares found decided_so =
    rw files (
      lookup-insert_other p q (review_file x) s.files
        (λ same. decided_so (cc (same, found, was, open_still)))
      ∙ found)
stays_after c s s' p r (appealed _ q items files by) (_, spares) found decided_so = rw files (
    lookup-insert_other p q (appeals_file items) s.files
      (λ same. spares (subst (λ i. AppealsTo i c) (sym same) by))
    ∙ found)

-- Whatever calls are made, every review stays in the file that its own id names.
pub run-IsConsistent :
    (calls : List Call) (s : ReviewSystem) → IsConsistent s → IsConsistent (run calls s)
unfolding run
run-IsConsistent [] s h = h
run-IsConsistent (c ∷ calls) s h =
    run-IsConsistent calls (step c s) (Change-IsConsistent c s (step c s) (step-Change c s h) h)

-- A review that was approved or rejected stays exactly as it is, with its reviewer's comments, under
-- any later calls, as long as no submission names its file again and no appeals are written over it:
-- it cannot be decided a second time.
pub run_keeps_decision :
    (calls : List Call) (s : ReviewSystem) (p : String) (r : ReviewRecord)
    → IsConsistent s
    → lookup p s.files ≡ some (review_file r)
    → r.status ≢ pending
    → All (Spares p) calls
    → lookup p (run calls s).files ≡ some (review_file r)
unfolding run
run_keeps_decision [] s p r h found decided_so spares = found
run_keeps_decision (c ∷ calls) s p r h found decided_so (spares, rest) =
    let change = step-Change c s h in
    run_keeps_decision calls (step c s) p r (Change-IsConsistent c s (step c s) change h)
      (stays_after c s (step c s) p r change spares found decided_so) decided_so rest
