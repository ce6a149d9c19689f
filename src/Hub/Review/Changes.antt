-- ===== src/Hub/Review/Changes.antt =====
-- What a call does to the files of the reviews.
use owlclaw_core.Common.{
  ◌≡◌, refl, sym, ap, ◌∙◌, Bool, true, false, not, Option, none, some, String, List,
}
use owlclaw_core.Common.Dict.{lookup, insert}
use owlclaw_core.Common.Eq.{string_eq, ◌==◌}
use owlclaw_core.Common.Result.{Result, ok, err, ◌>>=◌, ◌>>◌, raise_if, >>=-eq-ok, ok_inj}
use owlclaw_core.Common.Time.{Time}
use owlclaw_core.Hub.Review.{
  ReviewStatus, pending, approved, rejected, ReviewRecord, AppealRecord, File, review_file,
  appeals_file, ReviewSystem, Error, review_path, read_file, read_record, write_record, id_of,
  check_component, store_submission, submit, submit_for_review, submit_manifest_for_review,
  is_pending, is_rejected, decide, approve, reject, notify, assign_reviewer, add_appeal, appeal,
  Call, submits, submits_manifest, approves, rejects, assigns, appeals, after, kept_or, step,
}

-- every review is in the file of its own id
abbrev pub IsConsistent : ReviewSystem → Type 0
IsConsistent s =
    (p : String) (r : ReviewRecord)
    → lookup p s.files ≡ some (review_file r)
    → review_path r.review_id ".json" ≡ ok p

-- the calls that submit the review whose file is `p`, or that write the appeals file `p`
abbrev pub Submits : String → Call → Type 0
Submits p (submits errors skill_name version publisher now) =
    review_path (id_of publisher skill_name version) ".json" ≡ ok p
Submits p (submits_manifest errors skill_name version publisher now) =
    review_path (id_of publisher skill_name version) ".json" ≡ ok p
Submits p _ = ⊥

abbrev pub AppealsTo : String → Call → Type 0
AppealsTo p (appeals review_id publisher reason now) = review_path review_id ".appeals.json" ≡ ok p
AppealsTo p _ = ⊥

-- what a call does to the files
pub data Change (s s' : ReviewSystem) : Call → Type 0 where
  unchanged : (c : Call) → s'.files ≡ s.files → Change s s' c
  submitted :
      (c : Call) (p : String) (r : ReviewRecord)
      → review_path r.review_id ".json" ≡ ok p
      → s'.files ≡ insert p (review_file r) s.files
      → Submits p c
      → Change s s' c
  decided :
      (c : Call) (p : String) (before r : ReviewRecord)
      → lookup p s.files ≡ some (review_file before)
      → before.status ≡ pending
      → review_path r.review_id ".json" ≡ ok p
      → s'.files ≡ insert p (review_file r) s.files
      → Change s s' c
  appealed :
      (c : Call) (p : String) (items : List AppealRecord)
      → s'.files ≡ insert p (appeals_file items) s.files
      → AppealsTo p c
      → Change s s' c

write_record-ok :
    (r r' : ReviewRecord) (s s' : ReviewSystem)
    → write_record r s ≡ ok (r', s')
    → (p : String) × (review_path r.review_id ".json" ≡ ok p)
      × (s'.files ≡ insert p (review_file r) s.files)
unfolding write_record
write_record-ok r r' s s' h =
    let (p, path, done) = >>=-eq-ok (review_path r.review_id ".json") _ h in
    (p, path, ap (λ (x : ReviewRecord × ReviewSystem). x.1.files) (sym (ok_inj done)))

raise_if-ok :
    {A : Type 0} (b : Bool) (e : Error) (rest : Result Error A) (x : A)
    → (raise_if b e >> rest) ≡ ok x
    → (b ≡ false) × (rest ≡ ok x)
raise_if-ok true e rest x h = cc
raise_if-ok false e rest x h = (refl, h)

read_record-ok :
    (review_id : String) (r : ReviewRecord) (s : ReviewSystem)
    → read_record review_id s ≡ ok r
    → (p : String) × (lookup p s.files ≡ some (review_file r))
unfolding read_record read_file
read_record-ok review_id r s h =
    let (p, path, found) = >>=-eq-ok (review_path review_id ".json") _ h in
    (p, by_file (lookup p s.files) found)
  where
    by_file : (o : Option File) → read_file review_id o ≡ ok r → o ≡ some (review_file r)
    by_file none e = cc
    by_file (some (review_file x)) e = ap (λ y. some (review_file y)) (ok_inj e)
    by_file (some (appeals_file x)) e = cc

store_submission-ok :
    (skill_name version publisher : String) (status : ReviewStatus) (comments : String) (now : Time)
    (s s' : ReviewSystem) (r : ReviewRecord)
    → store_submission skill_name version publisher status comments now s ≡ ok (r, s')
    → (p : String) × (r' : ReviewRecord) × (r'.review_id ≡ id_of publisher skill_name version)
      × (review_path r'.review_id ".json" ≡ ok p)
      × (s'.files ≡ insert p (review_file r') s.files)
unfolding store_submission
store_submission-ok skill_name version publisher status comments now s s' r h =
    let (u, a, h₁) = >>=-eq-ok (check_component "publisher" publisher) _ h in
    let (u₂, b, h₂) = >>=-eq-ok (check_component "skill_name" skill_name) _ h₁ in
    let (u₃, c, h₃) = >>=-eq-ok (check_component "version" version) _ h₂ in
    let (p, path, files) = write_record-ok _ r s s' h₃ in (p, _, refl, path, files)

decide-ok :
    (review_id : String) (status : ReviewStatus) (comments refusal : String) (now : Time)
    (s s' : ReviewSystem) (r : ReviewRecord)
    → IsConsistent s
    → decide review_id status comments refusal now s ≡ ok (r, s')
    → (p : String) × (before r' : ReviewRecord) × (lookup p s.files ≡ some (review_file before))
      × (before.status ≡ pending)
      × (review_path r'.review_id ".json" ≡ ok p)
      × (s'.files ≡ insert p (review_file r') s.files)
unfolding decide
decide-ok review_id status comments refusal now s s' r consistent h =
    let (before, read, h₁) = >>=-eq-ok (read_record review_id s) _ h in
    let (p, found) = read_record-ok review_id before s read in
    let (open_still, h₂) = raise_if-ok (not (is_pending before.status)) _ _ (r, s') h₁ in
    let r' : ReviewRecord = record before {
      status = status;
      comments = comments;
      reviewed_at = now;
    } in
    let (p', path, files) = write_record-ok r' r s s' h₂ in
    let same : p ≡ p' = ok_inj (sym (consistent p before found) ∙ path) in
    (
      p,
      before,
      r',
      found,
      pending_of before.status open_still,
      consistent p before found,
      files ∙ ap (λ q. insert q (review_file r') s.files) (sym same),
    )
  where
    pending_of : (x : ReviewStatus) → not (is_pending x) ≡ false → x ≡ pending
    pending_of pending e = refl
    pending_of approved e = cc
    pending_of rejected e = cc

decide-Change :
    (c : Call) (review_id : String) (status : ReviewStatus) (comments refusal : String) (now : Time)
    (s : ReviewSystem)
    → IsConsistent s
    → Change s (after (decide review_id status comments refusal now s) s) c
decide-Change c review_id status comments refusal now s consistent =
    by_result (decide review_id status comments refusal now s) refl
  where
    by_result :
        (o : Result Error (ReviewRecord × ReviewSystem))
        → decide review_id status comments refusal now s ≡ o
        → Change s (after o s) c
    by_result (err e) h = unchanged c refl
    by_result (ok (r, s')) h =
        let (p, before, r', found, open_still, path, files) =
          decide-ok review_id status comments refusal now s s' r consistent h in
        decided c p before r' found open_still path files

-- a submission, whose call `c` names the file of the id
submit-Change :
    (c : Call) (default_comments : String) (errors : Option String)
    (skill_name version publisher : String) (now : Time) (s : ReviewSystem)
    → ((p : String) → review_path (id_of publisher skill_name version) ".json" ≡ ok p → Submits p c)
    → Change s (after (submit default_comments errors skill_name version publisher now s) s) c
unfolding submit
submit-Change c default_comments errors skill_name version publisher now s names = by_errors errors
  where
    by_result :
        (status : ReviewStatus) (comments : String) (o : Result Error (ReviewRecord × ReviewSystem))
        → store_submission skill_name version publisher status comments now s ≡ o
        → Change s (after o s) c
    by_result status comments (err e) h = unchanged c refl
    by_result status comments (ok (r, s')) h =
        let (p, r', same, path, files) =
          store_submission-ok skill_name version publisher status comments now s s' r h in
        submitted c p r' path files (names p (ap (λ i. review_path i ".json") (sym same) ∙ path))

    by_errors :
        (o : Option String)
        → Change s (after (submit default_comments o skill_name version publisher now s) s) c
    by_errors none = by_result pending _ _ refl
    by_errors (some e) = by_result rejected _ _ refl

assign_reviewer-files :
    (review_id reviewer : String) (now : Time) (s : ReviewSystem)
    → (kept_or (assign_reviewer review_id reviewer now s) s).files ≡ s.files
unfolding assign_reviewer notify
assign_reviewer-files review_id reviewer now s = by_result (read_record review_id s)
  where
    by_result :
        (o : Result Error ReviewRecord)
        → (kept_or
            (o >>= λ current. ok (
              notify "review_assigned" review_id reviewer now
                (record s { assigned_reviewers = insert review_id reviewer s.assigned_reviewers })))
            s).files
          ≡ s.files
    by_result (err e) = refl
    by_result (ok r) = refl

appeal-Change :
    (review_id publisher reason : String) (now : Time) (s : ReviewSystem)
    → Change s
        (kept_or (appeal review_id publisher reason now s) s)
        (appeals review_id publisher reason now)
unfolding appeal add_appeal notify
appeal-Change review_id publisher reason now s =
    by_result (appeal review_id publisher reason now s) refl
  where
    by_result :
        (o : Result Error ReviewSystem)
        → appeal review_id publisher reason now s ≡ o
        → Change s (kept_or o s) (appeals review_id publisher reason now)
    by_result (err e) h = unchanged _ refl
    by_result (ok s') h =
        let (current, read, h₁) = >>=-eq-ok (read_record review_id s) _ h in
        let (was_rejected, h₂) = raise_if-ok (not (is_rejected current.status)) _ _ s' h₁ in
        let (theirs, h₃) = raise_if-ok (not (current.publisher == publisher)) _ _ s' h₂ in
        let (p, path, done) = >>=-eq-ok (review_path review_id ".appeals.json") _ h₃ in
        appealed _ p _ (ap (λ (x : ReviewSystem). x.files) (sym (ok_inj done))) path

-- each call changes at most one file: a submission writes the review of its own id, an appeal its
-- appeals, and anything else only a review that is still pending
pub step-Change : (c : Call) (s : ReviewSystem) → IsConsistent s → Change s (step c s) c
unfolding step submit_for_review submit_manifest_for_review approve reject
step-Change (submits errors skill_name version publisher now) s h =
    submit-Change _ _ errors skill_name version publisher now s (λ p e. e)
step-Change (submits_manifest errors skill_name version publisher now) s h =
    submit-Change _ _ errors skill_name version publisher now s (λ p e. e)
step-Change (approves review_id reviewer comments now) s h = decide-Change _ review_id _ _ _ now s h
step-Change (rejects review_id reviewer reason now) s h = decide-Change _ review_id _ _ _ now s h
step-Change (assigns review_id reviewer now) s h =
    unchanged _ (assign_reviewer-files review_id reviewer now s)
step-Change (appeals review_id publisher reason now) s h =
    appeal-Change review_id publisher reason now s
