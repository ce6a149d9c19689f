-- ===== src/Hub/Review.antt =====
-- `ReviewSystem` of owlclaw/owlhub/review/system.py. `files` is its directory: the file names without the
-- directory, and what they hold. Reading back what was written as JSON gives the same. The result of the
-- validator is an argument (the messages of its errors, none if it accepts), and so is the clock. The
-- two lists of records are left out.
pub mod Changes
pub mod Decisions
mod Tests
use owlclaw_core.Common.{
  ℕ, suc, Bool, true, false, not, ◌&&◌, ◌||◌, Option, none, some, String, List, [], ◌∷◌, ◌++◌, eqb,
  leb, if◌then◌else◌,
}
use Prim.Native.Char.{code}
use Prim.Native.String
use Prim.Native.String.{◌++◌ as join}
use owlclaw_core.Common.Dict.{Dict, lookup, insert}
use owlclaw_core.Common.Eq.{string_eq, ◌==◌}
use owlclaw_core.Common.Result.{Result, ok, err, ◌>>=◌, ◌>>◌, raise_if}
use owlclaw_core.Common.Sorting.{ascending}
use owlclaw_core.Common.Text.{strip, is_blank}
use owlclaw_core.Common.Time.{Time}
use owlclaw_core.Hub.ReviewId.{is_component, is_review_id}

-- `ReviewStatus`
pub data ReviewStatus : Type 0 where
  pending approved rejected : ReviewStatus

-- `ReviewRecord`
pub record ReviewRecord : Type 0 where
  pub review_id : String
  pub skill_name : String
  pub version : String
  pub publisher : String
  pub status : ReviewStatus
  pub comments : String
  pub reviewed_at : Time

-- `AppealRecord`
pub record AppealRecord : Type 0 where
  pub review_id : String
  pub publisher : String
  pub reason : String
  pub appealed_at : Time

pub data File : Type 0 where
  review_file : ReviewRecord → File
  appeals_file : List AppealRecord → File

-- an entry of `notifications`
pub record Notification : Type 0 where
  pub event_type : String
  pub review_id : String
  pub actor : String
  pub timestamp : Time

pub record ReviewSystem : Type 0 where
  pub files : Dict String File
  pub assigned_reviewers : Dict String String
  pub notifications : List Notification

pub data Error : Type 0 where
  value_error : String → Error
  not_found : String → Error
  permission_error : Error
  -- what `payload.get` raises on a file that holds a list
  attribute_error : Error

-- `__init__` on an empty directory
pub init : ReviewSystem
init = record { files = []; assigned_reviewers = []; notifications = [] }

-- `_validate_review_component`
check_component : (name value : String) → Result Error (Unit {0})
check_component name value =
    raise_if (not (is_component (strip value))) (value_error (join "invalid " name))

-- `_review_path`; a name of this form cannot leave the directory
unfoldable pub review_path : (review_id suffix : String) → Result Error String
unfolding is_review_id
review_path review_id suffix =
    if is_review_id (strip review_id)
    then ok (join (strip review_id) suffix)
    else err (value_error "invalid review_id")

read_file : String → Option File → Result Error ReviewRecord
read_file review_id none = err (not_found review_id)
read_file review_id (some (review_file r)) = ok r
read_file review_id (some (appeals_file _)) = err attribute_error

-- `_read_record`
read_record : String → ReviewSystem → Result Error ReviewRecord
unfolding read_file
read_record review_id s = do
  path ← review_path review_id ".json"
  read_file review_id (lookup path s.files)

-- `_write_record`
write_record : ReviewRecord → ReviewSystem → Result Error (ReviewRecord × ReviewSystem)
write_record r s = do
  path ← review_path r.review_id ".json"
  ok (r, record s { files = insert path (review_file r) s.files })

abbrev pub id_of : (publisher skill_name version : String) → String
id_of publisher skill_name version = join publisher (join "-" (join skill_name (join "-" version)))

-- `_build_record` and `_store_submission`
store_submission :
    (skill_name version publisher : String)
    → ReviewStatus
    → (comments : String) → Time
    → ReviewSystem
    → Result Error (ReviewRecord × ReviewSystem)
unfolding check_component write_record
store_submission skill_name version publisher status comments now s = do
  check_component "publisher" publisher
  check_component "skill_name" skill_name
  check_component "version" version
  write_record
      (record {
        review_id = id_of publisher skill_name version;
        skill_name = skill_name;
        version = version;
        publisher = publisher;
        status = status;
        comments = comments;
        reviewed_at = now;
      })
      s

-- the part that the two submissions share
submit :
    (default_comments : String) (errors : Option String) (skill_name version publisher : String)
    → Time
    → ReviewSystem
    → Result Error (ReviewRecord × ReviewSystem)
unfolding store_submission
submit default_comments (some errors) skill_name version publisher now s =
    store_submission skill_name version publisher rejected
      (if is_blank errors then default_comments else errors) now s
submit default_comments none skill_name version publisher now s =
    store_submission skill_name version publisher pending "automated validation passed" now s

-- `submit_for_review` and `submit_manifest_for_review`
pub submit_for_review :
    (errors : Option String) (skill_name version publisher : String)
    → Time
    → ReviewSystem
    → Result Error (ReviewRecord × ReviewSystem)
unfolding submit
submit_for_review = submit "structure validation failed"

pub submit_manifest_for_review :
    (errors : Option String) (skill_name version publisher : String)
    → Time
    → ReviewSystem
    → Result Error (ReviewRecord × ReviewSystem)
unfolding submit
submit_manifest_for_review = submit "manifest validation failed"

abbrev pub is_pending : ReviewStatus → Bool
is_pending pending = true
is_pending _ = false

abbrev is_rejected : ReviewStatus → Bool
is_rejected rejected = true
is_rejected _ = false

-- the part that `approve` and `reject` share
decide :
    (review_id : String)
    → ReviewStatus
    → (comments refusal : String) → Time
    → ReviewSystem
    → Result Error (ReviewRecord × ReviewSystem)
unfolding read_record write_record
decide review_id status comments refusal now s = do
  current ← read_record review_id s
  raise_if (not (is_pending current.status)) (value_error refusal)
  write_record (record current { status = status; comments = comments; reviewed_at = now }) s

pub approve :
    (review_id reviewer comments : String)
    → Time
    → ReviewSystem
    → Result Error (ReviewRecord × ReviewSystem)
unfolding decide
approve review_id reviewer comments now s =
    decide review_id approved
      (join (strip (if is_blank comments then "approved" else comments)) (join " by " reviewer))
      "only pending review can be approved" now s

pub reject :
    (review_id reviewer reason : String)
    → Time
    → ReviewSystem
    → Result Error (ReviewRecord × ReviewSystem)
unfolding decide
reject review_id reviewer reason now s =
    decide review_id rejected (join (strip reason) (join " by " reviewer))
      "only pending review can be rejected" now s

-- `_notify`
notify : (event_type review_id actor : String) → Time → ReviewSystem → ReviewSystem
notify event_type review_id actor now s = record s {
  notifications =
      s.notifications
      ++ record { event_type = event_type; review_id = review_id; actor = actor; timestamp = now }
        ∷ [];
}

pub assign_reviewer :
    (review_id reviewer : String) → Time → ReviewSystem → Result Error ReviewSystem
unfolding read_record notify
assign_reviewer review_id reviewer now s = do
  current ← read_record review_id s
  ok (
      notify "review_assigned" review_id reviewer now
        (record s { assigned_reviewers = insert review_id reviewer s.assigned_reviewers }))

pub get_assigned_reviewer : String → ReviewSystem → Option String
get_assigned_reviewer review_id s = lookup review_id s.assigned_reviewers

appeals_in : Option File → List AppealRecord
appeals_in none = []
appeals_in (some (review_file _)) = []
appeals_in (some (appeals_file appeals)) = ascending (λ (a : AppealRecord). a.appealed_at) appeals

pub list_appeals : String → ReviewSystem → Result Error (List AppealRecord)
unfolding appeals_in
list_appeals review_id s = do
  path ← review_path review_id ".appeals.json"
  ok (appeals_in (lookup path s.files))

add_appeal : AppealRecord → ReviewSystem → Result Error ReviewSystem
unfolding list_appeals notify
add_appeal a s = do
  path ← review_path a.review_id ".appeals.json"
  let appeals = appeals_in (lookup path s.files) ++ a ∷ []
  let files = insert path (appeals_file appeals) s.files
  ok (notify "review_appealed" a.review_id a.publisher a.appealed_at (record s { files = files }))

pub appeal : (review_id publisher reason : String) → Time → ReviewSystem → Result Error ReviewSystem
unfolding read_record add_appeal
appeal review_id publisher reason now s = do
  current ← read_record review_id s
  raise_if (not (is_rejected current.status)) (value_error "only rejected review can be appealed")
  raise_if (not (current.publisher == publisher)) permission_error
  add_appeal
      (record {
        review_id = review_id;
        publisher = publisher;
        reason = strip reason;
        appealed_at = now;
      })
      s

pub data Call : Type 0 where
  submits submits_manifest :
      (errors : Option String) (skill_name version publisher : String) → Time → Call
  approves rejects : (review_id reviewer comments : String) → Time → Call
  assigns : (review_id reviewer : String) → Time → Call
  appeals : (review_id publisher reason : String) → Time → Call

-- the directory after a call; one that raises changes nothing
abbrev after : Result Error (ReviewRecord × ReviewSystem) → ReviewSystem → ReviewSystem
after (ok (r, s')) s = s'
after (err _) s = s

abbrev kept_or : Result Error ReviewSystem → ReviewSystem → ReviewSystem
kept_or (ok s') s = s'
kept_or (err _) s = s

pub step : Call → ReviewSystem → ReviewSystem
unfolding submit_for_review submit_manifest_for_review approve reject assign_reviewer appeal
step (submits errors skill_name version publisher now) s =
    after (submit_for_review errors skill_name version publisher now s) s
step (submits_manifest errors skill_name version publisher now) s =
    after (submit_manifest_for_review errors skill_name version publisher now s) s
step (approves review_id reviewer comments now) s =
    after (approve review_id reviewer comments now s) s
step (rejects review_id reviewer reason now) s = after (reject review_id reviewer reason now s) s
step (assigns review_id reviewer now) s = kept_or (assign_reviewer review_id reviewer now s) s
step (appeals review_id publisher reason now) s =
    kept_or (appeal review_id publisher reason now s) s

pub run : List Call → ReviewSystem → ReviewSystem
unfolding step
run [] s = s
run (c ∷ calls) s = run calls (step c s)
