-- ===== src/Application/Queue.antt =====
-- internal/application/review_queue.go: what waits for a person.
pub mod Complete
use careerpilot.Base.{
  String, Bool, true, false, not, ◌&&◌, List, [], ◌∷◌, ◌++◌, if◌then◌else◌, nat_eq, ◌==◌, string_eq,
  int_eq,
}
use careerpilot.Application.Types
use careerpilot.Application.Types.{Answer, Application, status_eq, answer_status_eq, AnswerStatus}

pub record ReviewItem : Type 0 where
  pub application_id : String
  pub job_id : String
  pub answer_id : String
  pub reason : String

abbrev answer_item : Application → Answer → ReviewItem
answer_item a answer = record {
  application_id = a.id;
  job_id = a.job_id;
  answer_id = answer.id;
  reason = answer.reason;
}

abbrev application_item : Application → ReviewItem
application_item a = record {
  application_id = a.id;
  job_id = a.job_id;
  answer_id = "";
  reason = "application awaiting review (e.g. resume approval)";
}

-- The inner loop, and whether it set `foundAnswerReview`.
unfoldable pub answer_items : Application → List Answer → List ReviewItem × Bool
answer_items a [] = ([], false)
answer_items a (answer ∷ answers) =
    let rest = answer_items a answers in
    if answer.status == AnswerStatus.review then (answer_item a answer ∷ rest.0, true) else rest

-- The body of the outer loop: the items that it appends.
unfoldable pub application_items : Application → List ReviewItem
application_items a =
    let (items, found) = answer_items a a.answers in
    if (a.status == Types.Status.review) && not found
    then items ++ (application_item a ∷ [])
    else items

unfoldable pub build_review_queue : List Application → List ReviewItem
build_review_queue [] = []
build_review_queue (a ∷ apps) = application_items a ++ build_review_queue apps
