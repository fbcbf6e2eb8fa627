-- ===== src/Application/Queue/Complete.antt =====
-- The review queue leaves nothing out.
use careerpilot.Base.{◌≡◌, ◌≢◌, ◌↔◌, false, List, [], ◌∷◌, ◌++◌, arith, All}
use careerpilot.Application.Types
use careerpilot.Application.Types.{Answer, Application, status_eq, answer_status_eq, AnswerStatus}
use careerpilot.Application.Queue.{answer_items, application_items, build_review_queue}

answer_items-found :
    (a : Application) (answers : List Answer)
    → ((answer_items a answers).1 ≡ false) ↔ ((answer_items a answers).0 ≡ [])
unfolding answer_items
answer_items-found a [] = ground arith
answer_items-found a (answer ∷ answers) = ground (arith, answer_items-found a answers)

answer_items-empty :
    (a : Application) (answers : List Answer)
    → ((answer_items a answers).0 ≡ []) ↔ All (λ x. x.status ≢ AnswerStatus.review) answers
unfolding answer_items
answer_items-empty a [] = ground arith
answer_items-empty a (answer ∷ answers) = ground (arith, answer_items-empty a answers)

-- No application waits and none of its answers does.
pub record IsSettled (a : Application) : Type 0 where
  pub not_waiting : a.status ≢ Types.Status.review
  pub answers_settled : All (λ x. x.status ≢ AnswerStatus.review) a.answers

application_items-empty : (a : Application) → (application_items a ≡ []) ↔ IsSettled a
unfolding application_items
application_items-empty a =
    ground (arith, answer_items-found a a.answers, answer_items-empty a a.answers)

append-empty : {A : Type 0} (xs ys : List A) → (xs ++ ys ≡ []) ↔ ((xs ≡ []) × (ys ≡ []))
append-empty [] ys = ground arith
append-empty (x ∷ xs) ys = ground arith

-- The review queue is empty exactly when no application is in REVIEW and none has an answer in
-- REVIEW: nothing that needs a person is left out, and nothing else is put in.
pub build_review_queue-empty :
    (apps : List Application) → (build_review_queue apps ≡ []) ↔ All IsSettled apps
unfolding build_review_queue
build_review_queue-empty [] = ground arith
build_review_queue-empty (a ∷ apps) = ground (
  arith,
  append-empty (application_items a) (build_review_queue apps),
  application_items-empty a,
  build_review_queue-empty apps,
)
