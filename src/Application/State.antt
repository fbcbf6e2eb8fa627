-- ===== src/Application/State.antt =====
-- internal/application/state.go: the only allowed changes of an application's status.
pub mod Paths
use careerpilot.Base.{
  ◌<>◌, Bool, not, List, [], ◌∷◌, if◌then◌else◌, nat_eq, ◌==◌, string_eq, any, int_eq, Error,
  message, Result, ok, err,
}
use careerpilot.Application.Types.{
  status_eq, Status, discovered, qualified, preparing, review, ready, starting, navigating, filling,
  verifying, submitting, submitted, human_required, failed, expired, cancelled, status_text,
  Application,
}

unfoldable pub valid_transitions : Status → List Status
valid_transitions discovered = qualified ∷ cancelled ∷ []
valid_transitions qualified = preparing ∷ cancelled ∷ []
valid_transitions preparing = review ∷ cancelled ∷ []
valid_transitions review = ready ∷ preparing ∷ cancelled ∷ []
valid_transitions ready = starting ∷ cancelled ∷ []
valid_transitions starting = navigating ∷ failed ∷ cancelled ∷ []
valid_transitions navigating = filling ∷ human_required ∷ failed ∷ []
valid_transitions filling = verifying ∷ human_required ∷ failed ∷ []
valid_transitions verifying = submitting ∷ human_required ∷ failed ∷ []
valid_transitions submitting = submitted ∷ failed ∷ []
valid_transitions human_required = navigating ∷ filling ∷ verifying ∷ expired ∷ cancelled ∷ []
valid_transitions submitted = []
valid_transitions failed = []
valid_transitions expired = []
valid_transitions cancelled = []

unfoldable pub valid_transition : Status → Status → Bool
unfolding valid_transitions
valid_transition from to = any (λ allowed. allowed == to) (valid_transitions from)

-- `InvalidTransitionError` and its `Error` method.
abbrev pub invalid_transition : Status → Status → Error
invalid_transition from to =
    message
      ("application: invalid transition from " <> status_text from <> " to " <> status_text to)

unfoldable pub transition : Application → Status → Result Application
transition a to =
    if not (valid_transition a.status to)
    then err (invalid_transition a.status to)
    else ok (record a { status = to })
