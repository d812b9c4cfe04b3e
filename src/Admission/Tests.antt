-- ===== src/Admission/Tests.antt =====
-- A request that is active while the server begins to drain, and a commit after it.
use muxvia.Prelude.{◌≡◌, refl, [], ◌∷◌, List}
use muxvia.Admission.{
  Operation, begins, drains, releases, commits, new_admission, history, committed,
}
use muxvia.Admission.Packed.{Agrees, history-Agrees}

abbrev drained_once : List Operation
drained_once = begins ∷ drains ∷ begins ∷ commits ∷ drains ∷ releases ∷ commits ∷ []

drained_once_commits : (history new_admission drained_once).reservation ≡ committed
unfolding history
drained_once_commits = refl

history-Agrees_example : Agrees (history new_admission drained_once)
history-Agrees_example = history-Agrees drained_once
