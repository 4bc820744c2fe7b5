-- ===== src/Operation.antt =====
-- redpanda/utils/utils.go, AreWeDoneYet: waiting for a control-plane operation.
-- The closure's variables `op` and `lastSuccessfulPoll` join the state that Retry runs over.
pub mod Polling
pub mod History
pub mod Outcome
mod Tests
use terraform_provider_redpa.Base.{
  ℕ, zero, suc, ◌+◌, ◌-◌, ◌*◌, ◌/◌, ◌%◌, ◌^◌, ◌≤◌, ◌<◌, ◌≡◌, refl, sym, ap, ◌∙◌, ◌≢◌, ◌↔◌, ◌⊎◌, inl,
  inr, Bool, true, false, not, ◌&&◌, ◌||◌, Option, none, some, List, [], ◌∷◌, ◌++◌, map, arith, ltb,
  leb, ◌==◌, if◌then◌else◌, ltb→lt, ==_iff, ==_refl, Bool-cases, is_some, Option-cases, length,
  drop, length-append, length-drop, drop-append, All, All-append, Text, codes, same, is_empty,
  strip, has_prefix, or_else, trim_prefix, trim_suffix, contains, to_lower, cut, split, trim_func,
  trim_space, trim_quotes, join, same_sound, same_refl, same_iff, strip-append, strip_sound,
  has_prefix-append, trim_prefix-append, contains-append_middle, to_lower-append, Dict, lookup,
  insert, delete, lookup-insert, lookup-delete,
}
use terraform_provider_redpa.Errors.{
  GoError, plain_error, Reply, reply, refused, is_transient_server_error,
}
use terraform_provider_redpa.Retry.{
  World, RetryError, retryable_error, non_retryable_error, RetryResult, retry,
}

-- `other` carries the name that the state prints as.
pub data OperationState : Type 0 where
  completed failed : OperationState
  other : Text → OperationState

pub record Operation : Type 0 where
  pub id : Text
  pub state : OperationState
  pub error_message : Text

-- The control plane, the outside of Retry, and the texts that other libraries make: a duration's, and
-- what `fmt.Errorf` with `%w` makes of a text and an error.
pub record Server (W : Type 0) : Type 0 where
  pub world : World W
  pub get_operation : Text → W → Reply (Option Operation) × W
  pub duration_text : ℕ → Text
  pub wrap : Text → GoError → GoError

pub record Poll (W : Type 0) : Type 0 where
  pub op : Option Operation
  pub last_successful_poll : ℕ
  pub outside : W

-- `op.GetId()`, also on nil.
abbrev pub get_id : Option Operation → Text
get_id none = []
get_id (some op) = op.id

-- Five minutes in nanoseconds.
abbrev pub max_stuck : ℕ
max_stuck = 300000000000

unfoldable pub stuck_cap : ℕ → ℕ
stuck_cap timeout = if ltb max_stuck (timeout / 6) then max_stuck else timeout / 6

-- The end of the closure: what the operation's state means for the loop.
unfoldable pub verdict : Option Operation → Option RetryError
unfolding non_retryable_error retryable_error
verdict none = none
verdict (some op) = elim op.state [
  | completed ↦ none
  | failed ↦
      some
        (non_retryable_error (some (plain_error (codes "operation failed: " ++ op.error_message))))
  | other name ↦ some (
      retryable_error
        (some (plain_error (codes "expected operation to be completed but was in state " ++ name))))
]

module _ {W : Type 0} (server : Server W) (timeout : ℕ) where
  -- The error branch: stuck for longer than the cap, transient, or final.
  unfoldable pub on_error : GoError → ℕ → Option RetryError
  unfolding non_retryable_error retryable_error
  on_error err stuck_for =
      if is_transient_server_error (some err)
      then if ltb (stuck_cap timeout) stuck_for
        then some (
            non_retryable_error (
              some (
                server.wrap
                  (codes "server unresponsive for "
                    ++ (server.duration_text stuck_for
                        ++ (codes " (stuck cap "
                            ++ (server.duration_text (stuck_cap timeout) ++ codes ")"))))
                  err)))
        else some (retryable_error (some err))
      else some (non_retryable_error (some err))

  abbrev receive : Poll W → Reply (Option Operation) × W → Option RetryError × Poll W
  receive p (refused err, o) =
      (on_error err (server.world.now o - p.last_successful_poll), record p { outside = o })
  receive p (reply latest, o) = (
    verdict latest,
    record { op = latest; last_successful_poll = server.world.now o; outside = o },
  )

  -- The closure that is retried.
  unfoldable pub poll_operation : Poll W → Option RetryError × Poll W
  unfolding on_error verdict
  poll_operation p = receive p (server.get_operation (get_id p.op) p.outside)

  abbrev awake : Poll W → W × Option GoError → Poll W × Option GoError
  awake p (o, e) = (record p { outside = o }, e)

  abbrev drawn : Poll W → ℕ × W → ℕ × Poll W
  drawn p (n, o) = (n, record p { outside = o })

  -- The outside of Retry, seen through the closure's variables.
  abbrev pub poll_world : World (Poll W)
  poll_world = record {
    now = λ p. server.world.now p.outside;
    rand = λ n p. drawn p (server.world.rand n p.outside);
    wait = λ d p. awake p (server.world.wait d p.outside);
  }

  unfoldable pub are_we_done_yet :
      (initial most fuel : ℕ) → Option Operation → W → Option (RetryResult × Poll W)
  are_we_done_yet initial most fuel op o =
      retry poll_world poll_operation timeout initial most fuel
        (record { op = op; last_successful_poll = server.world.now o; outside = o })
