-- ===== src/Operation/Tests.antt =====
-- Waiting for an operation against a scripted server: the clock, and the answers still to come.
use terraform_provider_redpa.Base.{
  ℕ, ◌+◌, ◌≤◌, ◌≡◌, false, Option, none, some, List, [], ◌∷◌, arith, Text, codes,
}
use terraform_provider_redpa.Errors.{GoError, internal, Reply, reply, refused}
use terraform_provider_redpa.Retry.{RetryResult}
use terraform_provider_redpa.Retry.Round.{IsSane}
use terraform_provider_redpa.Operation.{Operation, completed, other, Server, Poll, are_we_done_yet}
use terraform_provider_redpa.Operation.Outcome.{IsServerClock, Concludes, are_we_done_yet_ends}

abbrev Script : Type 0
Script = ℕ × List (Reply (Option Operation))

abbrev glitch : GoError
glitch = record {
  text = codes "glitch";
  has_not_found_error = false;
  status =
      some (record { code = internal; code_text = codes "Internal"; message = []; details = none });
}

abbrev answer : Text → Script → Reply (Option Operation) × Script
answer id (t, []) = (refused glitch, (t, []))
answer id (t, a ∷ rest) = (a, (t, rest))

abbrev scripted : Server Script
scripted = record {
  world = record { now = λ s. s.0; rand = λ n s. (0, s); wait = λ d s. ((s.0 + d, s.1), none) };
  get_operation = answer;
  duration_text = λ d. codes "some time";
  wrap = λ text err. record err { text = text };
}

answer-later : (id : Text) (s : Script) → s.0 ≤ (answer id s).1.0
answer-later id (t, []) = omega arith
answer-later id (t, a ∷ rest) = omega arith

scripted-IsServerClock : IsServerClock scripted
scripted-IsServerClock = record {
  call_later = answer-later;
  rand_later = λ n s. omega arith;
  rand_below = λ n s h. h;
  wait_lasts = λ d s e. omega arith;
}

abbrev pending : Operation
pending = record { id = codes "op"; state = other (codes "STATE_IN_PROGRESS"); error_message = [] }

abbrev answers : List (Reply (Option Operation))
answers =
    refused glitch ∷ reply (some pending) ∷ reply (some (record pending { state = completed })) ∷ []

small-IsSane : IsSane 10 40
small-IsSane = record {
  initial_pos = omega arith;
  most_pos = omega arith;
  initial_small = omega arith;
  most_small = omega arith;
}

are_we_done_yet_ends_example :
    (r : RetryResult) × (p : Poll Script) × (are_we_done_yet scripted 600 10 40 602
        (some pending)
        (0, answers)
      ≡ some (r, p))
    × Concludes scripted 600 scripted-IsServerClock (some pending) (0, answers) 600 r p
are_we_done_yet_ends_example =
    are_we_done_yet_ends scripted 600 scripted-IsServerClock (some pending) (0, answers)
      small-IsSane

abbrev start : Poll Script
start = record { op = some pending; last_successful_poll = 0; outside = (0, answers) }
