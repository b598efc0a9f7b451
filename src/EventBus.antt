-- ===== src/EventBus.antt =====
-- orchestration/event-bus.ts, `EventBus`. The chain of `emitQueue` is a list of the events that
-- wait in it. An event is taken from it and handled in one step, with the subscribers that join
-- meanwhile: the loop over the subscribers reads the list that they join. What is emitted meanwhile
-- is as what is emitted before. The type, the payload and the time of an event are one text.
pub mod Order
mod Examples
use open_dynamic_workflow.Base.{
  ℕ, suc, ◌+◌, String, Bool, true, false, List, [], ◌∷◌, ◌++◌, if◌then◌else◌,
}

pub record EventEnvelope : Type 0 where
  pub sequence : ℕ
  pub payload : String

-- The fields of the bus, and of its environment: the lines of events.jsonl, the calls of the
-- subscribers, and the promises of `emit` that are settled, as resolved or not.
pub record EventBus : Type 0 where
  pub subscribers : List ℕ
  pub sequence : ℕ
  pub emit_queue : List EventEnvelope
  pub lines : List EventEnvelope
  pub handled : List (ℕ × ℕ)
  pub settled : List (ℕ × Bool)

unfoldable pub new : List ℕ → EventBus
new subscribers = record {
  subscribers = subscribers;
  sequence = 0;
  emit_queue = [];
  lines = [];
  handled = [];
  settled = [];
}

unfoldable pub emit : String → EventBus → EventBus
emit payload s = record s {
  sequence = s.sequence + 1;
  emit_queue = s.emit_queue ++ record { sequence = s.sequence + 1; payload = payload } ∷ [];
}

unfoldable pub subscribe : ℕ → EventBus → EventBus
subscribe subscriber s = record s { subscribers = s.subscribers ++ subscriber ∷ [] }

-- The loop over the subscribers, up to the first that throws: who was called, and whether all were.
unfoldable pub notify : (ℕ → Bool) → List ℕ → List ℕ × Bool
notify throws [] = ([], true)
notify throws (x ∷ xs) =
    let rest = notify throws xs in if throws x then (x ∷ [], false) else (x ∷ rest.0, rest.1)

abbrev calls : ℕ → List ℕ → List (ℕ × ℕ)
calls sequence [] = []
calls sequence (x ∷ xs) = (sequence, x) ∷ calls sequence xs

-- The next event of the queue, with who joins from the append to the end of the loop, whether the store
-- takes the event and who throws on it.
abbrev pub handle_event : List ℕ → Bool → (ℕ → Bool) → List EventEnvelope → EventBus → EventBus
handle_event joining stored throws [] s = s
handle_event joining stored throws (e ∷ rest) s =
    let subscribers = s.subscribers ++ joining in
    let called = notify throws subscribers in
    if stored
    then record s {
      subscribers = subscribers;
      emit_queue = rest;
      lines = s.lines ++ e ∷ [];
      handled = s.handled ++ calls e.sequence called.0;
      settled = s.settled ++ (e.sequence, called.1) ∷ [];
    }
    else record s {
      subscribers = subscribers;
      emit_queue = rest;
      settled = s.settled ++ (e.sequence, false) ∷ [];
    }

pub data Call : Type 0 where
  emits : String → Call
  subscribes : ℕ → Call
  handles : List ℕ → Bool → (ℕ → Bool) → Call

unfoldable pub step : Call → EventBus → EventBus
unfolding emit subscribe notify
step (emits payload) s = emit payload s
step (subscribes subscriber) s = subscribe subscriber s
step (handles joining stored throws) s = handle_event joining stored throws s.emit_queue s

unfoldable pub run : List Call → EventBus → EventBus
unfolding step
run [] s = s
run (c ∷ cs) s = run cs (step c s)
