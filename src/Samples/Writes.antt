-- ===== src/Samples/Writes.antt =====
-- The theorems on admission, at concrete inputs.
use cere_db.Base.{◌≤◌, ◌≡◌, ◌≢◌, refl, Bool, List, [], ◌∷◌, ◌++◌, length, arith, some, none}
use cere_db.Error.{ok}
use cere_db.Admission.{
  BatchOperation, put_key, delete_key, Request, AdmissionQueue, new_queue, admit, has_permits,
  acquire_slot, enqueue_with_slot, drain, drain_ready, exceeds_byte_limit, is_empty, any_oversized,
  complete,
}
use cere_db.Admission.Drain.{IsWithin, drain_ready-IsWithin}
use cere_db.Admission.System.{
  Client, System, arrived, enqueued, drained, Reaches, start, step, IsConsistent,
}
use cere_db.Admission.Tickets.{Reaches-IsConsistent, complete-Reaches}

abbrev puts : List BatchOperation
puts = put_key (97 ∷ []) (1 ∷ []) ∷ []

abbrev deletes : List BatchOperation
deletes = delete_key (97 ∷ []) ∷ []

abbrev first_request : Request
first_request = record { operations = puts; ticket = 1; byte_weight = 2; permits = 2 }

abbrev second_request : Request
second_request = record { operations = deletes; ticket = 2; byte_weight = 0; permits = 1 }

abbrev one_waits : AdmissionQueue
one_waits = record {
  requests = first_request ∷ [];
  running = Bool.true;
  next_ticket = 1;
  completed_ticket = 0;
  slots = 63;
  bytes = 16777214;
}

abbrev two_wait : AdmissionQueue
two_wait = record {
  requests = first_request ∷ second_request ∷ [];
  running = Bool.true;
  next_ticket = 2;
  completed_ticket = 0;
  slots = 62;
  bytes = 16777213;
}

abbrev first_client : Client
first_client = record { operations = puts; estimated_bytes = 2 }

abbrev second_client : Client
second_client = record { operations = deletes; estimated_bytes = 0 }

-- A client that wants more bytes than there are: it waits with a slot.
abbrev third_client : Client
third_client = record { operations = puts; estimated_bytes = 20000000 }

abbrev three_slots : AdmissionQueue
three_slots = record two_wait { slots = 61 }

first_arrived : acquire_slot new_queue ≡ some (record new_queue { slots = 63 })
unfolding acquire_slot
first_arrived = refl

first_enqueued :
    enqueue_with_slot (record new_queue { slots = 63 }) puts 2
    ≡ some (one_waits, ok (record { ticket = 1; should_start_runner = Bool.true }))
unfolding enqueue_with_slot has_permits admit
first_enqueued = refl

second_arrived : acquire_slot one_waits ≡ some (record one_waits { slots = 62 })
unfolding acquire_slot
second_arrived = refl

second_enqueued :
    enqueue_with_slot (record one_waits { slots = 62 }) deletes 0
    ≡ some (two_wait, ok (record { ticket = 2; should_start_runner = Bool.false }))
unfolding enqueue_with_slot has_permits admit
second_enqueued = refl

third_arrived : acquire_slot two_wait ≡ some three_slots
unfolding acquire_slot
third_arrived = refl

third_waits : enqueue_with_slot three_slots puts 20000000 ≡ none
unfolding enqueue_with_slot has_permits
third_waits = refl

-- At most one request of at most four bytes.
one_drained :
    drain_ready 1 4 three_slots
    ≡ (record three_slots { requests = second_request ∷ [] }, some (first_request ∷ []))
unfolding drain_ready drain exceeds_byte_limit is_empty any_oversized
one_drained = refl

abbrev started : System
started = record { queue = new_queue; waiting = []; in_flight = [] }

abbrev first_system : System
first_system = record { queue = one_waits; waiting = []; in_flight = [] }

abbrev second_system : System
second_system = record { queue = two_wait; waiting = []; in_flight = [] }

abbrev third_system : System
third_system = record { queue = three_slots; waiting = third_client ∷ []; in_flight = [] }

abbrev drained_system : System
drained_system = record {
  queue = record three_slots { requests = second_request ∷ [] };
  waiting = third_client ∷ [];
  in_flight = first_request ∷ [];
}

first_system-Reaches : Reaches 1 4 first_system
first_system-Reaches =
    step (step start (arrived started first_client (record new_queue { slots = 63 }) first_arrived))
      (enqueued (record new_queue { slots = 63 }) [] first_client [] [] one_waits
        (record { ticket = 1; should_start_runner = Bool.true }) first_enqueued)

second_system-Reaches : Reaches 1 4 second_system
second_system-Reaches =
    step
      (step first_system-Reaches
        (arrived first_system second_client (record one_waits { slots = 62 }) second_arrived))
      (enqueued (record one_waits { slots = 62 }) [] second_client [] [] two_wait
        (record { ticket = 2; should_start_runner = Bool.false }) second_enqueued)

pub drained-Reaches : Reaches 1 4 drained_system
drained-Reaches =
    step (step second_system-Reaches (arrived second_system third_client three_slots third_arrived))
      (drained third_system (record three_slots { requests = second_request ∷ [] })
        (first_request ∷ []) one_drained)

two_wait_ne : two_wait.requests ≢ []
two_wait_ne h = absurd (ground (arith, h))

Reaches-IsConsistent_example : IsConsistent drained_system
Reaches-IsConsistent_example = Reaches-IsConsistent 1 4 drained_system drained-Reaches

complete-Reaches_example :
    (complete (record three_slots { requests = second_request ∷ [] }) first_request).1 ≡ ok tt
complete-Reaches_example =
    complete-Reaches 1 4 (record three_slots { requests = second_request ∷ [] }) (third_client ∷ [])
      first_request [] drained-Reaches

drain_ready-IsWithin_example :
    (taken rest : List Request) × (drain_ready 1 4 two_wait
      ≡ (record two_wait { requests = rest }, some taken))
    × (taken ++ rest ≡ two_wait.requests)
    × IsWithin 1 4 taken
    × (1 ≤ length taken)
drain_ready-IsWithin_example =
    drain_ready-IsWithin 1 4 (omega arith) two_wait (omega arith) two_wait_ne
