-- ===== src/Admission.antt =====
-- storage/writemanager/admission.rs: writes wait in a queue of tickets, a runner drains them in groups
-- and completes them in order. The two semaphores are their numbers of free permits, to which those count
-- that are set aside for a client which still waits; the channels that carry the answers are not here.
pub mod Drain
pub mod System
pub mod Tickets
use cere_db.Base.{
  ℕ, zero, suc, ◌+◌, ◌-◌, ◌*◌, ◌^◌, ◌%◌, min, max, ltb, leb, ◌==◌, ◌&&◌, ◌||◌, not, Bool, true,
  false, Option, none, some, List, [], ◌∷◌, ◌++◌, length, if◌then◌else◌,
}
use cere_db.Error.{Result, ok, err, storage_error}
use cere_db.Bytes.{Bytes}

abbrev pub max_admitted_requests : ℕ
max_admitted_requests = 64

abbrev pub admitted_byte_budget : ℕ
admitted_byte_budget = 16 * 1024 * 1024

-- api.rs
pub data BatchOperation : Type 0 where
  put_key : Bytes → Bytes → BatchOperation
  delete_key : Bytes → BatchOperation

-- A request holds one slot and `permits` of the byte budget until it is dropped.
pub record Request : Type 0 where
  pub operations : List BatchOperation
  pub ticket : ℕ
  pub byte_weight : ℕ
  pub permits : ℕ

pub record AdmissionQueue : Type 0 where
  pub requests : List Request
  pub running : Bool
  pub next_ticket : ℕ
  pub completed_ticket : ℕ
  pub slots : ℕ
  pub bytes : ℕ

abbrev pub new_queue : AdmissionQueue
new_queue = record {
  requests = [];
  running = Bool.false;
  next_ticket = 0;
  completed_ticket = 0;
  slots = max_admitted_requests;
  bytes = admitted_byte_budget;
}

pub record Enqueued : Type 0 where
  pub ticket : ℕ
  pub should_start_runner : Bool

-- `estimated_bytes.min(ADMITTED_BYTE_BUDGET as usize).max(1)`
abbrev pub byte_permits : ℕ → ℕ
byte_permits estimated_bytes = max (min estimated_bytes admitted_byte_budget) 1

-- The first await of `enqueue`: `none` while there is no free slot.
unfoldable pub acquire_slot : AdmissionQueue → Option AdmissionQueue
acquire_slot q = elim (ltb 0 q.slots) [
  | false ↦ none
  | true ↦ some (record q { slots = q.slots - 1 })
]

-- The slot of a client that is dropped before it has a request.
unfoldable pub release_slot : AdmissionQueue → AdmissionQueue
release_slot q = record q { slots = q.slots + 1 }

-- The second await of `enqueue`, with a slot in hand, ends when there are permits enough.
unfoldable pub has_permits : AdmissionQueue → ℕ → Bool
has_permits q estimated_bytes = leb (byte_permits estimated_bytes) q.bytes

-- The request takes the slot over.
unfoldable pub admit : AdmissionQueue → List BatchOperation → ℕ → AdmissionQueue
admit q operations estimated_bytes = record {
  requests =
      q.requests
      ++ (record {
        operations = operations;
        ticket = q.next_ticket + 1;
        byte_weight = estimated_bytes;
        permits = byte_permits estimated_bytes;
      })
        ∷ [];
  running = Bool.true;
  next_ticket = q.next_ticket + 1;
  completed_ticket = q.completed_ticket;
  slots = q.slots;
  bytes = q.bytes - byte_permits estimated_bytes;
}

-- `enqueue` from its second await on: `none` while it waits. If the tickets are exhausted the permits
-- and the slot are given back.
unfoldable pub enqueue_with_slot :
    AdmissionQueue → List BatchOperation → ℕ → Option (AdmissionQueue × Result Enqueued)
unfolding has_permits admit release_slot
enqueue_with_slot q operations estimated_bytes = elim (has_permits q estimated_bytes) [
  | false ↦ none
  | true ↦ elim (ltb (q.next_ticket + 1) (2 ^ 64)) [
    | false ↦ some (release_slot q, err (storage_error "write admission ticket exhausted"))
    | true ↦ some (
      admit q operations estimated_bytes,
      ok (record { ticket = q.next_ticket + 1; should_start_runner = not q.running }),
    )
  ]
]

-- `requests.iter().any(|request| request.byte_weight > max_bytes)`
unfoldable pub any_oversized : ℕ → List Request → Bool
any_oversized max_bytes [] = Bool.false
any_oversized max_bytes (r ∷ rs) = ltb max_bytes r.byte_weight || any_oversized max_bytes rs

unfoldable pub is_empty : List Request → Bool
is_empty [] = Bool.true
is_empty (r ∷ rs) = Bool.false

unfoldable pub exceeds_byte_limit : ℕ → List Request → ℕ → Request → Bool
unfolding any_oversized is_empty
exceeds_byte_limit max_bytes taken bytes next =
    not (is_empty taken)
    && (ltb (max_bytes - bytes) next.byte_weight || any_oversized max_bytes taken)

-- The loop of `drain_ready`, with the variables `requests` and `bytes` and the queue.
module _ (max_requests max_bytes : ℕ) where
  unfoldable pub drain : List Request → ℕ → List Request → List Request × List Request
  unfolding exceeds_byte_limit
  drain taken bytes [] = (taken, [])
  drain taken bytes (next ∷ queue) =
      elim (ltb (length taken) max_requests
        && not (exceeds_byte_limit max_bytes taken bytes next)) [
          | false ↦ (taken, next ∷ queue)
          | true ↦ elim (ltb max_bytes next.byte_weight) [
            | true ↦ (taken ++ next ∷ [], queue)
            | false ↦ drain (taken ++ next ∷ []) (min (bytes + next.byte_weight) (2 ^ 64 - 1)) queue
          ]
        ]

  -- Nothing is drained from an empty queue, and the runner stops.
  unfoldable pub drain_ready : AdmissionQueue → AdmissionQueue × Option (List Request)
  unfolding drain is_empty
  drain_ready q = elim (is_empty q.requests) [
    | true ↦ (record q { running = Bool.false }, none)
    | false ↦
        let (taken, rest) = drain [] 0 q.requests in (record q { requests = rest }, some taken)
  ]

-- A request that is dropped gives its permits back.
unfoldable pub release : AdmissionQueue → Request → AdmissionQueue
release q r = record q { slots = q.slots + 1; bytes = q.bytes + r.permits }

-- The increment wraps as in a release build. The request is dropped at the end, in order or not.
unfoldable pub complete : AdmissionQueue → Request → AdmissionQueue × Result (Unit {0})
unfolding release
complete q r =
    elim (not (r.ticket == (q.completed_ticket + 1) % 2 ^ 64) || ltb q.next_ticket r.ticket) [
      | true ↦ (release q r, err (storage_error "out-of-order write completion"))
      | false ↦ (record (release q r) { completed_ticket = r.ticket }, ok tt)
    ]
