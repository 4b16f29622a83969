-- ===== src/Admission/System.antt =====
-- The admission queue, its clients and its runner as steps, and the consistency of their state.
use cere_db.Base.{ℕ, ◌+◌, ◌<◌, ◌^◌, ◌≡◌, List, [], ◌∷◌, ◌++◌, length, some}
use cere_db.Error.{DbError, ok, err}
use cere_db.Admission.{
  BatchOperation, Request, AdmissionQueue, new_queue, Enqueued, acquire_slot, release_slot,
  enqueue_with_slot, drain_ready, complete, max_admitted_requests, admitted_byte_budget,
}

-- A client that has a slot and waits for its byte permits.
pub record Client : Type 0 where
  pub operations : List BatchOperation
  pub estimated_bytes : ℕ

-- The queue, the clients that wait with a slot, and the requests that the runner has drained and not
-- completed.
pub record System : Type 0 where
  pub queue : AdmissionQueue
  pub waiting : List Client
  pub in_flight : List Request

-- A client takes a slot; a client that waits, whichever it is, enqueues, is refused or is dropped; the
-- runner drains, and completes the requests it has drained in order.
pub data Step (max_requests max_bytes : ℕ) : System → System → Type 0 where
  arrived :
      (s : System) (c : Client) (q : AdmissionQueue)
      → acquire_slot s.queue ≡ some q
      → Step max_requests max_bytes s (record s { queue = q; waiting = s.waiting ++ c ∷ [] })
  enqueued :
      (q : AdmissionQueue) (before : List Client) (c : Client) (after : List Client)
      (in_flight : List Request) (p : AdmissionQueue) (e : Enqueued)
      → enqueue_with_slot q c.operations c.estimated_bytes ≡ some (p, ok e)
      → Step max_requests max_bytes
          (record { queue = q; waiting = before ++ c ∷ after; in_flight = in_flight })
          (record { queue = p; waiting = before ++ after; in_flight = in_flight })
  refused :
      (q : AdmissionQueue) (before : List Client) (c : Client) (after : List Client)
      (in_flight : List Request) (p : AdmissionQueue) (e : DbError)
      → enqueue_with_slot q c.operations c.estimated_bytes ≡ some (p, err e)
      → Step max_requests max_bytes
          (record { queue = q; waiting = before ++ c ∷ after; in_flight = in_flight })
          (record { queue = p; waiting = before ++ after; in_flight = in_flight })
  dropped :
      (q : AdmissionQueue) (before : List Client) (c : Client) (after : List Client)
      (in_flight : List Request)
      → Step max_requests max_bytes
          (record { queue = q; waiting = before ++ c ∷ after; in_flight = in_flight })
          (record { queue = release_slot q; waiting = before ++ after; in_flight = in_flight })
  drained :
      (s : System) (q : AdmissionQueue) (taken : List Request)
      → drain_ready max_requests max_bytes s.queue ≡ (q, some taken)
      → Step max_requests max_bytes s (record s { queue = q; in_flight = s.in_flight ++ taken })
  completed :
      (q : AdmissionQueue) (waiting : List Client) (r : Request) (rs : List Request)
      → Step max_requests max_bytes
          (record { queue = q; waiting = waiting; in_flight = r ∷ rs })
          (record { queue = (complete q r).0; waiting = waiting; in_flight = rs })

pub data Reaches (max_requests max_bytes : ℕ) : System → Type 0 where
  start :
      Reaches max_requests max_bytes (record { queue = new_queue; waiting = []; in_flight = [] })
  step :
      {s t : System}
      → Reaches max_requests max_bytes s
      → Step max_requests max_bytes s t
      → Reaches max_requests max_bytes t

-- The tickets count up from the one behind `n`.
abbrev pub AreTickets : ℕ → List Request → Type 0
AreTickets n [] = Unit {0}
AreTickets n (r ∷ rs) = (r.ticket ≡ n + 1) × AreTickets (n + 1) rs

unfoldable pub held : List Request → ℕ
held [] = 0
held (r ∷ rs) = r.permits + held rs

-- All requests that are not completed, oldest first.
abbrev pub pending : System → List Request
pending s = s.in_flight ++ s.queue.requests

pub record IsConsistent (s : System) : Type 0 where
  pub tickets : AreTickets s.queue.completed_ticket (pending s)
  pub bound : s.queue.next_ticket < 2 ^ 64
  pub next : s.queue.next_ticket ≡ s.queue.completed_ticket + length (pending s)
  pub slots : s.queue.slots + (length s.waiting + length (pending s)) ≡ max_admitted_requests
  pub bytes : s.queue.bytes + held (pending s) ≡ admitted_byte_budget
