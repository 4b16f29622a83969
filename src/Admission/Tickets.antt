-- ===== src/Admission/Tickets.antt =====
-- The tickets and permits of the admission queue over its steps.
use cere_db.Base.{
  ℕ, suc, ◌-◌, ◌+◌, ◌<◌, ◌^◌, ◌%◌, ◌≡◌, refl, sym, ap, ◌∙◌, ltb, ◌==◌, ◌||◌, not, true, false,
  Bool-cases, inl, inr, List, [], ◌∷◌, ◌++◌, append_assoc, length, length-append, arith, some, none,
}
use cere_db.Error.{Result, ok, err}
use cere_db.Admission.{
  BatchOperation, Request, AdmissionQueue, new_queue, Enqueued, acquire_slot, release_slot,
  has_permits, admit, enqueue_with_slot, drain, drain_ready, complete, release, byte_permits,
  is_empty,
}
use cere_db.Admission.Drain.{drain-split}
use cere_db.Admission.System.{
  Client, System, Step, arrived, enqueued, refused, dropped, drained, completed, Reaches, start,
  step, AreTickets, held, pending, IsConsistent,
}

AreTickets-append :
    (n : ℕ) (rs : List Request) (r : Request)
    → AreTickets n rs
    → r.ticket ≡ n + length rs + 1
    → AreTickets n (rs ++ r ∷ [])
AreTickets-append n [] r h e = (omega (arith, e), tt)
AreTickets-append n (s ∷ rs) r h e = (h.0, AreTickets-append (n + 1) rs r h.1 (omega (arith, e)))

held-append : (rs ss : List Request) → held (rs ++ ss) ≡ held rs + held ss
unfolding held
held-append [] ss = omega arith
held-append (r ∷ rs) ss = omega (arith, held-append rs ss)

-- A system in which a client waits, and one without this client.
module _ (q : AdmissionQueue) (before : List Client) (c : Client) (after : List Client)
    (in_flight : List Request) where
  abbrev waits : System
  waits = record { queue = q; waiting = before ++ c ∷ after; in_flight = in_flight }

  abbrev without : AdmissionQueue → System
  without p = record { queue = p; waiting = before ++ after; in_flight = in_flight }

  length-without : length (before ++ c ∷ after) ≡ suc (length (before ++ after))
  length-without = omega (arith, length-append before (c ∷ after), length-append before after)

  admit-IsConsistent :
      (operations : List BatchOperation) (n : ℕ)
      → has_permits q n ≡ true
      → q.next_ticket + 1 < 2 ^ 64
      → IsConsistent waits
      → IsConsistent (without (admit q operations n))
  unfolding has_permits admit
  admit-IsConsistent operations n a small h =
      let r : Request = record {
        operations = operations;
        ticket = q.next_ticket + 1;
        byte_weight = n;
        permits = byte_permits n;
      } in
      let same : pending waits ++ r ∷ [] ≡ in_flight ++ (q.requests ++ r ∷ []) =
        append_assoc in_flight q.requests (r ∷ []) in
      let more = length-append (pending waits) (r ∷ []) in
      let heavier = held-append (pending waits) (r ∷ []) in
      let one : held (r ∷ []) ≡ byte_permits n = unfold held in omega arith in
      record {
        tickets = rw same at (
            AreTickets-append q.completed_ticket (pending waits) r h.tickets
              (omega (arith, h.next)));
        bound = small;
        next = rw (sym same) (omega (arith, h.next, more));
        slots = rw (sym same) (omega (arith, h.slots, more, length-without));
        bytes = rw (sym same) (ground (arith, h.bytes, heavier, one, a));
      }

  release_slot-IsConsistent : IsConsistent waits → IsConsistent (without (release_slot q))
  unfolding release_slot
  release_slot-IsConsistent h = record {
    tickets = h.tickets;
    bound = h.bound;
    next = h.next;
    slots = omega (arith, h.slots, length-without);
    bytes = h.bytes;
  }

  enqueue_with_slot-IsConsistent :
      (operations : List BatchOperation) (n : ℕ) (p : AdmissionQueue) (e : Result Enqueued)
      → enqueue_with_slot q operations n ≡ some (p, e)
      → IsConsistent waits
      → IsConsistent (without p)
  unfolding enqueue_with_slot
  enqueue_with_slot-IsConsistent operations n p e h w = elim (Bool-cases (has_permits q n)) [
    | inr a ↦ absurd (ground (arith, h, a))
    | inl a ↦ elim (Bool-cases (ltb (q.next_ticket + 1) (2 ^ 64))) [
      | inr o ↦
          let same : release_slot q ≡ p = ground (arith, h, a, o) in
          rw (sym same) (release_slot-IsConsistent w)
      | inl o ↦
          let same : admit q operations n ≡ p = ground (arith, h, a, o) in
          rw (sym same) (admit-IsConsistent operations n a (ground (arith, o)) w)
    ]
  ]

acquire_slot-IsConsistent :
    (s : System) (c : Client) (q : AdmissionQueue)
    → acquire_slot s.queue ≡ some q
    → IsConsistent s
    → IsConsistent (record s { queue = q; waiting = s.waiting ++ c ∷ [] })
unfolding acquire_slot
acquire_slot-IsConsistent s c q h w = elim (Bool-cases (ltb 0 s.queue.slots)) [
  | inr f ↦ absurd (ground (arith, h, f))
  | inl t ↦
      let same : record s.queue { slots = s.queue.slots - 1 } ≡ q = ground (arith, h, t) in
      rw (sym same) (record {
        tickets = w.tickets;
        bound = w.bound;
        next = w.next;
        slots = ground (arith, w.slots, t, length-append s.waiting (c ∷ []));
        bytes = w.bytes;
      })
]

-- A consistent system with a part of its queue moved to the requests in flight.
move-IsConsistent :
    (s : System) (taken rest : List Request)
    → taken ++ rest ≡ s.queue.requests
    → IsConsistent s
    → IsConsistent
        (record s { queue = record s.queue { requests = rest }; in_flight = s.in_flight ++ taken })
move-IsConsistent s taken rest e c =
    let same : (s.in_flight ++ taken) ++ rest ≡ pending s =
      append_assoc s.in_flight taken rest ∙ ap (λ rs. s.in_flight ++ rs) e in
    record {
      tickets = rw same c.tickets;
      bound = c.bound;
      next = rw same c.next;
      slots = rw same c.slots;
      bytes = rw same c.bytes;
    }

drain_ready-cons :
    (max_requests max_bytes : ℕ) (q : AdmissionQueue) (r : Request) (rs : List Request)
    → q.requests ≡ r ∷ rs
    → drain_ready max_requests max_bytes q ≡ (
      record q { requests = (drain max_requests max_bytes [] 0 q.requests).1 },
      some (drain max_requests max_bytes [] 0 q.requests).0,
    )
unfolding drain_ready is_empty
drain_ready-cons max_requests max_bytes q r rs e = rw e refl

drain_ready-nil :
    (max_requests max_bytes : ℕ) (q : AdmissionQueue)
    → q.requests ≡ []
    → (drain_ready max_requests max_bytes q).1 ≡ none
unfolding drain_ready is_empty
drain_ready-nil max_requests max_bytes q e = rw e refl

drain_ready-split :
    (max_requests max_bytes : ℕ) (q q' : AdmissionQueue) (taken : List Request)
    → drain_ready max_requests max_bytes q ≡ (q', some taken)
    → (rest : List Request) × (q' ≡ record q { requests = rest }) × (taken ++ rest ≡ q.requests)
drain_ready-split max_requests max_bytes q q' taken h = split q.requests refl
  where
    split :
        (rs : List Request)
        → q.requests ≡ rs
        → (rest : List Request) × (q' ≡ record q { requests = rest }) × (taken ++ rest ≡ q.requests)
    split [] e =
        let none_taken : none ≡ some taken =
          sym (drain_ready-nil max_requests max_bytes q e) ∙ ap (λ p. p.1) h in
        absurd (ground (arith, none_taken))
    split (r ∷ rs) e =
        let same = sym h ∙ drain_ready-cons max_requests max_bytes q r rs e in
        let first : taken ≡ (drain max_requests max_bytes [] 0 q.requests).0 =
          ground (arith, ap (λ p. p.1) same) in
        (
          (drain max_requests max_bytes [] 0 q.requests).1,
          ap (λ p. p.0) same,
          rw first (drain-split max_requests max_bytes [] 0 q.requests),
        )

complete-IsConsistent :
    (q : AdmissionQueue) (waiting : List Client) (r : Request) (rs : List Request)
    → IsConsistent (record { queue = q; waiting = waiting; in_flight = r ∷ rs })
    → ((complete q r).1 ≡ ok tt)
      × IsConsistent (record { queue = (complete q r).0; waiting = waiting; in_flight = rs })
unfolding complete release held
complete-IsConsistent q waiting r rs c =
    let more = length-append (r ∷ rs) q.requests in
    let wraps : (q.completed_ticket + 1) % 2 ^ 64 ≡ q.completed_ticket + 1 =
      omega (arith, c.bound, c.next, more) in
    let test : (not (r.ticket == (q.completed_ticket + 1) % 2 ^ 64) || ltb q.next_ticket r.ticket)
        ≡ false =
      rw wraps (ground (arith, c.tickets.0, c.next)) in
    rw (test, complete)
      (
        refl,
        record {
          tickets = rw c.tickets.0 c.tickets.1;
          bound = c.bound;
          next = omega (arith, c.next, c.tickets.0);
          slots = omega (arith, c.slots);
          bytes = omega (arith, c.bytes);
        },
      )

Step-IsConsistent :
    (max_requests max_bytes : ℕ) (s t : System)
    → Step max_requests max_bytes s t
    → IsConsistent s
    → IsConsistent t
Step-IsConsistent max_requests max_bytes s t (arrived before c q h) w =
    acquire_slot-IsConsistent before c q h w
Step-IsConsistent max_requests max_bytes s t (enqueued q before c after in_flight p e h) w =
    enqueue_with_slot-IsConsistent q before c after in_flight c.operations c.estimated_bytes p
      (ok e) h w
Step-IsConsistent max_requests max_bytes s t (refused q before c after in_flight p e h) w =
    enqueue_with_slot-IsConsistent q before c after in_flight c.operations c.estimated_bytes p
      (err e) h w
Step-IsConsistent max_requests max_bytes s t (dropped q before c after in_flight) w =
    release_slot-IsConsistent q before c after in_flight w
Step-IsConsistent max_requests max_bytes s t (drained before q taken h) c =
    let (rest, same, split) = drain_ready-split max_requests max_bytes before.queue q taken h in
    rw same (move-IsConsistent before taken rest split c)
Step-IsConsistent max_requests max_bytes s t (completed q waiting r rs) c =
    (complete-IsConsistent q waiting r rs c).1

new_queue-IsConsistent : IsConsistent (record { queue = new_queue; waiting = []; in_flight = [] })
unfolding held
new_queue-IsConsistent = record {
  tickets = tt;
  bound = omega arith;
  next = refl;
  slots = refl;
  bytes = refl;
}

-- In every state that clients and the runner reach, the requests that are not completed have the tickets
-- behind the last completed one, in order, up to the last ticket that was handed out; the byte permits
-- that are not free are exactly those of these requests, and the slots that are not free are exactly those
-- of these requests and of the clients that wait for byte permits.
pub Reaches-IsConsistent :
    (max_requests max_bytes : ℕ) (s : System) → Reaches max_requests max_bytes s → IsConsistent s
Reaches-IsConsistent max_requests max_bytes s start = new_queue-IsConsistent
Reaches-IsConsistent max_requests max_bytes t (step {s} r h) =
    Step-IsConsistent max_requests max_bytes s t h (Reaches-IsConsistent max_requests max_bytes s r)

-- In every state that clients and the runner reach, completing the oldest request in flight succeeds.
pub complete-Reaches :
    (max_requests max_bytes : ℕ) (q : AdmissionQueue) (waiting : List Client) (r : Request)
    (rs : List Request)
    → Reaches max_requests max_bytes (record { queue = q; waiting = waiting; in_flight = r ∷ rs })
    → (complete q r).1 ≡ ok tt
complete-Reaches max_requests max_bytes q waiting r rs h =
    (complete-IsConsistent q waiting r rs (
      Reaches-IsConsistent max_requests max_bytes
        (record { queue = q; waiting = waiting; in_flight = r ∷ rs }) h)).0
