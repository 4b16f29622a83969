-- ===== src/Admission/Drain.antt =====
-- What a drain of the admission queue takes, against its limits.
use cere_db.Base.{
  ℕ, ◌+◌, ◌-◌, ◌≤◌, ◌<◌, ◌^◌, ◌≡◌, ◌≢◌, refl, ◌∙◌, ◌⊎◌, inl, inr, min, ltb, ◌&&◌, not, true, false,
  Bool-cases, List, [], ◌∷◌, ◌++◌, append_assoc, length, length-append, arith, some,
}
use cere_db.Admission.{Request, AdmissionQueue, is_empty, exceeds_byte_limit, drain, drain_ready}

-- The bytes of some requests.
unfoldable pub weight : List Request → ℕ
weight [] = 0
weight (r ∷ rs) = r.byte_weight + weight rs

weight-append : (rs ss : List Request) → weight (rs ++ ss) ≡ weight rs + weight ss
unfolding weight
weight-append [] ss = omega arith
weight-append (r ∷ rs) ss = omega (arith, weight-append rs ss)

-- What has been taken is within the limits; only a single request may be larger.
abbrev pub IsWithin : ℕ → ℕ → List Request → Type 0
IsWithin max_requests max_bytes taken =
    (length taken ≤ max_requests) × ((weight taken ≤ max_bytes) ⊎ (length taken ≡ 1))

taken_ne : (taken : List Request) → is_empty taken ≡ false → 1 ≤ length taken
unfolding is_empty
taken_ne [] h = absurd (ground (arith, h))
taken_ne (r ∷ rs) h = omega arith

taken_nil : (taken : List Request) → is_empty taken ≡ true → taken ≡ []
unfolding is_empty
taken_nil [] h = refl
taken_nil (r ∷ rs) h = absurd (ground (arith, h))

-- What the loop's test says when it goes on.
go-facts :
    (max_requests max_bytes bytes : ℕ) (taken : List Request) (next : Request)
    → (ltb (length taken) max_requests && not (exceeds_byte_limit max_bytes taken bytes next))
      ≡ true
    → (length taken < max_requests)
      × ((is_empty taken ≡ true) ⊎ (next.byte_weight ≤ max_bytes - bytes))
unfolding exceeds_byte_limit
go-facts max_requests max_bytes bytes taken next go = elim (Bool-cases (is_empty taken)) [
  | inl e ↦ (ground (arith, go), inl e)
  | inr e ↦ (ground (arith, go), inr (ground (arith, go, e)))
]

-- The next request fits with those that have been taken.
fits-weight :
    (max_bytes bytes : ℕ) (taken : List Request) (next : Request)
    → bytes ≡ weight taken
    → weight taken ≤ max_bytes
    → next.byte_weight ≤ max_bytes
    → (is_empty taken ≡ true) ⊎ (next.byte_weight ≤ max_bytes - bytes)
    → weight taken + next.byte_weight ≤ max_bytes
fits-weight max_bytes bytes taken next e w f (inl h) =
    let none_yet : weight taken ≡ 0 = rw (taken_nil taken h) (unfold weight in refl) in
    omega (arith, none_yet)
fits-weight max_bytes bytes taken next e w f (inr h) = omega (arith, e)

-- A request over the limit is taken alone.
alone :
    (max_bytes bytes : ℕ) (taken : List Request) (next : Request)
    → max_bytes < next.byte_weight
    → (is_empty taken ≡ true) ⊎ (next.byte_weight ≤ max_bytes - bytes)
    → length (taken ++ next ∷ []) ≡ 1
alone max_bytes bytes taken next big (inl h) = rw (taken_nil taken h) refl
alone max_bytes bytes taken next big (inr h) = absurd (omega (arith, big, h))

-- Whatever the limits, what is taken and what is left are the queue.
pub drain-split :
    (max_requests max_bytes : ℕ) (taken : List Request) (bytes : ℕ) (queue : List Request)
    → (drain max_requests max_bytes taken bytes queue).0
        ++ (drain max_requests max_bytes taken bytes queue).1
      ≡ taken ++ queue
unfolding drain
drain-split max_requests max_bytes taken bytes [] = refl
drain-split max_requests max_bytes taken bytes (next ∷ queue) =
    elim (Bool-cases
      (ltb (length taken) max_requests && not (exceeds_byte_limit max_bytes taken bytes next))) [
        | inr stop ↦ rw (stop, drain) refl
        | inl go ↦ elim (Bool-cases (ltb max_bytes next.byte_weight)) [
          | inl big ↦ rw (go, drain, big) (append_assoc taken (next ∷ []) queue)
          | inr fits ↦
              rw (go, drain, fits)
                (drain-split max_requests max_bytes (taken ++ next ∷ [])
                    (min (bytes + next.byte_weight) (2 ^ 64 - 1)) queue
                  ∙ append_assoc taken (next ∷ []) queue)
        ]
      ]

module _ (max_requests max_bytes : ℕ) (small : max_bytes < 2 ^ 64) where
  drain-IsWithin :
      (taken : List Request) (bytes : ℕ) (queue : List Request)
      → bytes ≡ weight taken
      → weight taken ≤ max_bytes
      → length taken ≤ max_requests
      → ((drain max_requests max_bytes taken bytes queue).0
            ++ (drain max_requests max_bytes taken bytes queue).1
          ≡ taken ++ queue)
        × IsWithin max_requests max_bytes (drain max_requests max_bytes taken bytes queue).0
        × (length taken ≤ length (drain max_requests max_bytes taken bytes queue).0)
  unfolding drain
  drain-IsWithin taken bytes [] e w l = (refl, (l, inl w), omega arith)
  drain-IsWithin taken bytes (next ∷ queue) e w l =
      elim (Bool-cases
        (ltb (length taken) max_requests && not (exceeds_byte_limit max_bytes taken bytes next))) [
          | inr stop ↦ rw (stop, drain) (refl, (l, inl w), omega arith)
          | inl go ↦ elim (Bool-cases (ltb max_bytes next.byte_weight)) [
            | inl big ↦
                let (room, single) = go-facts max_requests max_bytes bytes taken next go in
                let more = length-append taken (next ∷ []) in
                rw (go, drain, big)
                  (
                    append_assoc taken (next ∷ []) queue,
                    (
                      omega (arith, more, room),
                      inr (alone max_bytes bytes taken next (ground (arith, big)) single),
                    ),
                    omega (arith, more),
                  )
            | inr fits ↦
                let (room, single) = go-facts max_requests max_bytes bytes taken next go in
                let more = length-append taken (next ∷ []) in
                let heavier = weight-append taken (next ∷ []) in
                let one : weight (next ∷ []) ≡ next.byte_weight = unfold weight in omega arith in
                let within =
                  fits-weight max_bytes bytes taken next e w (ground (arith, fits)) single in
                let (same, bound, longer) =
                  drain-IsWithin (taken ++ next ∷ []) (min (bytes + next.byte_weight) (2 ^ 64 - 1))
                    queue (omega (arith, e, heavier, one, within, small))
                    (omega (arith, heavier, one, within)) (omega (arith, more, room)) in
                rw (go, drain, fits)
                  (same ∙ append_assoc taken (next ∷ []) queue, bound, omega (arith, longer, more))
          ]
        ]

  drain_ready-first :
      (next : Request) (queue : List Request)
      → 0 < max_requests
      → 1 ≤ length (drain max_requests max_bytes [] 0 (next ∷ queue)).0
  unfolding drain exceeds_byte_limit is_empty
  drain_ready-first next queue h =
      let pos : ltb 0 max_requests ≡ true = ground (arith, h) in
      elim (Bool-cases (ltb max_bytes next.byte_weight)) [
        | inl big ↦ rw (pos, drain, big) (omega arith)
        | inr fits ↦
            let one : weight (next ∷ []) ≡ next.byte_weight = unfold weight in omega arith in
            let (same, bound, longer) =
              drain-IsWithin (next ∷ []) (min (0 + next.byte_weight) (2 ^ 64 - 1)) queue
                (ground (arith, one, fits, small)) (ground (arith, one, fits)) (omega (arith, h)) in
            rw (pos, drain, fits) longer
      ]

  -- With limits that fit their types and a limit on requests that is not zero, a drain of a queue that
  -- is not empty takes at least one request and leaves the rest in order; it takes no more requests
  -- than it may, and no more bytes than it may unless it takes a single request.
  pub drain_ready-IsWithin :
      (q : AdmissionQueue)
      → 0 < max_requests
      → q.requests ≢ []
      → (taken rest : List Request) × (drain_ready max_requests max_bytes q
          ≡ (record q { requests = rest }, some taken))
        × (taken ++ rest ≡ q.requests)
        × IsWithin max_requests max_bytes taken
        × (1 ≤ length taken)
  unfolding drain_ready is_empty
  drain_ready-IsWithin q h ne = split q q.requests refl h ne
    where
      split :
          (q : AdmissionQueue) (rs : List Request)
          → q.requests ≡ rs
          → 0 < max_requests
          → q.requests ≢ []
          → (taken rest : List Request) × (drain_ready max_requests max_bytes q
              ≡ (record q { requests = rest }, some taken))
            × (taken ++ rest ≡ q.requests)
            × IsWithin max_requests max_bytes taken
            × (1 ≤ length taken)
      split q [] e h ne = absurd (ne e)
      split q (next ∷ queue) e h ne =
          let (same, bound, longer) =
            drain-IsWithin [] 0 (next ∷ queue) (unfold weight in refl)
              (unfold weight in omega arith) (omega arith) in
          (
            (drain max_requests max_bytes [] 0 (next ∷ queue)).0,
            (drain max_requests max_bytes [] 0 (next ∷ queue)).1,
            rw e refl,
            rw e same,
            bound,
            drain_ready-first next queue h,
          )
