-- ===== src/Manifest/CompactionTrip.antt =====
-- The entry of a compaction and its binary form, for any number of inputs and outputs.
use cere_db.Base.{
  ℕ, ◌+◌, ◌*◌, ◌<◌, ◌≤◌, ◌^◌, ◌≡◌, ◌≢◌, refl, ap, sym, ◌∙◌, Option, none, some, List, [], ◌∷◌, ◌++◌,
  append-nil, append_assoc, length, length-append, arith, All,
}
use cere_db.Error.{ok, bind-ok_lem, eq_of_ok}
use cere_db.Bytes.{Bytes, to_be_bytes}
use cere_db.Bytes.RoundTrip.{length-to_be_bytes}
use cere_db.Bytes.Reads.{
  Reads, Reads-read_be, Reads-read_exact, Reads-bind, Reads-bind_last, Reads-lift, Reads-guard,
  Reads-pure,
}
use cere_db.Bytes.Ends.{
  Ends, Ends-Reads, Ends-pure_eq, Ends-bind, Ends-then, Ends-lift, Ends-guard, Ends-remaining,
  Reads-remaining,
}
use cere_db.Manifest.{SsTableMeta}
use cere_db.Manifest.Encode.{
  encode_add_payload, encode_remove_payload, encode_removals, encode_output,
  encode_compaction_payload, encode_outputs,
}
use cere_db.Manifest.Decode.{
  decode_add_payload, read_removals, decode_rest, compaction_reader, decode_compaction_payload,
  read_outputs, outputs_reader, decode_compaction_outputs,
}
use cere_db.Manifest.RoundTrip.{
  Fits, try_u32-ok, push_bytes-ok, field, add_bytes, encode_add_payload-ok,
  decode_add_payload-encode, read_slice-Ends,
}

abbrev pub FitRemoval : ℕ × ℕ → Type 0
FitRemoval r = (r.0 < 2 ^ 32) × (r.1 < 2 ^ 64)

Reads-read_removals :
    (rs : List (ℕ × ℕ))
    → All FitRemoval rs
    → Reads (read_removals (length rs)) (encode_removals rs) rs
unfolding read_removals encode_removals encode_remove_payload
Reads-read_removals [] h = Reads-pure []
Reads-read_removals ((level, id) ∷ rs) h = rw append_assoc (
    Reads-bind _ (Reads-read_be 4 level (omega (arith, h.0.0))) (
      Reads-bind _ (Reads-read_be 8 id (omega (arith, h.0.1)))
        (Reads-bind_last _ (Reads-read_removals rs h.1) (Reads-pure _))))

length-encode_removals : (rs : List (ℕ × ℕ)) → length (encode_removals rs) ≡ 12 * length rs
unfolding encode_removals encode_remove_payload
length-encode_removals [] = refl
length-encode_removals ((level, id) ∷ rs) = omega (
  arith,
  length-append (to_be_bytes 4 level ++ to_be_bytes 8 id) (encode_removals rs),
  length-append (to_be_bytes 4 level) (to_be_bytes 8 id),
  length-to_be_bytes 4 level,
  length-to_be_bytes 8 id,
  length-encode_removals rs,
)

-- What is left behind the removals.
decode_rest-some :
    (m : SsTableMeta) (added : Bytes)
    → added ≢ []
    → decode_add_payload added ≡ ok m
    → decode_rest added ≡ ok (some m)
unfolding decode_rest
decode_rest-some m [] ne e = absurd (ne refl)
decode_rest-some m (b ∷ bs) ne e = ground (arith, e)

abbrev pub FitsOption : Option SsTableMeta → Type 0
FitsOption none = Unit {0}
FitsOption (some m) = Fits m

add_bytes-pos : (m : SsTableMeta) → 4 ≤ length (add_bytes m)
add_bytes-pos m = rw length-append (rw length-to_be_bytes (omega arith))

added-ne : (m : SsTableMeta) (added : Bytes) → encode_add_payload m ≡ ok added → added ≢ []
added-ne m added e z =
    let same : added ≡ add_bytes m = (encode_add_payload-ok m added e).1 in
    let none_left : length (add_bytes m) ≡ 0 = ap length (sym same ∙ z) in
    omega (arith, none_left, add_bytes-pos m)

decode_rest-encode_output :
    (o : Option SsTableMeta) (added : Bytes)
    → FitsOption o
    → encode_output o ≡ ok added
    → decode_rest added ≡ ok o
unfolding encode_output decode_rest
decode_rest-encode_output none added f e = let same : added ≡ [] = ground arith in rw same refl
decode_rest-encode_output (some m) added f e =
    decode_rest-some m added (added-ne m added e) (decode_add_payload-encode m added f e)

compaction_reader-Ends :
    (rs : List (ℕ × ℕ)) (o : Option SsTableMeta) (added : Bytes)
    → All FitRemoval rs
    → length rs < 2 ^ 32
    → decode_rest added ≡ ok o
    → Ends
        (compaction_reader (length (to_be_bytes 4 (length rs) ++ (encode_removals rs ++ added))))
        (to_be_bytes 4 (length rs) ++ (encode_removals rs ++ added))
        (rs, o)
unfolding compaction_reader
compaction_reader-Ends rs o added h n e =
    let l1 = length-append (to_be_bytes 4 (length rs)) (encode_removals rs ++ added) in
    let l2 = length-append (encode_removals rs) added in
    let l3 = length-to_be_bytes 4 (length rs) in
    let l4 = length-encode_removals rs in
    Ends-bind _ (Reads-read_be 4 _ (omega arith)) (
      Ends-guard _ (ground (arith, l1, l2, l3, l4)) (
        Ends-bind _ (Reads-read_removals rs h) (
          Ends-remaining _ (
            Ends-then _ (Ends-Reads (Reads-read_exact added))
              (Ends-lift _ e (Ends-pure_eq refl))))))

encode_compaction_payload-ok :
    (rs : List (ℕ × ℕ)) (o : Option SsTableMeta) (out : Bytes)
    → encode_compaction_payload rs o ≡ ok out
    → (added : Bytes) × (encode_output o ≡ ok added)
      × (length rs < 2 ^ 32)
      × (out ≡ to_be_bytes 4 (length rs) ++ (encode_removals rs ++ added))
unfolding encode_compaction_payload
encode_compaction_payload-ok rs o out h =
    let (count, e, h') = bind-ok_lem _ _ _ h in
    let (added, e', h'') = bind-ok_lem _ _ _ h' in
    let (small, same) = try_u32-ok (length rs) _ count e in
    let whole : out ≡ to_be_bytes 4 count ++ (encode_removals rs ++ added) =
      sym (eq_of_ok _ _ h'') in
    (added, e', small, rw same at whole)

-- Without an output the payload is the removals alone.
pub encode_removals_only :
    (rs : List (ℕ × ℕ)) (out : Bytes)
    → encode_compaction_payload rs none ≡ ok out
    → (length rs < 2 ^ 32) × (out ≡ to_be_bytes 4 (length rs) ++ encode_removals rs)
unfolding encode_output
encode_removals_only rs out h =
    let (added, e, small, same) = encode_compaction_payload-ok rs none out h in
    let nothing : added ≡ [] = sym (eq_of_ok _ _ e) in (small, rw (nothing, append-nil) at same)

-- A compaction with at most one output.
pub decode_compaction_payload-encode :
    (rs : List (ℕ × ℕ)) (o : Option SsTableMeta) (out : Bytes)
    → All FitRemoval rs
    → FitsOption o
    → encode_compaction_payload rs o ≡ ok out
    → decode_compaction_payload out ≡ ok (rs, o)
unfolding decode_compaction_payload
decode_compaction_payload-encode rs o out h f e =
    let (added, e', small, same) = encode_compaction_payload-ok rs o out e in
    rw same (
      read_slice-Ends _ _ _
        (compaction_reader-Ends rs o added h small (decode_rest-encode_output o added f e')))

encode_outputs-ok :
    (m : SsTableMeta) (ms : List SsTableMeta) (out : Bytes)
    → encode_outputs (m ∷ ms) ≡ ok out
    → (payload rest : Bytes) × (encode_add_payload m ≡ ok payload)
      × (encode_outputs ms ≡ ok rest)
      × (length payload < 2 ^ 32)
      × (out ≡ field payload ++ rest)
unfolding encode_outputs
encode_outputs-ok m ms out h =
    let (payload, e, h1) = bind-ok_lem _ _ _ h in
    let (output, e', h2) = bind-ok_lem _ _ _ h1 in
    let (rest, e'', h3) = bind-ok_lem _ _ _ h2 in
    let (small, same) = push_bytes-ok payload output e' in
    let whole : out ≡ output ++ rest = sym (eq_of_ok _ _ h3) in
    (payload, rest, e, e'', small, rw same at whole)

length-field : (v : Bytes) → length (field v) ≡ 4 + length v
length-field v =
    omega (arith, length-append (to_be_bytes 4 (length v)) v, length-to_be_bytes 4 (length v))

length-encode_outputs :
    (ms : List SsTableMeta) (out : Bytes) → encode_outputs ms ≡ ok out → 4 * length ms ≤ length out
unfolding encode_outputs
length-encode_outputs [] out e = omega arith
length-encode_outputs (m ∷ ms) out e =
    let (payload, rest, e1, e2, small, same) = encode_outputs-ok m ms out e in
    omega (
      arith,
      ap length same,
      length-append (field payload) rest,
      length-field payload,
      length-encode_outputs ms rest e2,
    )

Reads-read_outputs :
    (ms : List SsTableMeta) (out : Bytes)
    → All Fits ms
    → encode_outputs ms ≡ ok out
    → Reads (read_outputs (length ms)) out ms
unfolding read_outputs encode_outputs
Reads-read_outputs [] out f e = let same : out ≡ [] = ground arith in rw same (Reads-pure [])
Reads-read_outputs (m ∷ ms) out f e =
    let (payload, rest, e1, e2, small, same) = encode_outputs-ok m ms out e in
    rw (same, append_assoc)
      (Reads-bind _ (Reads-read_be 4 _ (omega arith)) (
        Reads-remaining _ (λ n h. Reads-guard _ (ground (arith, h, length-append payload rest)) (
          Reads-bind _ (Reads-read_exact payload) (
            Reads-lift _ (decode_add_payload-encode m payload f.0 e1)
              (Reads-bind_last _ (Reads-read_outputs ms rest f.1 e2) (Reads-pure (m ∷ ms))))))))

-- The payload of a compaction with several outputs.
abbrev pub outputs_bytes : List (ℕ × ℕ) → List SsTableMeta → Bytes → Bytes
outputs_bytes rs ms out =
    to_be_bytes 4 (length rs) ++ (encode_removals rs ++ (to_be_bytes 4 (length ms) ++ out))

outputs_reader-Ends :
    (rs : List (ℕ × ℕ)) (ms : List SsTableMeta) (out : Bytes)
    → All FitRemoval rs
    → All Fits ms
    → length rs < 2 ^ 32
    → length ms < 2 ^ 32
    → encode_outputs ms ≡ ok out
    → Ends (outputs_reader (length (outputs_bytes rs ms out))) (outputs_bytes rs ms out) (rs, ms)
unfolding outputs_reader
outputs_reader-Ends rs ms out h f n k e =
    let l1 =
      length-append (to_be_bytes 4 (length rs))
        (encode_removals rs ++ (to_be_bytes 4 (length ms) ++ out)) in
    let l2 = length-append (encode_removals rs) (to_be_bytes 4 (length ms) ++ out) in
    let l3 = length-to_be_bytes 4 (length rs) in
    let l4 = length-encode_removals rs in
    let l5 = length-append (to_be_bytes 4 (length ms)) out in
    let l6 = length-to_be_bytes 4 (length ms) in
    let l7 = length-encode_outputs ms out e in
    Ends-bind _ (Reads-read_be 4 _ (omega arith)) (
      Ends-guard _ (ground (arith, l1, l2, l3, l4, l5, l6)) (
        Ends-bind _ (Reads-read_removals rs h) (
          Ends-bind _ (Reads-read_be 4 _ (omega arith)) (
            Ends-remaining _ (
              Ends-guard _ (ground (arith, l7)) (
                Ends-then _ (Ends-Reads (Reads-read_outputs ms out f e))
                  (Ends-remaining _ (Ends-guard _ (ground arith) (Ends-pure_eq refl)))))))))

pub decode_compaction_outputs-encode :
    (rs : List (ℕ × ℕ)) (ms : List SsTableMeta) (out : Bytes)
    → All FitRemoval rs
    → All Fits ms
    → length rs < 2 ^ 32
    → length ms < 2 ^ 32
    → encode_outputs ms ≡ ok out
    → decode_compaction_outputs (outputs_bytes rs ms out) ≡ ok (rs, ms)
unfolding decode_compaction_outputs
decode_compaction_outputs-encode rs ms out h f n k e =
    read_slice-Ends _ _ _ (outputs_reader-Ends rs ms out h f n k e)
