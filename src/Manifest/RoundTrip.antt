-- ===== src/Manifest/RoundTrip.antt =====
-- The manifest's entries and their binary form.
use cere_db.Base.{
  ℕ, ◌+◌, ◌<◌, ◌≤◌, ◌^◌, ◌≡◌, refl, ap, sym, true, ◌++◌, append_assoc, length, length-append, arith,
  ltb, leb, ◌==◌, ==_refl,
}
use cere_db.Error.{DbError, ok}
use cere_db.Bytes.{Bytes, to_be_bytes, from_be_bytes}
use cere_db.Bytes.Reader.{Reader}
use cere_db.Bytes.RoundTrip.{from_be_bytes-to_be_bytes, length-to_be_bytes}
use cere_db.Bytes.Reads.{
  Reads, Reads-read_be, Reads-read_exact, Reads-read_bytes, Reads-bind, Reads-bind_last,
  Reads-guard, Reads-pure, Reads-pure_eq,
}
use cere_db.Bytes.Ends.{
  Ends, Ends-Reads, Ends-pure_eq, Ends-bind, Ends-then, Ends-remaining, Reads-remaining,
}
use cere_db.Utf8.{is_utf8}
use cere_db.Manifest.{SsTableMeta, RecoveryCheckpoint}
use cere_db.Manifest.Encode.{
  try_u32, encode_entry, push_bytes, encode_add_payload, encode_remove_payload,
  encode_checkpoint_payload, encode_recovery_payload,
}
use cere_db.Manifest.Decode.{
  read_slice, decode_entry, read_vec, read_string, read_bloom_place, read_keys, add_reader,
  decode_add_payload, decode_remove_payload, decode_checkpoint_payload, decode_recovery_payload,
}

-- What the integer types of a table's entry hold; its path is a string.
pub record Fits (m : SsTableMeta) : Type 0 where
  pub level : m.level < 2 ^ 32
  pub file_id : m.file_id < 2 ^ 64
  pub record_count : m.record_count < 2 ^ 64
  pub bloom_offset : m.bloom_offset < 2 ^ 64
  pub bloom_size : m.bloom_size < 2 ^ 64
  pub path : is_utf8 m.path ≡ true

pub try_u32-ok : (n : ℕ) (e : DbError) (k : ℕ) → try_u32 n e ≡ ok k → (n < 2 ^ 32) × (k ≡ n)
unfolding try_u32
try_u32-ok n e k h = ground arith

-- The bytes of a field that fits.
abbrev pub field : Bytes → Bytes
field v = to_be_bytes 4 (length v) ++ v

pub push_bytes-ok : (v out : Bytes) → push_bytes v ≡ ok out → (length v < 2 ^ 32) × (out ≡ field v)
unfolding push_bytes try_u32
push_bytes-ok v out h = ground arith

abbrev pub add_bytes : SsTableMeta → Bytes
add_bytes m =
    to_be_bytes 4 m.level
    ++ (to_be_bytes 8 m.file_id
        ++ (to_be_bytes 8 m.record_count
            ++ (field m.path
                ++ (to_be_bytes 8 m.bloom_offset
                    ++ (to_be_bytes 8 m.bloom_size
                        ++ (field m.smallest_key ++ field m.largest_key))))))

abbrev pub AreShort : SsTableMeta → Type 0
AreShort m =
    (length m.path < 2 ^ 32) × (length m.smallest_key < 2 ^ 32) × (length m.largest_key < 2 ^ 32)

pub encode_add_payload-ok :
    (m : SsTableMeta) (out : Bytes)
    → encode_add_payload m ≡ ok out
    → AreShort m × (out ≡ add_bytes m)
unfolding encode_add_payload push_bytes try_u32
encode_add_payload-ok m out h = ground arith

Reads-read_vec : (v : Bytes) → length v < 2 ^ 32 → Reads read_vec (field v) v
unfolding read_vec
Reads-read_vec v h = Reads-bind _ (Reads-read_be 4 _ (omega arith)) (Reads-read_exact v)

Reads-read_string :
    (v : Bytes) → length v < 2 ^ 32 → is_utf8 v ≡ true → Reads read_string (field v) v
unfolding read_string
Reads-read_string v h u = Reads-bind_last _ (Reads-read_vec v h) (Reads-guard _ u (Reads-pure v))

Reads-read_bloom_place :
    (left a b : ℕ)
    → 16 ≤ left
    → a < 2 ^ 64
    → b < 2 ^ 64
    → Reads (read_bloom_place left) (to_be_bytes 8 a ++ to_be_bytes 8 b) (a, b)
unfolding read_bloom_place
Reads-read_bloom_place left a b h ha hb =
    let e : leb 16 left ≡ true = ground arith in
    rw (e, read_bloom_place)
      (Reads-bind _ (Reads-read_be 8 a (omega arith))
        (Reads-bind_last _ (Reads-read_be 8 b (omega arith)) (Reads-pure _)))

Reads-read_keys :
    (left : ℕ) (a b : Bytes)
    → 0 < left
    → length a < 2 ^ 32
    → length b < 2 ^ 32
    → Reads (read_keys left) (field a ++ field b) (a, b)
unfolding read_keys
Reads-read_keys left a b h ha hb =
    let e : ltb 0 left ≡ true = ground arith in
    rw (e, read_keys)
      (Reads-bind _ (Reads-read_vec a ha) (Reads-bind_last _ (Reads-read_vec b hb) (Reads-pure _)))

length-field : (v : Bytes) → length (field v) ≡ 4 + length v
length-field v =
    omega (arith, length-append (to_be_bytes 4 (length v)) v, length-to_be_bytes 4 (length v))

add_reader-Ends : (m : SsTableMeta) → Fits m → AreShort m → Ends add_reader (add_bytes m) m
unfolding add_reader
add_reader-Ends m fits short =
    let keys : Bytes = field m.smallest_key ++ field m.largest_key in
    let place : Bytes = to_be_bytes 8 m.bloom_offset ++ to_be_bytes 8 m.bloom_size in
    let grouped : place ++ keys
        ≡ to_be_bytes 8 m.bloom_offset ++ (to_be_bytes 8 m.bloom_size ++ keys) =
      append_assoc (to_be_bytes 8 m.bloom_offset) (to_be_bytes 8 m.bloom_size) keys in
    let l1 = length-append (field m.smallest_key) (field m.largest_key) in
    let l2 = length-field m.smallest_key in
    let l3 = length-append place keys in
    let l4 = length-append (to_be_bytes 8 m.bloom_offset) (to_be_bytes 8 m.bloom_size) in
    let l5 = length-to_be_bytes 8 m.bloom_offset in
    let l6 = length-to_be_bytes 8 m.bloom_size in
    Ends-bind _ (Reads-read_be 4 _ (omega (arith, fits.level))) (
      Ends-bind _ (Reads-read_be 8 _ (omega (arith, fits.file_id))) (
        Ends-bind _ (Reads-read_be 8 _ (omega (arith, fits.record_count))) (
          Ends-bind _ (Reads-read_string m.path short.0 fits.path) (
            Ends-remaining _ (
              rw (sym grouped) (
                Ends-bind _
                  (Reads-read_bloom_place _ _ _ (omega arith) fits.bloom_offset fits.bloom_size)
                  (Ends-remaining _ (
                    Ends-then _
                      (Ends-Reads (
                        Reads-read_keys _ m.smallest_key m.largest_key (omega arith) short.1
                          short.2))
                      (Ends-pure_eq refl)))))))))

pub read_slice-Ends {ℓ} :
    {A : Type ℓ} (m : Reader A) (xs : Bytes) (a : A) → Ends m xs a → read_slice m xs ≡ ok a
unfolding read_slice
read_slice-Ends m xs a h = ground (arith, h.at)

pub decode_add_payload-encode :
    (m : SsTableMeta) (out : Bytes)
    → Fits m
    → encode_add_payload m ≡ ok out
    → decode_add_payload out ≡ ok m
unfolding decode_add_payload
decode_add_payload-encode m out fits e =
    let (short, same) = encode_add_payload-ok m out e in
    rw same (read_slice-Ends add_reader (add_bytes m) m (add_reader-Ends m fits short))

pub decode_remove_payload-encode :
    (level file_id : ℕ)
    → level < 2 ^ 32
    → file_id < 2 ^ 64
    → decode_remove_payload (encode_remove_payload level file_id) ≡ ok (level, file_id)
unfolding decode_remove_payload encode_remove_payload
decode_remove_payload-encode level file_id h k =
    let e : (length (encode_remove_payload level file_id) == 12) ≡ true =
      unfold encode_remove_payload in
      ground (
        arith,
        length-append (to_be_bytes 4 level) (to_be_bytes 8 file_id),
        length-to_be_bytes 4 level,
        length-to_be_bytes 8 file_id,
      ) in
    rw (e, decode_remove_payload)
      (read_slice-Ends _ _ _ (
        Ends-Reads (
          Reads-bind _ (Reads-read_be 4 _ (omega arith))
            (Reads-bind_last _ (Reads-read_be 8 _ (omega arith)) (Reads-pure _)))))

pub decode_checkpoint_payload-encode :
    (lsn segment : ℕ)
    → lsn < 2 ^ 64
    → segment < 2 ^ 64
    → decode_checkpoint_payload (encode_checkpoint_payload lsn segment) ≡ ok (lsn, segment)
unfolding decode_checkpoint_payload encode_checkpoint_payload
decode_checkpoint_payload-encode lsn segment h k =
    let e : (length (encode_checkpoint_payload lsn segment) == 16) ≡ true =
      unfold encode_checkpoint_payload in
      ground (
        arith,
        length-append (to_be_bytes 8 lsn) (to_be_bytes 8 segment),
        length-to_be_bytes 8 lsn,
        length-to_be_bytes 8 segment,
      ) in
    rw (e, decode_checkpoint_payload)
      (read_slice-Ends _ _ _ (
        Ends-Reads (
          Reads-bind _ (Reads-read_be 8 _ (omega arith))
            (Reads-bind_last _ (Reads-read_be 8 _ (omega arith)) (Reads-pure _)))))

pub record FitsRecovery (c : RecoveryCheckpoint) : Type 0 where
  pub replay_start_segment : c.replay_start_segment < 2 ^ 64
  pub next_physical_lsn : c.next_physical_lsn < 2 ^ 64
  pub committed_sequence : c.committed_sequence < 2 ^ 64

pub decode_recovery_payload-encode :
    (c : RecoveryCheckpoint)
    → FitsRecovery c
    → decode_recovery_payload (encode_recovery_payload c) ≡ ok c
unfolding decode_recovery_payload encode_recovery_payload
decode_recovery_payload-encode c fits =
    let a : Bytes = to_be_bytes 8 c.replay_start_segment in
    let b : Bytes = to_be_bytes 8 c.next_physical_lsn in
    let d : Bytes = to_be_bytes 8 c.committed_sequence in
    let e : (length (encode_recovery_payload c) == 24) ≡ true =
      unfold encode_recovery_payload in
      ground (
        arith,
        length-append a (b ++ d),
        length-append b d,
        length-to_be_bytes 8 c.replay_start_segment,
        length-to_be_bytes 8 c.next_physical_lsn,
        length-to_be_bytes 8 c.committed_sequence,
      ) in
    rw (e, decode_recovery_payload)
      (read_slice-Ends _ _ _ (
        Ends-Reads (
          Reads-bind _ (Reads-read_be 8 _ (omega (arith, fits.replay_start_segment))) (
            Reads-bind _ (Reads-read_be 8 _ (omega (arith, fits.next_physical_lsn))) (
              Reads-bind_last _ (Reads-read_be 8 _ (omega (arith, fits.committed_sequence)))
                (Reads-pure _))))))

-- The bytes of an entry.
abbrev pub entry_bytes : (Bytes → ℕ) → ℕ → Bytes → Bytes
entry_bytes crc32 kind payload =
    let bytes = to_be_bytes 1 kind ++ (to_be_bytes 4 (length payload) ++ payload) in
    bytes ++ to_be_bytes 4 (crc32 bytes)

pub encode_entry-ok :
    (crc32 : Bytes → ℕ) (kind : ℕ) (payload out : Bytes)
    → encode_entry crc32 kind payload ≡ ok out
    → (length payload < 2 ^ 32) × (out ≡ entry_bytes crc32 kind payload)
unfolding encode_entry try_u32
encode_entry-ok crc32 kind payload out h = ground arith

module _ (crc32 : Bytes → ℕ) (crc32_u32 : (bs : Bytes) → crc32 bs < 2 ^ 32) where
  -- An entry is read back, whatever follows it.
  pub decode_entry-Reads :
      (kind : ℕ) (payload : Bytes)
      → kind < 256
      → length payload < 2 ^ 32
      → Reads (decode_entry crc32) (entry_bytes crc32 kind payload) (kind, payload)
  unfolding decode_entry
  decode_entry-Reads kind payload hk hp =
      let k : Bytes = to_be_bytes 1 kind in
      let l : Bytes = to_be_bytes 4 (length payload) in
      let c : Bytes = to_be_bytes 4 (crc32 (k ++ (l ++ payload))) in
      let split : entry_bytes crc32 kind payload ≡ k ++ (l ++ (payload ++ c)) = simp append_assoc in
      let len : from_be_bytes l ≡ length payload =
        from_be_bytes-to_be_bytes 4 (length payload) (omega arith) in
      let l1 = length-append k (l ++ (payload ++ c)) in
      let l2 = length-append l (payload ++ c) in
      let l3 = length-append payload c in
      let l4 = length-to_be_bytes 1 kind in
      let l5 = length-to_be_bytes 4 (length payload) in
      let l6 = length-to_be_bytes 4 (crc32 (k ++ (l ++ payload))) in
      rw split (
        Reads-remaining _ (λ n h. Reads-guard _ (ground (arith, h, l1, l2, l3, l4, l5, l6)) (
          Reads-bind _ (Reads-read_bytes 1 kind) (
            Reads-bind _ (Reads-read_bytes 4 (length payload)) (
              Reads-guard _ (ground (arith, h, l1, l2, l3, l4, l5, l6, len)) (
                Reads-bind _ (rw len (Reads-read_exact payload)) (
                  Reads-bind_last _ (Reads-read_be 4 _ (crc32_u32 _)) (
                    Reads-guard _ (==_refl _) (
                      Reads-pure_eq (
                        ap (λ x. (x, payload))
                          (from_be_bytes-to_be_bytes 1 kind (omega arith))))))))))))
