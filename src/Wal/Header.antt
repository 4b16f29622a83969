-- ===== src/Wal/Header.antt =====
-- storage/recovermanager/wal.rs, `WALHeader`: the first 36 bytes of a segment.
use cere_db.Base.{
  ℕ, ◌<◌, ◌^◌, ◌≡◌, refl, false, not, ◌&&◌, ltb, ◌==◌, ==_refl, [], ◌∷◌, ◌++◌, append_assoc, length,
  length-append, take, arith, if◌then◌else◌,
}
use cere_db.Error.{Result, ok, err, corrupted}
use cere_db.Bytes.{Bytes, to_be_bytes}
use cere_db.Bytes.RoundTrip.{length-to_be_bytes}
use cere_db.Bytes.Slices.{take_of_length, slice_number, length-to_be_bytes-append}
use cere_db.Key.{key_eq}
use cere_db.Wal.{wal_header_size, wal_version, legacy_wal_version}
use cere_db.Wal.Codec.{be_u32, be_u64}

-- `b"WALMGIC\0"`
abbrev pub wal_magic : Bytes
wal_magic = 87 ∷ 65 ∷ 76 ∷ 77 ∷ 71 ∷ 73 ∷ 67 ∷ 0 ∷ []

pub record WalHeader : Type 0 where
  pub magic : Bytes
  pub version : ℕ
  pub last_checkpoint : ℕ
  pub last_checkpoint_offset : ℕ

abbrev pub default_header : WalHeader
default_header = record {
  magic = wal_magic;
  version = wal_version;
  last_checkpoint = 0;
  last_checkpoint_offset = 0;
}

unfoldable pub header_fields : WalHeader → Bytes
header_fields h =
    h.magic
    ++ (to_be_bytes 8 h.version
        ++ (to_be_bytes 8 h.last_checkpoint ++ to_be_bytes 8 h.last_checkpoint_offset))

pub length-header_fields : length (header_fields default_header) ≡ 32
unfolding header_fields
length-header_fields = simp (length-to_be_bytes-append, length-to_be_bytes) (omega arith)

module _ (crc32 : Bytes → ℕ) where
  unfoldable pub encode : WalHeader → Bytes
  unfolding header_fields
  encode h = header_fields h ++ to_be_bytes 4 (crc32 (header_fields h))

  unfoldable pub decode : Bytes → Result WalHeader
  unfolding be_u32 be_u64
  decode buf =
      let version = be_u64 buf 8 in
      if ltb (length buf) wal_header_size
      then err (corrupted "Buffer too short for WAL header")
      else if not (key_eq (take 8 buf) wal_magic)
      then err (corrupted "Invalid WAL magic number")
      else if not (version == legacy_wal_version) && not (version == wal_version)
      then err (corrupted "Unsupported WAL version")
      else if not (be_u32 buf 32 == crc32 (take 32 buf))
      then err (corrupted "WAL header checksum mismatch")
      else ok (record {
        magic = take 8 buf;
        version = version;
        last_checkpoint = be_u64 buf 16;
        last_checkpoint_offset = be_u64 buf 24;
      })

  pub length-encode_header : length (encode default_header) ≡ 36
  unfolding encode
  length-encode_header = omega (
    arith,
    length-append (header_fields default_header)
        (to_be_bytes 4 (crc32 (header_fields default_header))),
    length-header_fields,
    length-to_be_bytes 4 (crc32 (header_fields default_header)),
  )

  header_parts :
      (rest : Bytes)
      → encode default_header ++ rest
        ≡ wal_magic
          ++ (to_be_bytes 8 wal_version
              ++ (to_be_bytes 8 0
                  ++ (to_be_bytes 8 0
                      ++ (to_be_bytes 4 (crc32 (header_fields default_header)) ++ rest))))
  unfolding encode
  header_parts rest = simp append_assoc

  -- The header of a new segment is read back, whatever follows it.
  pub decode-encode_header :
      ((bs : Bytes) → crc32 bs < 2 ^ 32)
      → (rest : Bytes) → decode (encode default_header ++ rest) ≡ ok default_header
  unfolding decode to_be_bytes cere_db.Key.cmp
  decode-encode_header u32 rest =
      let c = crc32 (header_fields default_header) in
      let b = encode default_header ++ rest in
      let tail = to_be_bytes 4 c ++ rest in
      let whole : b ≡ header_fields default_header ++ tail =
        unfold encode in append_assoc (header_fields default_header) (to_be_bytes 4 c) rest in
      let size : ltb (length b) wal_header_size ≡ false =
        ground (arith, length-append (encode default_header) rest, length-encode_header) in
      let magic : take 8 b ≡ wal_magic = rw (header_parts rest) refl in
      let version : be_u64 b 8 ≡ wal_version =
        unfold be_u64 in
        rw (header_parts rest) (
          slice_number 8 8 wal_version wal_magic (to_be_bytes 8 0 ++ (to_be_bytes 8 0 ++ tail)) refl
            (omega arith)) in
      let first : be_u64 b 16 ≡ 0 =
        unfold be_u64 in
        rw (header_parts rest) (
          slice_number 8 16 0 (wal_magic ++ to_be_bytes 8 wal_version) (to_be_bytes 8 0 ++ tail)
            (omega (arith, length-to_be_bytes 8 wal_version)) (omega arith)) in
      let second : be_u64 b 24 ≡ 0 =
        unfold be_u64 in
        rw (header_parts rest) (
          slice_number 8 24 0 (wal_magic ++ (to_be_bytes 8 wal_version ++ to_be_bytes 8 0)) tail
            (omega (
              arith,
              length-to_be_bytes-append 8 wal_version (to_be_bytes 8 0),
              length-to_be_bytes 8 0,
            ))
            (omega arith)) in
      let check : be_u32 b 32 ≡ c =
        unfold be_u32 in
        rw whole (
          slice_number 4 32 c (header_fields default_header) rest length-header_fields
            (u32 (header_fields default_header))) in
      let covered : take 32 b ≡ header_fields default_header =
        rw whole (take_of_length 32 (header_fields default_header) tail length-header_fields) in
      rw (size, magic, version, first, second, check, covered, ==_refl c) refl
