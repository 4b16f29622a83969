-- ===== src/Checksum.antt =====
-- storage/checksum.rs. `crc32` stands for crc32fast, which is not part of the repository.
use cere_db.Base.{ℕ, ◌≡◌, ◌<◌, ==_refl, ◌==◌, if◌then◌else◌}
use cere_db.Error.{Result, ok, err, corrupted}
use cere_db.Bytes.{Bytes}

module _ (crc32 : Bytes → ℕ) where
  unfoldable pub calculate_crc32 : Bytes → ℕ
  calculate_crc32 = crc32

  unfoldable pub verify_crc32 : Bytes → ℕ → Result (Unit {0})
  unfolding calculate_crc32
  verify_crc32 bytes expected =
      let actual = calculate_crc32 bytes in
      if actual == expected then ok tt else err (corrupted "CRC32 mismatch")

  pub verify_crc32-calculate_crc32 :
      (bytes : Bytes) → verify_crc32 bytes (calculate_crc32 bytes) ≡ ok tt
  unfolding verify_crc32
  verify_crc32-calculate_crc32 bytes = rw (==_refl (crc32 bytes))

  pub calculate_crc32-lt :
      {n : ℕ} → ((bs : Bytes) → crc32 bs < n) → (bs : Bytes) → calculate_crc32 bs < n
  unfolding calculate_crc32
  calculate_crc32-lt h bs = h bs
