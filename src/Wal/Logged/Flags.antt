-- ===== src/Wal/Logged/Flags.antt =====
-- The flags of a writer that say who owns its checkpoints.
use cere_db.Base.{ℕ, ◌<◌, ◌^◌, Bool, Option}
use cere_db.Bytes.{Bytes}
use cere_db.Wal.{Analysis}
use cere_db.Wal.Manager.{WalManager}
use cere_db.Wal.Logged.{IsLogged}

module _ (crc32 : Bytes → ℕ) (crc32_u32 : (bs : Bytes) → crc32 bs < 2 ^ 32) where
  -- The flags of ownership are no part of what is logged.
  pub IsLogged-flags :
      (w : WalManager) (a : Analysis) (raw registered : Bool) (token : Option ℕ)
      → IsLogged crc32 crc32_u32 Bool.false w a
      → IsLogged crc32 crc32_u32 Bool.false
          (record w {
            raw_writes = raw;
            checkpoint_owner_registered = registered;
            checkpoint_token = token;
          })
          a
  IsLogged-flags w a raw registered token h = record {
    first = h.first;
    sealed = h.sealed;
    frames = h.frames;
    origin = h.origin;
    before = h.before;
    files = h.files;
    consecutive = h.consecutive;
    floor = h.floor;
    starts = h.starts;
    fits_sealed = h.fits_sealed;
    fits = h.fits;
    replays = h.replays;
    accepted = h.accepted;
    sound = h.sound;
    next = h.next;
    bound = h.bound;
    size = h.size;
    healthy = h.healthy;
  }
