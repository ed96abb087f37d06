-- ===== src/Tests.antt =====
-- A machine and queue states for the tests. The machine is a little-endian one, as the program is
-- built for.
mod Rings
mod Commits
mod Sources
mod Copies
mod EndToEnd
mod Sendings
mod Scripts
mod Forwards
mod Processes
mod Resources
mod Endpoints
use dg_cat.Common.{
  All, Bool, true, false, ℕ, ◌+◌, ◌*◌, ◌/◌, ◌%◌, ◌^◌, ◌<◌, ◌≡◌, refl, List, [], ◌∷◌, arith, length,
}
use dg_cat.Stats.{new_buffer_stats}
use dg_cat.Queue.{BufferQueue}
use dg_cat.Queue.Window.{IsValid}
use dg_cat.Queue.Commit.{MsgFlags, Mmsghdr}
use dg_cat.Queue.Commit.Append.{IsMessage}
use dg_cat.Wire.{Endian, be_bytes, be_value}

abbrev pub le_bytes : ℕ → List ℕ
le_bytes x = (x % 256) ∷ (x / 2 ^ 8 % 256) ∷ (x / 2 ^ 16 % 256) ∷ (x / 2 ^ 24 % 256) ∷ []

abbrev pub le_value : List ℕ → ℕ
le_value (a ∷ b ∷ c ∷ d ∷ _) = a % 256 + b % 256 * 2 ^ 8 + c % 256 * 2 ^ 16 + d % 256 * 2 ^ 24
le_value _ = 0

abbrev pub swap_bytes : ℕ → ℕ
swap_bytes x =
    x % 256 * 2 ^ 24 + x / 2 ^ 8 % 256 * 2 ^ 16 + x / 2 ^ 16 % 256 * 2 ^ 8 + x / 2 ^ 24 % 256

pub le_bytes-swap_bytes : (x : ℕ) → x < 2 ^ 32 → le_bytes (swap_bytes x) ≡ be_bytes x
le_bytes-swap_bytes x h = ground arith

pub swap_bytes-le_value : (bs : List ℕ) → length bs ≡ 4 → swap_bytes (le_value bs) ≡ be_value bs
swap_bytes-le_value (a ∷ b ∷ c ∷ d ∷ []) h = omega arith
swap_bytes-le_value [] h = absurd (omega arith)
swap_bytes-le_value (a ∷ []) h = absurd (omega arith)
swap_bytes-le_value (a ∷ b ∷ []) h = absurd (omega arith)
swap_bytes-le_value (a ∷ b ∷ c ∷ []) h = absurd (omega arith)
swap_bytes-le_value (a ∷ b ∷ c ∷ d ∷ e ∷ f) h = absurd (omega arith)

abbrev pub little_endian : Endian
little_endian = record {
  load = le_value;
  store = le_bytes;
  native_to_big = swap_bytes;
  big_to_native = swap_bytes;
  ntohl = swap_bytes;
  store_big = le_bytes-swap_bytes;
  load_big = swap_bytes-le_value;
  load_ntohl = swap_bytes-le_value;
}

-- A ring of 16 bytes that holds 6, the last two of them at the start of the storage.
abbrev pub ring : BufferQueue
ring = record {
  max_n = 16;
  cells = 25 ∷ 26 ∷ 0 ∷ 0 ∷ 0 ∷ 0 ∷ 0 ∷ 0 ∷ 0 ∷ 0 ∷ 0 ∷ 0 ∷ 21 ∷ 22 ∷ 23 ∷ 24 ∷ [];
  producer_index = 2;
  consumer_index = 12;
  stats = new_buffer_stats;
  shared_stats = new_buffer_stats;
  n = 6;
  is_eof = false;
  notified = 0;
}

pub ring-IsValid : IsValid ring
ring-IsValid = record {
  positive = omega arith;
  small = omega arith;
  storage = refl;
  consumer_in = omega arith;
  fill = omega arith;
  producer_at = refl;
}

abbrev pub message : MsgFlags → List ℕ → Mmsghdr
message f bs = record { msg_len = length bs; msg_flags = f; iov_base = bs }

abbrev pub clear : MsgFlags
clear = record { oob = false; errqueue = false; trunc = false }

abbrev pub truncated : MsgFlags
truncated = record { oob = false; errqueue = false; trunc = true }

-- Three bytes, a message that is to be discarded, and five bytes; the frames take 7 and 9 bytes.
abbrev pub small_message : Mmsghdr
small_message = message clear (7 ∷ 8 ∷ 9 ∷ [])

abbrev pub bad_message : Mmsghdr
bad_message = message truncated (1 ∷ 1 ∷ [])

abbrev pub large_message : Mmsghdr
large_message = message clear (1 ∷ 2 ∷ 3 ∷ 4 ∷ 5 ∷ [])

pub small-IsMessage : IsMessage small_message
small-IsMessage = record { short = omega arith; backed = omega arith }

pub bad-IsMessage : IsMessage bad_message
bad-IsMessage = record { short = omega arith; backed = omega arith }

pub large-IsMessage : IsMessage large_message
large-IsMessage = record { short = omega arith; backed = omega arith }

abbrev pub three_messages : List Mmsghdr
three_messages = small_message ∷ bad_message ∷ large_message ∷ []

pub three-IsMessage : All IsMessage three_messages
three-IsMessage = (small-IsMessage, (bad-IsMessage, (large-IsMessage, tt)))
