-- ===== src/Packet.antt =====
-- Mini Project 27-1-26/datapack.h: the packets of the echo server.
pub mod Pad
pub mod Trim
pub mod Server
pub mod Transfer
pub mod Tests
use intern_status_update.Base.{
  ℕ, zero, suc, ◌+◌, ◌-◌, ◌≤◌, [], ◌∷◌, ◌++◌, List, Bytes, Bool, true, false, ◌||◌, Option, none,
  some, Run, ok, fault, ◌>>=◌, if◌then◌else◌, ltb, ◌==◌, length, set, take, drop, replicate,
  read_at, copy_from,
}
use intern_status_update.Libc.{cstr}

abbrev pub max_text_size : ℕ
max_text_size = 100

-- The two arrays, of `max_text_size` and 32 bytes.
pub record ClientData : Type 0 where
  pub message : Bytes
  pub time_str : Bytes

-- `%-*.*s` with the width and the precision w.
unfoldable pub pad : ℕ → Bytes → Bytes
pad w s = let t = take w s in t ++ replicate (w - length t) b' '

unfoldable pub pack_client_data : ClientData → Bytes
pack_client_data d = pad max_text_size (cstr d.message) ++ (pad 32 (cstr d.time_str) ++ 0 ∷ [])

unfoldable pub unpack_client_data : Bytes → Run ClientData
unpack_client_data buffer = do
  message ← copy_from buffer 0 max_text_size
  time_str ← copy_from buffer max_text_size 32
  ok (record { message = set message (max_text_size - 1) 0; time_str = set time_str 31 0 })

-- The loop of `trim` that steps back; `n` is `i + 1`.
unfoldable pub step_back : Bytes → ℕ → Run ℕ
step_back arr zero = fault
step_back arr (suc i) = do
  c ← read_at arr i
  let before = step_back arr i
  if c == b' ' || c == 0 then before else ok (suc i)

-- The text without the terminator, which has no place behind 100 bytes.
unfoldable pub trim : Bytes → Run Bytes
trim arr = do
  n ← step_back arr max_text_size
  if ltb n max_text_size then ok (take n arr) else fault
