-- ===== src/TicTacToe/Message.antt =====
-- TicTacToe/Server/message.c: the JSON messages. The parser changes quotes to terminators in the
-- payload and points into it: a pointer into the memory is what stands from it on.
pub mod RoundTrip
pub mod Inside
mod Tests
use intern_status_update.Base.{
  ℕ, suc, ◌+◌, ◌≤◌, [], ◌∷◌, ◌++◌, Bytes, Option, none, some, Run, ok, fault, ◌>>=◌, deref,
  if◌then◌else◌, ltb, ◌==◌, codes, length, read_at, drop,
}
use intern_status_update.Base.Int.{ℤ}
use intern_status_update.Libc.{strstr, cstr, print_int}

pub record Message : Type 0 where
  pub matchid : Bytes
  pub player : ℕ
  pub code : Bytes
  pub message : Bytes

-- `while (*ptr != '"') ptr++; *ptr = '\0'; ptr++`: the bytes before the quote, and the rest.
unfoldable pub until_quote : Bytes → Run (Bytes × Bytes)
until_quote [] = fault
until_quote (x ∷ xs) =
    let rest = until_quote xs in
    if x == b'"' then ok ([], xs) else (do (v, r) ← rest; ok (x ∷ v, r))

-- `strstr` and the use of its result without a test.
unfoldable pub seek : Bytes → Bytes → Run Bytes
seek mem needle = strstr mem needle >>= deref

-- The value of a string field: `skip` bytes behind the start of its name.
unfoldable pub field_value : Bytes → Bytes → ℕ → Run (Bytes × Bytes)
field_value mem name skip = do
  p ← seek mem name
  (v, rest) ← until_quote (drop skip p)
  ok (cstr v, rest)

unfoldable pub parse_json_string : Bytes → Run Message
parse_json_string string = do
  (matchid, r1) ← field_value string (codes "matchid") 10
  p ← seek r1 (codes "player")
  player ← read_at p 9
  (code, r2) ← field_value p (codes "code") 7
  (message, r3) ← field_value r2 (codes "message") 10
  ok (record { matchid = matchid; player = player; code = code; message = message })

-- The text of the format string.
unfoldable pub message_text : Bytes → ℕ → Bytes → Bytes → Bytes
message_text id player code message =
    codes "{\"matchid\":\""
    ++ (id
        ++ (codes "\",\"player\":\""
            ++ (player
                ∷ (codes "\",\"code\":\""
                    ++ (code ++ (codes "\",\"message\":\"" ++ (message ++ codes "\"}")))))))

-- `sprintf` into the 1000 bytes allocated, its terminator included; `*len` is the length.
unfoldable pub create_message_json : ℤ → ℕ → Bytes → Bytes → Run Bytes
create_message_json match_id player code message =
    let text = message_text (print_int match_id) player code message in
    if ltb (length text) 1000 then ok text else fault
