-- ===== src/Chat/Message.antt =====
-- Chat System/Server/message.c, and the text that a broadcast sends in server.c.

pub mod Inside
pub mod RoundTrip
use intern_status_update.Base.{
  ℕ, suc, ◌+◌, [], ◌∷◌, ◌++◌, Bytes, Run, ok, fault, ◌>>=◌, codes, length, drop,
}
use intern_status_update.Libc.{cstr}
use intern_status_update.TicTacToe.Message.{seek, until_quote}

pub record Message : Type 0 where
  pub to : Bytes
  pub from : Bytes
  pub message : Bytes
  pub message_len : ℕ

-- What stands between the pattern `name` and the next quote, and the rest behind that.
unfoldable pub quoted : Bytes → Bytes → Run (Bytes × Bytes)
quoted mem name = do p ← seek mem name; until_quote (drop (length name) p)

-- The quotes become terminators: a string ends at a zero byte inside it, which `message_len` counts.
unfoldable pub parse_json_string : Bytes → Run Message
parse_json_string string = do
  (from, r1) ← quoted string (codes "\"from\":\"")
  (to, r2) ← quoted r1 (codes "\"to\":\"")
  (message, r3) ← quoted r2 (codes "\"msg\":\"")
  ok (record {
    to = cstr to;
    from = cstr from;
    message = cstr message;
    message_len = length message;
  })

-- The format of a broadcast.
unfoldable pub broadcast_text : Message → Bytes
broadcast_text m =
    codes "{\"from\":\"BroadCast from "
    ++ (m.from
        ++ (codes "\",\"to\":\""
            ++ (m.to ++ (codes "\",\"msg\":\"" ++ (m.message ++ codes "\"}")))))
