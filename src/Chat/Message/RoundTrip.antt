-- ===== src/Chat/Message/RoundTrip.antt =====
-- The chat server's parser reads the text of a broadcast.
use intern_status_update.Base.{
  ◌≡◌, refl, ◌∙◌, ap, [], ◌∷◌, ◌++◌, Bytes, ok, codes, length, drop, append_assoc, arith,
}
use intern_status_update.Libc.{strstr, starts_at}
use intern_status_update.TicTacToe.Message.{seek}
use intern_status_update.TicTacToe.Message.RoundTrip.{IsPlain, until_quote-plain, cstr-plain}
use intern_status_update.Chat.Message.{Message, quoted, parse_json_string, broadcast_text}

abbrev pub message_of : Bytes → Bytes → Bytes → Message
message_of from to message = record {
  to = to;
  from = from;
  message = message;
  message_len = length message;
}

module _ (from to message rest : Bytes) where
  abbrev tail_message : Bytes
  tail_message = codes "\",\"msg\":\"" ++ (message ++ b'"' ∷ rest)

  abbrev tail_to : Bytes
  tail_to = codes "\",\"to\":\"" ++ (to ++ tail_message)

  seek_from :
      seek (codes "{\"from\":\"" ++ (from ++ tail_to)) (codes "\"from\":\"")
      ≡ ok (codes "\"from\":\"" ++ (from ++ tail_to))
  unfolding seek strstr starts_at
  seek_from = refl

  seek_to :
      seek (drop 1 tail_to) (codes "\"to\":\"") ≡ ok (codes "\"to\":\"" ++ (to ++ tail_message))
  unfolding seek strstr starts_at
  seek_to = refl

  seek_message :
      seek (drop 1 tail_message) (codes "\"msg\":\"")
      ≡ ok (codes "\"msg\":\"" ++ (message ++ b'"' ∷ rest))
  unfolding seek strstr starts_at
  seek_message = refl

  parse_pieces :
      IsPlain from
      → IsPlain to
      → IsPlain message
      → parse_json_string (codes "{\"from\":\"" ++ (from ++ tail_to))
        ≡ ok (message_of from to message)
  unfolding parse_json_string quoted
  parse_pieces hfrom hto hmsg =
      rw
        (
          seek_from,
          until_quote-plain from (drop 1 tail_to) hfrom,
          cstr-plain from hfrom,
          seek_to,
          until_quote-plain to (drop 1 tail_message) hto,
          cstr-plain to hto,
          seek_message,
          until_quote-plain message rest hmsg,
          cstr-plain message hmsg,
        )
        refl

IsPlain-append : (a b : Bytes) → IsPlain a → IsPlain b → IsPlain (a ++ b)
IsPlain-append [] b ha hb = hb
IsPlain-append (x ∷ a) b ha hb = (ha.0, IsPlain-append a b ha.1 hb)

regroup :
    (m : Message) (rest : Bytes)
    → broadcast_text m ++ rest
      ≡ codes "{\"from\":\""
        ++ ((codes "BroadCast from " ++ m.from)
            ++ tail_to (codes "BroadCast from " ++ m.from) m.to m.message (b'}' ∷ rest))
unfolding broadcast_text
regroup m rest = simp append_assoc

-- From the text of a broadcast whose strings hold no quote and no terminator, whatever bytes follow
-- it, a parser of the same kind reads the strings and the length, with the sender's name behind the
-- words `BroadCast from `.
pub parse_json_string-broadcast_text :
    (m : Message) (rest : Bytes)
    → IsPlain m.from
    → IsPlain m.to
    → IsPlain m.message
    → parse_json_string (broadcast_text m ++ rest)
      ≡ ok (message_of (codes "BroadCast from " ++ m.from) m.to m.message)
parse_json_string-broadcast_text m rest hfrom hto hmsg =
    let from = codes "BroadCast from " ++ m.from in
    ap parse_json_string (regroup m rest)
    ∙ parse_pieces from m.to m.message (b'}' ∷ rest)
        (IsPlain-append (codes "BroadCast from ") m.from (omega arith) hfrom) hto hmsg
