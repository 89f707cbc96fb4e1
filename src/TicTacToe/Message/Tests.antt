-- ===== src/TicTacToe/Message/Tests.antt =====
-- Runs of the message code, and its theorems at concrete messages.
use intern_status_update.Base.{◌<◌, ◌≡◌, refl, [], ◌++◌, Bytes, ok, fault, codes, length, arith}
use intern_status_update.Base.Int.{pos, negsuc}
use intern_status_update.Libc.{
  strstr, starts_at, cstr, print_int, digits_of, atoi, skip_space, signed, read_digits, is_digit,
}
use intern_status_update.Libc.Decimal.{atoi-print_int}
use intern_status_update.TicTacToe.Message.{
  Message, until_quote, seek, field_value, parse_json_string, message_text, create_message_json,
}
use intern_status_update.TicTacToe.Message.RoundTrip.{parse_json_string-create_message_json}

abbrev move_text : Bytes
move_text = codes "{\"matchid\":\"12\",\"player\":\"X\",\"code\":\"MOVE\",\"message\":\"01\"}"

abbrev move_message : Message
move_message = record {
  matchid = codes "12";
  player = b'X';
  code = codes "MOVE";
  message = codes "01";
}

parse-move : parse_json_string move_text ≡ ok move_message
unfolding parse_json_string field_value seek strstr starts_at until_quote cstr
parse-move = refl

-- A payload that is no message is searched past its end.
parse_foreign : parse_json_string (codes "hello") ≡ fault
unfolding parse_json_string field_value seek strstr starts_at
parse_foreign = refl

print_negative : print_int (negsuc 41) ≡ codes "-42"
unfolding print_int digits_of
print_negative = refl

atoi_spaces : atoi (codes " +17x") ≡ ok (pos 17)
unfolding atoi skip_space signed read_digits is_digit
atoi_spaces = refl

atoi-print_int_example : atoi (print_int (negsuc 41)) ≡ ok (negsuc 41)
atoi-print_int_example = atoi-print_int (negsuc 41) (omega arith)

short_text : length (message_text (print_int (pos 12)) b'X' (codes "MOVE") (codes "01")) < 1000
unfolding message_text print_int digits_of
short_text = omega arith

parse_json_string-create_message_json_example :
    (text : Bytes) × (create_message_json (pos 12) b'X' (codes "MOVE") (codes "01") ≡ ok text)
    × (parse_json_string (text ++ [])
        ≡ ok (record {
          matchid = print_int (pos 12);
          player = b'X';
          code = codes "MOVE";
          message = codes "01";
        }))
parse_json_string-create_message_json_example =
    parse_json_string-create_message_json (pos 12) b'X' (codes "MOVE") (codes "01") [] (omega arith)
      (omega arith) (omega arith) short_text
