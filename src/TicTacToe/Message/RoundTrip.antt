-- ===== src/TicTacToe/Message/RoundTrip.antt =====
-- `parse_json_string` reads every message that `create_message_json` writes.
use intern_status_update.Base.{
  ℕ, suc, ◌<◌, ◌≡◌, ◌≢◌, refl, ◌∙◌, ap, [], ◌∷◌, ◌++◌, Bytes, ok, lt→ltb, ne→==, codes, length, All,
  drop, append_assoc, arith,
}
use intern_status_update.Base.Int.{ℤ, pos, negsuc}
use intern_status_update.Libc.{strstr, starts_at, cstr, print_int}
use intern_status_update.Libc.Decimal.{IsDigit, All-digits_of}
use intern_status_update.TicTacToe.Message.{
  until_quote, seek, field_value, parse_json_string, message_text, create_message_json,
}

-- A string that fits between quotes: no quote, no terminator.
abbrev pub IsPlain : Bytes → Type 0
IsPlain s = All (λ c. (c ≢ b'"') × (c ≢ 0)) s

pub until_quote-plain : (v rest : Bytes) → IsPlain v → until_quote (v ++ b'"' ∷ rest) ≡ ok (v, rest)
unfolding until_quote
until_quote-plain [] rest h = refl
until_quote-plain (x ∷ v) rest h = rw (ne→== x b'"' h.0.0, until_quote-plain v rest h.1)

pub cstr-plain : (v : Bytes) → IsPlain v → cstr v ≡ v
unfolding cstr
cstr-plain [] h = refl
cstr-plain (x ∷ v) h = rw (ne→== x 0 h.0.1) (ap (λ t. x ∷ t) (cstr-plain v h.1))

digits-IsPlain : (xs : Bytes) → All IsDigit xs → IsPlain xs
digits-IsPlain [] h = tt
digits-IsPlain (x ∷ xs) h = ((omega arith, omega arith), digits-IsPlain xs h.1)

pub IsPlain-print_int : (z : ℤ) → IsPlain (print_int z)
unfolding print_int
IsPlain-print_int (pos n) = digits-IsPlain _ (All-digits_of (suc n) n)
IsPlain-print_int (negsuc n) =
    ((omega arith, omega arith), digits-IsPlain _ (All-digits_of (suc (suc n)) (suc n)))

module _ (id code message rest : Bytes) (player : ℕ) where
  abbrev tail_message : Bytes
  tail_message = codes "\",\"message\":\"" ++ (message ++ b'"' ∷ rest)

  abbrev tail_code : Bytes
  tail_code = player ∷ (codes "\",\"code\":\"" ++ (code ++ tail_message))

  abbrev tail_player : Bytes
  tail_player = codes "\",\"player\":\"" ++ tail_code

  -- The four searches stop at their own field.
  seek_matchid :
      seek (codes "{\"matchid\":\"" ++ (id ++ tail_player)) (codes "matchid")
      ≡ ok (codes "matchid\":\"" ++ (id ++ tail_player))
  unfolding seek strstr starts_at
  seek_matchid = refl

  seek_player : seek (drop 1 tail_player) (codes "player") ≡ ok (codes "player\":\"" ++ tail_code)
  unfolding seek strstr starts_at
  seek_player = refl

  seek_code :
      player ≢ 0
      → seek (codes "player\":\"" ++ tail_code) (codes "code")
        ≡ ok (codes "code\":\"" ++ (code ++ tail_message))
  unfolding seek strstr starts_at
  seek_code h = ground arith

  seek_message :
      seek (drop 1 tail_message) (codes "message")
      ≡ ok (codes "message\":\"" ++ (message ++ b'"' ∷ rest))
  unfolding seek strstr starts_at
  seek_message = refl

  -- The whole parse, on the pieces.
  parse_pieces :
      IsPlain id
      → IsPlain code
      → IsPlain message
      → player ≢ 0
      → parse_json_string (codes "{\"matchid\":\"" ++ (id ++ tail_player))
        ≡ ok (record { matchid = id; player = player; code = code; message = message })
  unfolding parse_json_string field_value
  parse_pieces hid hcode hmsg hplayer =
      rw
        (
          seek_matchid,
          until_quote-plain id (drop 1 tail_player) hid,
          cstr-plain id hid,
          seek_player,
          seek_code hplayer,
          until_quote-plain code (drop 1 tail_message) hcode,
          cstr-plain code hcode,
          seek_message,
          until_quote-plain message rest hmsg,
          cstr-plain message hmsg,
        )
        refl

regroup :
    (id code message rest : Bytes) (player : ℕ)
    → message_text id player code message ++ rest
      ≡ codes "{\"matchid\":\"" ++ (id ++ tail_player id code message (b'}' ∷ rest) player)
unfolding message_text
regroup id code message rest player = simp append_assoc

pub parse_json_string-message_text :
    (match_id : ℤ) (player : ℕ) (code message rest : Bytes)
    → IsPlain code
    → IsPlain message
    → player ≢ 0
    → parse_json_string (message_text (print_int match_id) player code message ++ rest)
      ≡ ok
          (record { matchid = print_int match_id; player = player; code = code; message = message })
parse_json_string-message_text match_id player code message rest hcode hmsg hplayer =
    let id = print_int match_id in
    ap parse_json_string (regroup id code message rest player)
    ∙ parse_pieces id code message (b'}' ∷ rest) player (IsPlain-print_int match_id) hcode hmsg
        hplayer

-- A message whose strings hold no quote and no terminator, and whose player is not the terminator,
-- is written by `create_message_json` if its text is shorter than 1000 bytes, and
-- `parse_json_string` reads it back from memory that starts with that text.
pub parse_json_string-create_message_json :
    (match_id : ℤ) (player : ℕ) (code message rest : Bytes)
    → IsPlain code
    → IsPlain message
    → player ≢ 0
    → length (message_text (print_int match_id) player code message) < 1000
    → (text : Bytes) × (create_message_json match_id player code message ≡ ok text)
      × (parse_json_string (text ++ rest)
          ≡ ok (record {
            matchid = print_int match_id;
            player = player;
            code = code;
            message = message;
          }))
unfolding create_message_json
parse_json_string-create_message_json match_id player code message rest hcode hmsg hplayer short = (
  message_text (print_int match_id) player code message,
  rw (lt→ltb _ 1000 short),
  parse_json_string-message_text match_id player code message rest hcode hmsg hplayer,
)
