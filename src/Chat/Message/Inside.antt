-- ===== src/Chat/Message/Inside.antt =====
-- What the chat server's parser takes from a payload lies inside it, and the buffer of a broadcast is
-- large enough.
use intern_status_update.Base.{
  ◌+◌, ◌≤◌, ◌≡◌, ap, Bytes, ok, >>=-eq-ok, ok-injective, codes, length, length-append, drop,
  length-drop, arith,
}
use intern_status_update.Libc.Search.{length-cstr}
use intern_status_update.TicTacToe.Message.{seek}
use intern_status_update.TicTacToe.Message.Inside.{length-until_quote, length-seek}
use intern_status_update.Chat.Message.{Message, quoted, parse_json_string, broadcast_text}

length-quoted :
    (mem name v rest : Bytes)
    → quoted mem name ≡ ok (v, rest)
    → length name + length v + length rest + 1 ≤ length mem
unfolding quoted
length-quoted mem name v rest h =
    let (p, found, h1) = >>=-eq-ok (seek mem name) _ h in
    omega (
      arith,
      length-seek mem name p found,
      length-drop (length name) p,
      length-until_quote (drop (length name) p) v rest h1,
    )

-- The text of a broadcast, its terminator included, fits the allocation, which is 20 bytes longer than
-- the payload of the message that `parse_json_string` read.
pub broadcast_text_fits :
    (payload : Bytes) (m : Message)
    → parse_json_string payload ≡ ok m
    → length (broadcast_text m) + 1 ≤ length payload + 20
unfolding parse_json_string broadcast_text
broadcast_text_fits payload m h =
    let ((from, r1), e1, h1) = >>=-eq-ok (quoted payload (codes "\"from\":\"")) _ h in
    let ((to, r2), e2, h2) = >>=-eq-ok (quoted r1 (codes "\"to\":\"")) _ h1 in
    let ((message, r3), e3, h3) = >>=-eq-ok (quoted r2 (codes "\"msg\":\"")) _ h2 in
    let done = ok-injective h3 in
    simp length-append (
      omega (
        arith,
        length-quoted payload (codes "\"from\":\"") from r1 e1,
        length-quoted r1 (codes "\"to\":\"") to r2 e2,
        length-quoted r2 (codes "\"msg\":\"") message r3 e3,
        length-cstr from,
        length-cstr to,
        length-cstr message,
        ap (λ t. length t.from) done,
        ap (λ t. length t.to) done,
        ap (λ t. length t.message) done,
      ))
