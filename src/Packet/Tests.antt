-- ===== src/Packet/Tests.antt =====
-- Packets of concrete texts.
use intern_status_update.Base.{
  zero, suc, sym, subst, ◌≤◌, length, [], ◌∷◌, Bytes, Bool, Option, none, some, take,
  some-injective, append-nil, ℕ, ◌+◌, ◌*◌, ◌/◌, ◌%◌, ◌^◌, ◌≡◌, refl, ◌>>=◌, ok, codes, replicate,
  arith, ◌++◌,
}
use intern_status_update.Libc.{cstr}
use intern_status_update.Packet.{ClientData, pack_client_data, unpack_client_data, trim}
use intern_status_update.Packet.Server.{Network, ServerData, pack_server_data, unpack_server_data}
use intern_status_update.Packet.Server.RoundTrip.{Swaps, unpack_server_data-pack_server_data}
use intern_status_update.Packet.Transfer.{
  Arrival, some_bytes, hung_up, failed, Socket, Received, recvall, sendall, Receives, Sends, Taken,
  Given, recvall-Taken, sendall-Given,
}
use intern_status_update.Packet.Trim.{trim-pack_client_data}

abbrev pub greeting : ClientData
greeting = record {
  message = codes "hi you" ++ replicate 94 0;
  time_str = codes "10:30" ++ replicate 27 0;
}

trim-pack_client_data_example :
    (unpack_client_data (pack_client_data greeting) >>= λ e. trim e.message) ≡ ok (codes "hi you")
unfolding cstr replicate
trim-pack_client_data_example =
    trim-pack_client_data greeting (codes "hi yo") b'u' refl (omega arith) (omega arith)
      (omega arith)

abbrev nothing : ClientData
nothing = record { message = replicate 100 0; time_str = replicate 32 0 }

-- The four bytes of a number the other way round.
abbrev swap : ℕ → ℕ
swap x = x % 256 * 2 ^ 24 + x / 256 % 256 * 2 ^ 16 + x / 2 ^ 16 % 256 * 256 + x / 2 ^ 24

abbrev pub byte_swap : Network
byte_swap = record { htonl = swap; ntohl = swap }

byte_swap-Swaps : Swaps byte_swap
byte_swap-Swaps = record { word = λ x h. omega arith; back = λ x h. omega arith }

abbrev answer : ServerData
answer = record { echo = greeting; user_count = 3; total_count = 2 ^ 40 + 5 }

unpack_server_data-pack_server_data_example :
    unpack_server_data byte_swap (pack_server_data byte_swap answer)
    ≡ (unpack_client_data (pack_client_data answer.echo) >>= λ e. ok (record answer { echo = e }))
unpack_server_data-pack_server_data_example =
    unpack_server_data-pack_server_data byte_swap answer byte_swap-Swaps (omega arith) (omega arith)

-- A connection that passes on a byte at a time; its state is what is left of the input, or what was
-- sent.
abbrev recv_byte : ℕ → Bytes → Arrival × Bytes
recv_byte zero s = (failed, s)
recv_byte (suc n) [] = (hung_up, [])
recv_byte (suc n) (b ∷ s) = (some_bytes (b ∷ []), s)

abbrev send_byte : Bytes → Bytes → Option ℕ × Bytes
send_byte [] s = (some 0, s)
send_byte (b ∷ bytes) s = (some 1, s ++ b ∷ [])

abbrev slow : Socket
slow = record { State = Bytes; recv = recv_byte; send = send_byte }

one_byte :
    (n : ℕ) (s bytes : Bytes)
    → (recv_byte n s).0 ≡ some_bytes bytes
    → (s ≡ bytes ++ (recv_byte n s).1) × (length bytes ≤ n) × (1 ≤ length bytes)
one_byte zero s bytes h = cc
one_byte (suc n) [] bytes h = cc
one_byte (suc n) (b ∷ s) bytes h =
    let same : b ∷ [] ≡ bytes = cc in
    subst (λ t. (b ∷ s ≡ t ++ s) × (length t ≤ suc n) × (1 ≤ length t)) same
      (refl, omega arith, omega arith)

sent_byte :
    (bytes s : Bytes) (n : ℕ)
    → (send_byte bytes s).0 ≡ some n
    → (send_byte bytes s).1 ≡ s ++ take n bytes
unfolding take
sent_byte [] s n h = subst (λ n. s ≡ s ++ take n []) (some-injective h) (sym (append-nil s))
sent_byte (b ∷ bytes) s n h =
    subst (λ n. s ++ b ∷ [] ≡ s ++ take n (b ∷ bytes)) (some-injective h) refl

sent_always : (bytes s : Bytes) → (send_byte bytes s).0 ≡ none → (send_byte bytes s).1 ≡ s
sent_always [] s h = cc
sent_always (b ∷ bytes) s h = cc

abbrev slow-Receives : Receives slow
slow-Receives = record { left = λ s. s; recv = one_byte }

abbrev slow-Sends : Sends slow
slow-Sends = record { sent = λ s. s; send = sent_byte; fails = sent_always }

recvall-Taken_example :
    (r : Received) × (s1 : Bytes) × (recvall slow 3 (codes "hello") ≡ (some r, s1))
    × Taken slow slow-Receives 3 [] (codes "hello") s1 r
recvall-Taken_example = recvall-Taken slow slow-Receives 3 (codes "hello")

sendall-Given_example :
    (done : Bool) × (s1 : Bytes) × (sendall slow (codes "hi") [] ≡ (some done, s1))
    × Given slow slow-Sends (codes "hi") [] s1 done
sendall-Given_example = sendall-Given slow slow-Sends (codes "hi") []
