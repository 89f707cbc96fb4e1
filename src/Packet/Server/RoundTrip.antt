-- ===== src/Packet/Server/RoundTrip.antt =====
-- Mini Project 27-1-26/datapack.h: the counts of a packet come back.
use intern_status_update.Base.{
  ℕ, zero, suc, ◌+◌, ◌*◌, ◌/◌, ◌%◌, ◌^◌, ◌<◌, bit_or-shl, ◌≡◌, refl, ap, subst, sym, ◌∙◌, [], ◌∷◌,
  ◌++◌, Bytes, ok, ◌>>=◌, take_exact, drop, length, length-append, append_assoc, append-nil, arith,
}
use native.Mathlib.Nat.{pow-suc}
use intern_status_update.Libc.{cstr}
use intern_status_update.Packet.{ClientData, pad, pack_client_data, unpack_client_data}
use intern_status_update.Packet.Pad.{length-pad, copy_first, drop_first}
use intern_status_update.Packet.Server.{
  Network, ServerData, htonll, ntohll, memory_of, number_in, pack_server_data, unpack_server_data,
}

-- What the two functions of the system do: they turn 32 bits into 32 bits and back.
pub record Swaps (w : Network) : Type 0 where
  pub word : (x : ℕ) → x < 2 ^ 32 → w.htonl x < 2 ^ 32
  pub back : (x : ℕ) → x < 2 ^ 32 → w.ntohl (w.htonl x) ≡ x

number_in-memory_of : (n x : ℕ) → x < 256 ^ n → number_in (memory_of n x) ≡ x
unfolding number_in memory_of
number_in-memory_of zero x h = omega arith
number_in-memory_of (suc n) x h =
    let smaller = number_in-memory_of n (x / 256) (omega (arith, pow-suc 256 n)) in
    rw smaller (omega arith)

length-memory_of : (n x : ℕ) → length (memory_of n x) ≡ n
unfolding memory_of
length-memory_of zero x = refl
length-memory_of (suc n) x = ap suc (length-memory_of n (x / 256))

length-pack_client_data : (d : ClientData) → length (pack_client_data d) ≡ 133
unfolding pack_client_data
length-pack_client_data d = omega (
  arith,
  length-append (pad 100 (cstr d.message)) (pad 32 (cstr d.time_str) ++ 0 ∷ []),
  length-append (pad 32 (cstr d.time_str)) (0 ∷ []),
  length-pad 100 (cstr d.message),
  length-pad 32 (cstr d.time_str),
)

ntohll-htonll :
    (w : Network)
    → Swaps w
    → (x : ℕ) → x < 2 ^ 64
    → (ntohll w (htonll w x) ≡ x) × (htonll w x < 2 ^ 64)
unfolding ntohll htonll
ntohll-htonll w v x h =
    let low = w.htonl (x % 2 ^ 32) in
    let high = w.htonl (x / 2 ^ 32) in
    let low_fits : low < 2 ^ 32 = v.word (x % 2 ^ 32) (omega arith) in
    let high_fits : high < 2 ^ 32 = v.word (x / 2 ^ 32) (omega arith) in
    let y : htonll w x ≡ low * 2 ^ 32 + high = bit_or-shl 32 low high high_fits in
    let first : (low * 2 ^ 32 + high) % 2 ^ 32 ≡ high = omega arith in
    let second : (low * 2 ^ 32 + high) / 2 ^ 32 ≡ low = omega arith in
    let parts = bit_or-shl 32 (x / 2 ^ 32) (x % 2 ^ 32) (omega arith) in
    let a : w.ntohl high ≡ x / 2 ^ 32 = v.back (x / 2 ^ 32) (omega arith) in
    let b : w.ntohl low ≡ x % 2 ^ 32 = v.back (x % 2 ^ 32) (omega arith) in
    (ap (ntohll w) y ∙ (rw (first, second, a, b) (parts ∙ omega arith)), omega (arith, y))

-- Behind the client's part may stand anything.
unpack_client_data-behind :
    (d : ClientData) (rest : Bytes)
    → unpack_client_data (pack_client_data d ++ rest) ≡ unpack_client_data (pack_client_data d)
unfolding unpack_client_data pack_client_data
unpack_client_data-behind d rest =
    let text = pad 100 (cstr d.message) in
    let time = pad 32 (cstr d.time_str) in
    let long : length text ≡ 100 = length-pad 100 (cstr d.message) in
    rw
      (
        append_assoc text (time ++ 0 ∷ []) rest,
        append_assoc time (0 ∷ []) rest,
        copy_first 100 text (time ++ (0 ∷ [] ++ rest)) long,
        drop_first 100 text (time ++ (0 ∷ [] ++ rest)) long,
        copy_first 32 time (0 ∷ [] ++ rest) (length-pad 32 (cstr d.time_str)),
        copy_first 100 text (time ++ 0 ∷ []) long,
        drop_first 100 text (time ++ 0 ∷ []) long,
        copy_first 32 time (0 ∷ []) (length-pad 32 (cstr d.time_str)),
      )
      refl

-- unpack_server_data recovers the two counts of any 64 bits from what pack_server_data wrote, and
-- reads the client's part as unpack_client_data reads it in the client's own packet, if htonl and
-- ntohl turn 32 bits into 32 bits and back.
pub unpack_server_data-pack_server_data :
    (w : Network) (d : ServerData)
    → Swaps w
    → d.user_count < 2 ^ 64
    → d.total_count < 2 ^ 64
    → unpack_server_data w (pack_server_data w d)
      ≡ (unpack_client_data (pack_client_data d.echo) >>= λ e. ok (record d { echo = e }))
unfolding unpack_server_data pack_server_data
unpack_server_data-pack_server_data w d v user total =
    let (user_back, user_fits) = ntohll-htonll w v d.user_count user in
    let (total_back, total_fits) = ntohll-htonll w v d.total_count total in
    let packet = pack_client_data d.echo in
    let u = memory_of 8 (htonll w d.user_count) in
    let t = memory_of 8 (htonll w d.total_count) in
    let size = length-pack_client_data d.echo in
    let both : length (packet ++ u) ≡ 141 =
      omega (arith, length-append packet u, length-memory_of 8 (htonll w d.user_count)) in
    let last : take_exact (drop 141 (packet ++ (u ++ t))) 8 ≡ ok t =
      subst (λ b. take_exact (drop 141 b) 8 ≡ ok t) (append_assoc packet u t)
        (rw (drop_first 141 (packet ++ u) t both) (
          ap (λ b. take_exact b 8) (sym (append-nil t))
          ∙ copy_first 8 t [] (length-memory_of 8 (htonll w d.total_count)))) in
    rw
      (
        unpack_client_data-behind d.echo (u ++ t),
        drop_first 133 packet (u ++ t) size,
        copy_first 8 u t (length-memory_of 8 (htonll w d.user_count)),
        last,
        number_in-memory_of 8 (htonll w d.user_count) user_fits,
        number_in-memory_of 8 (htonll w d.total_count) total_fits,
        user_back,
        total_back,
      )
      refl
