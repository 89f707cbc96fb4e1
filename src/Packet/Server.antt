-- ===== src/Packet/Server.antt =====
-- Mini Project 27-1-26/datapack.h: the server's packet. `htonl` and `ntohl` are a parameter; the
-- machine is little-endian.
pub mod RoundTrip
use intern_status_update.Base.{
  ℕ, zero, suc, ◌+◌, ◌*◌, ◌/◌, ◌%◌, ◌^◌, ◌<<<◌, ◌>>>◌, bit_or, [], ◌∷◌, ◌++◌, Bytes, Run, ok, ◌>>=◌,
  copy_from,
}
use intern_status_update.Packet.{ClientData, pack_client_data, unpack_client_data}

pub record Network : Type 0 where
  pub htonl : ℕ → ℕ
  pub ntohl : ℕ → ℕ

-- The counts are the 64 bits of an `int64_t`.
pub record ServerData : Type 0 where
  pub echo : ClientData
  pub user_count : ℕ
  pub total_count : ℕ

-- `x & 0xFFFFFFFF` is the remainder.
unfoldable pub htonll : Network → ℕ → ℕ
htonll w x = bit_or (w.htonl (x % 2 ^ 32) <<< 32) (w.htonl (x >>> 32))

unfoldable pub ntohll : Network → ℕ → ℕ
ntohll w x = bit_or (w.ntohl (x % 2 ^ 32) <<< 32) (w.ntohl (x >>> 32))

-- The bytes of a number in memory, of which there are so many.
unfoldable pub memory_of : ℕ → ℕ → Bytes
memory_of zero x = []
memory_of (suc n) x = x % 256 ∷ memory_of n (x / 256)

unfoldable pub number_in : Bytes → ℕ
number_in [] = 0
number_in (b ∷ bytes) = b + 256 * number_in bytes

abbrev pub client_buffer_size : ℕ
client_buffer_size = 133

unfoldable pub pack_server_data : Network → ServerData → Bytes
pack_server_data w d =
    pack_client_data d.echo
    ++ (memory_of 8 (htonll w d.user_count) ++ memory_of 8 (htonll w d.total_count))

unfoldable pub unpack_server_data : Network → Bytes → Run ServerData
unpack_server_data w buffer = do
  echo ← unpack_client_data buffer
  user ← copy_from buffer client_buffer_size 8
  total ← copy_from buffer (client_buffer_size + 8) 8
  ok (record {
    echo = echo;
    user_count = ntohll w (number_in user);
    total_count = ntohll w (number_in total);
  })
