-- ===== src/Relay.antt =====
-- ostp-core/src/relay.rs: the messages carried inside data frames. A `String` is its UTF-8 bytes;
-- `String::from_utf8` is a test on bytes.
pub mod RoundTrip
use ostp.Prelude.{
  ℕ, zero, suc, ◌+◌, ◌%◌, ◌^◌, min, Option, none, some, Bool, List, [], ◌∷◌, ◌++◌, length, take,
  drop, get_or, ltb, ◌==◌, not, if◌then◌else◌, to_be_bytes, from_be_bytes,
}

pub data RelayMessage : Type 0 where
  connect : List ℕ → RelayMessage
  payload : List ℕ → RelayMessage
  keep_alive close connect_ok : RelayMessage
  error : List ℕ → RelayMessage
  ping pong : ℕ → RelayMessage
  udp_associate : RelayMessage
  udp_data : List ℕ → List ℕ → RelayMessage

abbrev pub u16_max : ℕ
u16_max = 65535

-- Longer payloads are cut.
unfoldable pub encode_with_len : ℕ → List ℕ → List ℕ
encode_with_len tag body =
    let len : ℕ = min (length body) u16_max in tag ∷ (to_be_bytes 2 len ++ take len body)

-- `len as u16` keeps the low 16 bits, and the bytes that follow are all written.
unfoldable pub encode : RelayMessage → List ℕ
unfolding encode_with_len
encode (connect addr) = encode_with_len 1 addr
encode (payload body) = encode_with_len 2 body
encode keep_alive = 3 ∷ []
encode close = 4 ∷ []
encode connect_ok = 5 ∷ []
encode (error msg) = encode_with_len 6 msg
encode (ping ts) = encode_with_len 7 (to_be_bytes 8 ts)
encode (pong ts) = encode_with_len 8 (to_be_bytes 8 ts)
encode udp_associate = 9 ∷ []
encode (udp_data addr body) =
    10
    ∷ (to_be_bytes 2 (length addr % 2 ^ 16)
        ++ (addr ++ (to_be_bytes 2 (length body % 2 ^ 16) ++ body)))

unfoldable pub decode_with_len : List ℕ → Option (List ℕ)
decode_with_len input =
    let len : ℕ = from_be_bytes (take 2 input) in
    if ltb (length input) 2
    then none
    else if ltb (length input) (2 + len)
    then none
    else some (take len (drop 2 input))

infixl 5 ◌>>=◌
abbrev ◌>>=◌ : {A B : Type 0} → Option A → (A → Option B) → Option B
none >>= k = none
some a >>= k = k a

-- The text variants: a length-prefixed body that must be UTF-8.
abbrev decode_text : (List ℕ → Bool) → (List ℕ → RelayMessage) → List ℕ → Option RelayMessage
decode_text is_utf8 message input = do
  body ← decode_with_len input
  if is_utf8 body then some (message body) else none

-- The timestamp variants: a body of eight bytes.
abbrev decode_stamp : (ℕ → RelayMessage) → List ℕ → Option RelayMessage
decode_stamp message input = do
  body ← decode_with_len input
  if length body == 8 then some (message (from_be_bytes body)) else none

-- The `UdpData` arm, over the whole input.
unfoldable pub decode_udp : (List ℕ → Bool) → List ℕ → Option RelayMessage
decode_udp is_utf8 input =
    let addr_len : ℕ = from_be_bytes (take 2 (drop 1 input)) in
    let addr : List ℕ = take addr_len (drop 3 input) in
    let offset : ℕ = 3 + addr_len in
    let data_len : ℕ = from_be_bytes (take 2 (drop offset input)) in
    if ltb (length input) 3
    then none
    else if ltb (length input) (3 + addr_len + 2)
    then none
    else if not (is_utf8 addr)
    then none
    else if ltb (length input) (offset + 2 + data_len)
    then none
    else some (udp_data addr (take data_len (drop (offset + 2) input)))

unfoldable pub decode : (List ℕ → Bool) → List ℕ → Option RelayMessage
decode is_utf8 [] = none
decode is_utf8 (tag ∷ rest) =
    if tag == 1
    then decode_text is_utf8 connect rest
    else if tag == 2
    then (do body ← decode_with_len rest; some (payload body))
    else if tag == 3
    then some keep_alive
    else if tag == 4
    then some close
    else if tag == 5
    then some connect_ok
    else if tag == 6
    then decode_text is_utf8 error rest
    else if tag == 7
    then decode_stamp ping rest
    else if tag == 8
    then decode_stamp pong rest
    else if tag == 9
    then some udp_associate
    else if tag == 10
    then decode_udp is_utf8 (tag ∷ rest)
    else none
