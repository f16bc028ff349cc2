-- ===== src/Tests/World.antt =====
-- Toy stand-ins for the crates that the program uses, and sessions over them.
use ostp.Prelude.{
  ℕ, zero, suc, ◌+◌, ◌-◌, ◌*◌, ◌/◌, ◌≡◌, refl, ap, subst, min, max, Bool, true, false, ◌&&◌, Option,
  none, some, List, [], ◌∷◌, ◌++◌, length, take, ltb, leb, if◌then◌else◌, arith, All, All-append,
  IsByte, length-append, take-append,
}
use ostp.External.{F64, Rng, Hash, Aead, Snow}
use ostp.Noise.{NoiseRole}
use ostp.Framing.Padding.{PaddingStrategy}
use ostp.Machine.{Env, ProtocolConfig, ProtocolMachine, OstpState, machine}

-- Doubles without a fractional part.
instance abbrev pub whole_numbers : F64 ℕ
whole_numbers = record {
  of_nat = λ n. n;
  as_secs = λ n. n / 1_000_000_000;
  add = λ a b. a + b;
  sub = λ a b. a - b;
  mul = λ a b. a * b;
  div = λ a b. a / max b 1;
  fmin = λ a b. min a b;
  fmax = λ a b. max a b;
  ge = λ a b. leb b a;
}

unfoldable pub zero_bytes : ℕ → List ℕ
zero_bytes zero = []
zero_bytes (suc n) = 0 ∷ zero_bytes n

pub length-zero_bytes : (n : ℕ) → length (zero_bytes n) ≡ n
unfolding zero_bytes
length-zero_bytes zero = refl
length-zero_bytes (suc n) = omega (arith, length-zero_bytes n)

pub zero_bytes-IsByte : (n : ℕ) → All IsByte (zero_bytes n)
unfolding zero_bytes
zero_bytes-IsByte zero = tt
zero_bytes-IsByte (suc n) = (omega arith, zero_bytes-IsByte n)

-- The least value, and zeros.
abbrev pub dull_rng : Rng
dull_rng = record {
  gen_range = λ draw lo hi. lo;
  fill = λ draw n. zero_bytes n;
  high_byte = λ draw. 0;
  low_byte = λ draw. 0;
  gen_range-ge = λ draw lo hi h. omega arith;
  gen_range-le = λ draw lo hi h. h;
  length-fill = λ draw n. length-zero_bytes n;
}

abbrev pub zero_hash : Hash
zero_hash = record {
  sha256 = λ input. zero_bytes 32;
  hmac = λ key input. zero_bytes 32;
  length-sha256 = λ input. length-zero_bytes 32;
  length-hmac = λ key input. length-zero_bytes 32;
  hmac-IsByte = λ key input. zero_bytes-IsByte 32;
}

unfoldable pub all_bytes : List ℕ → Bool
all_bytes [] = true
all_bytes (b ∷ bs) = ltb b 256 && all_bytes bs

all_bytes-IsByte : (bs : List ℕ) → all_bytes bs ≡ true → All IsByte bs
unfolding all_bytes
all_bytes-IsByte [] h = tt
all_bytes-IsByte (b ∷ bs) h = ground (arith, all_bytes-IsByte bs)

-- The text itself, under a tag of zeros.
unfoldable pub seal : List ℕ → Option (List ℕ)
seal text = if all_bytes text then some (text ++ zero_bytes 16) else none

unfoldable pub unseal : List ℕ → Option (List ℕ)
unseal cipher = if leb 16 (length cipher) then some (take (length cipher - 16) cipher) else none

unseal-text : (text : List ℕ) → unseal (text ++ zero_bytes 16) ≡ some text
unfolding unseal
unseal-text text =
    let len = length-append text (zero_bytes 16) in
    let tag = length-zero_bytes 16 in
    let long : leb 16 (length (text ++ zero_bytes 16)) ≡ true = ground (arith, len, tag) in
    let n : length text ≡ length (text ++ zero_bytes 16) - 16 = omega (arith, len, tag) in
    rw long (
      ap some (
        subst (λ k. take k (text ++ zero_bytes 16) ≡ text) n
          (take-append (length text) text (zero_bytes 16) refl)))

if_some :
    (b : Bool) (x y : List ℕ)
    → if◌then◌else◌ {A = Option (List ℕ)} b (some x) none ≡ some y
    → (y ≡ x) × (b ≡ true)
if_some true x y h = (cc, refl)
if_some false x y h = absurd cc

seal-shape :
    (text cipher : List ℕ)
    → seal text ≡ some cipher
    → (cipher ≡ text ++ zero_bytes 16) × (all_bytes text ≡ true)
unfolding seal
seal-shape text cipher h = if_some (all_bytes text) (text ++ zero_bytes 16) cipher h

pub decrypt_lem : (text cipher : List ℕ) → seal text ≡ some cipher → unseal cipher ≡ some text
decrypt_lem text cipher h = rw ((seal-shape text cipher h).0) (unseal-text text)

pub length-seal :
    (text cipher : List ℕ) → seal text ≡ some cipher → length cipher ≡ length text + 16
length-seal text cipher h = omega (
  arith,
  ap length ((seal-shape text cipher h).0),
  length-append text (zero_bytes 16),
  length-zero_bytes 16,
)

pub seal-IsByte : (text cipher : List ℕ) → seal text ≡ some cipher → All IsByte cipher
seal-IsByte text cipher h =
    let (shape, bytes) = seal-shape text cipher h in
    rw shape
      (All-append IsByte text (zero_bytes 16) (all_bytes-IsByte text bytes) (zero_bytes-IsByte 16))

abbrev pub plain_aead : Aead
plain_aead = record {
  encrypt = λ key nonce text aad. seal text;
  decrypt = λ key nonce cipher aad. unseal cipher;
  decrypt-encrypt = λ key nonce text aad cipher h. decrypt_lem text cipher h;
  length-encrypt = λ key nonce text aad cipher h. length-seal text cipher h;
  encrypt-IsByte = λ key nonce text aad cipher h. seal-IsByte text cipher h;
}

-- A handshake that counts its messages.
abbrev pub counting_snow : Snow ℕ
counting_snow = record {
  build_initiator = λ psk. some 0;
  build_responder = λ psk. some 0;
  write_message = λ payload room n. (some payload, n + 1);
  read_message = λ message room n. (some message, n + 1);
  is_handshake_finished = λ n. leb 2 n;
  dangerously_get_raw_split = λ n. (1 ∷ [], 2 ∷ []);
}

abbrev pub toy_env : Env ℕ
toy_env = record {
  rng = dull_rng;
  hash = zero_hash;
  aead = plain_aead;
  snow = counting_snow;
  usize_max = 4294967295;
}

abbrev pub toy_config : ProtocolConfig
toy_config = record {
  role = NoiseRole.initiator;
  psk = [];
  session_id = 1;
  handshake_payload = [];
  max_padding = 0;
  padding_strategy = PaddingStrategy.fixed 0;
  obfuscation_key = 5 ∷ [];
  max_reorder = 8;
  max_reorder_buffer = 4;
  ack_delay_ms = 10;
  rto_ms = 100;
  max_retries = 3;
  max_sent_history = 16;
  handshake_pad_min = 8;
  handshake_pad_max = 16;
  mtu = 1200;
}

abbrev pub fresh_session : ProtocolMachine ℕ ℕ
fresh_session = machine toy_env toy_config 0 (record { handshake = 0 })

-- Two ends after the handshake.
abbrev pub sender : ProtocolMachine ℕ ℕ
sender = record fresh_session {
  state = OstpState.established;
  send_cipher = some (1 ∷ []);
  recv_cipher = some (2 ∷ []);
}

abbrev pub receiver : ProtocolMachine ℕ ℕ
receiver = record fresh_session {
  state = OstpState.established;
  send_cipher = some (2 ∷ []);
  recv_cipher = some (1 ∷ []);
}
