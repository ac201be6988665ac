-- ===== src/Token/Cache/Hex.antt =====
-- `hex_to_bytes` against the encoder of the `hex` crate, which writes each byte as two digits.
use node_get.Prelude.{
  ℕ, ◌+◌, ◌-◌, ◌*◌, ◌/◌, ◌%◌, ◌<◌, ◌≡◌, List, [], ◌∷◌, some, All, arith, ltb, length, if◌then◌else◌,
}
use node_get.Text.{Text}
use node_get.Token.Cache.{hex_nibble, hex_byte, hex_bytes, hex_to_bytes}

-- The lower-case digit of a number below 16.
unfoldable pub hex_digit : ℕ → ℕ
hex_digit n = if ltb n 10 then b'0' + n else b'a' + (n - 10)

-- What is documented of `hex::encode`.
pub record Encodes (encode : List ℕ → Text) : Type 0 where
  pub nil : encode [] ≡ []
  pub cons :
      (b : ℕ) (bytes : List ℕ)
      → encode (b ∷ bytes) ≡ hex_digit (b / 16) ∷ hex_digit (b % 16) ∷ encode bytes

nibble-digit : (n : ℕ) → n < 16 → hex_nibble (hex_digit n) ≡ some n
unfolding hex_nibble hex_digit
nibble-digit n h = ground arith

byte-digits : (b : ℕ) → b < 256 → hex_byte (hex_digit (b / 16)) (hex_digit (b % 16)) ≡ some b
unfolding hex_byte
byte-digits b h =
    ground (arith, nibble-digit (b / 16) (omega arith), nibble-digit (b % 16) (omega arith))

hex_bytes_cons :
    (hi lo : ℕ) (rest : List ℕ) (b : ℕ) (bytes : List ℕ)
    → hex_byte hi lo ≡ some b
    → hex_bytes rest ≡ some bytes
    → hex_bytes (hi ∷ lo ∷ rest) ≡ some (b ∷ bytes)
unfolding hex_bytes
hex_bytes_cons hi lo rest b bytes h r = ground arith

bytes-encode :
    (encode : List ℕ → Text)
    → Encodes encode
    → (bytes : List ℕ) → All (λ b. b < 256) bytes
    → hex_bytes (encode bytes) ≡ some bytes
unfolding hex_bytes
bytes-encode encode e [] h = rw e.nil
bytes-encode encode e (b ∷ bytes) h = rw e.cons (
    hex_bytes_cons (hex_digit (b / 16)) (hex_digit (b % 16)) (encode bytes) b bytes
      (byte-digits b h.0) (bytes-encode encode e bytes h.1))

length-encode :
    (encode : List ℕ → Text)
    → Encodes encode
    → (bytes : List ℕ) → length (encode bytes) ≡ 2 * length bytes
length-encode encode e [] = rw e.nil
length-encode encode e (b ∷ bytes) = rw e.cons (omega (arith, length-encode encode e bytes))

by_length :
    (s : Text) (bytes : List ℕ)
    → length s ≡ 64
    → hex_bytes s ≡ some bytes
    → hex_to_bytes s ≡ some bytes
unfolding hex_to_bytes
by_length s bytes n h = rw (n, hex_to_bytes) h

-- With an encoder that writes two lower-case digits a byte, the 32 bytes of a hash come back from
-- their 64 digits.
pub hex_to_bytes-encode :
    (encode : List ℕ → Text)
    → Encodes encode
    → (bytes : List ℕ) → length bytes ≡ 32
    → All (λ b. b < 256) bytes
    → hex_to_bytes (encode bytes) ≡ some bytes
hex_to_bytes-encode encode e bytes n h =
    by_length (encode bytes) bytes (omega (arith, length-encode encode e bytes))
      (bytes-encode encode e bytes h)
