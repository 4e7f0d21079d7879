-- ===== src/Auth/Password.antt =====
-- internal/auth/password.go. argon2.IDKey is the parameter `argon2`: a function of the password,
-- the salt, the cost parameters and the key's length. Texts that hold hashes are ASCII.
pub mod Parts
pub mod RoundTrip
use warp_work.Base.Result.{Result, ok, err}
use warp_work.Base.Maybe.{◌>>=◌, ◌>>◌, guard}
use warp_work.Base.{
  ℕ, ◌%◌, ◌^◌, zero, suc, ◌+◌, ◌*◌, Bool, true, false, not, ◌&&◌, ◌||◌, Option, none, some, List,
  [], ◌∷◌, ◌++◌, Text, text_eq, length, ltb, ◌==◌, if◌then◌else◌,
}
use warp_work.Codec.Base64
use warp_work.Codec.Decimal.{decimal, scan_uint, scan_int, expect}

pub record PasswordParams : Type 0 where
  pub memory : ℕ
  pub iterations : ℕ
  pub parallelism : ℕ
  pub salt_length : ℕ
  pub key_length : ℕ

abbrev pub default_password_params : PasswordParams
default_password_params = record {
  memory = 19 * 1024;
  iterations = 2;
  parallelism = 1;
  salt_length = 16;
  key_length = 32;
}

-- argon2.Version
abbrev pub argon2_version : ℕ
argon2_version = 0x13

-- argon2.IDKey: password, salt, iterations, memory, parallelism, key length. `none` is its panic,
-- which too small a number of iterations or threads brings about.
abbrev pub Argon2 : Type 0
Argon2 = Text → Text → ℕ → ℕ → ℕ → ℕ → Option Text

pub data PasswordError : Type 0 where
  mismatch malformed no_randomness panics : PasswordError

-- "argon2id"
abbrev pub argon2id : Text
argon2id = b'a' ∷ b'r' ∷ b'g' ∷ b'o' ∷ b'n' ∷ b'2' ∷ b'i' ∷ b'd' ∷ []

-- "m=…,t=…,p=…"
unfoldable pub format_params : PasswordParams → Text
format_params p =
    b'm'
    ∷ b'='
    ∷ (decimal p.memory
        ++ b','
          ∷ b't'
          ∷ b'='
          ∷ (decimal p.iterations ++ b',' ∷ b'p' ∷ b'=' ∷ decimal p.parallelism))

-- The Sprintf of HashPassword: "$argon2id$v=19$m=…,t=…,p=…$salt$key".
unfoldable pub encode_hash : PasswordParams → Text → Text → Text
unfolding format_params
encode_hash p salt key =
    b'$'
    ∷ (argon2id
        ++ b'$'
          ∷ ((b'v' ∷ b'=' ∷ decimal argon2_version)
              ++ b'$'
                ∷ (format_params p
                    ++ b'$' ∷ (Base64.encode false salt ++ b'$' ∷ Base64.encode false key))))

-- HashPassword; `salt` is what rand.Read gives, if it gives anything.
unfoldable pub hash_password :
    Argon2 → Option Text → Text → PasswordParams → Result PasswordError Text
hash_password argon2 none password p = err no_randomness
hash_password argon2 (some salt) password p =
    elim (argon2 password salt p.iterations p.memory p.parallelism p.key_length) [
      | none ↦ err panics
      | some key ↦ ok (encode_hash p salt key)
    ]

abbrev cons_first : ℕ → List Text → List Text
cons_first c [] = (c ∷ []) ∷ []
cons_first c (part ∷ parts) = (c ∷ part) ∷ parts

-- strings.Split by a separator of one character.
unfoldable pub split : ℕ → Text → List Text
split sep [] = [] ∷ []
split sep (c ∷ s) = let parts = split sep s in if c == sep then [] ∷ parts else cons_first c parts

-- Sscanf of "v=%d".
unfoldable pub scan_version : Text → Option (Bool × ℕ)
scan_version s = do
  s ← expect b'v' s
  s ← expect b'=' s
  (minus, n, rest) ← scan_int s
  some (minus, n)

-- Sscanf of "m=%d,t=%d,p=%d" into two uint32 and a uint8.
unfoldable pub scan_params : Text → Option (ℕ × ℕ × ℕ)
scan_params s = do
  s ← expect b'm' s
  s ← expect b'=' s
  (m, s) ← scan_uint 32 s
  s ← expect b',' s
  s ← expect b't' s
  s ← expect b'=' s
  (t, s) ← scan_uint 32 s
  s ← expect b',' s
  s ← expect b'p' s
  s ← expect b'=' s
  (p, s) ← scan_uint 8 s
  some (m, t, p)

-- The parts of the text between its dollars, checked and read one by one.
unfoldable pub decode_parts : List Text → Option (PasswordParams × Text × Text)
decode_parts (before ∷ name ∷ version ∷ params ∷ salt ∷ key ∷ []) =
    if not (text_eq name argon2id) then none else do
      (minus, v) ← scan_version version
      guard (not minus && v == argon2_version)
      (m, t, p) ← scan_params params
      salt ← Base64.decode true false salt
      key ← Base64.decode true false key
      some (
        record {
          memory = m;
          iterations = t;
          parallelism = p;
          salt_length = length salt % 2 ^ 32;
          key_length = length key % 2 ^ 32;
        },
        salt,
        key,
      )
decode_parts _ = none

-- decodeHash; `none` is any of its errors.
unfoldable pub decode_hash : Text → Option (PasswordParams × Text × Text)
unfolding decode_parts
decode_hash encoded = decode_parts (split b'$' encoded)

-- VerifyPassword
unfoldable pub verify_password : Argon2 → Text → Text → Result PasswordError (Unit {0})
verify_password argon2 password encoded = elim (decode_hash encoded) [
  | none ↦ err malformed
  | some (p, salt, want) ↦
      elim (argon2 password salt p.iterations p.memory p.parallelism (length want % 2 ^ 32)) [
        | none ↦ err panics
        | some got ↦ if text_eq got want then ok tt else err mismatch
      ]
]

-- NeedsRehash
unfoldable pub needs_rehash : Text → PasswordParams → Bool
needs_rehash encoded current = elim (decode_hash encoded) [
  | none ↦ true
  | some (p, _, _) ↦
      ltb p.memory current.memory
      || ltb p.iterations current.iterations
      || ltb p.parallelism current.parallelism
]
