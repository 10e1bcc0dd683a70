-- ===== src/Signing.antt =====
-- The check of a signature (kernel/internal/signing/signing.go): base64 and Ed25519 are parameters, and
-- a text that is signed is a value of its own type.
use deepaxiom_aura.Base.{ℕ, String, Bool, not, Option, none, some, if◌then◌else◌, nat_beq}

-- The size of an Ed25519 public key, in bytes.
abbrev pub public_key_size : ℕ
public_key_size = 32

-- What `Verify` calls: the base64 decoder, the number of bytes of what it gives, and Ed25519's check of
-- a key, a text and a signature.
pub record Crypto (Payload : Type 0) : Type 0 where
  pub decode : String → Option String
  pub bytes : String → ℕ
  pub ed25519_ok : String → Payload → String → Bool

pub data SignError : Type 0 where
  invalid_public_key : SignError
  invalid_encoding : SignError
  not_matching : SignError

module _ {Payload : Type 0} (crypto : Crypto Payload) where
  unfoldable pub verify : String → String → Payload → Option SignError
  verify public_b64 sig_b64 payload = elim (crypto.decode public_b64) [
    | none ↦ some invalid_public_key
    | some key ↦
        if not (nat_beq (crypto.bytes key) public_key_size)
        then some invalid_public_key
        else elim (crypto.decode sig_b64) [
          | none ↦ some invalid_encoding
          | some sig ↦ if crypto.ed25519_ok key payload sig then none else some not_matching
        ]
  ]

-- The same check for texts that are one kind of those that are signed.
abbrev pub signed_as : {A B : Type 0} → (A → B) → Crypto B → Crypto A
signed_as kind crypto = record {
  decode = crypto.decode;
  bytes = crypto.bytes;
  ed25519_ok = λ key payload sig. crypto.ed25519_ok key (kind payload) sig;
}
