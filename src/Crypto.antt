-- ===== src/Crypto.antt =====
-- internal/crypto/encrypt.go: AES-GCM with the nonce in front of the sealed text. The cipher of
-- Go's crypto/cipher, with its key, is a parameter; what io.ReadFull reads from crypto/rand is an
-- argument, `none` if it fails.
use koto7_tuma.Prelude.{ℕ, Text, Option, none, some, ◌++◌, ltb, length, take, drop, if◌then◌else◌}
use koto7_tuma.Storage.Db.{Res, ok, err, crypto_error}

pub record Gcm : Type 0 where
  pub nonce_size : ℕ
  pub seal : Text → Text → Text
  pub unseal : Text → Text → Option Text

unfoldable pub encrypt_bytes : Gcm → Option Text → Text → Res Text
encrypt_bytes g none plaintext = err crypto_error
encrypt_bytes g (some nonce) plaintext = ok (nonce ++ g.seal nonce plaintext)

unfoldable pub opened : Option Text → Res Text
opened none = err crypto_error
opened (some plaintext) = ok plaintext

unfoldable pub decrypt_bytes : Gcm → Text → Res Text
unfolding opened
decrypt_bytes g ciphertext =
    if ltb (length ciphertext) g.nonce_size
    then err crypto_error
    else opened (g.unseal (take g.nonce_size ciphertext) (drop g.nonce_size ciphertext))
