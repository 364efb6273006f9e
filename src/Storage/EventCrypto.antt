-- ===== src/Storage/EventCrypto.antt =====
-- Sealing and opening: internal/crypto/encrypt.go and internal/storage/event_crypto.go.
use koto7_tuma.Prelude.{
  ◌≡◌, refl, ap, Text, true, false, Option, none, some, [], ◌∷◌, ◌++◌, ltb, length, take, drop,
  length-append, arith,
}
use koto7_tuma.Crypto.{Gcm, encrypt_bytes, decrypt_bytes, opened}
use koto7_tuma.Storage.Db.{ok}
use koto7_tuma.Storage.Events.{Fields, seal_event_fields, open_event_fields, both}

-- A cipher that opens what it seals under the same nonce.
pub record IsSound (g : Gcm) : Type 0 where
  pub opens :
      (nonce text : Text)
      → length nonce ≡ g.nonce_size
      → g.unseal nonce (g.seal nonce text) ≡ some text

pub ok-inj : {A : Type 0} {a b : A} → ok a ≡ ok b → a ≡ b
ok-inj e = ground arith

take-append : (xs ys : Text) → take (length xs) (xs ++ ys) ≡ xs
take-append [] ys = refl
take-append (x ∷ xs) ys = ap (λ t. x ∷ t) (take-append xs ys)

drop-append : (xs ys : Text) → drop (length xs) (xs ++ ys) ≡ ys
drop-append [] ys = refl
drop-append (x ∷ xs) ys = drop-append xs ys

-- DecryptBytes gives back what EncryptBytes sealed under a nonce of the cipher's size.
pub decrypt_bytes-encrypt_bytes :
    (g : Gcm) (nonce text sealed : Text)
    → IsSound g
    → length nonce ≡ g.nonce_size
    → encrypt_bytes g (some nonce) text ≡ ok sealed
    → decrypt_bytes g sealed ≡ ok text
unfolding encrypt_bytes decrypt_bytes opened
decrypt_bytes-encrypt_bytes g nonce text sealed sound size h =
    let long : ltb (length (nonce ++ g.seal nonce text)) (length nonce) ≡ false =
      ground (arith, length-append nonce (g.seal nonce text)) in
    let e : nonce ++ g.seal nonce text ≡ sealed = ground (arith, h) in
    rw
      (
        ← e,
        ← size,
        long,
        take-append nonce (g.seal nonce text),
        drop-append nonce (g.seal nonce text),
        sound.opens nonce text size,
      )
      refl

-- What was read of crypto/rand has the size that the cipher asks for.
pub record HasSize (g : Gcm) (random : Option Text) : Type 0 where
  pub at : (n : Text) → random ≡ some n → length n ≡ g.nonce_size

pub decrypted :
    (g : Gcm) (random : Option Text) (text sealed : Text)
    → IsSound g
    → HasSize g random
    → encrypt_bytes g random text ≡ ok sealed
    → decrypt_bytes g sealed ≡ ok text
unfolding encrypt_bytes
decrypted g none text sealed sound size h = absurd (ground arith)
decrypted g (some n) text sealed sound size h =
    decrypt_bytes-encrypt_bytes g n text sealed sound (size.at n refl) h

-- With a sound cipher and two nonces of its size, the sealed fields of an event, if sealing them
-- succeeds, are opened as the headers and the payload that they came from.
pub open_event_fields-seal :
    (g : Gcm) (a b headers payload : Text) (sealed : Fields)
    → IsSound g
    → length a ≡ g.nonce_size
    → length b ≡ g.nonce_size
    → seal_event_fields
        (some g)
        (record { for_headers = some a; for_payload = some b })
        headers
        payload
      ≡ ok sealed
    → open_event_fields (some g) sealed.headers sealed.payload true
      ≡ ok (record { headers = headers; payload = payload })
unfolding seal_event_fields open_event_fields both encrypt_bytes
open_event_fields-seal g a b headers payload sealed sound ha hb h =
    let e : (record { headers = a ++ g.seal a headers; payload = b ++ g.seal b payload }) ≡ sealed =
      ok-inj h in
    rw
      (
        ← e,
        decrypt_bytes-encrypt_bytes g a headers _ sound ha refl,
        decrypt_bytes-encrypt_bytes g b payload _ sound hb refl,
      )
      refl
