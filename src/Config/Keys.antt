-- ===== src/Config/Keys.antt =====
-- The keys of internal/config/config.go.
use koto7_tuma.Prelude.{◌≡◌, sym, ap, ◌∙◌, str, length, arith}
use koto7_tuma.Storage.Db.{ok}
use koto7_tuma.Storage.EventCrypto.{ok-inj}
use koto7_tuma.Config.{Environment, AppConfig, env_or, configured, load}

-- A configuration that Load returns has two keys of 32 bytes: that of TUMA_ENCRYPTION_KEY, and that
-- of TUMA_PAYLOAD_KEY, or the former again where the latter is not set.
pub load-keys :
    (environ : Environment) (cfg : AppConfig)
    → load environ ≡ ok cfg
    → (cfg.encryption_key ≡ environ (str "TUMA_ENCRYPTION_KEY"))
      × (length cfg.encryption_key ≡ 32)
      × (cfg.payload_key ≡ env_or environ (str "TUMA_PAYLOAD_KEY") cfg.encryption_key)
      × (length cfg.payload_key ≡ 32)
unfolding load configured env_or
load-keys environ cfg h =
    let key = environ (str "TUMA_ENCRYPTION_KEY") in
    let payload = env_or environ (str "TUMA_PAYLOAD_KEY") key in
    let same : configured environ key payload ≡ cfg = ok-inj facts.2 in
    let ek = ap (λ (c : AppConfig). c.encryption_key) same in
    let pk = ap (λ (c : AppConfig). c.payload_key) same in
    (
      sym ek,
      ap (λ t. length t) (sym ek) ∙ facts.0,
      sym pk ∙ ap (λ k. env_or environ (str "TUMA_PAYLOAD_KEY") k) ek,
      ap (λ t. length t) (sym pk) ∙ facts.1,
    )
  where
    facts :
        (length (environ (str "TUMA_ENCRYPTION_KEY")) ≡ 32)
        × (length (env_or environ (str "TUMA_PAYLOAD_KEY") (environ (str "TUMA_ENCRYPTION_KEY")))
            ≡ 32)
        × (ok (
              configured environ
                (environ (str "TUMA_ENCRYPTION_KEY"))
                (env_or environ (str "TUMA_PAYLOAD_KEY") (environ (str "TUMA_ENCRYPTION_KEY"))))
            ≡ ok cfg)
    facts = ground (arith, h)
