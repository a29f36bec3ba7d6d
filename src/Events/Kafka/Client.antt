-- ===== src/Events/Kafka/Client.antt =====
-- src/events/kafka.rs: the settings that the two clients are created with.
use luxor.Base.{
  ◌*◌, ◌≡◌, refl, Option, none, some, [], Text, codes, text_eq, to_decimal, Option-cases, inl, inr,
}
use luxor.Base.Map.{Map, insert, lookup}
use luxor.Config.Kafka.{
  KafkaSettings, KafkaSasl, KafkaSaslMechanism, plain, scram_sha256, scram_sha512, protocol_name,
}

-- The library's own map of names to values.
abbrev pub ClientConfig : Type 0
ClientConfig = Map Text

abbrev mechanism_name : KafkaSaslMechanism → Text
mechanism_name plain = codes "PLAIN"
mechanism_name scram_sha256 = codes "SCRAM-SHA-256"
mechanism_name scram_sha512 = codes "SCRAM-SHA-512"

set_sasl : Option KafkaSasl → ClientConfig → ClientConfig
unfolding insert
set_sasl none config = config
set_sasl (some sasl) config = insert (codes "sasl.password") sasl.password (
    insert (codes "sasl.username") sasl.username
      (insert (codes "sasl.mechanism") (mechanism_name sasl.mechanism) config))

unfoldable pub client_config : KafkaSettings → ClientConfig
unfolding set_sasl insert
client_config settings = set_sasl settings.sasl (
    insert (codes "security.protocol") (protocol_name settings.security_protocol) (
      insert (codes "client.id") settings.client_id
        (insert (codes "bootstrap.servers") settings.brokers [])))

unfoldable pub producer_config : KafkaSettings → ClientConfig
unfolding client_config insert to_decimal
producer_config settings = insert (codes "compression.type") (codes "lz4") (
    insert (codes "linger.ms") (codes "5") (
      insert (codes "message.timeout.ms") (to_decimal (settings.delivery_timeout_seconds * 1000))
        (insert (codes "enable.idempotence") (codes "true") (client_config settings))))

unfoldable pub consumer_config : KafkaSettings → ClientConfig
unfolding client_config insert
consumer_config settings = insert (codes "auto.offset.reset") (codes "earliest") (
    insert (codes "enable.auto.commit") (codes "false")
      (insert (codes "group.id") settings.consumer_group (client_config settings)))

abbrev password_of : Option KafkaSasl → Option Text
password_of none = none
password_of (some sasl) = some sasl.password

abbrev name_of : Option KafkaSasl → Option Text
name_of none = none
name_of (some sasl) = some sasl.username

-- The credentials and the mechanism that a client is given are those of its settings, if there are any.
unfoldable pub IsSignedIn : KafkaSettings → ClientConfig → Type 0
IsSignedIn s config =
    (lookup (codes "bootstrap.servers") config ≡ some s.brokers)
    × (lookup (codes "security.protocol") config ≡ some (protocol_name s.security_protocol))
    × (lookup (codes "sasl.username") config ≡ name_of s.sasl)
    × (lookup (codes "sasl.password") config ≡ password_of s.sasl)

-- Each client is given the addresses, the protocol and the credentials of the settings, the password
-- only where there are credentials. The producer is idempotent and gives a record up when the
-- delivery timeout is over; the consumer never commits by itself, and a new group starts at the
-- oldest record.
pub client_config-Guarantees :
    (s : KafkaSettings)
    → IsSignedIn s (producer_config s)
      × (lookup (codes "enable.idempotence") (producer_config s) ≡ some (codes "true"))
      × (lookup (codes "message.timeout.ms") (producer_config s)
          ≡ some (to_decimal (s.delivery_timeout_seconds * 1000)))
      × IsSignedIn s (consumer_config s)
      × (lookup (codes "group.id") (consumer_config s) ≡ some s.consumer_group)
      × (lookup (codes "enable.auto.commit") (consumer_config s) ≡ some (codes "false"))
      × (lookup (codes "auto.offset.reset") (consumer_config s) ≡ some (codes "earliest"))
unfolding IsSignedIn producer_config consumer_config lookup insert client_config set_sasl text_eq
client_config-Guarantees s = elim (Option-cases s.sasl) [
  | inl absent ↦
      rw absent ((refl, refl, refl, refl), refl, refl, (refl, refl, refl, refl), refl, refl, refl)
  | inr (sasl, given) ↦
      rw given ((refl, refl, refl, refl), refl, refl, (refl, refl, refl, refl), refl, refl, refl)
]
