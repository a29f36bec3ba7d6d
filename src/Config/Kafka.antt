-- ===== src/Config/Kafka.antt =====
-- src/events/kafka.rs: the settings of the event stream.
use luxor.Base.{
  ℕ, ◌-◌, Bool, true, false, not, ◌&&◌, ◌||◌, Option, none, some, List, [], ◌∷◌, ◌++◌, Text, codes,
  text_eq, len, trim, split, is_empty, all, find, is_ascii_alphanumeric, to_ascii_lowercase, ltb,
  leb, ◌==◌, if◌then◌else◌, Result, ok, err, ◌>>=◌, ◌>>◌, ensure,
}
use luxor.Base.Numbers.{parse_unsigned}
use luxor.Config.{ConfigError, invalid, validation, Env, get, parse, or_default, is_none}
use luxor.Config.Features.{kafka_settings, is_set}

pub data KafkaSecurityProtocol : Type 0 where
  plaintext ssl sasl_plaintext sasl_ssl : KafkaSecurityProtocol

abbrev pub protocol_name : KafkaSecurityProtocol → Text
protocol_name plaintext = codes "plaintext"
protocol_name ssl = codes "ssl"
protocol_name sasl_plaintext = codes "sasl_plaintext"
protocol_name sasl_ssl = codes "sasl_ssl"

abbrev pub is_sasl : KafkaSecurityProtocol → Bool
is_sasl sasl_plaintext = true
is_sasl sasl_ssl = true
is_sasl _ = false

unfoldable pub security_protocol_from_str : Text → Result ConfigError KafkaSecurityProtocol
unfolding to_ascii_lowercase text_eq
security_protocol_from_str value =
    let lower = to_ascii_lowercase value in
    if text_eq lower (codes "plaintext")
    then ok plaintext
    else if text_eq lower (codes "ssl")
    then ok ssl
    else if text_eq lower (codes "sasl_plaintext")
    then ok sasl_plaintext
    else if text_eq lower (codes "sasl_ssl")
    then ok sasl_ssl
    else err (invalid (codes "KAFKA_SECURITY_PROTOCOL") value)

pub data KafkaSaslMechanism : Type 0 where
  plain scram_sha256 scram_sha512 : KafkaSaslMechanism

-- `to_ascii_uppercase`.
abbrev to_upper_char : ℕ → ℕ
to_upper_char c = if leb b'a' c && leb c b'z' then c - 32 else c

unfoldable pub to_ascii_uppercase : Text → Text
to_ascii_uppercase [] = []
to_ascii_uppercase (c ∷ s) = to_upper_char c ∷ to_ascii_uppercase s

unfoldable pub sasl_mechanism_from_str : Text → Result ConfigError KafkaSaslMechanism
unfolding to_ascii_uppercase text_eq
sasl_mechanism_from_str value =
    let upper = to_ascii_uppercase value in
    if text_eq upper (codes "PLAIN")
    then ok plain
    else if text_eq upper (codes "SCRAM-SHA-256")
    then ok scram_sha256
    else if text_eq upper (codes "SCRAM-SHA-512")
    then ok scram_sha512
    else if text_eq upper (codes "GSSAPI")
    then err (
        invalid (codes "KAFKA_SASL_MECHANISM")
          (codes "GSSAPI needs the Cyrus SASL library, which this build does not link"))
    else err (invalid (codes "KAFKA_SASL_MECHANISM") value)

pub record KafkaSasl : Type 0 where
  pub mechanism : KafkaSaslMechanism
  pub username : Text
  pub password : Text

pub record KafkaSettings : Type 0 where
  pub brokers : Text
  pub topic : Text
  pub consumer_group : Text
  pub client_id : Text
  pub security_protocol : KafkaSecurityProtocol
  pub sasl : Option KafkaSasl
  pub delivery_timeout_seconds : ℕ

-- The parts round the last colon, `rsplit_once(':')`.
abbrev prepend_host : ℕ → Option (Text × Text) → Option (Text × Text)
prepend_host c none = none
prepend_host c (some (host, port)) = some (c ∷ host, port)

abbrev or_here : Bool → Text → Option (Text × Text) → Option (Text × Text)
or_here here s (some cut) = some cut
or_here true s none = some ([], s)
or_here false s none = none

unfoldable pub rsplit_colon : Text → Option (Text × Text)
rsplit_colon [] = none
rsplit_colon (c ∷ s) = or_here (c == b':') s (prepend_host c (rsplit_colon s))

abbrev is_port : Result Text ℕ → Bool
is_port (ok port) = ltb 0 port
is_port (err e) = false

abbrev is_address : Option (Text × Text) → Bool
is_address none = false
is_address (some (host, port)) = not (is_empty host) && is_port (parse_unsigned 16 port)

unfoldable pub is_broker : Text → Bool
unfolding rsplit_colon parse_unsigned
is_broker entry = is_address (rsplit_colon entry)

-- The loop: the entries that are not empty, if each is an address.
abbrev push : Text → List Text → Result ConfigError (List Text)
push entry rest = ok (entry ∷ rest)

unfoldable pub normalized_brokers : List Text → Result ConfigError (List Text)
unfolding trim is_broker
normalized_brokers [] = ok []
normalized_brokers (part ∷ parts) =
    let entry = trim part in
    let rest = normalized_brokers parts in
    if is_empty entry
    then rest
    else ensure (is_broker entry)
        (invalid (codes "KAFKA_BROKERS") (entry ++ codes " is not a host:port address"))
      >> (rest >>= push entry)

-- `join(",")`.
unfoldable pub join_commas : List Text → Text
join_commas [] = []
join_commas (s ∷ []) = s
join_commas (s ∷ t ∷ rest) = s ++ (b',' ∷ join_commas (t ∷ rest))

unfoldable pub parse_broker_list : Text → Result ConfigError Text
unfolding normalized_brokers split join_commas
parse_broker_list brokers = normalized_brokers (split b',' brokers) >>= λ normalized.
    ensure (not (is_empty normalized))
      (invalid (codes "KAFKA_BROKERS") (codes "expected at least one host:port address"))
    >> ok (join_commas normalized)

abbrev pub is_topic_character : ℕ → Bool
is_topic_character c = is_ascii_alphanumeric c || c == b'.' || c == b'_' || c == b'-'

unfoldable pub parse_topic : Text → Result ConfigError Text
unfolding len text_eq
parse_topic topic =
    ensure
      (leb 1 (len topic)
        && leb (len topic) 249
        && not (text_eq topic (codes "."))
        && not (text_eq topic (codes ".."))
        && all is_topic_character topic)
      (invalid (codes "KAFKA_TOPIC")
        (codes "expected 1-249 characters of letters, digits, dots, underscores, or hyphens"))
    >> ok topic

-- `is_ascii_graphic`, and no comma.
abbrev pub is_identifier_character : ℕ → Bool
is_identifier_character c = leb 33 c && leb c 126 && not (c == b',')

unfoldable pub parse_kafka_identifier : Text → Text → Result ConfigError Text
unfolding len
parse_kafka_identifier key value =
    ensure (leb 1 (len value) && leb (len value) 255 && all is_identifier_character value)
      (invalid key (codes "expected 1-255 printable ASCII characters without whitespace or commas"))
    >> ok value

-- The settings after the first, which mean nothing without brokers.
abbrev pub dependent_keys : List Text → List Text
dependent_keys [] = []
dependent_keys (key ∷ keys) = keys

abbrev refuse_dependent : Option Text → Result ConfigError (Option KafkaSettings)
refuse_dependent none = ok none
refuse_dependent (some key) =
    err (validation (key ++ codes " has no effect unless KAFKA_BROKERS is set"))

abbrev protocol_of : Option Text → Result ConfigError KafkaSecurityProtocol
unfolding security_protocol_from_str
protocol_of none = ok plaintext
protocol_of (some value) = security_protocol_from_str value

unfoldable pub credentials :
    KafkaSecurityProtocol
    → Option Text
    → Option Text
    → Option Text
    → Result ConfigError (Option KafkaSasl)
unfolding sasl_mechanism_from_str
credentials protocol (some mechanism) (some username) (some password) =
    sasl_mechanism_from_str mechanism >>= λ known.
    ok (some (record { mechanism = known; username = username; password = password }))
credentials protocol _ _ _ = err (
    validation (
      codes "KAFKA_SECURITY_PROTOCOL="
      ++ protocol_name protocol
      ++ codes " requires KAFKA_SASL_MECHANISM, KAFKA_SASL_USERNAME, and KAFKA_SASL_PASSWORD"))

-- The `match` on the protocol and the three credentials.
unfoldable pub sasl_of :
    KafkaSecurityProtocol
    → Option Text
    → Option Text
    → Option Text
    → Result ConfigError (Option KafkaSasl)
unfolding credentials
sasl_of protocol mechanism username password =
    if is_sasl protocol
    then credentials protocol mechanism username password
    else if is_none mechanism && is_none username && is_none password
    then ok none
    else err (
        validation (
          codes "the KAFKA_SASL_* settings need a SASL KAFKA_SECURITY_PROTOCOL, not "
          ++ protocol_name protocol))

-- `KafkaSettings::from_env`, with brokers.
unfoldable pub with_brokers : Env → Text → Result ConfigError (Option KafkaSettings)
unfolding get security_protocol_from_str sasl_of parse parse_unsigned parse_broker_list parse_topic
    parse_kafka_identifier
with_brokers env named = protocol_of (get env (codes "KAFKA_SECURITY_PROTOCOL")) >>= λ protocol.
    sasl_of protocol (get env (codes "KAFKA_SASL_MECHANISM"))
      (get env (codes "KAFKA_SASL_USERNAME")) (get env (codes "KAFKA_SASL_PASSWORD"))
    >>= λ sasl.
        parse (parse_unsigned 64) env (codes "KAFKA_DELIVERY_TIMEOUT_SECONDS") 10 >>= λ timeout.
        ensure (leb 1 timeout && leb timeout 300)
          (validation (codes "KAFKA_DELIVERY_TIMEOUT_SECONDS must be between 1 and 300 seconds"))
        >> (parse_broker_list named >>= λ brokers.
            parse_topic
              (or_default (get env (codes "KAFKA_TOPIC")) (env.app_name ++ codes ".events"))
            >>= λ topic.
                parse_kafka_identifier (codes "KAFKA_CONSUMER_GROUP")
                  (or_default (get env (codes "KAFKA_CONSUMER_GROUP")) env.app_name)
                >>= λ group.
                    parse_kafka_identifier (codes "KAFKA_CLIENT_ID")
                      (or_default (get env (codes "KAFKA_CLIENT_ID")) env.app_name)
                    >>= λ client. ok (
                        some (record {
                          brokers = brokers;
                          topic = topic;
                          consumer_group = group;
                          client_id = client;
                          security_protocol = protocol;
                          sasl = sasl;
                          delivery_timeout_seconds = timeout;
                        })))

unfoldable pub kafka_from_env : Env → Result ConfigError (Option KafkaSettings)
unfolding get find with_brokers
kafka_from_env env = elim (get env (codes "KAFKA_BROKERS")) [
  | none ↦ refuse_dependent (find (is_set env) (dependent_keys kafka_settings))
  | some named ↦ with_brokers env named
]
