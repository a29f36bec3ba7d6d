-- ===== src/Config/Brokers.antt =====
-- src/events/kafka.rs: what settings of the event stream that load are worth.
use luxor.Base.{
  ◌≤◌, ◌≡◌, refl, sym, ap, ◌∙◌, Ensures-map, true, false, not, ◌&&◌, Option, none, some, List, [],
  ◌∷◌, Text, codes, len, is_empty, all, trim, split, find, All, Ensures, Ensures-elim, Ensures-bind,
  Ensures-guard, Ensures-ok, Option-cases, Bool-cases, inl, inr, arith,
}
use luxor.Config.{Env, get, is_none}
use luxor.Config.Features.{kafka_settings, is_set}
use luxor.Config.Kafka.{
  KafkaSecurityProtocol, is_sasl, KafkaSasl, KafkaSettings, is_broker, dependent_keys,
  normalized_brokers, join_commas, parse_broker_list, is_topic_character, parse_topic,
  is_identifier_character, parse_kafka_identifier, credentials, sasl_mechanism_from_str, sasl_of,
  with_brokers, kafka_from_env,
}

-- At least one entry, each a host and a port that is not 0, joined by commas.
abbrev pub IsBrokerList : Text → Type 0
IsBrokerList brokers =
    (entries : List Text) × (brokers ≡ join_commas entries)
    × (is_empty entries ≡ false)
    × All (λ entry. is_broker entry ≡ true) entries

normalized_brokers-Ensures :
    (parts : List Text)
    → Ensures (λ entries. All (λ entry. is_broker entry ≡ true) entries) (normalized_brokers parts)
unfolding normalized_brokers Ensures
normalized_brokers-Ensures [] = tt
normalized_brokers-Ensures (part ∷ parts) = elim (Bool-cases (is_empty (trim part))) [
  | inl blank ↦ rw blank (normalized_brokers-Ensures parts)
  | inr given ↦ rw given (
      Ensures-guard _ _ _ _ λ valid.
        Ensures-bind _ (normalized_brokers parts) _
          λ rest e. (valid, Ensures-elim _ (normalized_brokers-Ensures parts) e))
]

parse_broker_list-IsBrokerList : (brokers : Text) → Ensures IsBrokerList (parse_broker_list brokers)
unfolding parse_broker_list
parse_broker_list-IsBrokerList brokers = Ensures-bind _ _ _ λ entries e.
    Ensures-guard _ _ _ _ λ some_given. Ensures-ok _ _ _ refl (
      entries,
      refl,
      (ground arith),
      Ensures-elim _ (normalized_brokers-Ensures (split b',' brokers)) e,
    )

abbrev IsTopic : Text → Type 0
IsTopic topic = (1 ≤ len topic) × (len topic ≤ 249) × (all is_topic_character topic ≡ true)

parse_topic-IsTopic : (topic : Text) → Ensures IsTopic (parse_topic topic)
unfolding parse_topic
parse_topic-IsTopic topic = Ensures-guard _ _ _ _ λ valid. Ensures-ok _ _ _ refl (ground arith)

abbrev IsIdentifier : Text → Type 0
IsIdentifier s = (1 ≤ len s) × (len s ≤ 255) × (all is_identifier_character s ≡ true)

parse_kafka_identifier-IsIdentifier :
    (key value : Text) → Ensures IsIdentifier (parse_kafka_identifier key value)
unfolding parse_kafka_identifier
parse_kafka_identifier-IsIdentifier key value =
    Ensures-guard _ _ _ _ λ valid. Ensures-ok _ _ _ refl (ground arith)

-- Credentials are there exactly if the protocol sends them.
abbrev IsPaired : KafkaSecurityProtocol → Option KafkaSasl → Type 0
IsPaired protocol sasl = is_none sasl ≡ not (is_sasl protocol)

credentials-Ensures :
    (protocol : KafkaSecurityProtocol) (mechanism username password : Option Text)
    → Ensures (λ sasl. is_none sasl ≡ false) (credentials protocol mechanism username password)
unfolding Ensures credentials
credentials-Ensures protocol none username password = tt
credentials-Ensures protocol (some m) none password = tt
credentials-Ensures protocol (some m) (some u) none = tt
credentials-Ensures protocol (some m) (some u) (some p) =
    Ensures-bind _ (sasl_mechanism_from_str m) _ λ known e. refl

sasl_of-IsPaired :
    (protocol : KafkaSecurityProtocol) (mechanism username password : Option Text)
    → Ensures (IsPaired protocol) (sasl_of protocol mechanism username password)
unfolding sasl_of Ensures
sasl_of-IsPaired protocol mechanism username password = elim (Bool-cases (is_sasl protocol)) [
  | inl sent ↦ rw sent (
      Ensures-map (λ sasl. is_none sasl ≡ false) (λ sasl. is_none sasl ≡ not (is_sasl protocol))
        (credentials protocol mechanism username password)
        (credentials-Ensures protocol mechanism username password)
        (λ sasl present. present ∙ ap not (sym sent)))
  | inr unsent ↦ elim (Bool-cases (is_none mechanism && is_none username && is_none password)) [
    | inl clear ↦ rw (unsent, clear) (ap not (sym unsent))
    | inr stray ↦ rw (unsent, stray) tt
  ]
]

pub IsKafkaSound : Option KafkaSettings → Type 0
IsKafkaSound none = Unit
IsKafkaSound (some s) =
    IsBrokerList s.brokers
    × IsTopic s.topic
    × IsIdentifier s.consumer_group
    × IsIdentifier s.client_id
    × IsPaired s.security_protocol s.sasl
    × (1 ≤ s.delivery_timeout_seconds)
    × (s.delivery_timeout_seconds ≤ 300)

pub absent-IsKafkaSound : IsKafkaSound none
unfolding IsKafkaSound
absent-IsKafkaSound = tt

with_brokers-IsKafkaSound :
    (env : Env) (named : Text) → Ensures IsKafkaSound (with_brokers env named)
unfolding with_brokers IsKafkaSound
with_brokers-IsKafkaSound env named = Ensures-bind _ _ _ λ protocol _. Ensures-bind _ _ _ λ sasl a.
    Ensures-bind _ _ _ λ timeout _. Ensures-guard _ _ _ _ λ bounded. Ensures-bind _ _ _ λ brokers b.
      Ensures-bind _ _ _ λ topic c. Ensures-bind _ _ _ λ group d. Ensures-bind _ _ _ λ client e.
        Ensures-ok _ _ _ refl (
          Ensures-elim _ (parse_broker_list-IsBrokerList named) b,
          Ensures-elim _ (parse_topic-IsTopic _) c,
          Ensures-elim _ (parse_kafka_identifier-IsIdentifier _ _) d,
          Ensures-elim _ (parse_kafka_identifier-IsIdentifier _ _) e,
          Ensures-elim _ (sasl_of-IsPaired protocol _ _ _) a,
          ground arith,
          ground arith,
        )

pub kafka_from_env-IsKafkaSound : (env : Env) → Ensures IsKafkaSound (kafka_from_env env)
unfolding kafka_from_env IsKafkaSound Ensures
kafka_from_env-IsKafkaSound env = elim (Option-cases (get env (codes "KAFKA_BROKERS"))) [
  | inr (named, set) ↦ rw (set, kafka_from_env) (with_brokers-IsKafkaSound env named)
  | inl unset ↦ elim (Option-cases (find (is_set env) (dependent_keys kafka_settings))) [
    | inl clear ↦ rw (unset, kafka_from_env, clear) tt
    | inr (key, stray) ↦ rw (unset, kafka_from_env, stray) tt
  ]
]
