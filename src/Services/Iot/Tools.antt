-- ===== src/Services/Iot/Tools.antt =====
-- `IoTService` of bantu_os/services/iot/__init__.py: the client it makes when it is first needed, and
-- the tools that publish and subscribe.
use bantu_os.Prelude.{
  ℕ, Bool, ◌&&◌, ◌||◌, not, List, [], ◌∷◌, Option, none, some, Result, ok, err, any, eqb, leb,
  length, if◌then◌else◌,
}
use bantu_os.Prelude.Text.{Text, codes}
use bantu_os.Auth.Names.{strip}
use bantu_os.Services.Iot.Client.{
  Incoming, Message, MqttError, Mqtt, Client, is_empty, new_client, on_message, connect, publish,
  subscribe, get_messages,
}

-- The answers: a refused argument, and any error of the client, under the words of the tool.
pub data ToolError : Type 0 where
  bad_topic nul_in_topic bad_qos bad_timeout not_installed : ToolError
  publish_failed subscribe_failed : MqttError → ToolError

pub record Collected : Type 0 where
  pub topic : Text
  pub messages : List Message
  pub count : ℕ

-- `c in text`
abbrev pub has_char : ℕ → Text → Bool
has_char c text = any (eqb c) text

-- `not topic.strip()`
unfoldable pub is_blank : Text → Bool
unfolding strip
is_blank topic = is_empty (strip topic)

module _ {W : Type 0} (mqtt : Mqtt W) where
  abbrev pub env_or : Text → Text → Text
  env_or name other = elim (mqtt.environ name) [ none ↦ other | some v ↦ v ]

  -- `_get_client`: the client that there is, or a new one. The client's id is left out.
  unfoldable pub get_client : Option Client → Result MqttError Client
  get_client (some c) = ok c
  get_client none =
      new_client mqtt (env_or (codes "MQTT_BROKER_URL") (codes "mqtt://localhost:1883"))
        (env_or (codes "MQTT_USERNAME") []) (env_or (codes "MQTT_PASSWORD") [])

  unfoldable pub health_check : Option Client → Result MqttError Bool × Option Client
  unfolding get_client
  health_check state = elim (get_client state) [
    | err e ↦ (err e, state)
    | ok c ↦ (ok c.connected, some c)
  ]

  unfoldable pub reached :
      Result MqttError (Unit {0}) × Client × W → Result MqttError Client × Option Client × W
  reached (ok _, c, w) = (ok c, some c, w)
  reached (err e, c, w) = (err e, some c, w)

  -- A client that is connected, with the default timeout of 5 seconds.
  unfoldable pub connected_client : Option Client → W → Result MqttError Client × Option Client × W
  unfolding get_client reached
  connected_client state w = elim (get_client state) [
    | err e ↦ (err e, state, w)
    | ok c ↦
        let joined = reached (connect mqtt 5000 c w) in
        if c.connected then (ok c, some c, w) else joined
  ]

  unfoldable pub published :
      Text
      → Text
      → ℕ
      → Result MqttError Client × Option Client × W
      → Result ToolError (ℕ × ℕ × Text) × Option Client × W
  published topic payload qos (err e, state, w) = (err (publish_failed e), state, w)
  published topic payload qos (ok c, state, w) =
      let (r, w') = publish mqtt topic payload qos c w in
      elim r [ ok info ↦ (ok info, state, w') | err e ↦ (err (publish_failed e), state, w') ]

  unfoldable pub iot_publish_message :
      Text → Text → ℕ → Option Client → W → Result ToolError (ℕ × ℕ × Text) × Option Client × W
  unfolding published
  iot_publish_message topic payload qos state w =
      if is_blank topic || has_char b'#' topic || has_char b'+' topic
      then (err bad_topic, state, w)
      else if not (leb qos 2)
      then (err bad_qos, state, w)
      else if not mqtt.available
      then (err not_installed, state, w)
      else published topic payload qos (connected_client state w)

  unfoldable pub receive_all : List Incoming → Client → Client
  receive_all [] c = c
  receive_all (msg ∷ msgs) c = receive_all msgs (on_message mqtt msg c)

  -- The messages that come in during the sleep are kept under their own topics.
  unfoldable pub collected : Text → ℕ → Client → W → Result ToolError Collected × Option Client × W
  unfolding receive_all
  collected topic timeout c w =
      let (msgs, w') = mqtt.deliver timeout w in
      let c' = receive_all msgs c in
      let messages = get_messages mqtt topic c' in
      (ok (record { topic = topic; messages = messages; count = length messages }), some c', w')

  unfoldable pub after_subscribe :
      Text
      → ℕ
      → Result MqttError (Unit {0}) × Client × W
      → Result ToolError Collected × Option Client × W
  unfolding collected
  after_subscribe topic timeout (err e, c, w) = (err (subscribe_failed e), some c, w)
  after_subscribe topic timeout (ok _, c, w) = collected topic timeout c w

  unfoldable pub subscribed :
      Text
      → ℕ
      → ℕ
      → Result MqttError Client × Option Client × W
      → Result ToolError Collected × Option Client × W
  unfolding after_subscribe
  subscribed topic qos timeout (err e, state, w) = (err (subscribe_failed e), state, w)
  subscribed topic qos timeout (ok c, state, w) =
      after_subscribe topic timeout (subscribe mqtt topic qos c w)

  unfoldable pub iot_subscribe :
      Text → ℕ → ℕ → Option Client → W → Result ToolError Collected × Option Client × W
  unfolding subscribed
  iot_subscribe topic qos timeout state w =
      if is_blank topic
      then (err bad_topic, state, w)
      else if has_char 0 topic
      then (err nul_in_topic, state, w)
      else if not (leb qos 2)
      then (err bad_qos, state, w)
      else if not (leb 1 timeout && leb timeout 300000)
      then (err bad_timeout, state, w)
      else if not mqtt.available
      then (err not_installed, state, w)
      else subscribed topic qos timeout (connected_client state w)
