-- ===== src/Services/Iot/Client.antt =====
-- `_MQTTClient` of bantu_os/services/iot/__init__.py. paho-mqtt, `urlparse` and the environment are
-- the parameter `Mqtt`, over a world `W`; times are milliseconds.
use bantu_os.Prelude.{
  ℕ, Bool, true, false, ◌&&◌, ◌||◌, not, List, [], ◌∷◌, ◌++◌, Option, none, some, Result, ok, err,
  eqb, leb, if◌then◌else◌,
}
use bantu_os.Prelude.Text.{Text, codes, ◌==◌}
use bantu_os.Prelude.Dict.{Dict, lookup, insert, has_key}
use bantu_os.Services.Iot.Devices.{or_empty}

-- The parts of a parsed URL, empty where they are missing; `port` is `err` where it raises.
pub record Url : Type 0 where
  pub scheme : Text
  pub hostname : Text
  pub port : Result Text ℕ
  pub path : Text
  pub query : Text
  pub fragment : Text
  pub username : Text
  pub password : Text

pub record Message : Type 0 where
  pub topic : Text
  pub payload : Text
  pub qos : ℕ
  pub ts : ℕ

-- A message as the library hands it to the callback; `payload` is `none` where its bytes do not
-- decode as UTF-8.
pub record Incoming : Type 0 where
  pub topic : Text
  pub payload : Option Text
  pub qos : ℕ
  pub ts : ℕ

pub data MqttError : Type 0 where
  not_installed bad_url url_with_path url_with_credentials half_credentials : MqttError
  bad_port bad_timeout timed_out not_connected : MqttError
  rejected : ℕ → MqttError
  raised : Text → MqttError

-- Calls of the library raise by `err`. `wait` is the loop that waits for the callback: whether the
-- client was connected before the deadline. `deliver` is what the callback gets during
-- a sleep; what it gets at other times is not modelled.
pub record Mqtt (W : Type 0) : Type 0 where
  pub available : Bool
  pub environ : Text → Option Text
  pub urlparse : Text → Url
  pub connect : Text → ℕ → W → Result Text ℕ × W
  pub wait : ℕ → W → Bool × W
  pub publish : Text → Text → ℕ → W → Result Text (ℕ × ℕ) × W
  pub subscribe : Text → ℕ → W → Result Text (Unit {0}) × W
  pub deliver : ℕ → W → List Incoming × W

-- `looping` is whether the library's network thread runs.
pub record Client : Type 0 where
  pub broker : Text
  pub login : Option (Text × Text)
  pub tls : Bool
  pub connected : Bool
  pub looping : Bool
  pub messages : Dict (List Message)

abbrev pub is_empty : Text → Bool
is_empty [] = true
is_empty (c ∷ s) = false

module _ {W : Type 0} (mqtt : Mqtt W) where
  -- An empty user name or password is a missing one.
  unfoldable pub with_login : Text → Text → Client → Result MqttError Client
  with_login [] [] c = ok c
  with_login (a ∷ username) (b ∷ password) c =
      ok (record c { login = some (a ∷ username, b ∷ password) })
  with_login [] (b ∷ password) c = err half_credentials
  with_login (a ∷ username) [] c = err half_credentials

  unfoldable pub new_client : Text → Text → Text → Result MqttError Client
  unfolding with_login
  new_client broker username password =
      let u = mqtt.urlparse broker in
      let scheme_ok = (u.scheme == codes "mqtt") || (u.scheme == codes "mqtts") in
      let path_ok = is_empty u.path || (u.path == codes "/") in
      let client : Client = record {
        broker = broker;
        login = none;
        tls = u.scheme == codes "mqtts";
        connected = false;
        looping = false;
        messages = [];
      } in
      if not mqtt.available
      then err not_installed
      else if not scheme_ok || is_empty u.hostname
      then err bad_url
      else if not path_ok || not (is_empty u.query) || not (is_empty u.fragment)
      then err url_with_path
      else if not (is_empty u.username) || not (is_empty u.password)
      then err url_with_credentials
      else with_login username password client

  -- The callbacks of the library.
  unfoldable pub on_connect : ℕ → Client → Client
  on_connect rc c = record c { connected = eqb rc 0 }

  unfoldable pub on_disconnect : ℕ → Client → Client
  on_disconnect rc c = record c { connected = false }

  -- `if topic not in messages: messages[topic] = []`
  unfoldable pub opened : Text → Client → Client
  opened topic c =
      if has_key topic c.messages then c else record c { messages = insert topic [] c.messages }

  unfoldable pub store_message : Message → Client → Client
  store_message msg c = record c {
    messages = insert msg.topic (or_empty (lookup msg.topic c.messages) ++ msg ∷ []) c.messages;
  }

  -- A payload that does not decode raises before it is stored.
  unfoldable pub on_message : Incoming → Client → Client
  unfolding store_message opened
  on_message m c = elim m.payload [
    | none ↦ opened m.topic c
    | some payload ↦
        store_message (record { topic = m.topic; payload = payload; qos = m.qos; ts = m.ts }) c
  ]

  -- `parsed.port or (8883 if parsed.scheme == "mqtts" else 1883)`
  unfoldable pub port_of : Url → Result Text ℕ
  port_of u = elim u.port [
    | err e ↦ err e
    | ok p ↦
        let standard : ℕ = if u.scheme == codes "mqtts" then 8883 else 1883 in
        ok (if eqb p 0 then standard else p)
  ]

  -- After the library's answer: the wait for the broker. A failure stops the thread.
  unfoldable pub connecting :
      ℕ → Client → Result Text ℕ × W → Result MqttError (Unit {0}) × Client × W
  connecting timeout c (err e, w) = (err (raised e), record c { looping = false }, w)
  connecting timeout c (ok rc, w) =
      let (there, w') = mqtt.wait timeout w in
      if not (eqb rc 0)
      then (err (rejected rc), record c { looping = false }, w)
      else if there
      then (ok tt, record c { connected = true }, w')
      else (err timed_out, record c { looping = false; connected = false }, w')

  unfoldable pub connect : ℕ → Client → W → Result MqttError (Unit {0}) × Client × W
  unfolding port_of connecting
  connect timeout c w =
      let u = mqtt.urlparse c.broker in
      elim (port_of u) [
        | err e ↦ (err (raised e), c, w)
        | ok port ↦
            if is_empty u.hostname || not (leb 1 port && leb port 65535)
            then (err bad_port, c, w)
            else if eqb timeout 0
            then (err bad_timeout, c, w)
            else connecting timeout (record c { looping = true }) (mqtt.connect u.hostname port w)
      ]

  unfoldable pub publish : Text → Text → ℕ → Client → W → Result MqttError (ℕ × ℕ × Text) × W
  publish topic payload qos c w =
      let (r, w') = mqtt.publish topic payload qos w in
      if not c.connected then (err not_connected, w) else elim r [
        | err e ↦ (err (raised e), w')
        | ok (rc, mid) ↦ if eqb rc 0 then (ok (mid, rc, topic), w') else (err (rejected rc), w')
      ]

  unfoldable pub subscribe : Text → ℕ → Client → W → Result MqttError (Unit {0}) × Client × W
  unfolding opened
  subscribe topic qos c w =
      let (r, w') = mqtt.subscribe topic qos w in
      if not c.connected
      then (err not_connected, c, w)
      else elim r [ err e ↦ (err (raised e), c, w') | ok _ ↦ (ok tt, opened topic c, w') ]

  unfoldable pub get_messages : Text → Client → List Message
  get_messages topic c = or_empty (lookup topic c.messages)
