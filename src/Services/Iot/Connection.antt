-- ===== src/Services/Iot/Connection.antt =====
-- The client that a tool works with: connected, with the messages that were there before.
use bantu_os.Prelude.{
  ℕ, ◌≡◌, inl, inr, refl, true, not, ◌&&◌, ◌||◌, List, [], ◌∷◌, Option, none, some, Result, ok, err,
  eqb, leb, if_both, if_each, Result-cases, arith,
}
use bantu_os.Prelude.Text.{Text, codes}
use bantu_os.Prelude.Dict.{lookup}
use bantu_os.Services.Iot.Client.{
  Message, MqttError, Mqtt, Client, is_empty, with_login, new_client, connecting, connect, port_of,
  get_messages,
}
use bantu_os.Services.Iot.Tools.{env_or, get_client, reached, connected_client}

module _ {W : Type 0} (mqtt : Mqtt W) where
  -- The messages of a topic that were there before.
  abbrev pub prior : Text → Option Client → List Message
  prior topic none = []
  prior topic (some c) = get_messages mqtt topic c

  -- A connection changes no message, and if it returns the client is connected.
  record Joins (c : Client) (r : Result MqttError (Unit {0}) × Client × W) : Type 0 where
    same : r.1.messages ≡ c.messages
    joined : r.0 ≡ ok tt → r.1.connected ≡ true

  failed-Joins : (c : Client) (e : MqttError) (w : W) → Joins c (err e, c, w)
  failed-Joins c e w = record { same = refl; joined = λ h. absurd (cc) }

  connecting-Joins :
      (timeout : ℕ) (c : Client) (r : Result Text ℕ × W) → Joins c (connecting mqtt timeout c r)
  unfolding connecting
  connecting-Joins timeout c (err e, w) = record { same = refl; joined = λ h. absurd (cc) }
  connecting-Joins timeout c (ok rc, w) = record { same = ground arith; joined = λ h. ground arith }

  connect-Joins : (timeout : ℕ) (c : Client) (w : W) → Joins c (connect mqtt timeout c w)
  unfolding connect
  connect-Joins timeout c w =
      let u = mqtt.urlparse c.broker in
      elim (Result-cases (port_of mqtt u)) [
        | inr (x, e) ↦ rw (connect, e) (failed-Joins c (MqttError.raised x) w)
        | inl (port, e) ↦
            let j =
              connecting-Joins timeout (record c { looping = true })
                (mqtt.connect u.hostname port w) in
            rw (connect, e)
              (if_both (Joins c) (is_empty u.hostname || not (leb 1 port && leb port 65535)) _ _
                (failed-Joins c MqttError.bad_port w)
                (if_both (Joins c) (eqb timeout 0) _
                  (connecting mqtt timeout (record c { looping = true })
                    (mqtt.connect u.hostname port w))
                  (failed-Joins c MqttError.bad_timeout w)
                  (record { same = j.same; joined = j.joined })))
      ]

  -- The client that a tool works with, where there is one.
  pub record Ready (topic : Text) (state : Option Client)
      (r : Result MqttError Client × Option Client × W) : Type 0 where
    pub held :
        (c : Client)
        → r.0 ≡ ok c
        → (c.connected ≡ true) × (get_messages mqtt topic c ≡ prior topic state) × (r.1 ≡ some c)

  with_login-messages :
      (username password : Text) (c : Client) {d : Client}
      → with_login mqtt username password c ≡ ok d
      → d.messages ≡ c.messages
  unfolding with_login
  with_login-messages [] [] c h = ground arith
  with_login-messages (a ∷ username) (b ∷ password) c h = ground arith
  with_login-messages [] (b ∷ password) c h = absurd (cc)
  with_login-messages (a ∷ username) [] c h = absurd (cc)

  new_client-messages :
      (broker username password : Text) {d : Client}
      → new_client mqtt broker username password ≡ ok d
      → d.messages ≡ []
  unfolding new_client
  new_client-messages broker username password h =
      ground (arith, with_login-messages username password)

  get_client-messages :
      (topic : Text) (state : Option Client) {c : Client}
      → get_client mqtt state ≡ ok c
      → get_messages mqtt topic c ≡ prior topic state
  unfolding get_client get_messages lookup
  get_client-messages topic (some c) h = ground arith
  get_client-messages topic none h =
      rw
        (new_client-messages (env_or mqtt (codes "MQTT_BROKER_URL") (codes "mqtt://localhost:1883"))
          (env_or mqtt (codes "MQTT_USERNAME") []) (env_or mqtt (codes "MQTT_PASSWORD") []) h)
        refl

  reached-Ready :
      (topic : Text) (state : Option Client) (c : Client)
      (r : Result MqttError (Unit {0}) × Client × W)
      → Joins c r
      → get_messages mqtt topic c ≡ prior topic state
      → Ready topic state (reached mqtt r)
  unfolding reached get_messages
  reached-Ready topic state c (ok _, d, w) j same = record {
    held = λ x h. (ground (arith, j.joined refl), ground (arith, j.same), ground arith);
  }
  reached-Ready topic state c (err e, d, w) j same = record { held = λ x h. absurd (cc) }

  pub connected_client-Ready :
      (topic : Text) (state : Option Client) (w : W)
      → Ready topic state (connected_client mqtt state w)
  unfolding connected_client
  connected_client-Ready topic state w = elim (Result-cases (get_client mqtt state)) [
    | inr (x, e) ↦ rw (connected_client, e) (record { held = λ c h. absurd (cc) })
    | inl (c, e) ↦
        let same = get_client-messages topic state e in
        let joined = reached mqtt (connect mqtt 5000 c w) in
        rw (connected_client, e)
          (if_each (Ready topic state) c.connected (ok c, some c, w) joined
            (λ on. record { held = λ d h. (ground arith, ground arith, ground arith) })
            (λ off. reached-Ready topic state c _ (connect-Joins 5000 c w) same))
  ]
