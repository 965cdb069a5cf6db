-- ===== src/Services/Iot/Publish.antt =====
-- What a message that was published went through.
use bantu_os.Prelude.{
  ℕ, ◌≤◌, ◌≡◌, ◌⊎◌, inl, inr, refl, true, false, ◌||◌, Option, some, Result, ok, err, if_each,
  Result-cases, arith,
}
use bantu_os.Prelude.Text.{Text}
use bantu_os.Services.Iot.Client.{MqttError, Mqtt, Client, publish}
use bantu_os.Services.Iot.Tools.{
  ToolError, has_char, is_blank, connected_client, published, iot_publish_message,
}
use bantu_os.Services.Iot.Connection.{Ready, connected_client-Ready}

module _ {W : Type 0} (mqtt : Mqtt W) where
  publish-sent :
      (topic payload : Text) (qos : ℕ) (c : Client) (w : W) (info : ℕ × ℕ × Text)
      → (publish mqtt topic payload qos c w).0 ≡ ok info
      → (c.connected ≡ true) × (info.1 ≡ 0) × (info.2 ≡ topic)
  unfolding publish
  publish-sent topic payload qos c w info h =
      elim (Result-cases (mqtt.publish topic payload qos w).0) [
        | inr (x, e) ↦ ground arith
        | inl (answer, e) ↦ ground arith
      ]

  published-sent :
      (topic payload : Text) (qos : ℕ) (state : Option Client)
      (r : Result MqttError Client × Option Client × W) (info : ℕ × ℕ × Text)
      → Ready mqtt topic state r
      → (published mqtt topic payload qos r).0 ≡ ok info
      → (info.1 ≡ 0)
        × (info.2 ≡ topic)
        × ((c : Client) × ((published mqtt topic payload qos r).1 ≡ some c) × (c.connected ≡ true))
  unfolding published
  published-sent topic payload qos state (err e, s, w) info k h = absurd (cc)
  published-sent topic payload qos state (ok c, s, w) info k h =
      let there = k.held c refl in
      elim (Result-cases (publish mqtt topic payload qos c w).0) [
        | inr (x, e) ↦ absurd (ground arith)
        | inl (i, e) ↦
            let sent = publish-sent topic payload qos c w i e in
            let same : i ≡ info = ground arith in
            (rw (← same) sent.1, rw (← same) sent.2, (c, rw (published, e) there.2, there.0))
      ]

  -- A call that returns has passed the tests.
  publish_message-passes :
      (topic payload : Text) (qos : ℕ) (state : Option Client) (w : W) (info : ℕ × ℕ × Text)
      → (iot_publish_message mqtt topic payload qos state w).0 ≡ ok info
      → ((is_blank topic || has_char b'#' topic || has_char b'+' topic) ≡ false)
        × (qos ≤ 2)
        × (iot_publish_message mqtt topic payload qos state w
            ≡ published mqtt topic payload qos (connected_client mqtt state w))
  unfolding iot_publish_message
  publish_message-passes topic payload qos state w info h =
      (ground arith, ground arith, ground arith)

  -- A message that was published has a topic that is not blank and has no wildcard, `qos` at most
  -- 2, the return code 0, and the service has a connected client. With a blank topic, a wildcard or
  -- a larger `qos` the tool fails, and neither the service nor the world changes.
  pub iot_publish_message-checked :
      (topic payload : Text) (qos : ℕ) (state : Option Client) (w : W) (info : ℕ × ℕ × Text)
      → ((iot_publish_message mqtt topic payload qos state w).0 ≡ ok info
          → (is_blank topic ≡ false)
            × (has_char b'#' topic ≡ false)
            × (has_char b'+' topic ≡ false)
            × (qos ≤ 2)
            × (info.1 ≡ 0)
            × (info.2 ≡ topic)
            × ((c : Client) × ((iot_publish_message mqtt topic payload qos state w).1 ≡ some c)
                × (c.connected ≡ true)))
        × (((is_blank topic || has_char b'#' topic || has_char b'+' topic) ≡ true) ⊎ (3 ≤ qos)
            → (e : ToolError) × (iot_publish_message mqtt topic payload qos state w
                ≡ (err e, state, w)))
  unfolding iot_publish_message
  iot_publish_message-checked topic payload qos state w info = (
    λ h.
        let r = connected_client mqtt state w in
        let (good, le, e) = publish_message-passes topic payload qos state w info h in
        let (rc, same, there) =
          published-sent topic payload qos state r info (connected_client-Ready mqtt topic state w)
            (rw (← e) h) in
        (ground arith, ground arith, ground arith, le, rc, same, rw e there),
    λ bad. elim bad [
      | inl e ↦ (ToolError.bad_topic, rw e refl)
      | inr e ↦
          if_each
            (λ (x : Result ToolError (ℕ × ℕ × Text) × Option Client × W).
              (t : ToolError) × (x ≡ (err t, state, w)))
            (is_blank topic || has_char b'#' topic || has_char b'+' topic) _ _
            (λ h. (ToolError.bad_topic, refl)) (λ h. (ToolError.bad_qos, ground arith))
    ],
  )
