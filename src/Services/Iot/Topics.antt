-- ===== src/Services/Iot/Topics.antt =====
-- What the tools that publish and subscribe promise about topics.
use mathlib.Core.List.{append-nil, append_assoc}
use bantu_os.Prelude.{
  ℕ, ◌≤◌, ◌≡◌, inl, inr, refl, sym, ap, ◌∙◌, true, false, List, [], ◌∷◌, ◌++◌, Option, none, some,
  Result, ok, err, filter, length, if◌then◌else◌, All, Bool-cases, Option-cases, Result-cases,
  arith,
}
use bantu_os.Prelude.Text.{Text, ◌==◌, eq_iff}
use bantu_os.Prelude.Dict.{lookup, lookup-insert}
use bantu_os.Services.Iot.Devices.{or_empty}
use bantu_os.Services.Iot.Client.{
  Incoming, Message, MqttError, Mqtt, Client, store_message, on_message, opened, subscribe,
  get_messages,
}
use bantu_os.Services.Iot.Tools.{
  ToolError, Collected, has_char, is_blank, connected_client, receive_all, collected,
  after_subscribe, subscribed, iot_subscribe,
}
use bantu_os.Services.Iot.Connection.{prior, Ready, connected_client-Ready}

module _ {W : Type 0} (mqtt : Mqtt W) where
  get_messages-store_message :
      (topic : Text) (msg : Message) (c : Client)
      → get_messages mqtt topic (store_message mqtt msg c) ≡ (
          if msg.topic == topic
          then get_messages mqtt topic c ++ msg ∷ []
          else get_messages mqtt topic c)
  unfolding get_messages store_message
  get_messages-store_message topic msg c =
      let kept = or_empty (lookup msg.topic c.messages) ++ msg ∷ [] in
      ground (arith, eq_iff msg.topic topic, lookup-insert msg.topic topic kept c.messages)

  get_messages-opened :
      (topic other : Text) (c : Client)
      → get_messages mqtt topic (opened mqtt other c) ≡ get_messages mqtt topic c
  unfolding get_messages opened
  get_messages-opened topic other c =
      ground (arith, eq_iff other topic, lookup-insert other topic [] c.messages)

  -- The messages whose payload decodes.
  unfoldable pub decoded : List Incoming → List Message
  decoded [] = []
  decoded (m ∷ ms) =
      let rest = decoded ms in
      elim m.payload [
        | none ↦ rest
        | some payload ↦
            record { topic = m.topic; payload = payload; qos = m.qos; ts = m.ts } ∷ rest
      ]

  receive_all-messages :
      (topic : Text) (msgs : List Incoming) (c : Client)
      → get_messages mqtt topic (receive_all mqtt msgs c)
        ≡ get_messages mqtt topic c ++ filter (λ m. m.topic == topic) (decoded msgs)
  unfolding receive_all filter decoded on_message
  receive_all-messages topic [] c = sym (append-nil (get_messages mqtt topic c))
  receive_all-messages topic (m ∷ msgs) c = elim (Option-cases m.payload) [
    | inl e ↦
        rw (on_message, decoded, e)
          (receive_all-messages topic msgs (opened mqtt m.topic c)
            ∙ ap (λ ms. ms ++ filter (λ x. x.topic == topic) (decoded msgs))
                (get_messages-opened topic m.topic c))
    | inr (payload, e) ↦
        let msg : Message = record { topic = m.topic; payload = payload; qos = m.qos; ts = m.ts } in
        rw (on_message, decoded, e)
          (receive_all-messages topic msgs (store_message mqtt msg c)
            ∙ elim (Bool-cases (m.topic == topic)) [
              | inl f ↦
                  rw (get_messages-store_message topic msg c, f)
                    (append_assoc (get_messages mqtt topic c) (msg ∷ []) _)
              | inr f ↦ rw (get_messages-store_message topic msg c, f) refl
            ])
  ]

  -- What the client collects under a topic, after what was there, in a sleep from a world on.
  abbrev pub IsCollected : Text → ℕ → List Message → W → Collected → Type 0
  IsCollected topic timeout before v out =
      (out.messages ≡ before ++ filter (λ m. m.topic == topic) (decoded (mqtt.deliver timeout v).0))
      × (out.count ≡ length out.messages)

  -- The broker accepted the subscription, and the sleep comes right after it.
  record Collects (topic : Text) (qos timeout : ℕ) (before : List Message) (u : W)
      (r : Result ToolError Collected × Option Client × W) : Type 0 where
    got :
        (out : Collected)
        → r.0 ≡ ok out
        → ((mqtt.subscribe topic qos u).0 ≡ ok tt)
          × IsCollected topic timeout before (mqtt.subscribe topic qos u).1 out

  collected-IsCollected :
      (topic : Text) (timeout : ℕ) (c : Client) (w : W) (out : Collected)
      → (collected mqtt topic timeout c w).0 ≡ ok out
      → IsCollected topic timeout (get_messages mqtt topic c) w out
  unfolding collected
  collected-IsCollected topic timeout c w out h =
      (ground (arith, receive_all-messages topic (mqtt.deliver timeout w).0 c), ground arith)

  after_subscribe-Collects :
      (topic : Text) (qos timeout : ℕ) (c : Client) (u : W)
      → Collects topic qos timeout
          (get_messages mqtt topic c)
          u
          (after_subscribe mqtt topic timeout (subscribe mqtt topic qos c u))
  unfolding after_subscribe subscribe get_messages
  after_subscribe-Collects topic qos timeout c u = elim (Bool-cases c.connected) [
    | inr off ↦ rw (subscribe, off) (record { got = λ out h. absurd (cc) })
    | inl on ↦ elim (Result-cases (mqtt.subscribe topic qos u).0) [
      | inr (x, e) ↦ rw (subscribe, on, e) (record { got = λ out h. absurd (cc) })
      | inl (t, e) ↦
          rw (subscribe, on, e)
            (record {
              got = λ out h. (
                e,
                rw (← get_messages-opened topic topic c) (
                    collected-IsCollected topic timeout (opened mqtt topic c)
                      (mqtt.subscribe topic qos u).1 out h),
              );
            })
    ]
  ]

  subscribed-Collects :
      (topic : Text) (qos timeout : ℕ) (state : Option Client)
      (r : Result MqttError Client × Option Client × W)
      → Ready mqtt topic state r
      → Collects topic qos timeout
          (prior mqtt topic state)
          r.2
          (subscribed mqtt topic qos timeout r)
  unfolding subscribed
  subscribed-Collects topic qos timeout state (err e, s, w) k = record {
    got = λ out h. absurd (cc);
  }
  subscribed-Collects topic qos timeout state (ok c, s, w) k =
      rw (← (k.held c refl).1) (after_subscribe-Collects topic qos timeout c w)

  pub iot_subscribe-collects :
      (topic : Text) (qos timeout : ℕ) (state : Option Client) (w : W) (out : Collected)
      → (iot_subscribe mqtt topic qos timeout state w).0 ≡ ok out
      → let (rc, v) = mqtt.subscribe topic qos (connected_client mqtt state w).2 in
        (rc ≡ ok tt)
        × IsCollected topic timeout (prior mqtt topic state) v out
        × (is_blank topic ≡ false)
        × (qos ≤ 2)
        × (1 ≤ timeout)
        × (timeout ≤ 300000)
  unfolding iot_subscribe
  iot_subscribe-collects topic qos timeout state w out h =
      let r = connected_client mqtt state w in
      let c =
        subscribed-Collects topic qos timeout state r (connected_client-Ready mqtt topic state w) in
      let (accepted, got) = c.got out (ground arith) in
      (accepted, got, ground arith, ground arith, ground arith, ground arith)

  none-filter :
      (c : ℕ) (topic : Text) (msgs : List Message)
      → has_char c topic ≡ true
      → All (λ m. has_char c m.topic ≡ false) msgs
      → filter (λ m. m.topic == topic) msgs ≡ []
  unfolding filter
  none-filter c topic [] wild h = refl
  none-filter c topic (m ∷ msgs) wild h = elim (Bool-cases (m.topic == topic)) [
    | inl e ↦
        let no : has_char c topic ≡ false = rw (← (eq_iff m.topic topic).0 e) h.0 in absurd (cc)
    | inr e ↦ rw e (none-filter c topic msgs wild h.1)
  ]

  -- A subscription, by a service that has no client yet, to a topic with a character that no
  -- incoming message has in its topic, such as the wildcards of MQTT, returns no message, whatever
  -- comes in.
  pub iot_subscribe-wildcard :
      (c : ℕ) (topic : Text) (qos timeout : ℕ) (w : W) (out : Collected)
      → ((v : W) → All (λ m. has_char c m.topic ≡ false) (decoded (mqtt.deliver timeout v).0))
      → has_char c topic ≡ true
      → (iot_subscribe mqtt topic qos timeout none w).0 ≡ ok out
      → (out.messages ≡ []) × (out.count ≡ 0)
  iot_subscribe-wildcard c topic qos timeout w out plain wild h =
      let (e, n) = (iot_subscribe-collects topic qos timeout none w out h).1 in
      let v = (mqtt.subscribe topic qos (connected_client mqtt none w).2).1 in
      let nothing = e ∙ none-filter c topic (decoded (mqtt.deliver timeout v).0) wild (plain v) in
      (nothing, n ∙ ap length nothing)
