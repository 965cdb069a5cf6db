-- ===== src/Services/Tests/Things.antt =====
-- Concrete runs of the IoT service.
use bantu_os.Prelude.{
  ℕ, ◌+◌, ◌≤◌, ◌≡◌, ◌⊎◌, refl, Bool, true, false, ◌||◌, List, [], ◌∷◌, ◌++◌, Option, none, some,
  Result, ok, err, filter, length, All, arith,
}
use bantu_os.Prelude.Text.{Text, codes, ◌==◌}
use bantu_os.Prelude.Dict.{lookup}
use bantu_os.Services.Iot.Devices.{Device, Reading, Devices, register_device, key_of}
use bantu_os.Services.Iot.Window.{matching, window, heard, seen, run, run-last_readings}
use bantu_os.Services.Iot.Client.{Url, Message, Incoming, Mqtt, Client, connect, subscribe}
use bantu_os.Services.Iot.Tools.{ToolError, Collected, has_char, is_blank, iot_publish_message}
use bantu_os.Services.Iot.Publish.{iot_publish_message-checked}

abbrev broker_url : Url
broker_url = record {
  scheme = codes "mqtt";
  hostname = codes "localhost";
  port = ok 1883;
  path = [];
  query = [];
  fragment = [];
  username = [];
  password = [];
}

abbrev message : Message
message = record { topic = codes "home/hall"; payload = codes "21"; qos = 0; ts = 5 }

-- A broker that accepts everything and delivers one message in each sleep.
abbrev incoming : Incoming
incoming = record { topic = codes "home/hall"; payload = some (codes "21"); qos = 0; ts = 5 }

abbrev broker : Mqtt ℕ
broker = record {
  available = true;
  environ = λ name. none;
  urlparse = λ text. broker_url;
  connect = λ host port w. (ok 0, w + 1);
  wait = λ timeout w. (true, w + 1);
  publish = λ topic payload qos w. (ok (0, 7), w + 1);
  subscribe = λ topic qos w. (ok tt, w + 1);
  deliver = λ timeout w. (incoming ∷ [], w + timeout);
}

abbrev no_devices : Devices ℕ ℕ
no_devices = record { registry = []; store = [] }

abbrev hall : Device ℕ
hall = record {
  device_id = codes "hall";
  name = codes "Hall";
  device_type = codes "thermometer";
  metadata = 0;
  registered_at = 1;
  last_seen = none;
  status = codes "offline";
}

abbrev reading : ℕ → Text → Reading ℕ
reading ts device_id = record {
  ts = ts;
  device_id = device_id;
  sensor_type = codes "heat";
  value = 21;
  unit = codes "C";
}

abbrev readings : List (Reading ℕ)
readings = reading 3 (codes "hall") ∷ reading 4 (codes "attic") ∷ reading 5 (codes "hall") ∷ []

run-last_readings_example :
    let k : Text = key_of (codes "hall") (codes "heat") in
    let d : Text = codes "hall" in
    let s : Devices ℕ ℕ = register_device 1 d (codes "Hall") (codes "thermometer") 0 no_devices in
    (lookup k (run readings s).store ≡ window (matching k readings))
    × (lookup d (run readings s).registry ≡ some (seen (heard d readings none) hall))
unfolding register_device lookup ◌==◌ bantu_os.Prelude.Dict.insert
run-last_readings_example =
    run-last_readings readings (key_of (codes "hall") (codes "heat")) (codes "hall") hall
      (register_device 1 (codes "hall") (codes "Hall") (codes "thermometer") 0 no_devices) refl refl

abbrev collected_message : Collected
collected_message = record { topic = codes "home/hall"; messages = message ∷ []; count = 1 }

abbrev nothing_collected : Collected
nothing_collected = record { topic = codes "home/#"; messages = []; count = 0 }

iot_publish_message-checked_example :
    let topic : Text = codes "home/hall" in
    let payload : Text = codes "on" in
    let info : ℕ × ℕ × Text = (7, 0, codes "home/hall") in
    ((iot_publish_message broker topic payload 1 none 0).0 ≡ ok info
      → (is_blank topic ≡ false)
        × (has_char b'#' topic ≡ false)
        × (has_char b'+' topic ≡ false)
        × (1 ≤ 2)
        × (info.1 ≡ 0)
        × (info.2 ≡ topic)
        × ((c : Client) × ((iot_publish_message broker topic payload 1 none 0).1 ≡ some c)
            × (c.connected ≡ true)))
    × (((is_blank topic || has_char b'#' topic || has_char b'+' topic) ≡ true) ⊎ (3 ≤ 1)
        → (e : ToolError) × (iot_publish_message broker topic payload 1 none 0 ≡ (err e, none, 0)))
iot_publish_message-checked_example =
    iot_publish_message-checked broker (codes "home/hall") (codes "on") 1 none 0
      (7, 0, codes "home/hall")
