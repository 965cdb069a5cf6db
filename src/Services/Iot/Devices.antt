-- ===== src/Services/Iot/Devices.antt =====
-- `_DEVICE_REGISTRY` and `_SENSOR_STORE` of bantu_os/services/iot/__init__.py and the tools on them.
-- The metadata of a device and the value of a reading are of any type; times are numbers.
use bantu_os.Prelude.{
  ℕ, zero, suc, ◌-◌, List, [], ◌∷◌, ◌++◌, Option, none, some, Result, ok, err, length, ltb,
  if◌then◌else◌,
}
use bantu_os.Prelude.Text.{Text, codes}
use bantu_os.Prelude.Dict.{Dict, lookup, insert, values}

pub record Device (M : Type 0) : Type 0 where
  pub device_id : Text
  pub name : Text
  pub device_type : Text
  pub metadata : M
  pub registered_at : ℕ
  pub last_seen : Option ℕ
  pub status : Text

pub record Reading (V : Type 0) : Type 0 where
  pub ts : ℕ
  pub device_id : Text
  pub sensor_type : Text
  pub value : V
  pub unit : Text

pub record Devices (M V : Type 0) : Type 0 where
  pub registry : Dict (Device M)
  pub store : Dict (List (Reading V))

-- `xs[-n:]` for a positive `n`.
unfoldable pub drop {ℓ} : {A : Type ℓ} → ℕ → List A → List A
drop zero xs = xs
drop (suc n) [] = []
drop (suc n) (x ∷ xs) = drop n xs

unfoldable pub last {ℓ} : {A : Type ℓ} → ℕ → List A → List A
last n xs = drop (length xs - n) xs

-- `f"{device_id}:{sensor_type}"`
unfoldable pub key_of : Text → Text → Text
key_of device_id sensor_type = device_id ++ b':' ∷ sensor_type

abbrev pub or_empty {ℓ} : {A : Type ℓ} → Option (List A) → List A
or_empty none = []
or_empty (some xs) = xs

unfoldable pub trimmed {ℓ} : {A : Type ℓ} → ℕ → List A → List A
trimmed n xs = if ltb n (length xs) then last n xs else xs

abbrev pub kept_readings : ℕ
kept_readings = 1000

module _ {M V : Type 0} where
  unfoldable pub register_device : ℕ → Text → Text → Text → M → Devices M V → Devices M V
  register_device now device_id name device_type metadata s =
      let device : Device M = record {
        device_id = device_id;
        name = name;
        device_type = device_type;
        metadata = metadata;
        registered_at = now;
        last_seen = none;
        status = codes "offline";
      } in
      record s { registry = insert device_id device s.registry }

  unfoldable pub device_status : Text → Devices M V → Option (Device M)
  device_status device_id s = lookup device_id s.registry

  unfoldable pub touched : Text → ℕ → Devices M V → Dict (Device M)
  touched device_id ts s = elim (lookup device_id s.registry) [
    | none ↦ s.registry
    | some d ↦
        insert device_id (record d { last_seen = some ts; status = codes "online" }) s.registry
  ]

  unfoldable pub ingest_reading : Reading V → Devices M V → Devices M V
  unfolding touched
  ingest_reading r s =
      let key = key_of r.device_id r.sensor_type in
      let readings = trimmed kept_readings (or_empty (lookup key s.store) ++ r ∷ []) in
      record s { store = insert key readings s.store; registry = touched r.device_id r.ts s }

  -- The tools. An error is the text of the answer's `error`.
  unfoldable pub iot_list_devices : Devices M V → List (Device M) × ℕ
  iot_list_devices s = let devices = values s.registry in (devices, length devices)

  unfoldable pub iot_register_device :
      M → ℕ → Text → Text → Text → Option M → Devices M V → Text × Devices M V
  iot_register_device no_metadata now device_id name device_type metadata s =
      let m : M = elim metadata [ none ↦ no_metadata | some m ↦ m ] in
      (device_id, register_device now device_id name device_type m s)

  unfoldable pub iot_get_device_status : Text → Devices M V → Result Text (Device M)
  iot_get_device_status device_id s = elim (device_status device_id s) [
    | none ↦ err (codes "Device '" ++ device_id ++ codes "' not found")
    | some d ↦ ok d
  ]

  unfoldable pub iot_ingest_sensor_data :
      ℕ → Text → Text → V → Text → Devices M V → (ℕ × Text) × Devices M V
  iot_ingest_sensor_data now device_id sensor_type value unit s =
      let r : Reading V = record {
        ts = now;
        device_id = device_id;
        sensor_type = sensor_type;
        value = value;
        unit = unit;
      } in
      ((now, key_of device_id sensor_type), ingest_reading r s)
