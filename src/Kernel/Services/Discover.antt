-- ===== src/Kernel/Services/Discover.antt =====
-- `discover_services` of bantu_os/core/kernel/services.py: the table of the known services.
use Prim.Native.String.{String}
use bantu_os.Prelude.{Option, none, some, List, [], ◌∷◌}
use bantu_os.Prelude.Text.{Text, codes}
use bantu_os.Kernel.Services.{ServiceManager, Host, register}

pub record ServiceInfo : Type 0 where
  pub name : Text
  pub path : Text
  pub cls_name : Text
  pub description : Text
  pub policy : Text

abbrev pub on_failure : Text
on_failure = codes "on-failure"

abbrev pub info : String → String → String → String → ServiceInfo
info name path cls_name description = record {
  name = codes name;
  path = codes path;
  cls_name = codes cls_name;
  description = codes description;
  policy = on_failure;
}

-- The three lists of the source, in their order.
abbrev pub known : List ServiceInfo
known =
    info "file" "bantu_os.services.file_service" "FileService" "file read/write/search"
    ∷ info "process" "bantu_os.services.process_service" "ProcessService" "process spawn/kill/stats"
    ∷ info "network" "bantu_os.services.network_service" "NetworkService"
        "HTTP client, connectivity"
    ∷ info "messaging" "bantu_os.services.messaging" "MessagingService" "email/SMS/Telegram"
    ∷ info "fintech" "bantu_os.services.fintech" "FintechService"
        "Stripe/M-Pesa/Flutterwave/Paystack"
    ∷ info "crypto" "bantu_os.services.crypto" "CryptoWalletService" "EVM wallet: balance/send/sign"
    ∷ info "iot" "bantu_os.services.iot" "IoTService"
        "MQTT broker, device registry, sensor ingestion"
    ∷ info "hardware" "bantu_os.services.hardware" "HardwareService"
        "CPU/memory/disk/GPIO/USB monitoring"
    ∷ []

-- `load` imports a module and makes an object of a class, `none` where either raises.
module _ {I H K W : Type 0} (host : Host I H K W) (load : Text → Text → Option I) where
  unfoldable pub discover_each : List ServiceInfo → ServiceManager I H K → ServiceManager I H K
  discover_each [] m = m
  discover_each (s ∷ infos) m = elim (load s.path s.cls_name) [
    | none ↦ discover_each infos m
    | some i ↦
        discover_each infos (register host s.name i s.description (codes "0.1.0") none s.policy 3 m)
  ]

  unfoldable pub discover_services : ServiceManager I H K → ServiceManager I H K
  unfolding discover_each
  discover_services m = discover_each known m
