-- ===== src/Serial/Tests.antt =====
-- Runs of the serial ports, and the theorem at concrete ports.
use proxmox_api_go.Base.{
  ◌≡◌, refl, arith, true, false, none, some, [], ◌∷◌, codes, lookup, insert, nat_eq, text_eq, itoa,
}
use proxmox_api_go.Serial.{
  SerialInterface, SerialInterfaces, serial_key, map_to_api, map_to_sdk, port_of, validate,
  validate_port, validate_path, path_invalid, mutual_exclusive, update_ports, put_port,
}
use proxmox_api_go.Serial.Update.{received, said, meant, text_of, map_to_api_lem}

abbrev socket : SerialInterface
socket = record { delete = false; path = []; socket = true }

abbrev device : SerialInterface
device = record { delete = false; path = codes "/dev/ttyS1"; socket = false }

abbrev removed : SerialInterface
removed = record { delete = true; path = []; socket = false }

abbrev wanted : SerialInterfaces
wanted = (0, removed) ∷ (1, socket) ∷ (2, device) ∷ (3, socket) ∷ []

abbrev held : SerialInterfaces
held = (0, socket) ∷ (1, device) ∷ (2, device) ∷ []

serial_run :
    map_to_api wanted held []
    ≡ ((codes "serial1", codes "socket") ∷ (codes "serial3", codes "socket") ∷ [], codes ",serial0")
unfolding map_to_api update_ports put_port insert lookup serial_key itoa
serial_run = refl

read_run :
    map_to_sdk ((codes "serial1", codes "socket") ∷ (codes "serial3", codes "/dev/ttyS1") ∷ [])
    ≡ (1, socket) ∷ (3, device) ∷ []
unfolding map_to_sdk port_of insert lookup
read_run = refl

refused_run :
    (validate ((1, record socket { path = codes "/dev/ttyS1" }) ∷ []) ≡ some mutual_exclusive)
    × (validate ((1, record device { path = codes "/dev/" }) ∷ []) ≡ some path_invalid)
    × (validate wanted ≡ none)
unfolding validate validate_port validate_path
refused_run = (refl, refl, refl)

map_to_api_lem_example :
    received (said (map_to_api wanted held []) 3) none ≡ meant (lookup 3 wanted) none
unfolding lookup
map_to_api_lem_example =
    map_to_api_lem wanted held [] (λ id. text_of (lookup id held)) 3 (ground arith) refl refl
