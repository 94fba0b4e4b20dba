-- ===== src/Serial.antt =====
-- proxmox/config_qemu_serial.go: the serial ports of a virtual machine. A key of a request is a text
-- here, since the key of a port is written with its number.
pub mod Update
mod Tests
use proxmox_api_go.Base.{
  ℕ, Bool, true, false, ◌||◌, ◌&&◌, not, ltb, if◌then◌else◌, Option, none, some, List, [], ◌∷◌,
  ◌++◌, Text, codes, text_eqb, text_eq, nat_eq, nat_eqb, Dict, lookup, insert, itoa,
}

-- `delete` and `socket` are flags of the source; a path that is not given is empty.
pub record SerialInterface : Type 0 where
  pub delete : Bool
  pub path : Text
  pub socket : Bool

pub data SerialError : Type 0 where
  id_invalid : SerialError
  mutual_exclusive : SerialError
  empty : SerialError
  path_invalid : SerialError

-- `SerialInterfaces`, by the number of the port.
abbrev pub SerialInterfaces : Type 0
SerialInterfaces = Dict ℕ SerialInterface

-- The key of a port.
unfoldable pub serial_key : ℕ → Text
serial_key id = codes "serial" ++ itoa id

abbrev pub port_text : SerialInterface → Text
port_text port = if not port.socket then port.path else codes "socket"

-- `SerialInterface.mapToAPI`
unfoldable pub put_port : SerialInterface → ℕ → Dict Text Text → Dict Text Text
put_port port id params = insert (serial_key id) (port_text port) params

-- Whether a port is sent again.
abbrev pub is_changed : SerialInterface → SerialInterface → Bool
is_changed now port =
    not (text_eqb now.path port.path) || not (if now.socket then port.socket else not port.socket)

-- One port of the loop of an update.
abbrev pub update_port :
    ℕ → SerialInterface → Option SerialInterface → Dict Text Text × Text → Dict Text Text × Text
update_port id port (some now) (params, delete) =
    if port.delete
    then (params, delete ++ (codes ",serial" ++ itoa id))
    else if is_changed now port
    then (put_port port id params, delete)
    else (params, delete)
update_port id port none (params, delete) =
    if not port.delete then (put_port port id params, delete) else (params, delete)

unfoldable pub update_ports :
    SerialInterfaces → SerialInterfaces → Dict Text Text × Text → Dict Text Text × Text
update_ports [] current request = request
update_ports ((id, port) ∷ config) current request =
    update_ports config current (update_port id port (lookup id current) request)

unfoldable pub create_ports : SerialInterfaces → Dict Text Text → Dict Text Text
create_ports [] params = params
create_ports ((id, port) ∷ config) params =
    create_ports config (if not port.delete then put_port port id params else params)

-- `SerialInterfaces.mapToAPI`. Go goes through the map in any order; here it is that of the list.
unfoldable pub map_to_api :
    SerialInterfaces → SerialInterfaces → Dict Text Text → Dict Text Text × Text
map_to_api config [] params = (create_ports config params, [])
map_to_api config (c ∷ current) params = update_ports config (c ∷ current) (params, [])

-- `SerialInterface.mapToSDK`
unfoldable pub port_of : Text → SerialInterface
port_of v =
    if text_eqb v (codes "socket")
    then record { delete = false; path = []; socket = true }
    else record { delete = false; path = v; socket = false }

abbrev pub read_port : ℕ → Option Text → SerialInterfaces → SerialInterfaces
read_port id none serials = serials
read_port id (some v) serials = insert id (port_of v) serials

-- `SerialInterfaces.mapToSDK`; an empty map is nil.
unfoldable pub map_to_sdk : Dict Text Text → SerialInterfaces
map_to_sdk params = read_port 3 (lookup (codes "serial3") params) (
    read_port 2 (lookup (codes "serial2") params) (
      read_port 1 (lookup (codes "serial1") params)
        (read_port 0 (lookup (codes "serial0") params) [])))

-- `SerialPath.Validate`: `^/dev/.+$`, where a dot is any byte but that of a new line.
abbrev pub no_new_line : Text → Bool
no_new_line [] = true
no_new_line (c ∷ s) = not (nat_eqb c 10) && no_new_line s

unfoldable pub validate_path : Text → Option SerialError
validate_path (a ∷ b ∷ c ∷ d ∷ e ∷ f ∷ s) =
    if text_eqb (a ∷ b ∷ c ∷ d ∷ e ∷ []) (codes "/dev/") && no_new_line (f ∷ s)
    then none
    else some path_invalid
validate_path _ = some path_invalid

-- `SerialInterface.Validate`
unfoldable pub validate_port : SerialInterface → Option SerialError
unfolding validate_path
validate_port port =
    if port.delete
    then none
    else if not (text_eqb port.path []) && port.socket
    then some mutual_exclusive
    else if not port.socket
    then if text_eqb port.path [] then some empty else validate_path port.path
    else none

-- `SerialInterfaces.Validate`
unfoldable pub validate : SerialInterfaces → Option SerialError
unfolding validate_port
validate [] = none
validate ((id, port) ∷ s) =
    let rest = validate s in
    if ltb 3 id
    then some id_invalid
    else elim (validate_port port) [ some e ↦ some e | none ↦ rest ]
