-- ===== src/Serial/Update.antt =====
-- What a server holds after a change of the serial ports.
use proxmox_api_go.Base.{
  ℕ, ◌≡◌, ◌∙◌, refl, sym, ap, arith, Bool, Bool-cases, true, false, ◌||◌, not, if◌then◌else◌,
  Option, none, some, inl, inr, [], ◌∷◌, ◌++◌, Text, codes, text_eqb, text_eqb_iff, text_eq, nat_eq,
  nat_eqb, nat_eqb_iff, if_either, if_both, if_not_both, All, Lacks, IsDigits-Lacks, itoa-IsDigits,
  itoa, itoa_injective, contains, contains-append, split_on, split_on-join, split_on_of_Lacks,
  All-append, Dict, lookup, lookup-insert,
}
use proxmox_api_go.Serial.{
  SerialInterface, SerialInterfaces, serial_key, port_text, put_port, is_changed, update_port,
  update_ports, create_ports, map_to_api,
}

-- The ports that a server holds, each with the text of its setting.
abbrev pub Ports : Type 0
Ports = ℕ → Option Text

-- What a server does to one port: it drops what is in the list of deletions, and takes over what is set.
abbrev pub received : Option Text × Bool → Option Text → Option Text
received (_, true) old = none
received (none, false) old = old
received (some text, false) old = some text

-- What a request says of one port.
abbrev pub said : Dict Text Text × Text → ℕ → Option Text × Bool
said (params, delete) id =
    (lookup (serial_key id) params, contains (split_on b',' delete) (serial_key id))

-- The text that the source keeps for a port, if any.
abbrev pub text_of : Option SerialInterface → Option Text
text_of none = none
text_of (some port) = some (port_text port)

-- What is meant of a port: it is removed, or is as it is given, or else stays.
abbrev pub meant : Option SerialInterface → Option Text → Option Text
meant none old = old
meant (some port) old = if port.delete then none else some (port_text port)

-- No port is given twice, as in a map.
abbrev pub AreDistinct : SerialInterfaces → Type 0
AreDistinct [] = Unit
AreDistinct ((id, port) ∷ config) =
    All (λ other. nat_eqb id other.0 ≡ false) config × AreDistinct config

key_lem : (a b : ℕ) → text_eqb (serial_key a) (serial_key b) ≡ nat_eqb a b
unfolding serial_key
key_lem a b =
    ground (arith, text_eqb_iff (itoa a) (itoa b), itoa_injective a b, ap itoa {x = a} {y = b})

key-Lacks : (id : ℕ) → Lacks b',' (serial_key id)
unfolding serial_key
key-Lacks id =
    All-append _ (codes "serial") (itoa id) (ground arith)
      (IsDigits-Lacks b',' (itoa id) (omega arith) (itoa-IsDigits id))

said-put_port :
    (port : SerialInterface) (i id : ℕ) (params : Dict Text Text) (delete : Text)
    → said (put_port port i params, delete) id ≡ (
        if nat_eqb i id
        then (some (port_text port), (said (params, delete) id).1)
        else said (params, delete) id)
unfolding put_port
said-put_port port i id params delete =
    rw (lookup-insert (serial_key i) (serial_key id) (port_text port) params, key_lem i id)
      (elim (Bool-cases (nat_eqb i id)) [ inl e ↦ rw e refl | inr e ↦ rw e refl ])

said-delete :
    (i id : ℕ) (params : Dict Text Text) (delete : Text)
    → said (params, delete ++ b',' ∷ serial_key i) id
      ≡ (if nat_eqb i id then ((said (params, delete) id).0, true) else said (params, delete) id)
said-delete i id params delete =
    rw
      (
        split_on-join b',' delete (serial_key i),
        split_on_of_Lacks b',' (serial_key i) (key-Lacks i),
        contains-append (split_on b',' delete) (serial_key i ∷ []) (serial_key id),
        key_lem i id,
      )
      (elim (Bool-cases (nat_eqb i id)) [
        | inl e ↦ rw e (ap (λ b. ((said (params, delete) id).0, b)) (ground arith))
        | inr e ↦ rw e (ap (λ b. ((said (params, delete) id).0, b)) (ground arith))
      ])

same_id : (id : ℕ) → nat_eqb id id ≡ true
same_id id = ground arith

-- The request, as far as it speaks of the other ports, is as before after one more port.
said_next :
    (i id : ℕ) (port : SerialInterface) (now : Option SerialInterface) (params : Dict Text Text)
    (delete : Text)
    → nat_eqb i id ≡ false
    → said (update_port i port now (params, delete)) id ≡ said (params, delete) id
unfolding serial_key
said_next i id port (some now) params delete other =
    if_either (λ r. said r id) port.delete (said-delete i id params delete ∙ rw other refl)
      (if_either (λ r. said r id) (is_changed now port)
        (said-put_port port i id params delete ∙ rw other refl) refl)
said_next i id port none params delete other =
    if_either (λ r. said r id) (not port.delete)
      (said-put_port port i id params delete ∙ rw other refl) refl

same_by :
    (p q other : Text) (a b : Bool)
    → (not (text_eqb p q) || not (if a then b else not b)) ≡ false
    → (if not a then p else other) ≡ (if not b then q else other)
same_by p q other true true h = refl
same_by p q other false false h = (text_eqb_iff p q).0 (ground arith)
same_by p q other true false h = absurd (ground arith)
same_by p q other false true h = absurd (ground arith)

same_text :
    (now port : SerialInterface) → is_changed now port ≡ false → port_text now ≡ port_text port
same_text now port = same_by now.path port.path (codes "socket") now.socket port.socket

put_said :
    (port : SerialInterface) (id : ℕ) (params : Dict Text Text) (delete : Text)
    → said (params, delete) id ≡ (none, false)
    → said (put_port port id params, delete) id ≡ (some (port_text port), false)
put_said port id params delete fresh =
    said-put_port port id id params delete
    ∙ rw (same_id id) (ap (λ s. (some (port_text port), s.1)) fresh)

delete_said :
    (id : ℕ) (params : Dict Text Text) (delete : Text)
    → said (params, delete ++ b',' ∷ serial_key id) id ≡ ((said (params, delete) id).0, true)
delete_said id params delete = said-delete id id params delete ∙ rw (same_id id) refl

port_sent :
    (id : ℕ) (port : SerialInterface) (now : Option SerialInterface) (params : Dict Text Text)
    (delete : Text)
    → said (params, delete) id ≡ (none, false)
    → received (said (update_port id port now (params, delete)) id) (text_of now)
      ≡ meant (some port) (text_of now)
unfolding serial_key
port_sent id port (some now) params delete fresh =
    if_both (λ r w. received (said r id) (some (port_text now)) ≡ w) port.delete
      (ap (λ r. received r (some (port_text now))) (delete_said id params delete))
      (elim (Bool-cases (is_changed now port)) [
        | inl new ↦
            rw new
              (ap (λ r. received r (some (port_text now))) (put_said port id params delete fresh))
        | inr same ↦ rw (same, fresh) (ap some (same_text now port same))
      ])
port_sent id port none params delete fresh =
    if_not_both (λ r w. received (said r id) none ≡ w) port.delete
      (ap (λ r. received r none) (put_said port id params delete fresh)) (rw fresh refl)

said_ports :
    (config current : SerialInterfaces) (id : ℕ) (request : Dict Text Text × Text)
    → All (λ other. nat_eqb id other.0 ≡ false) config
    → said (update_ports config current request) id ≡ said request id
unfolding update_ports
said_ports [] current id request _ = refl
said_ports ((i, port) ∷ config) current id request (other, others) =
    said_ports config current id (update_port i port (lookup i current) request) others
    ∙ said_next i id port (lookup i current) request.0 request.1
        (ground (arith, nat_eqb_iff id i, nat_eqb_iff i id))

port_first :
    (config current : SerialInterfaces) (i id : ℕ) (port : SerialInterface)
    (request : Dict Text Text × Text)
    → i ≡ id
    → All (λ other. nat_eqb i other.0 ≡ false) config
    → said request id ≡ (none, false)
    → received
        (said (update_ports config current (update_port i port (lookup i current) request)) id)
        (text_of (lookup id current))
      ≡ meant (some port) (text_of (lookup id current))
port_first config current i id port request e others fresh =
    let is_first = rw e at others in
    rw (e, said_ports config current id (update_port id port (lookup id current) request) is_first)
      (port_sent id port (lookup id current) request.0 request.1 fresh)

ports_sent :
    (config current : SerialInterfaces) (id : ℕ) (request : Dict Text Text × Text)
    → AreDistinct config
    → said request id ≡ (none, false)
    → received (said (update_ports config current request) id) (text_of (lookup id current))
      ≡ meant (lookup id config) (text_of (lookup id current))
unfolding update_ports lookup
ports_sent [] current id request _ fresh = rw fresh refl
ports_sent ((i, port) ∷ config) current id request (first, distinct) fresh =
    elim (Bool-cases (nat_eqb i id)) [
      | inl same ↦
          rw same
            (port_first config current i id port request ((nat_eqb_iff i id).0 same) first fresh)
      | inr other ↦ rw other (
          ports_sent config current id (update_port i port (lookup i current) request) distinct
            (said_next i id port (lookup i current) request.0 request.1 other ∙ fresh))
    ]

created_as_updated :
    (config : SerialInterfaces) (params : Dict Text Text) (delete : Text)
    → update_ports config [] (params, delete) ≡ (create_ports config params, delete)
unfolding update_ports create_ports lookup
created_as_updated [] params delete = refl
created_as_updated ((id, port) ∷ config) params delete =
    if_both (λ r p. update_ports config [] r ≡ (create_ports config p, delete)) (not port.delete)
      (created_as_updated config (put_port port id params) delete)
      (created_as_updated config params delete)

map_to_api_updates :
    (config current : SerialInterfaces) (params : Dict Text Text)
    → map_to_api config current params ≡ update_ports config current (params, [])
unfolding map_to_api
map_to_api_updates config [] params = sym (created_as_updated config params [])
map_to_api_updates config (c ∷ current) params = refl

no_deletion : (id : ℕ) → contains (split_on b',' []) (serial_key id) ≡ false
unfolding split_on serial_key
no_deletion id = refl

-- If the current ports say what a server holds of a port, no port is configured twice, and nothing is yet set
-- for that port, then after the request the server holds what is meant: nothing if the port is to be deleted,
-- its text if it is configured, and what it held if it is not.
pub map_to_api_lem :
    (config current : SerialInterfaces) (params : Dict Text Text) (ports : Ports) (id : ℕ)
    → AreDistinct config
    → lookup (serial_key id) params ≡ none
    → ports id ≡ text_of (lookup id current)
    → received (said (map_to_api config current params) id) (ports id)
      ≡ meant (lookup id config) (ports id)
map_to_api_lem config current params ports id distinct unset stated =
    rw (stated, map_to_api_updates config current params)
      (ports_sent config current id (params, []) distinct (rw (unset, no_deletion id) refl))
