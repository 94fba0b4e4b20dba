-- ===== src/GuestAgent/Tests.antt =====
-- Runs of the guest agent, and the theorem at concrete settings.
use proxmox_api_go.Base.{◌≡◌, refl, arith, true, false, none, some, codes, text_eq}
use proxmox_api_go.Cpu.Kind.Spelling.{to_lower}
use proxmox_api_go.GuestAgent.{QemuGuestAgent, map_to_api, map_to_sdk, invalid_kind, validate}
use proxmox_api_go.GuestAgent.Update.{merged, map_to_sdk-map_to_api_agent}

abbrev new_agent : QemuGuestAgent
new_agent = record {
  enable = some true;
  kind = some (codes "VirtIO");
  freeze = none;
  fs_trim = some false;
}

abbrev old_agent : QemuGuestAgent
old_agent = record {
  enable = none;
  kind = some (codes "isa");
  freeze = some true;
  fs_trim = some true;
}

agent_run :
    map_to_api new_agent (some old_agent)
    ≡ codes "1,freeze-fs-on-backup=1,fstrim_cloned_disks=0,type=virtio"
unfolding map_to_api to_lower
agent_run = refl

agent_refused : validate (record new_agent { kind = some (codes "usb") }) ≡ some invalid_kind
unfolding validate to_lower
agent_refused = refl

map_to_sdk-map_to_api_agent_example :
    map_to_sdk (map_to_api new_agent (some old_agent)) ≡ some (merged new_agent (some old_agent))
unfolding to_lower
map_to_sdk-map_to_api_agent_example =
    map_to_sdk-map_to_api_agent new_agent (some old_agent) (ground arith)
