-- ===== src/Lib.antt =====
-- The rules of proxmox-api-go, a Go client of the Proxmox VE API: what it takes from its caller, what
-- it sends to the server, and how it reads the server's answers.
--
-- The library turns typed settings into request parameters (`mapToAPI`), turns answers into typed
-- values (`mapToSDK`), and refuses settings before it sends them (`Validate`). The client asks the
-- server for its version, by which the processors that exist and the requests of a pool differ, and
-- keeps a cache of the user's permissions. Each part is a module here:
-- - Memory: proxmox/config_qemu_memory.go, the memory of a virtual machine. `Memory.Server` is the
--   server's side of a request: it deletes the keys that are named and stores the others.
--   `Memory.Answers` reads an answer, with internal/parse/parse.go; `strconv.ParseFloat`, a library
--   function, is its parameter.
-- - Cpu.Flags, Cpu.Kind, Cpu.Cores, Cpu.Affinity: proxmox/config_qemu_cpu.go: the flags, the kinds
--   (`CpuType`) with their tables by version, the counts of cores, and the affinity.
--   `Cpu.Config` is the struct `QemuCPU` and its validation, `Cpu.Request` its request and answer.
-- - TriBool: proxmox/type_tribool.go, the value of a flag and its JSON.
-- - Tag: proxmox/type_tag.go, the tags of a guest.
-- - Tpm: proxmox/config_qemu_tpm.go, the TPM of a virtual machine.
-- - Disk: proxmox/config_qemu_disk.go, the drives of a virtual machine. `Disk.Request` writes a disk,
--   `Disk.Answer` reads one, `Disk.Validation` checks it, `Disk.CdRom` has the two other kinds of drive
--   and `Disk.Slot` a place for a drive. The four buses, in proxmox/config_qemu_disk_{ide,sata,scsi,virtio}.go,
--   have the same code on types of their own: it is in `Disk.Drives`, over an interface (`Bus`) that
--   `Disk.Ide`, `Disk.Sata`, `Disk.Scsi` and `Disk.VirtIo` fill in, and `Disk.Storages` has the four
--   together. A map of places is gone through in an order that is a parameter. A float32 of megabytes is
--   a whole number over a power of two; `strconv.ParseFloat`, with the rounding around it, is a parameter.
-- - GuestAgent: proxmox/config_qemu_guestagent.go, the guest agent of a virtual machine.
-- - Serial: proxmox/config_qemu_serial.go, its serial ports. A key is a text there, since it is written
--   with the number of the port; a map is gone through in the order of the list.
-- - CloudInit: proxmox/config_qemu_cloudinit.go, the network settings of cloud-init, with the keys of a
--   request as texts, and in `CloudInit.Custom` its snippets. `net.ParseIP` and `net.ParseCIDR`,
--   library functions, are parameters of `CloudInit.Validation`.
-- - Version: proxmox/client.go, the version of the server.
-- - Permission: proxmox/permission.go, with `Permission.PrivilegeSet` for its two structs of
--   privileges. `Permission.Cache` is the cache of proxmox/client.go that asks this module.
-- - Pool: proxmox/config_pool.go, the guests of a pool, and `subtractArray` of proxmox/util.go. It
--   chooses its requests by the version. The server is a parameter there; `Pool.Members` states what
--   it does on the two requests of version 8, with the numbers of `Pool.Numbers`, and `Pool.Server` is
--   one that does so and refuses others.
-- - User: proxmox/config_user.go, the names of users.
-- - Group: proxmox/config_group.go and `configUserShort` of proxmox/config_user.go, the members of a
--   group. A group has no list of members on the server: each user has a text with its groups.
--   `Group.Updates` has the calls, over a server (`UserApi`) that lists the users and takes a PUT.
-- - Snapshot: proxmox/snapshot.go, the list and the tree of snapshots, and their names. A pointer to a
--   snapshot is its position in the list.
-- - Base: what they share. `Base.Tests` has the Boolean tests, `Base.Lists` and `Base.Maps` Go's
--   slices and maps, `Base.Options` the steps that may fail, `Base.Texts`, `Base.Split`, `Base.Joined`
--   and `Base.Decimal` Go's strings and the numbers in them, `Base.Values` the values of a request or
--   an answer, `Base.Assignments` texts of settings, with `splitStringOfSettings` of proxmox/util.go.
--
-- A function keeps its name, in small letters: `QemuMemory.mapToAPI` is `Memory.map_to_api`. A
-- pointer that may be nil is an Option; a method returns `none` where the source returns a nil error,
-- and each message is a constructor. Where the source panics (a type assertion, an index out of
-- range) the model returns `none` too, or its own `panic`, as the definition says. A string that is
-- walked is the list of its bytes, a map is an association list in which a write replaces the entry.
-- The structs of flags and of privileges, whose fields are all treated alike, are functions from the
-- field, beside a list of the fields in the order of the source. Case folding is written out
-- for ASCII and for the letters outside it that fold into it; all others stay as they are, which is
-- enough to look a name up in a table of ASCII names.
--
-- Numbers are natural numbers. Where a machine integer can overflow, the definition has the `%`, or a
-- theorem has the width among its conditions. A decimal number is written with fuel: one step for each
-- of the numbers up to it, and one more, and the lemma on reading it back shows that this is enough.
-- All other loops are by recursion on a list, or on the number of their rounds.
--
-- Left out: the HTTP session, the calls of the client that only pass a request on, those that move and
-- resize a disk among them, the commands of cli/, and the mutex of the cache, each method of which is
-- taken as one step. The server is a parameter where a method asks it. The struct that composes the
-- parts of a virtual machine, and the settings that are copied to parameters and back are left out as
-- well.
pub mod Base
pub mod Memory
pub mod Version
pub mod TriBool
pub mod Cpu
pub mod Permission
pub mod Pool
pub mod Tag
pub mod Tpm
pub mod User
pub mod Group
pub mod GuestAgent
pub mod Serial
pub mod Snapshot
pub mod CloudInit
pub mod Disk
