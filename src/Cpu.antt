-- ===== src/Cpu.antt =====
-- proxmox/config_qemu_cpu.go: the processor settings of a virtual machine. `Cpu.Flags` models
-- `CpuFlags`, `Cpu.Kind` the type `CpuType`, `Cpu.Cores` the counts with bounds, `Cpu.Affinity` the
-- list of host cores, and `Cpu.Config` the struct `QemuCPU` and its validation. `Cpu.Request` writes it
-- into a request and reads it from an answer.
pub mod Flags
pub mod Kind
pub mod Cores
pub mod Affinity
pub mod Config
pub mod Request
