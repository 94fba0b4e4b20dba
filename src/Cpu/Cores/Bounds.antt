-- ===== src/Cpu/Cores/Bounds.antt =====
-- The bounds that the counts are held to.
use native.Mathlib.Nat.{mod-eq_of_lt}
use proxmox_api_go.Base.{ℕ, ◌*◌, ◌≤◌, ◌<◌, ◌%◌, ◌^◌, ◌≡◌, ◌↔◌, arith, Option, none, some}
use proxmox_api_go.Cpu.Cores.{
  validate_limit, validate_units, validate_cores, validate_sockets, used, validate_virtual_cores,
  virtual_cores_maximum,
}

-- Each count is accepted exactly in its range.
pub counts_iff :
    (n : ℕ)
    → ((validate_limit n ≡ none) ↔ (n ≤ 128))
      × ((validate_units n ≡ none) ↔ (n ≤ 262144))
      × ((validate_cores n ≡ none) ↔ (1 ≤ n) × (n ≤ 128))
      × ((validate_sockets n ≡ none) ↔ (1 ≤ n) × (n ≤ 4))
unfolding validate_limit validate_units validate_cores validate_sockets
counts_iff n = (ground arith, ground arith, ground arith, ground arith)

-- A count that is given is a uint8.
abbrev pub FitsByte : Option ℕ → Type 0
FitsByte none = Unit
FitsByte (some n) = n < 256

used-lt : (o current : Option ℕ) → FitsByte o → FitsByte current → used o current < 256
used-lt none none h k = omega arith
used-lt none (some n) h k = k
used-lt (some n) current h k = h

product_lt : (a b : ℕ) → a < 256 → b < 256 → a * b < 2 ^ 16
product_lt a b h k = grind arith

product_fits : (a b : ℕ) → a < 256 → b < 256 → a * b % 2 ^ 16 ≡ a * b
product_fits a b h k = mod-eq_of_lt (product_lt a b h k)

-- The number of virtual cores is accepted exactly up to cores times sockets, each as it is given or
-- else as it is now; and the error names that product. For counts of a byte nothing overflows.
pub validate_virtual_cores_iff :
    (v : ℕ) (cores sockets current_cores current_sockets : Option ℕ)
    → FitsByte cores
    → FitsByte sockets
    → FitsByte current_cores
    → FitsByte current_sockets
    → ((validate_virtual_cores v cores sockets current_cores current_sockets ≡ none)
        ↔ (v ≤ used cores current_cores * used sockets current_sockets))
      × (used cores current_cores * used sockets current_sockets < v
          → validate_virtual_cores v cores sockets current_cores current_sockets
            ≡ some
                (virtual_cores_maximum (used cores current_cores * used sockets current_sockets)))
unfolding validate_virtual_cores
validate_virtual_cores_iff v c s cc' cs hc hs hcc hcs =
    rw (product_fits _ _ (used-lt c cc' hc hcc) (used-lt s cs hs hcs)) (ground arith, ground arith)
