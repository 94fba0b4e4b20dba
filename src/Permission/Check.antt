-- ===== src/Permission/Check.antt =====
-- What `Permission.check` lets through.
use proxmox_api_go.Base.{
  ℕ, ◌≤◌, ◌≡◌, ◌≢◌, ◌↔◌, refl, arith, Bool, true, false, if◌then◌else◌, Option, Option-cases, none,
  some, [], Text, text_eqb, text_eqb_iff, text_eq, lookup, Bool-cases, inl, inr, Params,
}
use proxmox_api_go.Permission.{
  Permission, Permissions, PermissionError, path, append, check_at, check,
}
use proxmox_api_go.Permission.PrivilegeSet.{
  PrivilegeKey, Privileges, Granted, includes, privilege_true, privilege_propagate, map_to_sdk,
  sys_power_mgmt,
}
use proxmox_api_go.Permission.PrivilegeSet.Inclusion.{includes_iff}

-- Each privilege that is needed is granted at the level or above, if the path is listed.
abbrev pub HeldAt : Option Granted → Privileges → ℕ → Type 0
HeldAt none needed level = Unit
HeldAt (some granted) needed level = (key : PrivilegeKey) → needed key ≡ true → level ≤ granted key

not_both : {b : Bool} → b ≡ false → b ≡ true → ⊥
not_both f t = cc

check_at_iff :
    (p : Permission) (permissions : Permissions) (place : Text) (propagates : Bool)
    (rest : Option PermissionError)
    → (check_at p permissions place propagates rest ≡ none) ↔ (
        HeldAt
          (lookup place permissions)
          p.privileges
          (if propagates then privilege_propagate else privilege_true)
        × (rest ≡ none))
unfolding check_at
check_at_iff p permissions place propagates rest =
    let level : ℕ = if propagates then privilege_propagate else privilege_true in
    elim (Option-cases (lookup place permissions)) [
      | inl e ↦ rw (e, check_at) (λ h. (tt, h), λ h. h.1)
      | inr (granted, e) ↦ elim (Bool-cases (includes granted p.privileges level)) [
        | inl held ↦
            rw (e, held, check_at)
              (λ h. ((includes_iff granted p.privileges level).0 held, h), λ h. h.1)
        | inr lacking ↦
            rw (e, lacking, check_at)
              (
                λ h. absurd (cc),
                λ h. absurd (not_both lacking ((includes_iff granted p.privileges level).1 h.0)),
              )
      ]
    ]

-- A permission is accepted exactly when its privileges are granted at the path of its item, where that
-- is given and listed, and are granted with propagation at the path of its category, where that is
-- listed. A path that is not listed is not held against the caller.
pub check_iff :
    (p : Permission) (permissions : Permissions)
    → (check p permissions ≡ none) ↔ (
        (p.item ≢ []
          → HeldAt
              (lookup (append (path p.category) p.item) permissions)
              p.privileges
              privilege_true)
        × HeldAt (lookup (path p.category) permissions) p.privileges privilege_propagate)
unfolding check
check_iff p permissions =
    let category = path p.category in
    elim (Bool-cases (text_eqb p.item [])) [
      | inl empty ↦ rw empty (
        λ h. (
          λ given. absurd (given ((text_eqb_iff p.item []).0 empty)),
          ((check_at_iff p permissions category true none).0 h).0,
        ),
        λ h. (check_at_iff p permissions category true none).1 (h.1, refl),
      )
      | inr given ↦ rw given (
        λ h.
            let (item, rest) = (check_at_iff p permissions (append category p.item) false _).0 h in
            (λ _. item, ((check_at_iff p permissions category true none).0 rest).0),
        λ h. (check_at_iff p permissions (append category p.item) false _).1 (
          h.0 (λ e. not_both given ((text_eqb_iff p.item []).1 e)),
          (check_at_iff p permissions category true none).1 (h.1, refl),
        ),
      )
    ]

-- Whatever the server sends for a category's path, a permission that needs `Sys.PowerMgmt` there is
-- refused: the value that is sent for this privilege is never stored.
pub sys_power_mgmt_refused :
    (p : Permission) (permissions : Permissions) (params : Params)
    → p.privileges sys_power_mgmt ≡ true
    → lookup (path p.category) permissions ≡ some (map_to_sdk params)
    → check p permissions ≢ none
unfolding map_to_sdk
sys_power_mgmt_refused p permissions params needed listed accepted =
    let held = rw listed at (((check_iff p permissions).0 accepted).1) in
    absurd (out_of_reach (held sys_power_mgmt needed))
  where
    out_of_reach : privilege_propagate ≤ 0 → ⊥
    out_of_reach h = omega arith
