-- ===== src/User/Tests.antt =====
-- Runs of the names of users, and the theorem at a concrete one.
use proxmox_api_go.Base.{◌≡◌, refl, arith, none, some, [], codes, split_on}
use proxmox_api_go.User.{UserId, new_user_id, print, parse, validate}
use proxmox_api_go.User.Naming.{parse-print}

abbrev ann : UserId
ann = record { name = codes "ann"; realm = codes "pve" }

ann_run : print ann ≡ codes "ann@pve"
unfolding print
ann_run = refl

-- A name that has an `@` itself is refused.
mail_run : parse (codes "ann@example.com@ad") ≡ (record { name = []; realm = [] }, some new_user_id)
unfolding parse split_on
mail_run = refl

ann_valid : validate ann ≡ none
unfolding validate
ann_valid = refl

parse-print_example : parse (print ann) ≡ (ann, none)
parse-print_example = parse-print ann ann_valid (ground arith) (ground arith)
