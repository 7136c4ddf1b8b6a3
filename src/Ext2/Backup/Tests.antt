-- ===== src/Ext2/Backup/Tests.antt =====
-- Runs of the choice of backup groups.
use koros.Base.{ℕ, ◌^◌, ◌≡◌, ◌↔◌, refl, Bool, true, false, some, arith}
use koros.Ext2.Backup.{strip, is_one, is_power_of, either, group_has_super_backup, is_power_of_lem}

group_49 : group_has_super_backup 49 ≡ some true
unfolding group_has_super_backup is_power_of strip is_one either
group_49 = refl

group_21 : group_has_super_backup 21 ≡ some false
unfolding group_has_super_backup is_power_of strip is_one either
group_21 = refl

is_power_of_lem_example :
    (b : Bool) × (is_power_of 81 3 ≡ some b) × ((b ≡ true) ↔ ((k : ℕ) × (81 ≡ 3 ^ k)))
is_power_of_lem_example = is_power_of_lem 81 3 (omega arith)
