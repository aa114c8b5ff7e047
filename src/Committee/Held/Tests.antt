-- ===== src/Committee/Held/Tests.antt =====
-- Runs of `VerifiedMembers`, and the theorems about it at concrete inputs.
use ika_pre_alpha.Prelude.{◌≡◌, refl, ◌↔◌, true, false, none, some, List, [], ◌∷◌, if◌then◌else◌}
use ika_pre_alpha.Prelude.Bytes.{Bytes}
use ika_pre_alpha.Prelude.Int.{ℤ, pos, ◌≤ℤ◌}
use ika_pre_alpha.Committee.Sample.{key, committee}
use ika_pre_alpha.Committee.Answer.{VerifiedCommittees}
use ika_pre_alpha.Committee.Held.{VerifiedMembers, is_old, add, contains}
use ika_pre_alpha.Committee.Held.Lookup.{keys_at, keys_if_at, keys_at-add}
use ika_pre_alpha.Committee.Held.Contains.{IsMap, holds, added_at, contains-add_iff}

abbrev checked : VerifiedCommittees
checked = record { chain_epoch = pos 4; committee = committee; next_committee = none }

-- A committee of epoch 3 with one key, and one of epoch 4.
abbrev held : VerifiedMembers
held = (pos 3, key 7 ∷ []) ∷ (pos 4, key 8 ∷ []) ∷ []

held-IsMap : IsMap held
unfolding keys_at
held-IsMap = (refl, (refl, tt))

former_member : contains (key 7) (add checked held) ≡ false
unfolding add contains
former_member = refl

present_member : contains (key 8) (add checked held) ≡ true
unfolding add contains
present_member = refl

keys_at-add_example : keys_at (pos 4) (add checked held) ≡ (
    if is_old (pos 4) (pos 4)
    then none
    else keys_if_at (pos 4) none (keys_if_at (pos 4) (some committee) (keys_at (pos 4) held)))
keys_at-add_example = keys_at-add (pos 4) checked held

contains-add_iff_example : (contains (key 8) (add checked held) ≡ true) ↔ (
    (d : ℤ) × (keys : List Bytes) × (pos 4 ≤ℤ d)
    × (added_at checked held d ≡ some keys)
    × (holds (key 8) keys ≡ true))
contains-add_iff_example = contains-add_iff (key 8) checked held held-IsMap
