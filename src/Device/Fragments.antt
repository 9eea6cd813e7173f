-- ===== src/Device/Fragments.antt =====
-- The identifier of a motor's controller, which arrives in three fragments of four bytes.
use servo_fleet.Prelude.{
  ℕ, ◌-◌, ◌*◌, ◌≤◌, ◌==◌, ◌≡◌, Bool, true, false, ◌||◌, if◌then◌else◌, List, [], ◌∷◌, length,
  replicate, slice,
}
use servo_fleet.Feedback.{McuUuid, McuUuidFragment}
use servo_fleet.Device.{Sample, set_sample, set_mcu_uuid_fragment}

-- The sample after fragments that were received one after another, the newest first in the list.
unfoldable pub assembled : List McuUuidFragment → Sample McuUuid
unfolding set_mcu_uuid_fragment
assembled [] = set_sample (record { bytes = replicate 12 0; received_mask = 0 }) 0 0
assembled (f ∷ past) = set_mcu_uuid_fragment (assembled past) f 0 1

-- Whether a fragment with this index arrived, and the newest of them.
abbrev pub arrived : ℕ → List McuUuidFragment → Bool
arrived i [] = false
arrived i (f ∷ past) = f.index == i || arrived i past

abbrev pub latest : ℕ → List McuUuidFragment → List ℕ
latest i [] = replicate 4 0
latest i (f ∷ past) = if f.index == i then f.bytes else latest i past

abbrev pub FourBytes : McuUuidFragment → Type 0
FourBytes f = length f.bytes ≡ 4

abbrev mask_of : Bool → Bool → Bool → ℕ
mask_of false false false = 0
mask_of true false false = 1
mask_of false true false = 2
mask_of true true false = 3
mask_of false false true = 4
mask_of true false true = 5
mask_of false true true = 6
mask_of true true true = 7

-- What the sample of the fragments `past` holds.
record Holds (past : List McuUuidFragment) (uuid : McuUuid) : Type 0 where
  whole : length uuid.bytes ≡ 12
  mask : uuid.received_mask ≡ mask_of (arrived 1 past) (arrived 2 past) (arrived 3 past)
  part : (i : ℕ) → 1 ≤ i → i ≤ 3 → slice uuid.bytes ((i - 1) * 4) 4 ≡ latest i past
