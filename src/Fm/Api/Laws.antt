-- ===== src/Fm/Api/Laws.antt =====
-- Which requests the API accepts.
use dash_fabric.Base.{◌≡◌, ◌≤◌, ◌↔◌, [], ◌∷◌, none, some, Bytes, bytes_eq, arith, length}
use dash_fabric.Fm.Api.{
  ProgramDeviceRequest, validate_eni_id, validate_vnet_id, program_device, get_goal_state,
}

-- An identifier of 1 to 50 bytes.
abbrev pub IsFit : Bytes → Type 0
IsFit s = (1 ≤ length s) × (length s ≤ 50)

eni_fits : (s : Bytes) → (validate_eni_id s ≡ none) ↔ IsFit s
unfolding validate_eni_id
eni_fits [] = (λ h. cc, λ h. absurd (omega (arith, h.0)))
eni_fits (b ∷ bs) = ground arith

vnet_fits : (s : Bytes) → (validate_vnet_id s ≡ none) ↔ IsFit s
unfolding validate_vnet_id
vnet_fits [] = (λ h. cc, λ h. absurd (omega (arith, h.0)))
vnet_fits (b ∷ bs) = ground arith

-- A request to program a device that decodes is answered with 200 exactly if its two identifiers
-- have 1 to 50 bytes; and a request for a goal state that decodes exactly if its
-- identifier has.
pub program_device_iff :
    (req : ProgramDeviceRequest)
    → (((program_device (some req)).0 ≡ 200) ↔ (IsFit req.eni_id × IsFit req.vnet_id))
      × (((get_goal_state (some req.eni_id)).0 ≡ 200) ↔ IsFit req.eni_id)
unfolding program_device get_goal_state
program_device_iff req = ground (arith, eni_fits req.eni_id, vnet_fits req.vnet_id)
