-- ===== src/Coordination/Guarantees/Room.antt =====
-- src/coordination/control.ts, `checkCapacity`: the room that one more receipt takes.
use passeur.Coordination.State.Commands.{
  control_release_bytes, control_receipt_count, control_max_bytes, Platform, ControlState,
}
use passeur.Base.{ap, ◌∙◌, ok, ◌≤◌, ◌≡◌, ◌+◌, ◌*◌, suc, length, false, arith, any}
use passeur.Coordination.Parents.Capacity.{release_slots_required, is_long, check_capacity}
use passeur.Coordination.State.Records.{Limits}

-- A receipt or an event, and the change that comes with it, fit into the bytes that are kept back
-- for one.
abbrev pub FitsRelease : Platform → ControlState → ControlState → Type 0
FitsRelease p s t = p.state_bytes t ≤ p.state_bytes s + control_release_bytes

module _ (p : Platform) (s : ControlState) where
  pub capacity-bounds :
      check_capacity p s ≡ ok tt
      → (p.state_bytes s + release_slots_required s * control_release_bytes ≤ control_max_bytes)
        × (length s.works ≤ s.limits.works)
        × (length s.cases ≤ s.limits.cases)
        × (length s.notes ≤ s.limits.notes)
        × (control_receipt_count s + release_slots_required s ≤ s.limits.receipts)
        × (any (is_long p s) s.notes ≡ false)
  unfolding check_capacity
  capacity-bounds h = ground arith

  pub capacity_of_bounds :
      p.state_bytes s + release_slots_required s * control_release_bytes ≤ control_max_bytes
      → length s.works ≤ s.limits.works
      → length s.cases ≤ s.limits.cases
      → length s.notes ≤ s.limits.notes
      → control_receipt_count s + release_slots_required s ≤ s.limits.receipts
      → any (is_long p s) s.notes ≡ false
      → check_capacity p s ≡ ok tt
  unfolding check_capacity
  capacity_of_bounds a b c e f g = ground arith

-- What gives back a place of the reserve with its receipt always fits.
pub release-fits :
    (p : Platform) (s t : ControlState)
    → t.limits ≡ s.limits
    → length t.works ≡ length s.works
    → length t.cases ≡ length s.cases
    → length t.notes ≡ length s.notes
    → any (is_long p t) t.notes ≡ any (is_long p s) s.notes
    → control_receipt_count t ≡ suc (control_receipt_count s)
    → suc (release_slots_required t) ≡ release_slots_required s
    → FitsRelease p s t
    → check_capacity p s ≡ ok tt
    → check_capacity p t ≡ ok tt
release-fits p s t limits works cases notes long counted slots fits h =
    let (bytes, works_ok, cases_ok, notes_ok, receipts_ok, short) = capacity-bounds p s h in
    capacity_of_bounds p t (omega (arith, bytes, slots, fits))
      (omega (arith, works_ok, works, ap (λ (l : Limits). l.works) limits))
      (omega (arith, cases_ok, cases, ap (λ (l : Limits). l.cases) limits))
      (omega (arith, notes_ok, notes, ap (λ (l : Limits). l.notes) limits))
      (omega (arith, receipts_ok, counted, slots, ap (λ (l : Limits). l.receipts) limits))
      (long ∙ short)
