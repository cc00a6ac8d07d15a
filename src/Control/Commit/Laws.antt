-- ===== src/Control/Commit/Laws.antt =====
-- src/core/task-control.ts, `change`: what it stores.
use passeur.Base.{
  str_eq_refl, ℕ, suc, ◌≡◌, inl, inr, Result, ok, arith, str_eq, Bool-cases, eq_of_str_eq,
  >>=-eq-ok, subst, sym,
}
use passeur.Contracts.Task.{TaskControl}
use passeur.Control.Digests.{Digests}
use passeur.Control.Commit.{commit, change}

-- The digests of these two records do not collide.
abbrev pub NoCollision : Digests → TaskControl → TaskControl → Type 0
NoCollision d s t = d.control s ≡ d.control t → s ≡ t

module _ (d : Digests) (now : ℕ) (old draft : TaskControl) where
  -- Either the record is as before, or it is the draft under the next revision.
  pub commit_cases {ℓ} :
      (P : TaskControl → Type ℓ)
      → P old
      → P (record draft { revision = suc old.revision; updated_at = now })
      → P (commit d now old draft)
  unfolding commit
  commit_cases P kept written = elim (Bool-cases (str_eq (d.control old) (d.control draft))) [
    | inl e ↦ rw e kept
    | inr e ↦ rw e written
  ]

  -- What holds of the draft, whatever its revision and instant, holds of the stored record.
  pub commit_of_draft {ℓ} :
      (P : TaskControl → Type ℓ)
      → ((r t : ℕ) → P (record draft { revision = r; updated_at = t }))
      → P draft
      → NoCollision d old draft
      → P (commit d now old draft)
  unfolding commit
  commit_of_draft P any_revision at_draft apart =
      elim (Bool-cases (str_eq (d.control old) (d.control draft))) [
        | inl e ↦ rw e (subst P (sym (apart (eq_of_str_eq _ _ e))) at_draft)
        | inr e ↦ rw e (any_revision (suc old.revision) now)
      ]

module _ {ℓ} {A : Type ℓ} (d : Digests) (now : ℕ) (f : TaskControl → Result (A × TaskControl)) where
  -- A change that returns stores what its callback leaves; one that throws stores nothing.
  pub change-eq-ok :
      (s : TaskControl) {a : A} {t : TaskControl}
      → change d now f s ≡ ok (a, t)
      → (draft : TaskControl) × (f s ≡ ok (a, draft)) × (t ≡ commit d now s draft)
  unfolding change
  change-eq-ok s h =
      let (r, e, k) = >>=-eq-ok (f s) _ h in (r.1, ground (arith, e, k), ground (arith, k))

-- A draft that is the old record is not stored.
pub commit_same : (d : Digests) (now : ℕ) (s : TaskControl) → commit d now s s ≡ s
unfolding commit
commit_same d now s = rw (str_eq_refl (d.control s))
