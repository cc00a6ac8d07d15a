-- ===== src/Completion/Standing.antt =====
-- `unresolvedPeerCompletion` of src/core/task-control.ts, its second loop: no observed delivery is
-- of another task, run, generation or workspace.
use passeur.Base.{
  ◌∷◌, ◌||◌, ◌++◌, ◌&&◌, subst, str_eq, some, refl, not, none, inr, inl, false, eq_of_str_eq,
  eq_iff, arith, ap, any, [], Option, List, Bool-cases, Bool, ◌≡◌, true,
}
use passeur.Completion.Peers.{is_current, same_group, newest, group_of, first_foreign, Binding}
use passeur.Contracts.Peer.{is_observed, Delivery}
use passeur.Control.Digests.{Digests}
use passeur.Contracts.Task.{TaskControl}

append-one :
    (xs : List Delivery) (y : Delivery) (ys : List Delivery) → xs ++ y ∷ ys ≡ (xs ++ y ∷ []) ++ ys
append-one [] y ys = refl
append-one (x ∷ xs) y ys = ap (λ zs. x ∷ zs) (append-one xs y ys)

module _ (d : Digests) where
  -- Each delivery that no later one of its group follows is of this task, its run, its generation and
  -- its workspace, if the worker observed it.
  abbrev pub standing : TaskControl → Option Binding → List Delivery → Bool
  standing s binding [] = true
  standing s binding (q ∷ qs) =
      (any (same_group d q) qs || not (is_observed q.state) || is_current s binding none q)
      && standing s binding qs

  newest-fresh :
      (r : Delivery) (ds : List Delivery) → any (same_group d r) ds ≡ false → newest d r ds ≡ none
  unfolding newest
  newest-fresh r [] h = refl
  newest-fresh r (x ∷ xs) h = rw (newest-fresh r xs (ground (arith, h))) (ground (arith, h))

  newest-last :
      (x : Delivery) (before : List Delivery) (q : Delivery) (after : List Delivery)
      → same_group d x q ≡ true
      → any (same_group d x) after ≡ false
      → newest d x (before ++ q ∷ after) ≡ some q
  unfolding newest
  newest-last x [] q after here last = rw (newest-fresh x after last) (ground (arith, here))
  newest-last x (y ∷ before) q after here last = rw (newest-last x before q after here last) refl

  module _ (s : TaskControl) (binding : Option Binding) where
    standing_last :
        (seen before : List Delivery) (q : Delivery) (after : List Delivery)
        → first_foreign d s binding none seen (before ++ q ∷ after) ≡ none
        → any (same_group d q) seen ≡ false
        → any (same_group d q) after ≡ false
        → is_observed q.state ≡ true
        → is_current s binding none q ≡ true
    unfolding first_foreign
    standing_last seen [] q after h fresh last seen_it =
        let none_later = newest-fresh q after last in ground (arith, h, fresh, none_later, seen_it)
    standing_last seen (x ∷ before) q after h fresh last seen_it =
        elim (Bool-cases (same_group d x q)) [
          | inl same ↦
              let x_fresh : any (same_group d x) seen ≡ false =
                subst (λ g. any (λ y. str_eq (d.group (group_of y.envelope)) g) seen ≡ false)
                  (eq_of_str_eq (d.group (group_of q.envelope)) (d.group (group_of x.envelope))
                    same)
                  fresh in
              let x_last : any (same_group d x) after ≡ false =
                subst (λ g. any (λ y. str_eq (d.group (group_of y.envelope)) g) after ≡ false)
                  (eq_of_str_eq (d.group (group_of q.envelope)) (d.group (group_of x.envelope))
                    same)
                  last in
              let latest = newest-last x before q after same x_last in
              ground (arith, h, x_fresh, latest, seen_it)
          | inr other ↦
              let other' : same_group d q x ≡ false = ground (
                arith,
                other,
                eq_iff (d.group (group_of q.envelope)) (d.group (group_of x.envelope)),
                eq_iff (d.group (group_of x.envelope)) (d.group (group_of q.envelope)),
              ) in
              standing_last (x ∷ seen) before q after (ground (arith, h))
                (ground (arith, other', fresh)) last seen_it
        ]

    standing_from :
        (before rest : List Delivery)
        → first_foreign d s binding none [] (before ++ rest) ≡ none
        → standing s binding rest ≡ true
    standing_from before [] h = refl
    standing_from before (q ∷ qs) h =
        let later : standing s binding qs ≡ true =
          standing_from (before ++ q ∷ []) qs (
            subst (λ ds. first_foreign d s binding none [] ds ≡ none) (append-one before q qs) h) in
        ground (arith, later, standing_last [] before q qs h refl)

    pub standing_of :
        first_foreign d s binding none [] s.peer_deliveries ≡ none
        → standing s binding s.peer_deliveries ≡ true
    standing_of h = standing_from [] s.peer_deliveries h
