-- ===== src/Scaler/Placement/Distinct.antt =====
-- placement.ts: the ids of the hosts differ.
use extra.Prelude.{
  ◌≡◌, refl, ◌∙◌, Bool, true, false, inl, inr, none, List, [], ◌∷◌, Bool-cases, All, arith,
}
use extra.Scaler.Placement.{
  Text, ConnectedScalerHost, insert_by, sort_by, same_text, holds_id, validate_hosts,
}

pub same_text_sym : (a b : Text) → same_text a b ≡ same_text b a
unfolding same_text
same_text_sym [] [] = refl
same_text_sym [] (y ∷ b) = refl
same_text_sym (x ∷ a) [] = refl
same_text_sym (x ∷ a) (y ∷ b) = ground (arith, same_text_sym a b)

pub same_text_trans : (a b c : Text) → same_text a b ≡ true → same_text a c ≡ same_text b c
unfolding same_text
same_text_trans [] [] c e = refl
same_text_trans [] (y ∷ b) c e = ground arith
same_text_trans (x ∷ a) [] c e = ground arith
same_text_trans (x ∷ a) (y ∷ b) [] e = refl
same_text_trans (x ∷ a) (y ∷ b) (z ∷ c) e = ground (arith, same_text_trans a b c, e)

-- No host of the list has this id.
abbrev pub IsNew : Text → List ConnectedScalerHost → Type 0
IsNew id hs = All (λ h. same_text h.host_id id ≡ false) hs

abbrev pub IsDistinct : List ConnectedScalerHost → Type 0
IsDistinct [] = Unit
IsDistinct (h ∷ hs) = IsNew h.host_id hs × IsDistinct hs

pub holds_id-same :
    (a b : Text) (seen : List Text) → same_text a b ≡ true → holds_id a seen ≡ holds_id b seen
holds_id-same a b [] e = refl
holds_id-same a b (x ∷ seen) e =
    ground (
      arith,
      same_text_trans a b x e,
      same_text_sym x a,
      same_text_sym x b,
      holds_id-same a b seen e,
    )

pub same_text_refl : (a : Text) → same_text a a ≡ true
unfolding same_text
same_text_refl [] = refl
same_text_refl (x ∷ a) = ground (arith, same_text_refl a)

pub validate_hosts-head :
    (seen : List Text) (g : ConnectedScalerHost) (hs : List ConnectedScalerHost)
    → validate_hosts seen (g ∷ hs) ≡ none
    → (holds_id g.host_id seen ≡ false) × (validate_hosts (g.host_id ∷ seen) hs ≡ none)
unfolding validate_hosts
validate_hosts-head seen g hs e = ground arith

pub validate_hosts-IsNew :
    (seen : List Text) (hs : List ConnectedScalerHost) (id : Text)
    → validate_hosts seen hs ≡ none
    → holds_id id seen ≡ true
    → IsNew id hs
unfolding validate_hosts
validate_hosts-IsNew seen [] id e h = tt
validate_hosts-IsNew seen (g ∷ hs) id e h =
    let v = validate_hosts-head seen g hs e in
    (
      ground (arith, v.0, h, holds_id-same g.host_id id seen),
      validate_hosts-IsNew (g.host_id ∷ seen) hs id v.1 (ground (arith, h)),
    )

pub validate_hosts-IsDistinct :
    (seen : List Text) (hs : List ConnectedScalerHost)
    → validate_hosts seen hs ≡ none
    → IsDistinct hs
unfolding validate_hosts
validate_hosts-IsDistinct seen [] e = tt
validate_hosts-IsDistinct seen (h ∷ hs) e =
    let v = validate_hosts-head seen h hs e in
    (
      validate_hosts-IsNew (h.host_id ∷ seen) hs h.host_id v.1
          (ground (arith, same_text_refl h.host_id)),
      validate_hosts-IsDistinct (h.host_id ∷ seen) hs v.1,
    )

module _ (f : ConnectedScalerHost → ConnectedScalerHost → Bool) where
  pub insert_by-IsNew :
      (id : Text) (h : ConnectedScalerHost) (hs : List ConnectedScalerHost)
      → same_text h.host_id id ≡ false
      → IsNew id hs
      → IsNew id (insert_by f h hs)
  unfolding insert_by
  insert_by-IsNew id h [] e n = (e, tt)
  insert_by-IsNew id h (g ∷ hs) e n = elim (Bool-cases (f h g)) [
    | inl b ↦ rw (b, insert_by) (e, n)
    | inr b ↦ rw (b, insert_by) (n.0, insert_by-IsNew id h hs e n.1)
  ]

  pub insert_by-IsDistinct :
      (h : ConnectedScalerHost) (hs : List ConnectedScalerHost)
      → IsNew h.host_id hs
      → IsDistinct hs
      → IsDistinct (insert_by f h hs)
  unfolding insert_by
  insert_by-IsDistinct h [] n d = (tt, tt)
  insert_by-IsDistinct h (g ∷ hs) n d = elim (Bool-cases (f h g)) [
    | inl b ↦ rw (b, insert_by) (n, d)
    | inr b ↦
        rw (b, insert_by)
          (
            insert_by-IsNew g.host_id h hs (same_text_sym h.host_id g.host_id ∙ n.0) d.0,
            insert_by-IsDistinct h hs n.1 d.1,
          )
  ]

  pub sort_by-IsNew :
      (id : Text) (hs : List ConnectedScalerHost) → IsNew id hs → IsNew id (sort_by f hs)
  unfolding sort_by
  sort_by-IsNew id [] n = tt
  sort_by-IsNew id (h ∷ hs) n = insert_by-IsNew id h (sort_by f hs) n.0 (sort_by-IsNew id hs n.1)

  pub sort_by-IsDistinct :
      (hs : List ConnectedScalerHost) → IsDistinct hs → IsDistinct (sort_by f hs)
  unfolding sort_by
  sort_by-IsDistinct [] d = tt
  sort_by-IsDistinct (h ∷ hs) d =
      insert_by-IsDistinct h (sort_by f hs) (sort_by-IsNew h.host_id hs d.0)
        (sort_by-IsDistinct hs d.1)
