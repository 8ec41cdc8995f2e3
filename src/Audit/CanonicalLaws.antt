-- ===== src/Audit/CanonicalLaws.antt =====
-- The canonical text of an object does not depend on the order of its fields.
use instant_grant_core.Prelude.{
  true, false, not, [], ◌∷◌, Text, text_eq, ◌≡◌, ◌∙◌, refl, ap, inl, inr, Bool-cases, arith,
}
use instant_grant_core.Js.{Value, object, Fields, end, field}
use instant_grant_core.Audit.Canonical.{
  Platform, text_lt, insert_field, sort_deep, sort_fields, canonicalize, stringify,
}

-- The same fields in another order. Fields that change places have different keys.
pub data Reordered : Fields → Fields → Type 0 where
  same : (fs : Fields) → Reordered fs fs
  swapped :
      (k j : Text) (v w : Value) (fs : Fields)
      → text_eq k j ≡ false
      → Reordered (field k v (field j w fs)) (field j w (field k v fs))
  behind :
      (k : Text) (v : Value) {fs gs : Fields}
      → Reordered fs gs
      → Reordered (field k v fs) (field k v gs)
  and_then : {fs gs hs : Fields} → Reordered fs gs → Reordered gs hs → Reordered fs hs

lt_of_not_lt : (i j k : Text) → text_lt i j ≡ false → text_lt i k ≡ true → text_lt j k ≡ true
lt_of_not_lt [] [] [] h g = cc
lt_of_not_lt [] [] (c ∷ k) h g = refl
lt_of_not_lt [] (b ∷ j) k h g = cc
lt_of_not_lt (a ∷ i) j [] h g = cc
lt_of_not_lt (a ∷ i) [] (c ∷ k) h g = refl
lt_of_not_lt (a ∷ i) (b ∷ j) (c ∷ k) h g = ground (arith, lt_of_not_lt i j k)

one_order : (k j : Text) → text_eq k j ≡ false → text_lt j k ≡ not (text_lt k j)
one_order [] [] h = cc
one_order [] (b ∷ j) h = refl
one_order (a ∷ k) [] h = refl
one_order (a ∷ k) (b ∷ j) h = ground (arith, one_order k j)

insert_field_comm :
    (k j : Text) (v w : Value) (fs : Fields)
    → text_eq k j ≡ false
    → insert_field k v (insert_field j w fs) ≡ insert_field j w (insert_field k v fs)
insert_field_comm k j v w end other = elim (Bool-cases (text_lt k j)) [
  | inl before ↦
      let after : text_lt j k ≡ false = one_order k j other ∙ ap not before in
      rw (before, after) refl
  | inr not_before ↦
      let after : text_lt j k ≡ true = one_order k j other ∙ ap not not_before in
      rw (not_before, after) refl
]
insert_field_comm k j v w (field i u fs) other = elim (Bool-cases (text_lt i j)) [
  | inl ij ↦ elim (Bool-cases (text_lt i k)) [
    | inl ik ↦ rw (ij, ik) (rw ij (ap (field i u) (insert_field_comm k j v w fs other)))
    | inr not_ik ↦
        let kj : text_lt k j ≡ true = lt_of_not_lt i k j not_ik ij in
        rw (ij, not_ik) (rw (kj, ij) refl)
  ]
  | inr not_ij ↦ elim (Bool-cases (text_lt i k)) [
    | inl ik ↦
        let jk : text_lt j k ≡ true = lt_of_not_lt i j k not_ij ik in
        rw (not_ij, ik) (rw (jk, not_ij) refl)
    | inr not_ik ↦ elim (Bool-cases (text_lt k j)) [
      | inl kj ↦
          let not_jk : text_lt j k ≡ false = one_order k j other ∙ ap not kj in
          rw (not_ij, not_ik) (rw (kj, not_jk, not_ij) refl)
      | inr not_kj ↦
          let jk : text_lt j k ≡ true = one_order k j other ∙ ap not not_kj in
          rw (not_ij, not_ik) (rw (jk, not_kj) refl)
    ]
  ]
]

sort_fields-Reordered : {fs gs : Fields} → Reordered fs gs → sort_fields fs ≡ sort_fields gs
unfolding sort_deep
sort_fields-Reordered (same fs) = refl
sort_fields-Reordered (swapped k j v w fs other) =
    insert_field_comm k j (sort_deep v) (sort_deep w) (sort_fields fs) other
sort_fields-Reordered (behind k v r) = ap (insert_field k (sort_deep v)) (sort_fields-Reordered r)
sort_fields-Reordered (and_then r s) = sort_fields-Reordered r ∙ sort_fields-Reordered s

-- Objects with the same fields in different orders have one canonical text, and so one hash.
pub canonicalize-Reordered :
    (platform : Platform) {fs gs : Fields}
    → Reordered fs gs
    → canonicalize platform (object fs) ≡ canonicalize platform (object gs)
unfolding canonicalize sort_deep
canonicalize-Reordered platform r =
    ap (λ fs. stringify platform (object fs)) (sort_fields-Reordered r)
