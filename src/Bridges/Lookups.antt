-- ===== src/Bridges/Lookups.antt =====
-- The edits of the services, told by what a name stands for before and after.
use cozy_nm.Base.{
  ◌≡◌, refl, sym, subst, Option, if◌then◌else◌, String, ◌==◌, eq_iff, false, not, ◌&&◌, none, some,
  arith, Bool-cases, inl, inr,
}
use cozy_nm.Bridges.Yaml.{
  Value, Fields, end, field, key_is, key_is_self, key_is_other, lookup, has_key, put, remove,
  replace, lookup-put_self, lookup-put_other, text,
}
use cozy_nm.Bridges.Service.{standard_service}
use cozy_nm.Bridges.Edits.{Edit, create_edit, update_edit, delete_edit, edited}

pub lookup-remove_self : (name : String) (d : Fields) → lookup name (remove name d) ≡ none
unfolding lookup remove
lookup-remove_self name end = refl
lookup-remove_self name (field k v rest) = ground (arith, lookup-remove_self name rest)

pub lookup-remove_other :
    (name other : String) (d : Fields)
    → (name == other) ≡ false
    → lookup other (remove name d) ≡ lookup other d
unfolding lookup remove
lookup-remove_other name other end h = refl
lookup-remove_other name other (field k v rest) h =
    ground (arith, lookup-remove_other name other rest h, key_is_other name other k h)

lookup-replace_other :
    (name new other : String) (v : Value) (d : Fields)
    → (name == other) ≡ false
    → (new == other) ≡ false
    → lookup other (replace name new v d) ≡ lookup other d
unfolding lookup replace
lookup-replace_other name new other v end h g = refl
lookup-replace_other name new other v (field k w rest) h g = ground (
  arith,
  lookup-replace_other name new other v rest h g,
  key_is_other name other k h,
  key_is_other new other (text new) g (key_is_self new),
)

lookup-replace_old :
    (name new : String) (v : Value) (d : Fields)
    → (new == name) ≡ false
    → lookup name (replace name new v d) ≡ none
unfolding lookup replace
lookup-replace_old name new v end h = refl
lookup-replace_old name new v (field k w rest) h = ground (
  arith,
  lookup-replace_old name new v rest h,
  key_is_other new name (text new) h (key_is_self new),
)

-- the new name is not taken by an earlier service
lookup-replace_new :
    (name new : String) (v raw : Value) (d : Fields)
    → lookup name d ≡ some raw
    → (not (new == name) && has_key new d) ≡ false
    → lookup new (replace name new v d) ≡ some v
unfolding lookup replace has_key
lookup-replace_new name new v raw end h g = absurd (ground arith)
lookup-replace_new name new v raw (field k w rest) h g = elim (Bool-cases (key_is name k)) [
  | inl e ↦ rw (e, key_is_self new) refl
  | inr e ↦
      let h' : lookup name rest ≡ some raw = rw e at h in
      elim (Bool-cases (new == name)) [
        | inl n ↦
            let m : key_is new k ≡ false =
              subst (λ x. key_is x k ≡ false) (sym ((eq_iff new name).0 n)) e in
            rw (e, m) (lookup-replace_new name new v raw rest h' (rw n refl))
        | inr n ↦
            let m : key_is new k ≡ false = ground arith in
            let g' : has_key new rest ≡ false = ground arith in
            rw (e, m) (lookup-replace_new name new v raw rest h' (rw (n, g') refl))
      ]
]

-- What a name stands for after an edit: a create adds its service; an update gives the service to the
-- new name, and nothing to the old one if the name changes; a delete leaves nothing; and every
-- other name has what it had.
abbrev pub expected : Edit → Fields → String → Option Value
expected (create_edit v) before name =
    if v.name == name then some (standard_service v) else lookup name before
expected (update_edit current v) before name =
    if v.name == name
    then some (standard_service v)
    else if current == name
    then none
    else lookup name before
expected (delete_edit old) before name = if old == name then none else lookup name before

-- what the edit asks of an update: its service is there, and the new name is free if it is another
abbrev pub IsPossible : Edit → Fields → Type 0
IsPossible (create_edit v) before = Unit
IsPossible (update_edit current v) before =
    ((raw : Value) × (lookup current before ≡ some raw))
    × ((not (v.name == current) && has_key v.name before) ≡ false)
IsPossible (delete_edit old) before = Unit

pub lookup-edited :
    (e : Edit) (before : Fields) (name : String)
    → IsPossible e before
    → lookup name (edited e before) ≡ expected e before name
lookup-edited (create_edit v) before name p = elim (Bool-cases (v.name == name)) [
  | inr e ↦ rw e (lookup-put_other v.name name (standard_service v) before e)
  | inl e ↦ rw e (
      subst (λ n. lookup n (put v.name (standard_service v) before) ≡ some (standard_service v))
        ((eq_iff v.name name).0 e) (lookup-put_self v.name (standard_service v) before))
]
lookup-edited (delete_edit old) before name p = elim (Bool-cases (old == name)) [
  | inr e ↦ rw e (lookup-remove_other old name before e)
  | inl e ↦ rw e (
      subst (λ n. lookup n (remove old before) ≡ none) ((eq_iff old name).0 e)
        (lookup-remove_self old before))
]
lookup-edited (update_edit current v) before name ((raw, l), f) =
    let s = standard_service v in
    elim (Bool-cases (v.name == name)) [
      | inl e ↦ rw e (
          subst (λ n. lookup n (replace current v.name s before) ≡ some s)
            ((eq_iff v.name name).0 e) (lookup-replace_new current v.name s raw before l f))
      | inr e ↦ elim (Bool-cases (current == name)) [
        | inr k ↦ rw (e, k) (lookup-replace_other current v.name name s before k e)
        | inl k ↦
            let q = (eq_iff current name).0 k in
            rw (e, k)
              (subst (λ n. lookup n (replace current v.name s before) ≡ none) q
                (lookup-replace_old current v.name s before
                  (subst (λ n. (v.name == n) ≡ false) (sym q) e)))
      ]
    ]
