-- ===== src/Uplink/Renaming.antt =====
-- What applyMapping makes of a payload.
use text.Mathlib.Text.{◌==◌ as str_eq}
use text.Mathlib.TextEquality.{eq_iff}
use sensor_edge.Prelude.Dict.{
  lookup-insert_ne, lookup-insert_self, lookup-insert, insert, lookup, Dict,
}
use sensor_edge.Prelude.{
  sym, ◌∙◌, Option-cases, ap, Bool-cases, refl, inl, arith, inr, ◌⊎◌, ◌≡◌, Option, String, none,
  some, [], ◌∷◌,
}
use sensor_edge.Value.{Value}
use sensor_edge.Uplink.Mapping.{apply_mapping, map_entry, map_entries}

-- Some entry of the template gives the name to a key of the payload with the value.
abbrev pub IsRenamed : Dict Value → Dict String → String → Value → Type 0
IsRenamed payload [] name val = ⊥
IsRenamed payload ((k, v) ∷ tpl) name val =
    ((v ≡ name) × (lookup k payload ≡ some val)) ⊎ IsRenamed payload tpl name val

module _ (payload : Dict Value) where
  map_entry-IsRenamed :
      (k v name : String) (val : Value) (res : Dict Value) (o : Option Value)
      → lookup k payload ≡ o
      → lookup name (elim o [ none ↦ res | some x ↦ insert v x res ]) ≡ some val
      → ((v ≡ name) × (lookup k payload ≡ some val)) ⊎ (lookup name res ≡ some val)
  map_entry-IsRenamed k v name val res none e f = inr f
  map_entry-IsRenamed k v name val res (some x) e f =
      ground (arith, lookup-insert v name x res, eq_iff v name)

  map_entries-IsRenamed :
      (tpl : Dict String) (name : String) (val : Value) (res : Dict Value)
      → lookup name (map_entries payload tpl res) ≡ some val
      → IsRenamed payload tpl name val ⊎ (lookup name res ≡ some val)
  map_entries-IsRenamed [] name val res e = inr e
  map_entries-IsRenamed ((k, v) ∷ tpl) name val res e =
      elim (map_entries-IsRenamed tpl name val (map_entry payload k v res) e) [
        | inl later ↦ inl (inr later)
        | inr here ↦ elim (map_entry-IsRenamed k v name val res (lookup k payload) refl here) [
          | inl this ↦ inl (inl this)
          | inr before ↦ inr before
        ]
      ]

  -- No name is lost.
  map_entry_keeps :
      (v name : String) (x : Value) (res : Dict Value) (o : Option Value)
      → lookup name res ≡ some x
      → (y : Value) × (lookup name (elim o [ none ↦ res | some w ↦ insert v w res ]) ≡ some y)
  map_entry_keeps v name x res none e = (x, e)
  map_entry_keeps v name x res (some w) e = elim (Bool-cases (str_eq v name)) [
    | inl same ↦ (w, lookup-insert v name w res ∙ rw same)
    | inr apart ↦ (x, lookup-insert_ne v name w res apart ∙ e)
  ]

  map_entries_keeps :
      (tpl : Dict String) (name : String) (x : Value) (res : Dict Value)
      → lookup name res ≡ some x
      → (y : Value) × (lookup name (map_entries payload tpl res) ≡ some y)
  map_entries_keeps [] name x res e = (x, e)
  map_entries_keeps ((k, v) ∷ tpl) name x res e =
      let (y, f) = map_entry_keeps v name x res (lookup k payload) e in
      map_entries_keeps tpl name y (map_entry payload k v res) f

  IsRenamed-present :
      (tpl : Dict String) (name : String) (val : Value) (res : Dict Value)
      → IsRenamed payload tpl name val
      → (y : Value) × (lookup name (map_entries payload tpl res) ≡ some y)
  IsRenamed-present [] name val res h = absurd h
  IsRenamed-present ((k, v) ∷ tpl) name val res (inr later) =
      IsRenamed-present tpl name val (map_entry payload k v res) later
  IsRenamed-present ((k, v) ∷ tpl) name val res (inl (same, e)) =
      map_entries_keeps tpl name val (map_entry payload k v res) (
        ap (λ o. lookup name (elim o [ none ↦ res | some w ↦ insert v w res ])) e
        ∙ ap (λ t. lookup name (insert t val res)) same
        ∙ lookup-insert_self name val res)

  -- applyMapping gives a name the value of a key of the payload that the template gives this name, and
  -- gives it no value just where the payload has none of these keys.
  pub apply_mapping-IsRenamed :
      (tpl : Dict String) (name : String)
      → ((lookup name (apply_mapping payload tpl) ≡ none)
          × (¬ ((val : Value) × IsRenamed payload tpl name val)))
        ⊎ ((val : Value) × (lookup name (apply_mapping payload tpl) ≡ some val)
            × IsRenamed payload tpl name val)
  unfolding apply_mapping lookup
  apply_mapping-IsRenamed tpl name =
      elim (Option-cases (lookup name (map_entries payload tpl []))) [
        | inl e ↦
            inl (e, λ (val, h). let (y, f) = IsRenamed-present tpl name val [] h in cc (sym e ∙ f))
        | inr (val, e) ↦ elim (map_entries-IsRenamed tpl name val [] e) [
          | inl h ↦ inr (val, e, h)
          | inr f ↦ absurd (cc f)
        ]
      ]
