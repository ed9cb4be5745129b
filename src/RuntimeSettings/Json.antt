-- ===== src/RuntimeSettings/Json.antt =====
-- JSON documents (`serde_json::Value`), as far as the settings look into them: a leaf is a Boolean, a
-- number, a string or an array, which they only copy. The order of the fields is not looked at.
use momo_core.Prelude.{
  ◌≡◌, refl, Bool, true, false, Option, none, some, if◌then◌else◌, arith, Text, text_eq,
  text_eq_iff, Bool-cases, inl, inr,
}

module _ (Leaf : Type 0) where
  mutual
    pub data Json : Type 0 where
      null : Json
      leaf : Leaf → Json
      object : Fields → Json

    pub data Fields : Type 0 where
      end : Fields
      field : Text → Json → Fields → Fields

  abbrev pub is_object : Json → Bool
  is_object null = false
  is_object (leaf x) = false
  is_object (object fields) = true

  abbrev pub is_null : Json → Bool
  is_null null = true
  is_null _ = false

  -- `map.get(key)`
  unfoldable pub get : Fields → Text → Option Json
  get end key = none
  get (field k v rest) key = let later = get rest key in if text_eq k key then some v else later

  -- `map.insert(key, value)`
  unfoldable pub put : Fields → Text → Json → Fields
  put end key value = field key value end
  put (field k v rest) key value =
      let later = put rest key value in
      if text_eq k key then field k value rest else field k v later

  -- `map.remove(key)`
  unfoldable pub remove : Fields → Text → Fields
  remove end key = end
  remove (field k v rest) key =
      let later = remove rest key in if text_eq k key then later else field k v later

  -- `current.entry(key).or_insert(Value::Null)`
  abbrev pub or_null : Option Json → Json
  or_null none = null
  or_null (some v) = v

  -- The fields of an object, and of anything else none: `*target = json!({})`.
  abbrev pub fields_of : Json → Fields
  fields_of null = end
  fields_of (leaf x) = end
  fields_of (object fields) = fields

  pub get-put :
      (fields : Fields) (key : Text) (value : Json) (other : Text)
      → get (put fields key value) other
        ≡ (if text_eq key other then some value else get fields other)
  unfolding get put
  get-put end key value other = refl
  get-put (field k v rest) key value other = ground (
    arith,
    get-put rest key value other,
    text_eq_iff k key,
    text_eq_iff k other,
    text_eq_iff key other,
  )

  pub get-remove :
      (fields : Fields) (key other : Text)
      → get (remove fields key) other ≡ (if text_eq key other then none else get fields other)
  unfolding get remove
  get-remove end key other = ground arith
  get-remove (field k v rest) key other = ground (
    arith,
    get-remove rest key other,
    text_eq_iff k key,
    text_eq_iff k other,
    text_eq_iff key other,
  )

  -- Putting back what is there changes nothing.
  pub put-get :
      (fields : Fields) (key : Text) (value : Json)
      → get fields key ≡ some value
      → put fields key value ≡ fields
  unfolding get put
  put-get end key value h = absurd (ground (arith, h))
  put-get (field k v rest) key value h = elim (Bool-cases (text_eq k key)) [
    | inl e ↦ ground (arith, e, h)
    | inr e ↦ ground (arith, e, h, put-get rest key value (ground (arith, e, h)))
  ]
