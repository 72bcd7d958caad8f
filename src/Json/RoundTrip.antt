-- ===== src/Json/RoundTrip.antt =====
-- Which values survive `json.dumps` and `json.loads` unchanged.
use spinach.Prelude.{◌≡◌, refl, sym, ap, ap₂, subst, ◌∙◌, true, String}
use spinach.Json.{
  Value, null, bool, num, neg, str, list, tuple, dict, Items, nil, cons, Fields, end, field, Json,
  JsonFields, jend, jfield, str_leb, insert_field, dumps, dump_items, dump_fields, loads,
  load_items, load_fields,
}

-- `k` may stand in front of these fields.
abbrev pub Heads : String → Fields → Type 0
Heads k end = Unit
Heads k (field l v fs) = str_leb k l ≡ true

-- No tuple anywhere, and the keys of every dict in order.
abbrev mutual
  pub IsPlain : Value → Type 0
  IsPlain (list xs) = IsPlainItems xs
  IsPlain (tuple xs) = ⊥
  IsPlain (dict fs) = IsPlainFields fs
  IsPlain _ = Unit

  pub IsPlainItems : Items → Type 0
  IsPlainItems nil = Unit
  IsPlainItems (cons x xs) = IsPlain x × IsPlainItems xs

  pub IsPlainFields : Fields → Type 0
  IsPlainFields end = Unit
  IsPlainFields (field k v fs) = IsPlain v × Heads k fs × IsPlainFields fs

-- A key that may stand in front of the fields is inserted in front of them.
load_fields-insert_field :
    (k : String) (j : Json) (fs : Fields) (r : JsonFields)
    → Heads k fs
    → load_fields r ≡ fs
    → load_fields (insert_field k j r) ≡ field k (loads j) fs
unfolding insert_field loads
load_fields-insert_field k j fs jend h e = ap (field k (loads j)) e
load_fields-insert_field k j fs (jfield l w r) h e =
    let first : str_leb k l ≡ true = subst (Heads k) (sym e) h in
    rw first (ap (field k (loads j)) e)

mutual
  unfolding dumps loads

  loads-dumps_value : (v : Value) → IsPlain v → loads (dumps v) ≡ v
  loads-dumps_value null p = refl
  loads-dumps_value (bool b) p = refl
  loads-dumps_value (num n) p = refl
  loads-dumps_value (neg n) p = refl
  loads-dumps_value (str s) p = refl
  loads-dumps_value (list xs) p = ap list (load_items-dump_items xs p)
  loads-dumps_value (tuple xs) p = absurd p
  loads-dumps_value (dict fs) p = ap dict (load_fields-dump_fields fs p)

  pub load_items-dump_items : (xs : Items) → IsPlainItems xs → load_items (dump_items xs) ≡ xs
  load_items-dump_items nil p = refl
  load_items-dump_items (cons x xs) p =
      ap₂ cons (loads-dumps_value x p.0) (load_items-dump_items xs p.1)

  pub load_fields-dump_fields : (fs : Fields) → IsPlainFields fs → load_fields (dump_fields fs) ≡ fs
  load_fields-dump_fields end p = refl
  load_fields-dump_fields (field k v fs) p =
      load_fields-insert_field k (dumps v) fs (dump_fields fs) p.1 (load_fields-dump_fields fs p.2)
      ∙ ap (λ w. field k w fs) (loads-dumps_value v p.0)

-- A value with no tuple in it, and with the keys of its dicts in order, comes back as it was.
pub loads-dumps : (v : Value) → IsPlain v → loads (dumps v) ≡ v
loads-dumps v p = loads-dumps_value v p
